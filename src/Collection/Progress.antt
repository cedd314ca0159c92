-- ===== src/Collection/Progress.antt =====
-- mmtk/src/collection.rs: every state of the handshake that is neither lost nor stranded has a way on
-- that no spurious wake-up is on.
use mmtk_julia.Base.{ℕ, ◌≡◌, refl, Bool, true, false, not, ◌&&◌, arith}
use mmtk_julia.Collection.World.{
  Mutator, running, blocking, locked, testing, entering_wait, waiting, leaving, Collector, idle,
  stopping, collecting, unblocking, clearing, notifying, World, initial, Step, request, set_block,
  lock, set_stopped, test_blocked, wait, spurious_wakeup, test_free, leave, begin, spin, stopped,
  finish, unblock, clear, notify, Reach,
}
use mmtk_julia.Collection.Safety.{in_wait_loop, announcing, Inv, Reach-Inv}
use mmtk_julia.Collection.Lost.{is_lost}

-- A step that is not left to chance: any but a spurious wake-up.
abbrev pub IsPlanned : {v w : World} → Step v w → Type 0
IsPlanned (request e) = Unit
IsPlanned (set_block e) = Unit
IsPlanned (lock e) = Unit
IsPlanned (set_stopped e) = Unit
IsPlanned (test_blocked e f) = Unit
IsPlanned (wait e) = Unit
IsPlanned (spurious_wakeup e) = ⊥
IsPlanned (test_free e f) = Unit
IsPlanned (leave e) = Unit
IsPlanned (begin e) = Unit
IsPlanned (spin e f) = Unit
IsPlanned (stopped e f) = Unit
IsPlanned (finish e) = Unit
IsPlanned (unblock e) = Unit
IsPlanned (clear e) = Unit
IsPlanned (notify e) = Unit

pub data Way (u : World) : World → Type 0 where
  there : Way u u
  onward : {v w : World} → Way u v → (st : Step v w) → IsPlanned st → Way u w

abbrev pub is_waiting : Mutator → Bool
is_waiting entering_wait = true
is_waiting waiting = true
is_waiting _ = false

abbrev pub is_before_work : Collector → Bool
is_before_work idle = true
is_before_work stopping = true
is_before_work _ = false

-- The mutator waits or is about to, although `BLOCK_FOR_GC` is clear, and with `WORLD_HAS_STOPPED`
-- clear no collection is to come that would notify it.
abbrev pub is_stranded : World → Bool
is_stranded w =
    is_waiting w.mutator
    && not w.block_for_gc
    && not w.world_has_stopped
    && is_before_work w.collector

-- The mutator can run its code with the collector idle.
abbrev pub CanResume : World → Type 0
CanResume w = (v : World) × Way w v × (v.mutator ≡ running) × (v.collector ≡ idle)

join : (u v w : World) → Way u v → Way v w → Way u w
join u v w r there = r
join u v w r (onward {v = x} q st p) = onward (join u v x r q) st p

-- Through one step more at the front.
before : (u v : World) (st : Step u v) → IsPlanned st → CanResume v → CanResume u
before u v st p c = (c.0, join u v c.0 (onward there st p) c.1, c.2, c.3)

abbrev at : (b s : Bool) → ℕ → Mutator → Collector → World
at b s u m c = record {
  block_for_gc = b;
  world_has_stopped = s;
  user_triggered_gc = u;
  mutator = m;
  collector = c;
}

-- Released, with the collector idle.
module _ (s : Bool) (u : ℕ) where
  running_on : CanResume (at false s u running idle)
  running_on = (at false s u running idle, there, refl, refl)

  leaving_on : CanResume (at false s u leaving idle)
  leaving_on = before _ _ (leave refl) tt (at false s 0 running idle, there, refl, refl)

  testing_on : CanResume (at false s u testing idle)
  testing_on = before _ _ (test_free refl refl) tt leaving_on

  -- Before `notify_all`, which wakes a mutator that waits.
  from_notifying : (m : Mutator) → announcing m ≡ false → CanResume (at false s u m notifying)
  from_notifying running h = before _ _ (notify refl) tt running_on
  from_notifying blocking h = cc
  from_notifying locked h = cc
  from_notifying leaving h = before _ _ (notify refl) tt leaving_on
  from_notifying testing h = before _ _ (notify refl) tt testing_on
  from_notifying waiting h = before _ _ (notify refl) tt testing_on
  from_notifying entering_wait h =
      before _ _ (wait refl) tt (before _ _ (notify refl) tt testing_on)

-- The collector from its work on.
module _ (u : ℕ) (m : Mutator) (h : announcing m ≡ false) where
  from_clearing : (s : Bool) → CanResume (at false s u m clearing)
  from_clearing s = before _ _ (clear refl) tt (from_notifying false u m h)

  from_unblocking : (b s : Bool) → CanResume (at b s u m unblocking)
  from_unblocking b s = before _ _ (unblock refl) tt (from_clearing s)

  from_collecting : (b s : Bool) → CanResume (at b s u m collecting)
  from_collecting b s = before _ _ (finish refl) tt (from_unblocking b s)

  from_stopped : (b : Bool) → CanResume (at b true u m stopping)
  from_stopped b = before _ _ (stopped refl refl) tt (from_collecting b true)

-- The collector in the spin of `stop_all_mutators`, the flag still false.
locked_on : (b : Bool) (u : ℕ) → CanResume (at b false u locked stopping)
locked_on b u = before _ _ (set_stopped refl) tt (from_stopped u testing refl b)

blocking_on : (b : Bool) (u : ℕ) → CanResume (at b false u blocking stopping)
blocking_on b u = before _ _ (lock refl) tt (locked_on b u)

running_spun : (b : Bool) (u : ℕ) → CanResume (at b false u running stopping)
running_spun b u = before _ _ (set_block refl) tt (blocking_on true u)

leaving_spun : (b : Bool) (u : ℕ) → CanResume (at b false u leaving stopping)
leaving_spun b u = before _ _ (leave refl) tt (running_spun b 0)

testing_spun : (u : ℕ) → CanResume (at false false u testing stopping)
testing_spun u = before _ _ (test_free refl refl) tt (leaving_spun false u)

from_spin :
    (b : Bool) (u : ℕ) (m : Mutator)
    → is_lost (at b false u m stopping) ≡ false
    → is_stranded (at b false u m stopping) ≡ false
    → CanResume (at b false u m stopping)
from_spin b u running h k = running_spun b u
from_spin b u blocking h k = blocking_on b u
from_spin b u locked h k = locked_on b u
from_spin b u leaving h k = leaving_spun b u
from_spin false u testing h k = testing_spun u
from_spin false u waiting h k = cc
from_spin false u entering_wait h k = cc
from_spin true u testing h k = cc
from_spin true u waiting h k = cc
from_spin true u entering_wait h k = cc

in_loop-quiet : (m : Mutator) → in_wait_loop m ≡ true → announcing m ≡ false
in_loop-quiet m h = ground arith

-- Where the mutator has announced that it stops only if the flag is false.
from_stopping :
    (b s : Bool) (u : ℕ) (m : Mutator)
    → (s ≡ true → announcing m ≡ false)
    → is_lost (at b s u m stopping) ≡ false
    → is_stranded (at b s u m stopping) ≡ false
    → CanResume (at b s u m stopping)
from_stopping b false u m quiet h k = from_spin b u m h k
from_stopping b true u m quiet h k = from_stopped u m (quiet refl) b

from_idle :
    (b s : Bool) (u : ℕ) (m : Mutator)
    → (s ≡ true → announcing m ≡ false)
    → is_lost (at b s u m idle) ≡ false
    → is_stranded (at b s u m idle) ≡ false
    → CanResume (at b s u m idle)
from_idle b s u m quiet h k = before _ _ (begin refl) tt (from_stopping b s u m quiet h k)

-- A mutator that is about to wait does so first, so that it hears of the end.
from_notifying_any :
    (b s : Bool) (u : ℕ) (m : Mutator)
    → (s ≡ true → announcing m ≡ false)
    → is_lost (at b s u m notifying) ≡ false
    → CanResume (at b s u m notifying)
from_notifying_any b s u running quiet h =
    before _ _ (notify refl) tt (from_idle b s u running quiet h refl)
from_notifying_any b s u blocking quiet h =
    before _ _ (notify refl) tt (from_idle b s u blocking quiet h refl)
from_notifying_any b s u locked quiet h =
    before _ _ (notify refl) tt (from_idle b s u locked quiet h refl)
from_notifying_any b s u leaving quiet h =
    before _ _ (notify refl) tt (from_idle b s u leaving quiet h refl)
from_notifying_any b s u testing quiet h =
    before _ _ (notify refl) tt (from_idle b s u testing quiet h refl)
from_notifying_any b s u waiting quiet h =
    before _ _ (notify refl) tt (from_idle b s u testing (λ e. refl) h refl)
from_notifying_any b s u entering_wait quiet h =
    before _ _ (wait refl) tt
      (before _ _ (notify refl) tt (from_idle b s u testing (λ e. refl) h refl))

from_any :
    (b s : Bool) (u : ℕ) (m : Mutator) (c : Collector)
    → Inv (at b s u m c)
    → is_lost (at b s u m c) ≡ false
    → is_stranded (at b s u m c) ≡ false
    → CanResume (at b s u m c)
from_any b s u m idle i h k = from_idle b s u m (λ e. in_loop-quiet m (i.held refl e).0) h k
from_any b s u m stopping i h k = from_stopping b s u m (λ e. in_loop-quiet m (i.held refl e).0) h k
from_any b s u m collecting i h k =
    from_collecting u m (in_loop-quiet m (i.held refl (i.stopped_now refl)).0) b s
from_any b s u m unblocking i h k =
    from_unblocking u m (in_loop-quiet m (i.held refl (i.stopped_now refl)).0) b s
from_any b s u m clearing i h k =
    before _ _ (clear refl) tt (from_notifying_any b false u m (λ e. cc) h)
from_any b s u m notifying i h k =
    from_notifying_any b s u m (λ e. in_loop-quiet m (i.held refl e).0) h

-- From every state that the two threads can reach, but one where the news of a collection is lost or
-- the mutator is stranded, there is a way on to a state in which the mutator runs its code and the
-- collector is idle, and no spurious wake-up is on it. The mutator is stranded where it waits or is
-- about to with `BLOCK_FOR_GC` clear, `WORLD_HAS_STOPPED` clear and the collector not yet at work.
pub Reach-CanResume :
    (w : World) → Reach initial w → is_lost w ≡ false → is_stranded w ≡ false → CanResume w
Reach-CanResume w r h k =
    from_any w.block_for_gc w.world_has_stopped w.user_triggered_gc w.mutator w.collector
      (Reach-Inv r) h k
