-- ===== src/Collection/Safety.antt =====
-- Stop-the-world safety: the mutator runs no user code while the collector works.
use mmtk_julia.Base.{◌≡◌, Bool, true, false, arith}
use mmtk_julia.Collection.World.{
  Mutator, blocking, locked, testing, entering_wait, waiting, Collector, collecting, unblocking,
  clearing, World, initial, Step, request, set_block, lock, set_stopped, test_blocked, wait,
  spurious_wakeup, test_free, leave, begin, spin, stopped, finish, unblock, clear, notify, Reach,
  here, then,
}

-- The mutator is inside the wait loop of `mmtk_block_thread_for_gc`.
abbrev pub in_wait_loop : Mutator → Bool
in_wait_loop testing = true
in_wait_loop entering_wait = true
in_wait_loop waiting = true
in_wait_loop _ = false

-- `BLOCK_FOR_GC` is set and `WORLD_HAS_STOPPED` not yet.
abbrev pub announcing : Mutator → Bool
announcing blocking = true
announcing locked = true
announcing _ = false

-- From the end of the spin to the store that lets the mutators go.
abbrev pub working : Collector → Bool
working collecting = true
working unblocking = true
working _ = false

-- From the start of a collection's spin, or between collections, to that store.
abbrev pub before_release : Collector → Bool
before_release clearing = false
before_release _ = true

pub record Inv (w : World) : Type 0 where
  pub announced : announcing w.mutator ≡ true → w.block_for_gc ≡ true
  pub stopped_now : working w.collector ≡ true → w.world_has_stopped ≡ true
  pub held :
      before_release w.collector ≡ true
      → w.world_has_stopped ≡ true
      → (in_wait_loop w.mutator ≡ true) × (w.block_for_gc ≡ true)

Inv-initial : Inv initial
Inv-initial = record { announced = λ e. cc; stopped_now = λ e. cc; held = λ e f. cc }

Step-Inv : {v w : World} → Step v w → Inv v → Inv w
Step-Inv (request e) i = ground arith
Step-Inv (set_block e) i = ground arith
Step-Inv (lock e) i = ground arith
Step-Inv (set_stopped e) i = ground arith
Step-Inv (test_blocked e f) i = ground arith
Step-Inv (wait e) i = ground arith
Step-Inv (spurious_wakeup e) i = ground arith
Step-Inv (test_free e f) i = ground arith
Step-Inv (leave e) i = ground arith
Step-Inv (begin e) i = ground arith
Step-Inv (spin e f) i = ground arith
Step-Inv (stopped e f) i = ground arith
Step-Inv (finish e) i = ground arith
Step-Inv (unblock e) i = ground arith
Step-Inv (clear e) i = ground arith
Step-Inv (notify e) i = ground arith

pub Reach-Inv : {w : World} → Reach initial w → Inv w
Reach-Inv here = Inv-initial
Reach-Inv (then r st) = Step-Inv st (Reach-Inv r)

-- In every state that the two threads can reach, while the collector works (from the end of the
-- spin in `stop_all_mutators` to the store to `BLOCK_FOR_GC`) the mutator is inside the wait loop
-- of `mmtk_block_thread_for_gc`, and it would stay there after a wake-up, for `BLOCK_FOR_GC` is set.
pub Reach-stopped :
    (w : World)
    → Reach initial w
    → working w.collector ≡ true
    → (in_wait_loop w.mutator ≡ true) × (w.block_for_gc ≡ true)
Reach-stopped w r e = let i = Reach-Inv r in i.held (ground arith) (i.stopped_now e)
