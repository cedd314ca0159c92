-- ===== src/Collection/Lost.antt =====
-- mmtk/src/collection.rs: the states in which the news of a collection is lost, and how
-- `resume_mutators` makes one.
use mmtk_julia.Base.{◌≡◌, refl, Bool, true, false, not, ◌&&◌, arith}
use mmtk_julia.Collection.World.{
  testing, Collector, idle, stopping, collecting, unblocking, clearing, notifying, World, initial,
  Step, request, set_block, lock, set_stopped, test_blocked, wait, spurious_wakeup, test_free,
  leave, begin, spin, stopped, finish, unblock, clear, notify, Reach, here, then,
}
use mmtk_julia.Collection.Safety.{in_wait_loop, working}

-- `WORLD_HAS_STOPPED` is false and no store is left that sets it, or it is about to be cleared.
abbrev pub flag_lost : Bool → Collector → Bool
flag_lost world_has_stopped idle = not world_has_stopped
flag_lost world_has_stopped stopping = not world_has_stopped
flag_lost world_has_stopped collecting = false
flag_lost world_has_stopped unblocking = false
flag_lost world_has_stopped clearing = true
flag_lost world_has_stopped notifying = not world_has_stopped

-- The mutator waits for a collection that has lost the news of it.
abbrev pub is_lost : World → Bool
is_lost w = in_wait_loop w.mutator && w.block_for_gc && flag_lost w.world_has_stopped w.collector

pub Step-is_lost : {v w : World} → Step v w → is_lost v ≡ true → is_lost w ≡ true
Step-is_lost (request e) i = ground arith
Step-is_lost (set_block e) i = ground arith
Step-is_lost (lock e) i = ground arith
Step-is_lost (set_stopped e) i = ground arith
Step-is_lost (test_blocked e f) i = ground arith
Step-is_lost (wait e) i = ground arith
Step-is_lost (spurious_wakeup e) i = ground arith
Step-is_lost (test_free e f) i = ground arith
Step-is_lost (leave e) i = ground arith
Step-is_lost (begin e) i = ground arith
Step-is_lost (spin e f) i = ground arith
Step-is_lost (stopped e f) i = ground arith
Step-is_lost (finish e) i = ground arith
Step-is_lost (unblock e) i = ground arith
Step-is_lost (clear e) i = ground arith
Step-is_lost (notify e) i = ground arith

lost-stays : (w v : World) → is_lost w ≡ true → Reach w v → is_lost v ≡ true
lost-stays w v h here = h
lost-stays w v h (then {v = u} r st) = Step-is_lost st (lost-stays w u h r)

-- A state is lost where the mutator is inside the wait loop with `BLOCK_FOR_GC` set, and
-- `WORLD_HAS_STOPPED` is false outside a collection or about to be cleared by `resume_mutators`. From
-- a lost state on, whatever steps the two threads take, the mutator stays inside the wait loop and
-- the collector never gets to work.
pub lost-forever :
    (w v : World)
    → is_lost w ≡ true
    → Reach w v
    → (in_wait_loop v.mutator ≡ true) × (working v.collector ≡ false)
lost-forever w v h r = let i = lost-stays w v h r in ground arith

-- `resume_mutators` stores `WORLD_HAS_STOPPED` after it has let the mutator go: a mutator that sees
-- `BLOCK_FOR_GC` false and asks for the next collection in between has its news erased.
abbrev pub late_clear : World
late_clear = record {
  block_for_gc = true;
  world_has_stopped = false;
  user_triggered_gc = 0;
  mutator = testing;
  collector = notifying;
}

pub Reach-late_clear : Reach initial late_clear
Reach-late_clear =
    let first : Reach initial _ =
      then (then (then here (set_block refl)) (lock refl)) (set_stopped refl) in
    let worked : Reach initial _ =
      then (then (then (then first (begin refl)) (stopped refl refl)) (finish refl))
        (unblock refl) in
    let gone : Reach initial _ = then (then worked (test_free refl refl)) (leave refl) in
    let again : Reach initial _ =
      then (then (then gone (set_block refl)) (lock refl)) (set_stopped refl) in
    then again (clear refl)
