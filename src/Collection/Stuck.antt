-- ===== src/Collection/Stuck.antt =====
-- A lost wake-up of mmtk/src/collection.rs: `resume_mutators` stores `BLOCK_FOR_GC` and calls
-- `notify_all` without the lock of `STW_COND`, so both can fall between a mutator's test of the flag
-- and its wait.
use mmtk_julia.Base.{refl, false}
use mmtk_julia.Collection.World.{
  waiting, idle, World, initial, set_block, lock, set_stopped, test_blocked, wait, begin, stopped,
  finish, unblock, clear, notify, Reach, here, then,
}

-- The mutator waits on the condition variable, the collector is idle, and the flag that the mutator
-- waits for is already false: only a spurious wake-up gets it going.
abbrev pub stuck : World
stuck = record {
  block_for_gc = false;
  world_has_stopped = false;
  user_triggered_gc = 0;
  mutator = waiting;
  collector = idle;
}

-- The two threads can reach the state in which the collection is over and the mutator still waits.
pub Reach-stuck : Reach initial stuck
Reach-stuck =
    then
      (then
        (then
          (then
            (then
              (then
                (then
                  (then (then (then (then here (set_block refl)) (lock refl)) (set_stopped refl))
                    (test_blocked refl refl))
                  (begin refl))
                (stopped refl refl))
              (finish refl))
            (unblock refl))
          (clear refl))
        (notify refl))
      (wait refl)
