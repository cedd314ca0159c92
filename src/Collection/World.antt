-- ===== src/Collection/World.antt =====
-- mmtk/src/collection.rs: `mmtk_block_thread_for_gc`, `stop_all_mutators` and `resume_mutators`, one
-- shared access at a time. Julia stops its other threads at safepoints before the thread that
-- asked for the collection calls `mmtk_block_thread_for_gc`, so one mutator thread stands for all.
use mmtk_julia.Base.{ℕ, suc, ◌≡◌, Bool, true, false}

-- Where the mutator thread is.
pub data Mutator : Type 0 where
  running : Mutator
  blocking : Mutator  -- before the lock of `STW_COND`; `BLOCK_FOR_GC` is set
  locked : Mutator  -- before the store to `WORLD_HAS_STOPPED`
  testing : Mutator  -- at the test of the `while`, with the lock held
  entering_wait : Mutator  -- the test has passed; about to wait, with the lock held
  waiting : Mutator  -- in `cvar.wait`, the lock released
  leaving : Mutator  -- behind the loop, before the store to `USER_TRIGGERED_GC`

-- Where the collector's coordinating thread is.
pub data Collector : Type 0 where
  idle : Collector
  stopping : Collector  -- the spin of `stop_all_mutators`
  collecting : Collector  -- behind the spin: visiting mutators, tracing, moving objects
  unblocking : Collector  -- in `resume_mutators`, before the store to `BLOCK_FOR_GC`
  clearing : Collector  -- before the store to `WORLD_HAS_STOPPED`
  notifying : Collector  -- before `notify_all`

pub record World : Type 0 where
  pub block_for_gc : Bool
  pub world_has_stopped : Bool
  pub user_triggered_gc : ℕ
  pub mutator : Mutator
  pub collector : Collector

abbrev pub initial : World
initial = record {
  block_for_gc = false;
  world_has_stopped = false;
  user_triggered_gc = 0;
  mutator = running;
  collector = idle;
}

-- The state of a wait once `notify_all` has been called: a waiting thread wakes, another does not
-- notice.
abbrev pub wake : Mutator → Mutator
wake waiting = testing
wake m = m

-- One step of one of the two threads. The mutator runs user code, or asks for a collection, in
-- `running`.
pub data Step (w : World) : World → Type 0 where
  -- mmtk_handle_user_collection_request: the counter goes up
  request : w.mutator ≡ running → Step w (record w { user_triggered_gc = suc w.user_triggered_gc })
  -- mmtk_block_thread_for_gc
  set_block : w.mutator ≡ running → Step w (record w { block_for_gc = true; mutator = blocking })
  lock : w.mutator ≡ blocking → Step w (record w { mutator = locked })
  set_stopped :
      w.mutator ≡ locked → Step w (record w { world_has_stopped = true; mutator = testing })
  test_blocked :
      w.mutator ≡ testing → w.block_for_gc ≡ true → Step w (record w { mutator = entering_wait })
  wait : w.mutator ≡ entering_wait → Step w (record w { mutator = waiting })
  spurious_wakeup : w.mutator ≡ waiting → Step w (record w { mutator = testing })
  test_free : w.mutator ≡ testing → w.block_for_gc ≡ false → Step w (record w { mutator = leaving })
  leave : w.mutator ≡ leaving → Step w (record w { user_triggered_gc = 0; mutator = running })
  -- stop_all_mutators
  begin : w.collector ≡ idle → Step w (record w { collector = stopping })
  spin : w.collector ≡ stopping → w.world_has_stopped ≡ false → Step w w
  stopped :
      w.collector ≡ stopping
      → w.world_has_stopped ≡ true
      → Step w (record w { collector = collecting })
  -- resume_mutators
  finish : w.collector ≡ collecting → Step w (record w { collector = unblocking })
  unblock :
      w.collector ≡ unblocking → Step w (record w { block_for_gc = false; collector = clearing })
  clear :
      w.collector ≡ clearing
      → Step w (record w { world_has_stopped = false; collector = notifying })
  notify :
      w.collector ≡ notifying → Step w (record w { mutator = wake w.mutator; collector = idle })

pub data Reach (s : World) : World → Type 0 where
  here : Reach s s
  then : {v w : World} → Reach s v → Step v w → Reach s w
