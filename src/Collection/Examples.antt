-- ===== src/Collection/Examples.antt =====
-- The theorems on the handshake: at a collection under way, after a late store to
-- `WORLD_HAS_STOPPED`, and after a lost wake-up.
use mmtk_julia.Base.{suc, ◌+◌, ◌≡◌, refl, true, false, some, List, [], ◌∷◌, arith, Address}
use mmtk_julia.Collection.World.{
  waiting, stopping, collecting, World, initial, set_block, lock, set_stopped, test_blocked, wait,
  begin, stopped, notify, Reach, here, then,
}
use mmtk_julia.Collection.Safety.{in_wait_loop, working, Reach-stopped}
use mmtk_julia.Collection.Lost.{late_clear, lost-forever}
use mmtk_julia.Collection.Progress.{is_stranded, CanResume, Reach-CanResume}
use mmtk_julia.Collection.Pause.{visit_stopped, pause_statistics, visit_stopped-Pause}
use mmtk_julia.Collection.Stuck.{stuck}

abbrev under_way : World
under_way = record {
  block_for_gc = true;
  world_has_stopped = true;
  user_triggered_gc = 0;
  mutator = waiting;
  collector = collecting;
}

Reach-under_way : Reach initial under_way
Reach-under_way =
    then
      (then
        (then
          (then (then (then (then here (set_block refl)) (lock refl)) (set_stopped refl))
            (test_blocked refl refl))
          (wait refl))
        (begin refl))
      (stopped refl refl)

Reach-stopped_example : (in_wait_loop waiting ≡ true) × (under_way.block_for_gc ≡ true)
Reach-stopped_example = Reach-stopped under_way Reach-under_way refl

-- The next collection has begun, and spins.
abbrev next_spin : World
next_spin = record late_clear { collector = stopping }

lost-forever_example :
    (in_wait_loop next_spin.mutator ≡ true) × (working next_spin.collector ≡ false)
lost-forever_example =
    lost-forever late_clear next_spin refl (then (then here (notify refl)) (begin refl))

-- The lost wake-up strands the mutator.
stuck-is_stranded : is_stranded stuck ≡ true
stuck-is_stranded = refl

-- A mutator that waits while the collector works.
Reach-CanResume_example : CanResume under_way
Reach-CanResume_example = Reach-CanResume under_way Reach-under_way refl refl

-- Two mutators are visited, and the pause takes 40 units of time.
abbrev log_visit : List Address → Address → List Address
log_visit seen m = m ∷ seen

visit_stopped-Pause_example :
    (visit_stopped log_visit (suc 2 + 1) ((64, 1064) ∷ (128, 1128) ∷ []) 500 []
      ≡ some (128 ∷ 64 ∷ [], 500))
    × ((pause_statistics 500 540 4096 true).gc_time + 500 ≡ 540)
visit_stopped-Pause_example =
    visit_stopped-Pause log_visit ((64, 1064) ∷ (128, 1128) ∷ []) 1 500 540 4096 true []
      (omega arith) (omega arith)
