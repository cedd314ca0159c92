-- ===== src/RootScan/Examples.antt =====
-- The theorems on a thread's roots at a concrete thread.
use mmtk_julia.Base.{
  ℕ, zero, suc, ◌+◌, ◌≡◌, refl, Option, none, some, List, [], ◌∷◌, arith, Address,
}
use mmtk_julia.Slots.Slot.{JuliaVmSlot, simple, offset, from_raw_address}
use mmtk_julia.ObjectScan.Loops.{Scan}
use mmtk_julia.RootScan.Backtrace.{Entry, native, extended, scan_bt, scan_bt-all_values}
use mmtk_julia.RootScan.Chunks.{capacity_per_packet, concat, ArePackets}
use mmtk_julia.RootScan.Mutator.{Ptls, Packets, scan_roots_in_mutator_thread}
use mmtk_julia.RootScan.Packets.{thread_stacks, thread_nodes, scan_roots_in_mutator_thread-packets}

abbrev item : List ℕ → ℕ → ℕ
item [] i = 0
item (x ∷ xs) zero = x
item (x ∷ xs) (suc i) = item xs i

-- A native entry, and one with two Julia values and a plain word.
abbrev entries : List Entry
entries = native 4000 ∷ extended (64 ∷ 80 ∷ []) (7 ∷ []) 1 ∷ []

abbrev buffer : ℕ → ℕ
buffer = item (4000 ∷ 18446744073709551615 ∷ 74 ∷ 64 ∷ 80 ∷ 7 ∷ [])

scan_bt-all_values_example : scan_bt buffer 6 0 6 ≡ 64 ∷ 80 ∷ []
scan_bt-all_values_example =
    scan_bt-all_values buffer 6 0 6 entries (omega arith, ((omega arith, omega arith), tt))
      (refl, (refl, (refl, (refl, (refl, (refl, tt)))))) refl (omega arith)

-- Each stack has one slot, which holds the address behind the task's.
abbrev own_slot : Address → List JuliaVmSlot
own_slot task = simple (task + 8) ∷ []

abbrev load_own : JuliaVmSlot → Option Address
load_own (simple e) = from_raw_address e
load_own (offset e) = none

abbrev scan_own : Address → Scan
scan_own task = some (own_slot task)

scan_own_lem : (task : Address) → scan_own task ≡ some (own_slot task)
scan_own_lem task = refl

abbrev thread : Ptls
thread = record {
  root_task = 1000;
  live_tasks = 2000 ∷ 0 ∷ 3000 ∷ [];
  current_task = 2000;
  next_task = 0;
  previous_task = 1000;
  previous_exception = 0;
  bt_data = buffer;
  bt_size = 6;
}

scan_roots_in_mutator_thread-packets_example :
    (ps : Packets) × (scan_roots_in_mutator_thread load_own scan_own thread ≡ some ps)
    × (concat ps.tpinning ≡ thread_stacks load_own scan_own own_slot scan_own_lem thread)
    × (concat ps.pinning ≡ thread_nodes load_own scan_own own_slot scan_own_lem thread)
    × ArePackets capacity_per_packet ps.tpinning
    × ArePackets capacity_per_packet ps.pinning
scan_roots_in_mutator_thread-packets_example =
    scan_roots_in_mutator_thread-packets load_own scan_own own_slot scan_own_lem thread
