-- ===== src/RootScan/Mutator.antt =====
-- mmtk/src/scanning.rs: `scan_roots_in_mutator_thread`.
use mmtk_julia.Base.{
  ℕ, Bool, true, false, Option, none, some, List, [], ◌∷◌, ◌++◌, Address, ◌==◌, if◌then◌else◌,
}
use mmtk_julia.Slots.Slot.{JuliaVmSlot}
use mmtk_julia.ObjectScan.Loops.{Scan}
use mmtk_julia.RootScan.Backtrace.{scan_bt}
use mmtk_julia.RootScan.Chunks.{capacity_per_packet, chunks}

-- The thread-local state that is read: null is zero, `live_tasks` the words of the list of the live
-- tasks, `bt_data i` the element `i` of the backtrace buffer.
pub record Ptls : Type 0 where
  pub root_task : Address
  pub live_tasks : List Address
  pub current_task : Address
  pub next_task : Address
  pub previous_task : Address
  pub previous_exception : Address
  pub bt_data : ℕ → ℕ
  pub bt_size : ℕ

-- `slot_buffer` and `node_buffer`.
pub record Buffers : Type 0 where
  pub slots : List Address
  pub nodes : List Address

-- The packets given to the factory: transitively pinned, and pinned.
pub record Packets : Type 0 where
  pub tpinning : List (List Address)
  pub pinning : List (List Address)

abbrev pub push_loaded : Option Address → List Address → List Address
push_loaded none buffer = buffer
push_loaded (some object) buffer = buffer ++ object ∷ []

abbrev pub push_node : Address → Buffers → Buffers
push_node a b = record b { nodes = b.nodes ++ a ∷ [] }

abbrev pub and_then : Option Buffers → (Buffers → Option Buffers) → Option Buffers
and_then none f = none
and_then (some b) f = f b

-- `load` reads a slot.
module _ (load : JuliaVmSlot → Option Address) where
  -- `visit_slot` of `SlotBuffer`, on each slot in turn.
  unfoldable pub visit_slots : List JuliaVmSlot → List Address → List Address
  visit_slots [] buffer = buffer
  visit_slots (s ∷ ss) buffer = visit_slots ss (push_loaded (load s) buffer)

  unfoldable pub push_scan : Scan → Buffers → Option Buffers
  push_scan none b = none
  push_scan (some ss) b = some (record b { slots = visit_slots ss b.slots })

  -- What the slots hold, and what the tasks' stacks hold.
  abbrev pub loaded : List JuliaVmSlot → List Address
  loaded [] = []
  loaded (s ∷ ss) = push_loaded (load s) [] ++ loaded ss

  -- Behind the tasks: the previous exception and the backtrace buffer.
  unfoldable pub push_rest : Ptls → Buffers → Option Buffers
  push_rest ptls b =
      let b6 = if ptls.previous_exception == 0 then b else push_node ptls.previous_exception b in
      some (record b6 { nodes = b6.nodes ++ scan_bt ptls.bt_data ptls.bt_size 0 ptls.bt_size })

  -- `scan_gcstack` is `mmtk_scan_gcstack`.
  module _ (scan_gcstack : Address → Scan) where
    unfoldable pub root_scan_task : Address → Bool → Buffers → Option Buffers
    root_scan_task task task_is_root b =
        if task == 0
        then some b
        else and_then (push_scan (scan_gcstack task) b)
            (λ c. some (if task_is_root then push_node task c else c))

    unfoldable pub scan_live_tasks : List Address → Buffers → Option Buffers
    scan_live_tasks [] b = some b
    scan_live_tasks (task ∷ tasks) b =
        and_then (root_scan_task task false b) (scan_live_tasks tasks)

    -- The tasks of the thread, in the order in which they are scanned.
    unfoldable pub fill_buffers : Ptls → Buffers → Option Buffers
    fill_buffers ptls b =
        let b1 = root_scan_task ptls.root_task true b in
        let b2 = and_then b1 (scan_live_tasks ptls.live_tasks) in
        let b3 = and_then b2 (root_scan_task ptls.current_task true) in
        let b4 = and_then b3 (root_scan_task ptls.next_task true) in
        let b5 = and_then b4 (root_scan_task ptls.previous_task true) in
        and_then b5 (push_rest ptls)

    unfoldable pub push_work : Option Buffers → Option Packets
    push_work none = none
    push_work (some b) = some (record {
      tpinning = chunks capacity_per_packet b.slots;
      pinning = chunks capacity_per_packet b.nodes;
    })

    unfoldable pub scan_roots_in_mutator_thread : Ptls → Option Packets
    scan_roots_in_mutator_thread ptls =
        push_work (fill_buffers ptls (record { slots = []; nodes = [] }))
