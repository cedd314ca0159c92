-- ===== src/RootScan/Packets.antt =====
-- What `scan_roots_in_mutator_thread` of mmtk/src/scanning.rs gives to the factory.
use mmtk_julia.Base.{
  ℕ, zero, suc, ◌≡◌, refl, sym, ap, ap₂, ◌∙◌, true, false, Option, none, some, List, [], ◌∷◌, ◌++◌,
  append-nil, append_assoc, arith, Address, ◌==◌, if◌then◌else◌,
}
use mmtk_julia.Slots.Slot.{JuliaVmSlot}
use mmtk_julia.ObjectScan.Loops.{Scan}
use mmtk_julia.RootScan.Backtrace.{scan_bt}
use mmtk_julia.RootScan.Chunks.{
  capacity_per_packet, chunks, concat, ArePackets, chunks-concat, chunks-ArePackets,
}
use mmtk_julia.RootScan.Mutator.{
  Ptls, Buffers, Packets, push_loaded, push_node, and_then, visit_slots, push_scan, loaded,
  push_rest, root_scan_task, scan_live_tasks, fill_buffers, push_work, scan_roots_in_mutator_thread,
}

-- A pointer that is not null, as a root.
abbrev pub node : Address → List Address
node a = if a == 0 then [] else a ∷ []

nonzero : (t : ℕ) → (suc t == 0) ≡ false
nonzero t = grind arith

module _ (load : JuliaVmSlot → Option Address) (scan_gcstack : Address → Scan)
    (stack_slots : Address → List JuliaVmSlot)
    (scans : (task : Address) → scan_gcstack task ≡ some (stack_slots task)) where
  abbrev pub stack_objects : Address → List Address
  stack_objects task = if task == 0 then [] else loaded load (stack_slots task)

  abbrev pub live_objects : List Address → List Address
  live_objects [] = []
  live_objects (t ∷ ts) = stack_objects t ++ live_objects ts

  push_loaded_lem :
      (o : Option Address) (buffer : List Address)
      → push_loaded o buffer ≡ buffer ++ push_loaded o []
  push_loaded_lem none buffer = sym (append-nil buffer)
  push_loaded_lem (some object) buffer = refl

  visit_slots_lem :
      (ss : List JuliaVmSlot) (buffer : List Address)
      → visit_slots load ss buffer ≡ buffer ++ loaded load ss
  unfolding visit_slots
  visit_slots_lem [] buffer = sym (append-nil buffer)
  visit_slots_lem (s ∷ ss) buffer =
      visit_slots_lem ss (push_loaded (load s) buffer)
      ∙ ap (λ b. b ++ loaded load ss) (push_loaded_lem (load s) buffer)
      ∙ append_assoc buffer (push_loaded (load s) []) (loaded load ss)

  abbrev buffers : List Address → List Address → Option Buffers
  buffers slots nodes = some (record { slots = slots; nodes = nodes })

  root_task_lem :
      (task : Address) (slots nodes : List Address)
      → root_scan_task load scan_gcstack task true (record { slots = slots; nodes = nodes })
        ≡ buffers (slots ++ stack_objects task) (nodes ++ node task)
  unfolding root_scan_task push_scan
  root_task_lem zero slots nodes = ap₂ buffers (sym (append-nil slots)) (sym (append-nil nodes))
  root_task_lem (suc t) slots nodes =
      rw (nonzero t, scans (suc t))
        (ap (λ s. buffers s (nodes ++ suc t ∷ [])) (visit_slots_lem (stack_slots (suc t)) slots))

  live_task_lem :
      (task : Address) (slots nodes : List Address)
      → root_scan_task load scan_gcstack task false (record { slots = slots; nodes = nodes })
        ≡ buffers (slots ++ stack_objects task) nodes
  unfolding root_scan_task push_scan
  live_task_lem zero slots nodes = ap (λ s. buffers s nodes) (sym (append-nil slots))
  live_task_lem (suc t) slots nodes =
      rw (nonzero t, scans (suc t))
        (ap (λ s. buffers s nodes) (visit_slots_lem (stack_slots (suc t)) slots))

  live_tasks_lem :
      (tasks slots nodes : List Address)
      → scan_live_tasks load scan_gcstack tasks (record { slots = slots; nodes = nodes })
        ≡ buffers (slots ++ live_objects tasks) nodes
  unfolding scan_live_tasks
  live_tasks_lem [] slots nodes = ap (λ s. buffers s nodes) (sym (append-nil slots))
  live_tasks_lem (t ∷ ts) slots nodes =
      ap (λ b. and_then b (scan_live_tasks load scan_gcstack ts)) (live_task_lem t slots nodes)
      ∙ live_tasks_lem ts (slots ++ stack_objects t) nodes
      ∙ ap (λ s. buffers s nodes) (append_assoc slots (stack_objects t) (live_objects ts))

  -- The objects on the shadow stacks, task by task, and the nodes.
  abbrev pub thread_stacks : Ptls → List Address
  thread_stacks p =
      (((stack_objects p.root_task ++ live_objects p.live_tasks) ++ stack_objects p.current_task)
        ++ stack_objects p.next_task)
      ++ stack_objects p.previous_task

  abbrev pub thread_nodes : Ptls → List Address
  thread_nodes p =
      ((((node p.root_task ++ node p.current_task) ++ node p.next_task) ++ node p.previous_task)
        ++ node p.previous_exception)
      ++ scan_bt p.bt_data p.bt_size 0 p.bt_size

  exception_lem :
      (e : Address) (slots nodes bt : List Address)
      → (let b6 : Buffers =
            if e == 0
            then record { slots = slots; nodes = nodes }
            else push_node e (record { slots = slots; nodes = nodes }) in
          some (record b6 { nodes = b6.nodes ++ bt }))
        ≡ buffers slots ((nodes ++ node e) ++ bt)
  exception_lem zero slots nodes bt = ap (λ n. buffers slots (n ++ bt)) (sym (append-nil nodes))
  exception_lem (suc e) slots nodes bt = rw (nonzero e) refl

  push_rest_lem :
      (p : Ptls) (slots nodes : List Address)
      → push_rest load p (record { slots = slots; nodes = nodes })
        ≡ buffers slots
            ((nodes ++ node p.previous_exception) ++ scan_bt p.bt_data p.bt_size 0 p.bt_size)
  unfolding push_rest
  push_rest_lem p slots nodes =
      exception_lem p.previous_exception slots nodes (scan_bt p.bt_data p.bt_size 0 p.bt_size)

  fill_buffers_lem :
      (p : Ptls)
      → fill_buffers load scan_gcstack p (record { slots = []; nodes = [] })
        ≡ buffers (thread_stacks p) (thread_nodes p)
  unfolding fill_buffers
  fill_buffers_lem p =
      let tasks = scan_live_tasks load scan_gcstack p.live_tasks in
      let task : Address → Buffers → Option Buffers =
        λ t. root_scan_task load scan_gcstack t true in
      let s1 = stack_objects p.root_task in
      let n1 = node p.root_task in
      let s2 = s1 ++ live_objects p.live_tasks in
      let s3 = s2 ++ stack_objects p.current_task in
      let n3 = n1 ++ node p.current_task in
      let s4 = s3 ++ stack_objects p.next_task in
      let n4 = n3 ++ node p.next_task in
      let s5 = s4 ++ stack_objects p.previous_task in
      let n5 = n4 ++ node p.previous_task in
      let e1 = root_task_lem p.root_task [] [] in
      let e2 = ap (λ b. and_then b tasks) e1 ∙ live_tasks_lem p.live_tasks s1 n1 in
      let e3 = ap (λ b. and_then b (task p.current_task)) e2 ∙ root_task_lem p.current_task s2 n1 in
      let e4 = ap (λ b. and_then b (task p.next_task)) e3 ∙ root_task_lem p.next_task s3 n3 in
      let e5 =
        ap (λ b. and_then b (task p.previous_task)) e4 ∙ root_task_lem p.previous_task s4 n4 in
      ap (λ b. and_then b (push_rest load p)) e5 ∙ push_rest_lem p s5 n5

  -- The roots of a mutator thread, where every stack can be scanned: the scan succeeds, and the transitively pinned packets
  -- hold, in order, the objects on the shadow stacks of the root task, the live tasks, and the
  -- current, next and previous tasks; the pinned packets hold those tasks that are not null, but not
  -- the live ones, then the previous exception and the values of the backtrace buffer. No packet is
  -- empty, and none has more than 4096 roots.
  pub scan_roots_in_mutator_thread-packets :
      (p : Ptls)
      → (ps : Packets) × (scan_roots_in_mutator_thread load scan_gcstack p ≡ some ps)
        × (concat ps.tpinning ≡ thread_stacks p)
        × (concat ps.pinning ≡ thread_nodes p)
        × ArePackets capacity_per_packet ps.tpinning
        × ArePackets capacity_per_packet ps.pinning
  unfolding scan_roots_in_mutator_thread push_work
  scan_roots_in_mutator_thread-packets p = (
    record {
      tpinning = chunks capacity_per_packet (thread_stacks p);
      pinning = chunks capacity_per_packet (thread_nodes p);
    },
    ap (push_work load scan_gcstack) (fill_buffers_lem p),
    chunks-concat capacity_per_packet (omega arith) (thread_stacks p),
    chunks-concat capacity_per_packet (omega arith) (thread_nodes p),
    chunks-ArePackets capacity_per_packet (omega arith) (thread_stacks p),
    chunks-ArePackets capacity_per_packet (omega arith) (thread_nodes p),
  )
