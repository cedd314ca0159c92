-- ===== src/ObjectScan/Stack.antt =====
-- mmtk/src/julia_scanning.rs: `mmtk_scan_gcstack`, the shadow stack of a task. While a task's stack
-- is copied out to its buffer, an address within the bounds of the original stack stands for the one
-- `offset` away, in the buffer.
use mmtk_julia.Base.{
  ℕ, zero, suc, ◌+◌, ◌-◌, ◌/◌, ◌%◌, ◌^◌, Bool, ◌||◌, ◌&&◌, not, Option, none, some, List, [], ◌++◌,
  bit_and, Address, add_word, sub_word, shift_words, ◌==◌, ltb, leb, if◌then◌else◌,
}
use mmtk_julia.Slots.Slot.{JuliaVmSlot}
use mmtk_julia.ObjectScan.Layout.{
  Heap, Runtime, ctx_stkbuf, ctx_bitfield_1, task_tid, task_gcstack, task_ptls, task_excstack,
}
use mmtk_julia.ObjectScan.Loops.{Scan, append_scans}
use mmtk_julia.ObjectScan.Object.{process_slot, process_offset_slot}
use mmtk_julia.Finalizer.ArrayList.{gc_ptr_tag}

-- `offset`, `lb` and `ub`; a negative offset is its two's complement.
pub record Window : Type 0 where
  pub offset : ℕ
  pub lb : ℕ
  pub ub : ℕ

abbrev pub whole_stack : Window
whole_stack = record { offset = 0; lb = 0; ub = 2 ^ 64 - 1 }

abbrev pub get_stack_addr : Window → Address → Address
get_stack_addr w addr = if leb w.lb addr && ltb addr w.ub then add_word addr w.offset else addr

abbrev pub read_stack : Heap → Window → Address → ℕ
read_stack h w addr = h.load64 (get_stack_addr w addr)

-- `copy_stack()` and `copy_stack_custom()`: the lowest 31 bits of the word.
abbrev pub copy_stack : ℕ → ℕ
copy_stack copy_stack_raw = copy_stack_raw % 2 ^ 31

-- One round of the inner loop: the slots that it reports, and how far it moves on.
module _ (h : Heap) (w : Window) where
  unfoldable pub root_slots : (nroots rts i : ℕ) → List JuliaVmSlot
  root_slots nroots rts i =
      let slot = read_stack h w (shift_words rts i) in
      let real_addr = get_stack_addr w (shift_words rts i) in
      if not (bit_and nroots 1 == 0)
      then process_slot (get_stack_addr w slot)
      else if bit_and slot 3 == 3
      then []
      else if gc_ptr_tag slot 1
      then process_offset_slot real_addr 1
      else process_slot real_addr

  unfoldable pub root_step : (nroots rts i : ℕ) → ℕ
  root_step nroots rts i =
      let slot = read_stack h w (shift_words rts i) in
      if not (bit_and nroots 1 == 0)
      then 1
      else if (bit_and slot 3 == 3) || gc_ptr_tag slot 1
      then 2
      else 1

  -- The inner loop; `i` grows in every round, so `nr` rounds are enough.
  unfoldable pub scan_roots : ℕ → (nroots rts nr i : ℕ) → List JuliaVmSlot
  unfolding root_slots root_step
  scan_roots zero nroots rts nr i = []
  scan_roots (suc rounds) nroots rts nr i =
      let rest = scan_roots rounds nroots rts nr (i + root_step nroots rts i) in
      if ltb i nr then root_slots nroots rts i ++ rest else []

  -- The roots of the frame at `s`, whose fields are `nroots` and `prev`.
  unfoldable pub frame_slots : Address → List JuliaVmSlot
  unfolding scan_roots
  frame_slots s =
      let nroots = read_stack h w s in
      scan_roots (nroots / 4) nroots (shift_words s 2) (nroots / 4) 0

  unfoldable pub prev_frame : Address → Address
  prev_frame s = read_stack h w (add_word s 8)

  -- The outer loop, one frame for each unit of fuel.
  unfoldable pub scan_frames : ℕ → Address → Scan
  unfolding frame_slots prev_frame
  scan_frames zero s = none
  scan_frames (suc fuel) s =
      let rest = scan_frames fuel (prev_frame s) in
      if prev_frame s == 0 then some (frame_slots s) else append_scans (some (frame_slots s)) rest

-- A task at `ta`; the slot of `ctx.stkbuf` is at byte 200 of it.
module _ (rt : Runtime) (h : Heap) (fuel : ℕ) where
  -- The task runs on a copied stack: `ctx.stkbuf` is not null and `ctx.copy_stack` not zero.
  abbrev pub is_copied : Address → Bool
  is_copied ta =
      rt.julia_copy_stack
      && not (ctx_stkbuf h ta == 0)
      && not (copy_stack (ctx_bitfield_1 h ta) == 0)

  unfoldable pub task_window : Address → Option Window
  task_window ta =
      let tid = task_tid h ta in
      let ub = rt.gc_get_stackbase tid in
      let lb = sub_word ub (copy_stack (ctx_bitfield_1 h ta)) in
      if is_copied ta && (task_ptls h ta == 0)
      then (if leb (2 ^ 15) tid
          then none
          else some (record { offset = sub_word (ctx_stkbuf h ta) lb; lb = lb; ub = ub }))
      else some whole_stack

  unfoldable pub scan_stack : (ta : Address) → Window → Scan
  unfolding scan_frames
  scan_stack ta w =
      if task_gcstack h ta == 0 then some [] else scan_frames h w fuel (task_gcstack h ta)

  unfoldable pub scan_in_window : (ta : Address) → Option Window → Scan
  unfolding scan_stack
  scan_in_window ta none = none
  scan_in_window ta (some w) = scan_stack ta w

  unfoldable pub scan_gcstack : Address → Scan
  unfolding task_window scan_in_window
  scan_gcstack ta = append_scans (some (if is_copied ta then process_slot (ta + 200) else [])) (
      append_scans (scan_in_window ta (task_window ta))
        (some (if task_excstack h ta == 0 then [] else rt.gc_scan_julia_exc_obj ta)))
