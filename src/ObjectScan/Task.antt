-- ===== src/ObjectScan/Task.antt =====
-- What `scan_julia_object` of mmtk/src/julia_scanning.rs reports for a task.
use mmtk_julia.Base.{
  ℕ, ◌+◌, ◌^◌, ◌<◌, ◌≤◌, ◌≡◌, ◌≢◌, refl, some, List, [], ◌++◌, arith, Address, ◌==◌, ==_of_ne,
  if◌then◌else◌, length,
}
use mmtk_julia.Structs.Tags.{jl_task_tag}
use mmtk_julia.Slots.Slot.{JuliaVmSlot}
use mmtk_julia.ObjectScan.Layout.{
  Heap, Runtime, small_tag, typetagof, type_layout, npointers, dt_layout_ptrs, task_gcstack,
  task_excstack,
}
use mmtk_julia.ObjectScan.Loops.{Scan, field_slots}
use mmtk_julia.ObjectScan.Object.{
  process_slot, scan_fields8, scan_task, scan_special, scan_julia_object,
}
use mmtk_julia.ObjectScan.Stack.{
  Window, is_copied, task_window, scan_stack, scan_in_window, scan_gcstack, scan_frames,
}
use mmtk_julia.ObjectScan.Frames.{Chain, all_slots, scan_frames-all_slots}
use mmtk_julia.ObjectScan.Kinds.{fields8_lem}

-- A task whose shadow stack begins at an address has these frames: none at a null pointer.
pub data HasFrames (h : Heap) (w : Window) : Address → List Address → Type 0 where
  no_frames : HasFrames h w 0 []
  frames : {s : Address} {fs : List Address} → s ≢ 0 → Chain h w s fs → HasFrames h w s fs

module _ (rt : Runtime) (h : Heap) (fuel : ℕ) where
  -- The field of the buffer that a stack is copied to.
  abbrev pub buffer_slots : Address → List JuliaVmSlot
  buffer_slots ta = if is_copied rt h fuel ta then process_slot (ta + 200) else []

  -- What C reports of the exceptions that the task handles.
  abbrev pub exception_slots : Address → List JuliaVmSlot
  exception_slots ta = if task_excstack h ta == 0 then [] else rt.gc_scan_julia_exc_obj ta

  abbrev pub task_fields : Address → List JuliaVmSlot
  task_fields ta =
      let layout = type_layout h rt.jl_task_type in
      field_slots h.load8 1 ta (dt_layout_ptrs h layout) (npointers h layout)

  abbrev stack_from : Window → Address → Scan
  stack_from w s = if s == 0 then some [] else scan_frames h w fuel s

  stack_from-all_slots :
      (w : Window) (s : Address) (fs : List Address)
      → HasFrames h w s fs
      → length fs ≤ fuel
      → stack_from w s ≡ some (all_slots h w fs)
  stack_from-all_slots w _ _ no_frames enough = refl
  stack_from-all_slots w _ _ (frames {s} {fs} ne chain) enough =
      rw (==_of_ne s 0 ne) (scan_frames-all_slots h w fuel s fs chain enough)

  scan_gcstack-slots :
      (ta : Address) (w : Window) (fs : List Address)
      → task_window rt h fuel ta ≡ some w
      → HasFrames h w (task_gcstack h ta) fs
      → length fs ≤ fuel
      → scan_gcstack rt h fuel ta
        ≡ some (buffer_slots ta ++ (all_slots h w fs ++ exception_slots ta))
  unfolding scan_gcstack scan_in_window scan_stack
  scan_gcstack-slots ta w fs window has enough =
      rw (window, stack_from-all_slots w (task_gcstack h ta) fs has enough) refl

  task_lem :
      (ta : Address) (xs ys : List JuliaVmSlot)
      → scan_gcstack rt h fuel ta ≡ some xs
      → scan_fields8 rt h fuel (type_layout h rt.jl_task_type) ta ≡ some ys
      → scan_task rt h fuel (scan_gcstack rt h fuel) ta ≡ some (xs ++ ys)
  unfolding scan_task
  task_lem ta xs ys stack fields = rw (stack, fields) refl

  -- An object whose tag is that of tasks, which is neither the symbols' nor the buffers': whether its
  -- stack is in place or copied out, the scan reports in this order the field of the stack's buffer
  -- if it has one, the roots of each frame of its shadow stack, what C finds of its exceptions, and
  -- the pointer fields that the type of tasks lists. The shadow stack ends, and the fuel is at least
  -- the number of its frames and more than the number of the fields; the table of fields is within
  -- the address space; and `w` is the window through which the stack is read, which there is unless
  -- the stack is copied out and the thread's number is no `i16`.
  pub scan_julia_object-task :
      (ta : Address) (w : Window) (fs : List Address)
      → typetagof h ta ≡ small_tag jl_task_tag
      → rt.jl_symbol_type ≢ small_tag jl_task_tag
      → rt.julia_buff_tag ≢ small_tag jl_task_tag
      → task_window rt h fuel ta ≡ some w
      → HasFrames h w (task_gcstack h ta) fs
      → length fs ≤ fuel
      → dt_layout_ptrs h (type_layout h rt.jl_task_type)
          + npointers h (type_layout h rt.jl_task_type)
        < 2 ^ 64
      → npointers h (type_layout h rt.jl_task_type) < fuel
      → scan_julia_object rt h fuel (scan_gcstack rt h fuel) ta
        ≡ some ((buffer_slots ta ++ (all_slots h w fs ++ exception_slots ta)) ++ task_fields ta)
  unfolding scan_julia_object scan_special
  scan_julia_object-task ta w fs tag sym buff window has enough fits many =
      let task =
        task_lem ta (buffer_slots ta ++ (all_slots h w fs ++ exception_slots ta)) (task_fields ta)
          (scan_gcstack-slots ta w fs window has enough)
          (fields8_lem rt h fuel (type_layout h rt.jl_task_type) ta fits many) in
      rw tag (ground arith)
