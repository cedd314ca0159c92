-- ===== src/ObjectScan/Examples.antt =====
-- The theorems on scanning at a small heap.
use mmtk_julia.Base.{
  ℕ, ◌+◌, ◌≡◌, refl, true, false, some, List, [], ◌∷◌, ◌++◌, arith, Address, ◌==◌, if◌then◌else◌,
}
use mmtk_julia.Slots.Slot.{JuliaVmSlot, simple, offset, new_with_offset}
use mmtk_julia.ObjectScan.CopiedStack.{restored, relocate_all, scan_frames-relocate_all}
use mmtk_julia.ObjectScan.Layout.{Heap, Runtime}
use mmtk_julia.ObjectScan.Loops.{Scan, word_slots}
use mmtk_julia.ObjectScan.Object.{scan_julia_object}
use mmtk_julia.ObjectScan.Elements.{struct_slots}
use mmtk_julia.ObjectScan.Modules.{
  named_slots, module_field_names, UsingsSlots, inlined, scan_julia_object-module,
}
use mmtk_julia.Structs.Layout.{offset_of, layout_of}
use mmtk_julia.ObjectScan.Dispatch.{HasType, large}
use mmtk_julia.ObjectScan.Kinds.{
  pointer_slots, IsLayout, scan_julia_object-pointer_slots, scan_julia_object-simplevector,
}
use mmtk_julia.ObjectScan.Task.{
  frames, buffer_slots, exception_slots, task_fields, scan_julia_object-task,
}
use mmtk_julia.ObjectScan.Memory.{Holds, structures, scan_julia_object-memory}
use mmtk_julia.ObjectScan.Stack.{
  Window, whole_stack, task_window, prev_frame, scan_roots, scan_frames, scan_gcstack,
}
use mmtk_julia.ObjectScan.Frames.{
  Chain, last, link, all_slots, object, native, roots_reported, scan_roots-roots_reported,
}

abbrev lookup : List (Address × ℕ) → Address → ℕ
lookup [] a = 0
lookup ((b, v) ∷ rest) a = let other = lookup rest a in if b == a then v else other

-- A simple vector of 3 elements at 1000; an object at 2000 of the type at 4096, whose layout at 6000
-- has two pointers in entries of two bytes; and two frames of a shadow stack, at 3000 and 3100.
abbrev heap : Heap
heap = record {
  load64 = lookup (
      (992, 144)
      ∷ (1000, 3)
      ∷ (1992, 4096)
      ∷ (4088, 32)
      ∷ (4096, 5000)
      ∷ (4136, 6000)
      ∷ (3000, 12)
      ∷ (3008, 3100)
      ∷ (3016, 64)
      ∷ (3024, 97)
      ∷ (3100, 4)
      ∷ (3116, 80)
      ∷ []);
  load32 = lookup ((6004, 4) ∷ (6008, 2) ∷ []);
  load16 = lookup ((6018, 2) ∷ (6036, 1) ∷ (6038, 3) ∷ []);
  load8 = λ a. 0;
}

abbrev runtime : Runtime
runtime = record {
  jl_symbol_type = 7000;
  jl_weakref_type = 7100;
  jl_task_type = 7200;
  jl_array_typename = 7300;
  jl_genericmemory_typename = 7400;
  jl_small_typeof = λ i. 7500;
  julia_buff_tag = 1320042496;
  julia_header_size = 8;
  object_is_managed_by_mmtk = λ a. true;
  gc_genericmemory_how = λ a. 0;
  gc_get_owner_address = λ a. a;
  gc_get_stackbase = λ i. 0;
  gc_scan_julia_exc_obj = λ a. [];
  julia_copy_stack = false;
}

abbrev no_stack : Address → Scan
no_stack task = some []

at_six_thousand-IsLayout : IsLayout heap 6000
at_six_thousand-IsLayout = record { kind = omega arith; table = omega arith }

object-HasType : HasType runtime heap 2000 4096
object-HasType = large (omega arith) refl

scan_julia_object-pointer_slots_example :
    scan_julia_object runtime heap 10 no_stack 2000 ≡ some (pointer_slots heap 6000 2000)
scan_julia_object-pointer_slots_example =
    scan_julia_object-pointer_slots runtime heap 10 no_stack 2000 4096 refl object-HasType
      (omega arith) (omega arith) (omega arith) at_six_thousand-IsLayout (omega arith)

scan_julia_object-simplevector_example :
    scan_julia_object runtime heap 10 no_stack 1000 ≡ some (word_slots 1008 1 3)
scan_julia_object-simplevector_example =
    scan_julia_object-simplevector runtime heap 10 no_stack 1000 3 refl (omega arith) (omega arith)
      refl (omega arith) (omega arith)

frames-Chain : Chain heap whole_stack 3000 (3000 ∷ 3100 ∷ [])
unfolding prev_frame
frames-Chain = link refl (omega arith) (last refl)

scan_roots-roots_reported_example :
    scan_roots heap whole_stack 3 12 3016 3 0
    ≡ roots_reported heap whole_stack 3016 0 (object ∷ native ∷ [])
scan_roots-roots_reported_example =
    scan_roots-roots_reported heap whole_stack 3016 3 12 3 0 (object ∷ native ∷ []) refl
      (refl, (refl, tt)) refl (omega arith)

-- A module at 8000 with one entry of usings at 9000; and a memory at 8500 of two structures of three
-- words at 9500, whose layout is that at 6000.
abbrev more : Heap
more = record {
  load64 = lookup ((7992, 128) ∷ (8064, 4) ∷ (8080, 9000) ∷ (8500, 2) ∷ (8508, 9500) ∷ []);
  load32 = lookup ((6000, 24) ∷ (6004, 4) ∷ (6008, 2) ∷ (6012, 1) ∷ []);
  load16 = lookup ((6018, 2) ∷ (6036, 1) ∷ (6038, 2) ∷ []);
  load8 = λ a. 0;
}

abbrev module_slots : List JuliaVmSlot
module_slots = simple 8016 ∷ simple 8024 ∷ simple 8008 ∷ simple 8048 ∷ simple 8056 ∷ []

module_slots-named : named_slots 8000 module_field_names ≡ some module_slots
unfolding offset_of layout_of
module_slots-named = refl

usings-UsingsSlots : UsingsSlots runtime more 8000 (offset (new_with_offset 8080 88) ∷ [])
unfolding offset_of layout_of
usings-UsingsSlots = inlined {usings = 64} {items = 16} {space = 24} refl refl refl refl

scan_julia_object-module_example :
    scan_julia_object runtime more 10 no_stack 8000
    ≡ some ((module_slots ++ offset (new_with_offset 8080 88) ∷ []) ++ word_slots 9000 4 1)
scan_julia_object-module_example =
    scan_julia_object-module runtime more 10 no_stack 8000 1 module_slots
      (offset (new_with_offset 8080 88) ∷ []) refl (omega arith) (omega arith) module_slots-named
      usings-UsingsSlots refl (omega arith) (omega arith)

-- A task at 10000 whose stack has been copied to 11000 and is running again, with the two frames, an
-- exception and one pointer field, 3 words from its start.
abbrev with_task : Heap
with_task = record {
  load64 = lookup (
      (9992, 176)
      ∷ (10152, 3000)
      ∷ (10168, 1)
      ∷ (10176, 1)
      ∷ (10200, 11000)
      ∷ (3000, 12)
      ∷ (3008, 3100)
      ∷ (3016, 64)
      ∷ (3024, 97)
      ∷ (3100, 4)
      ∷ (3116, 80)
      ∷ (7240, 6000)
      ∷ []);
  load32 = lookup ((6004, 4) ∷ (6008, 1) ∷ (10216, 1024) ∷ []);
  load16 = λ a. 0;
  load8 = λ a. 3;
}

abbrev copying : Runtime
copying = record runtime {
  julia_copy_stack = true;
  gc_scan_julia_exc_obj = λ a. simple (a + 176) ∷ [];
}

task_frames-Chain : Chain with_task whole_stack 3000 (3000 ∷ 3100 ∷ [])
unfolding prev_frame
task_frames-Chain = link refl (omega arith) (last refl)

task_window-whole_stack : task_window copying with_task 10 10000 ≡ some whole_stack
unfolding task_window
task_window-whole_stack = refl

scan_julia_object-task_example :
    scan_julia_object copying with_task 10 (scan_gcstack copying with_task 10) 10000
    ≡ some (
        (buffer_slots copying with_task 10 10000
          ++ (all_slots with_task whole_stack (3000 ∷ 3100 ∷ [])
              ++ exception_slots copying with_task 10 10000))
        ++ task_fields copying with_task 10 10000)
scan_julia_object-task_example =
    scan_julia_object-task copying with_task 10 10000 whole_stack (3000 ∷ 3100 ∷ []) refl
      (omega arith) (omega arith) task_window-whole_stack (frames (omega arith) task_frames-Chain)
      (omega arith) (omega arith) (omega arith)

-- A stack copied out of 100 to 200 into a buffer at 1100, with one frame of one root at 120.
abbrev buffered : Heap
buffered = record {
  load64 = λ a. if a == 1120 then 4 else if a == 1136 then 64 else 0;
  load32 = λ a. 0;
  load16 = λ a. 0;
  load8 = λ a. 0;
}

abbrev buffer_window : Window
buffer_window = record { offset = 1000; lb = 100; ub = 200 }

scan_frames-relocate_all_example :
    scan_frames buffered buffer_window 2 120
    ≡ relocate_all buffered buffer_window
        (scan_frames (restored buffered buffer_window) whole_stack 2 120)
scan_frames-relocate_all_example = scan_frames-relocate_all buffered buffer_window 2 120

-- The same memory with a header: its type is at 4096 and has the layout at 6000.
abbrev typed : Heap
typed = record more {
  load64 =
      lookup
        ((8492, 4096) ∷ (4088, 32) ∷ (4096, 7400) ∷ (4136, 6000) ∷ (8500, 2) ∷ (8508, 9500) ∷ []);
}

memory-HasType : HasType runtime typed 8500 4096
memory-HasType = large (omega arith) refl

memory-Holds : Holds runtime typed 10 4096 8500 (struct_slots runtime typed 10 6000 9500 3 2)
memory-Holds =
    structures 1 3 (omega arith) refl refl (omega arith) refl (omega arith) (omega arith)
      (omega arith) (omega arith) (omega arith) (omega arith) (omega arith)

scan_julia_object-memory_example :
    scan_julia_object runtime typed 10 no_stack 8500
    ≡ some (struct_slots runtime typed 10 6000 9500 3 2)
scan_julia_object-memory_example =
    scan_julia_object-memory runtime typed 10 4096 8500 no_stack
      (struct_slots runtime typed 10 6000 9500 3 2) refl memory-HasType (omega arith) refl
      memory-Holds
