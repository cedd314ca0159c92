-- ===== src/ObjectScan/Object.antt =====
-- mmtk/src/julia_scanning.rs: `scan_julia_object`, one definition for each kind of object.
use mmtk_julia.Base.{
  ℕ, ◌+◌, ◌-◌, ◌*◌, ◌/◌, ◌%◌, ◌^◌, ◌||◌, ◌&&◌, none, some, List, [], ◌∷◌, ◌++◌, Address, add_word,
  mul_word, shift_words, ◌==◌, ltb, if◌then◌else◌, not,
}
use mmtk_julia.Structs.Tags.{jl_module_tag, jl_simplevector_tag, jl_task_tag}
use mmtk_julia.Slots.Slot.{JuliaVmSlot, simple, offset, new_with_offset}
use mmtk_julia.ObjectScan.Layout.{
  usings_len, usings_items, memory_length, memory_ptr, ref_ptr_or_offset, ref_mem, Heap, Runtime,
  small_tag, jl_max_tags, typetagof, is_plain_tag, type_name, type_layout, is_sound_type,
  layout_size, npointers, first_ptr, layout_flags, fielddesc_type_custom, dt_layout_ptrs, svec_len,
  svec_data,
}
use mmtk_julia.ObjectScan.Loops.{Scan, append_scans, scan_words, scan_fields, scan_elements}

abbrev pub process_slot : Address → List JuliaVmSlot
process_slot slot = simple slot ∷ []

abbrev pub process_offset_slot : Address → ℕ → List JuliaVmSlot
process_offset_slot slot off = offset (new_with_offset slot off) ∷ []

-- `usings` stands at byte 64 of a module, `_space` at byte 24 of an array list.
abbrev pub offset_of_inlined_space_in_module : ℕ
offset_of_inlined_space_in_module = 64 + 24

-- Each loop gets the fuel `fuel`.
module _ (rt : Runtime) (h : Heap) (fuel : ℕ) where
  unfoldable pub scan_simplevector : Address → Scan
  scan_simplevector obj =
      scan_words fuel (svec_data obj) (shift_words (svec_data obj) (svec_len h obj)) 1

  unfoldable pub module_fields : Address → List JuliaVmSlot
  module_fields m =
      process_slot (m + 16)
      ++ process_slot (m + 24)
      ++ process_slot (m + 8)
      ++ process_slot (m + 48)
      ++ process_slot (m + 56)

  unfoldable pub module_items : Address → List JuliaVmSlot
  module_items m =
      if rt.object_is_managed_by_mmtk (usings_items h m)
      then process_offset_slot (m + 80) offset_of_inlined_space_in_module
      else []

  unfoldable pub scan_usings : Address → Scan
  scan_usings m =
      let nusings = usings_len h m in
      let items = usings_items h m in
      if ltb 0 nusings then scan_words fuel items (shift_words items nusings) 4 else some []

  unfoldable pub scan_module : Address → Scan
  unfolding module_fields module_items scan_usings
  scan_module m = append_scans (some (module_fields m ++ module_items m)) (scan_usings m)

  -- The fields of an object, or of an element, at `base`: entries of one, two or four bytes.
  unfoldable pub scan_fields8 : (layout base : Address) → Scan
  scan_fields8 layout base =
      let ptrs = dt_layout_ptrs h layout in
      scan_fields h.load8 1 fuel base ptrs (add_word ptrs (npointers h layout))

  unfoldable pub scan_fields16 : (layout base : Address) → Scan
  scan_fields16 layout base =
      let ptrs = dt_layout_ptrs h layout in
      scan_fields h.load16 2 fuel base ptrs (add_word ptrs (npointers h layout * 2))

  unfoldable pub scan_fields32 : (layout base : Address) → Scan
  scan_fields32 layout base =
      let ptrs = dt_layout_ptrs h layout in
      scan_fields h.load32 4 fuel base ptrs (add_word ptrs (npointers h layout * 4))

  -- The interior pointer of an array's reference, `ptr_or_offset`, at the start of the array.
  unfoldable pub scan_array_ref : Address → List JuliaVmSlot
  scan_array_ref a =
      let ptr_or_offset = ref_ptr_or_offset h a in
      let mem = ref_mem h a in
      if rt.object_is_managed_by_mmtk ptr_or_offset && ltb mem ptr_or_offset
      then process_offset_slot a (ptr_or_offset - mem)
      else []

  -- Elements that are structures with pointers in them.
  unfoldable pub scan_struct_elements : (m layout : Address) → Scan
  unfolding scan_fields8 scan_fields16
  scan_struct_elements m layout =
      let elsize = layout_size h layout / 8 in
      let begin = memory_ptr h m in
      let end = shift_words begin (mul_word (memory_length h m) elsize) in
      let kind = fielddesc_type_custom (layout_flags h layout) in
      if npointers h layout == 1
      then scan_words fuel (shift_words begin (first_ptr h layout)) end elsize
      else if kind == 0
      then scan_elements (scan_fields8 layout) fuel begin end elsize
      else if kind == 1
      then scan_elements (scan_fields16 layout) fuel begin end elsize
      else none

  unfoldable pub scan_genericmemory : (vt m : Address) → Scan
  unfolding scan_struct_elements
  scan_genericmemory vt m =
      let length = memory_length h m in
      let layout = type_layout h vt in
      let begin = memory_ptr h m in
      if rt.gc_genericmemory_how m == 3
      then some (process_slot (rt.gc_get_owner_address m))
      else if length == 0
      then some []
      else if not (layout_flags h layout / 2 ^ 3 % 2 == 0)
      then scan_words fuel begin (shift_words begin length) 1
      else if ltb (first_ptr h layout) (2 ^ 31)
      then scan_struct_elements m layout
      else some []

  unfoldable pub scan_pointers : (vt obj : Address) → Scan
  unfolding scan_fields8 scan_fields16 scan_fields32
  scan_pointers vt obj =
      let layout = type_layout h vt in
      let kind = fielddesc_type_custom (layout_flags h layout) in
      if npointers h layout == 0
      then some []
      else if kind == 0
      then scan_fields8 layout obj
      else if kind == 1
      then scan_fields16 layout obj
      else if kind == 2
      then scan_fields32 layout obj
      else none

  -- Behind the dispatch on the tag: an object of the type at `vt`.
  unfoldable pub scan_datatype : (vt obj : Address) → Scan
  unfolding scan_array_ref scan_genericmemory scan_pointers
  scan_datatype vt obj =
      append_scans
        (some (if type_name h vt == rt.jl_array_typename then scan_array_ref obj else []))
        (if type_name h vt == rt.jl_genericmemory_typename
          then scan_genericmemory vt obj
          else if vt == rt.jl_weakref_type
          then some []
          else scan_pointers vt obj)

  -- `mmtk_scan_gcstack` is in Stack.antt; it is an argument here.
  module _ (scan_gcstack : Address → Scan) where
    unfoldable pub scan_task : Address → Scan
    unfolding scan_fields8
    scan_task ta = append_scans (scan_gcstack ta) (scan_fields8 (type_layout h rt.jl_task_type) ta)

    -- The small tags that are not plain.
    unfoldable pub scan_special : (vtag obj : ℕ) → Scan
    unfolding scan_simplevector scan_module scan_task
    scan_special vtag obj =
        if vtag == small_tag jl_simplevector_tag
        then scan_simplevector obj
        else if vtag == small_tag jl_module_tag
        then scan_module obj
        else if vtag == small_tag jl_task_tag
        then scan_task obj
        else some []

    unfoldable pub scan_julia_object : Address → Scan
    unfolding scan_special scan_datatype
    scan_julia_object obj =
        let vtag = typetagof h obj in
        if (vtag == rt.jl_symbol_type) || (vtag == rt.julia_buff_tag)
        then some []
        else if is_plain_tag vtag
        then scan_datatype (rt.jl_small_typeof (vtag / 8)) obj
        else if ltb vtag (small_tag jl_max_tags)
        then scan_special vtag obj
        else if is_sound_type h vtag
        then scan_datatype vtag obj
        else none
