-- ===== src/ObjectScan/Kinds.antt =====
-- What `scan_julia_object` of mmtk/src/julia_scanning.rs reports for each kind of object.
use mmtk_julia.Base.{
  ℕ, ◌+◌, ◌*◌, ◌/◌, ◌^◌, ◌<◌, ◌≡◌, ◌≢◌, false, some, List, [], ◌||◌, arith, Address, add_word,
  shift_words, ◌==◌, ltb, if◌then◌else◌, ap,
}
use mmtk_julia.Structs.Tags.{jl_simplevector_tag}
use mmtk_julia.Slots.Slot.{JuliaVmSlot}
use mmtk_julia.ObjectScan.Layout.{
  Heap, Runtime, small_tag, typetagof, is_plain_tag, type_name, type_layout, is_sound_type,
  jl_max_tags, npointers, layout_flags, fielddesc_type_custom, dt_layout_ptrs, svec_len, svec_data,
}
use mmtk_julia.ObjectScan.Loops.{Scan, word_slots, field_slots, scan_words_lem, scan_fields_lem}
use mmtk_julia.ObjectScan.Object.{
  scan_simplevector, scan_fields8, scan_fields16, scan_fields32, scan_array_ref, scan_genericmemory,
  scan_pointers, scan_datatype, scan_special, scan_julia_object,
}
use mmtk_julia.ObjectScan.Dispatch.{
  choice, datatype_choice, HasType, small, large, large-not_plain, not_below, dispatch_plain,
  dispatch_large,
}

-- The fields that a layout lists for a structure at `base`.
abbrev pub pointer_slots : Heap → (layout base : Address) → List JuliaVmSlot
pointer_slots h layout base =
    let kind = fielddesc_type_custom (layout_flags h layout) in
    let ptrs = dt_layout_ptrs h layout in
    if kind == 0
    then field_slots h.load8 1 base ptrs (npointers h layout)
    else if kind == 1
    then field_slots h.load16 2 base ptrs (npointers h layout)
    else field_slots h.load32 4 base ptrs (npointers h layout)

-- The table of a layout is within the address space, and its entries have one, two or four bytes.
pub record IsLayout (h : Heap) (layout : Address) : Type 0 where
  pub kind : fielddesc_type_custom (layout_flags h layout) < 3
  pub table : dt_layout_ptrs h layout + npointers h layout * 4 < 2 ^ 64

field_slots-none :
    (load : Address → ℕ) (width base p n : ℕ) → n ≡ 0 → field_slots load width base p n ≡ []
field_slots-none load width base p n e = ap (field_slots load width base p) e

module _ (rt : Runtime) (h : Heap) (fuel : ℕ) where
  simplevector_lem :
      (obj n : ℕ)
      → svec_len h obj ≡ n
      → obj + 8 + n * 8 < 2 ^ 64
      → n < fuel
      → scan_simplevector rt h fuel obj ≡ some (word_slots (obj + 8) 1 n)
  unfolding scan_simplevector
  simplevector_lem obj n len fits enough =
      let start : svec_data obj ≡ obj + 8 = grind arith in
      let stop : shift_words (obj + 8) n ≡ obj + 8 + n * 8 = grind arith in
      rw (len, start, stop)
        (scan_words_lem fuel (obj + 8) (obj + 8 + n * 8) 1 n enough (omega arith) (omega arith)
          (omega arith))

  pub fields8_lem :
      (layout base : Address)
      → dt_layout_ptrs h layout + npointers h layout < 2 ^ 64
      → npointers h layout < fuel
      → scan_fields8 rt h fuel layout base
        ≡ some (field_slots h.load8 1 base (dt_layout_ptrs h layout) (npointers h layout))
  unfolding scan_fields8
  fields8_lem layout base fits enough =
      scan_fields_lem h.load8 1 fuel base (dt_layout_ptrs h layout)
        (add_word (dt_layout_ptrs h layout) (npointers h layout)) (npointers h layout) (omega arith)
        enough (omega arith) (omega arith)

  pub fields16_lem :
      (layout base : Address)
      → dt_layout_ptrs h layout + npointers h layout * 2 < 2 ^ 64
      → npointers h layout < fuel
      → scan_fields16 rt h fuel layout base
        ≡ some (field_slots h.load16 2 base (dt_layout_ptrs h layout) (npointers h layout))
  unfolding scan_fields16
  fields16_lem layout base fits enough =
      scan_fields_lem h.load16 2 fuel base (dt_layout_ptrs h layout)
        (add_word (dt_layout_ptrs h layout) (npointers h layout * 2)) (npointers h layout)
        (omega arith) enough (omega arith) (omega arith)

  fields32_lem :
      (layout base : Address)
      → dt_layout_ptrs h layout + npointers h layout * 4 < 2 ^ 64
      → npointers h layout < fuel
      → scan_fields32 rt h fuel layout base
        ≡ some (field_slots h.load32 4 base (dt_layout_ptrs h layout) (npointers h layout))
  unfolding scan_fields32
  fields32_lem layout base fits enough =
      scan_fields_lem h.load32 4 fuel base (dt_layout_ptrs h layout)
        (add_word (dt_layout_ptrs h layout) (npointers h layout * 4)) (npointers h layout)
        (omega arith) enough (omega arith) (omega arith)

  -- `scan_pointers` with its table's place, kind and length as variables.
  pointers_lem :
      (vt obj : Address)
      → IsLayout h (type_layout h vt)
      → npointers h (type_layout h vt) < fuel
      → scan_pointers rt h fuel vt obj ≡ some (pointer_slots h (type_layout h vt) obj)
  unfolding scan_pointers
  pointers_lem vt obj ok enough =
      let l = type_layout h vt in
      let n = npointers h l in
      let p = dt_layout_ptrs h l in
      choice n (fielddesc_type_custom (layout_flags h l)) (scan_fields8 rt h fuel l obj)
        (scan_fields16 rt h fuel l obj) (scan_fields32 rt h fuel l obj)
        (field_slots h.load8 1 obj p n) (field_slots h.load16 2 obj p n)
        (field_slots h.load32 4 obj p n) ok.kind (field_slots-none h.load8 1 obj p n)
        (field_slots-none h.load16 2 obj p n) (field_slots-none h.load32 4 obj p n)
        (fields8_lem l obj (let t = ok.table in omega arith) enough)
        (fields16_lem l obj (let t = ok.table in omega arith) enough)
        (fields32_lem l obj ok.table enough)

  module _ (scan_gcstack : Address → Scan) (obj : Address) where
    -- A simple vector within the address space, with a tag of its own that is neither the symbols' nor
    -- the buffers', reports each of its elements once, in order, and nothing else. The fuel is more
    -- than its length.
    pub scan_julia_object-simplevector :
        (n : ℕ)
        → typetagof h obj ≡ small_tag jl_simplevector_tag
        → rt.jl_symbol_type ≢ small_tag jl_simplevector_tag
        → rt.julia_buff_tag ≢ small_tag jl_simplevector_tag
        → svec_len h obj ≡ n
        → obj + 8 + n * 8 < 2 ^ 64
        → n < fuel
        → scan_julia_object rt h fuel scan_gcstack obj ≡ some (word_slots (obj + 8) 1 n)
    unfolding scan_julia_object scan_special
    scan_julia_object-simplevector n tag sym buff len fits enough =
        let loop = simplevector_lem obj n len fits enough in rw tag (ground arith)

    datatype_lem :
        (vt : Address)
        → type_name h vt ≢ rt.jl_array_typename
        → type_name h vt ≢ rt.jl_genericmemory_typename
        → vt ≢ rt.jl_weakref_type
        → IsLayout h (type_layout h vt)
        → npointers h (type_layout h vt) < fuel
        → scan_datatype rt h fuel vt obj ≡ some (pointer_slots h (type_layout h vt) obj)
    unfolding scan_datatype
    datatype_lem vt array memory weak ok enough =
        datatype_choice (type_name h vt) rt.jl_array_typename rt.jl_genericmemory_typename vt
          rt.jl_weakref_type (scan_array_ref rt h fuel obj) (scan_genericmemory rt h fuel vt obj)
          (scan_pointers rt h fuel vt obj) (pointer_slots h (type_layout h vt) obj) array memory
          weak (pointers_lem vt obj ok enough)

    pub by_type :
        (vt : Address) (x : Scan)
        → ((typetagof h obj == rt.jl_symbol_type) || (typetagof h obj == rt.julia_buff_tag)) ≡ false
        → HasType rt h obj vt
        → scan_datatype rt h fuel vt obj ≡ x
        → scan_julia_object rt h fuel scan_gcstack obj ≡ x
    unfolding scan_julia_object
    by_type _ x other (small plain) e =
        let t = typetagof h obj in
        dispatch_plain ((t == rt.jl_symbol_type) || (t == rt.julia_buff_tag)) (is_plain_tag t)
          (ltb t (small_tag jl_max_tags)) (is_sound_type h t)
          (scan_datatype rt h fuel (rt.jl_small_typeof (t / 8)) obj)
          (scan_special rt h fuel scan_gcstack t obj) (scan_datatype rt h fuel t obj) x other plain
          e
    by_type _ x other (large above sound) e =
        let t = typetagof h obj in
        dispatch_large ((t == rt.jl_symbol_type) || (t == rt.julia_buff_tag)) (is_plain_tag t)
          (ltb t (small_tag jl_max_tags)) (is_sound_type h t)
          (scan_datatype rt h fuel (rt.jl_small_typeof (t / 8)) obj)
          (scan_special rt h fuel scan_gcstack t obj) (scan_datatype rt h fuel t obj) x other
          (large-not_plain t above) (not_below t above) sound e

    -- An object whose tag is neither a symbol's nor a buffer's, and whose type is neither an array's, a
    -- memory's nor a weak reference's, reports the fields that the type's layout lists, once each and
    -- in their order, whether the entries of the table have one, two or four bytes, and whether the
    -- type is found by a small tag or by address. The table is within the address space, and the fuel
    -- more than the number of pointers.
    pub scan_julia_object-pointer_slots :
        (vt : Address)
        → ((typetagof h obj == rt.jl_symbol_type) || (typetagof h obj == rt.julia_buff_tag)) ≡ false
        → HasType rt h obj vt
        → type_name h vt ≢ rt.jl_array_typename
        → type_name h vt ≢ rt.jl_genericmemory_typename
        → vt ≢ rt.jl_weakref_type
        → IsLayout h (type_layout h vt)
        → npointers h (type_layout h vt) < fuel
        → scan_julia_object rt h fuel scan_gcstack obj
          ≡ some (pointer_slots h (type_layout h vt) obj)
    scan_julia_object-pointer_slots vt other type array memory weak ok enough =
        by_type vt (some (pointer_slots h (type_layout h vt) obj)) other type
          (datatype_lem vt array memory weak ok enough)
