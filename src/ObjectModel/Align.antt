-- ===== src/ObjectModel/Align.antt =====
-- The sizes of mmtk/src/object_model.rs: aligned, and large enough.
use mmtk_julia.Base.{
  ℕ, ◌+◌, ◌*◌, ◌/◌, ◌%◌, ◌^◌, ◌<◌, ◌≤◌, ◌≡◌, ◌≢◌, Bool, false, Option, none, some, arith, Address,
  ◌==◌, add_word, mul_word, ltb, if◌then◌else◌,
}
use mmtk_julia.Structs.Tags.{jl_module_tag, jl_simplevector_tag, jl_string_tag, jl_task_tag}
use mmtk_julia.ObjectScan.Layout.{
  Heap, Runtime, small_tag, jl_max_tags, typetagof, is_plain_tag, type_layout, layout_size,
  is_sound_type,
}
use mmtk_julia.ObjectModel.Size.{
  llt_align, with_header, structure_size, small_size, genericmemory_size, datatype_size,
  get_so_object_size,
}

-- `size` is rounded up to a multiple of `align`, by less than `align`.
abbrev pub IsRounded : (size align rounded : ℕ) → Type 0
IsRounded size align rounded = (rounded % align ≡ 0) × (size ≤ rounded) × (rounded < size + align)

pub llt_align_sixteen : (size : ℕ) → size + 16 < 2 ^ 64 → IsRounded size 16 (llt_align size 16)
unfolding llt_align
llt_align_sixteen size fits = (omega arith, omega arith, omega arith)

pub llt_align_eight : (size : ℕ) → size + 8 < 2 ^ 64 → IsRounded size 8 (llt_align size 8)
unfolding llt_align
llt_align_eight size fits = (omega arith, omega arith, omega arith)

multiple_of_sixteen : (size : ℕ) → llt_align size 16 % 16 ≡ 0
unfolding llt_align
multiple_of_sixteen size = omega arith

pub multiple_of_eight : (size : ℕ) → llt_align size 8 % 8 ≡ 0
unfolding llt_align
multiple_of_eight size = omega arith

-- The dispatch of `get_so_object_size` with its tests as variables.
size_dispatch :
    (buff plain below sound : Bool) (b a c : Option ℕ) (s size : ℕ)
    → buff ≡ false
    → (a ≡ some size → size % 16 ≡ 0)
    → (c ≡ some size → size % 16 ≡ 0)
    → s % 16 ≡ 0
    → (if buff then b else if plain then a else if below then some s else if sound then c else none)
      ≡ some size
    → size % 16 ≡ 0
size_dispatch buff plain below sound b a c s size other fa fc fs e = grind arith

module _ (rt : Runtime) (h : Heap) where
  -- The size of a simple vector, a module, a task and a string, by the small tag of the object, is
  -- that of its header and contents, rounded up to 16 bytes, for a string to 8: the vector has a
  -- word for its length and one for each element, the string a word for its length, its bytes and a
  -- closing zero. For a header and a first word, taken as a length, that do not wrap around.
  pub small_size-IsRounded :
      (object : Address)
      → h.load64 object * 8 + rt.julia_header_size + 512 < 2 ^ 64
      → IsRounded
          (h.load64 object * 8 + 8 + rt.julia_header_size)
          16
          (small_size rt h (small_tag jl_simplevector_tag) object)
        × IsRounded
            (392 + rt.julia_header_size)
            16
            (small_size rt h (small_tag jl_module_tag) object)
        × IsRounded (224 + rt.julia_header_size) 16 (small_size rt h (small_tag jl_task_tag) object)
        × IsRounded
            (h.load64 object + 9 + rt.julia_header_size)
            8
            (small_size rt h (small_tag jl_string_tag) object)
  unfolding small_size llt_align
  small_size-IsRounded object fits = (
    (omega arith, omega arith, omega arith),
    (omega arith, omega arith, omega arith),
    (omega arith, omega arith, omega arith),
    (omega arith, omega arith, omega arith),
  )

  structure_size-multiple : (vt : Address) → structure_size rt h vt % 16 ≡ 0
  unfolding structure_size
  structure_size-multiple vt =
      multiple_of_sixteen (with_header rt h (layout_size h (type_layout h vt)))

  memory_multiple : (vt object : Address) → genericmemory_size rt h vt object % 16 ≡ 0
  unfolding genericmemory_size llt_align
  memory_multiple vt object = ground arith

  datatype_multiple :
      (vt object size : ℕ) → datatype_size rt h vt object ≡ some size → size % 16 ≡ 0
  unfolding datatype_size
  datatype_multiple vt object size e =
      let a = structure_size-multiple vt in
      let b = memory_multiple (typetagof h object) object in ground arith

  small_multiple :
      (vtag object : ℕ) → vtag ≢ small_tag jl_string_tag → small_size rt h vtag object % 16 ≡ 0
  unfolding small_size
  small_multiple vtag object other =
      let s = structure_size-multiple (rt.jl_small_typeof (vtag / 8)) in
      let a = multiple_of_sixteen (with_header rt h (add_word (mul_word (h.load64 object) 8) 8)) in
      let b = multiple_of_sixteen (with_header rt h 392) in
      let c = multiple_of_sixteen (with_header rt h 224) in ground arith

  -- The size that is found for an object whose tag is neither a buffer's nor a string's is a
  -- multiple of 16, the alignment that a copy is allocated with.
  pub get_so_object_size-aligned :
      (obj_size : Address → ℕ) (object size : ℕ)
      → typetagof h object ≢ rt.julia_buff_tag
      → typetagof h object ≢ small_tag jl_string_tag
      → get_so_object_size rt h obj_size object ≡ some size
      → size % 16 ≡ 0
  unfolding get_so_object_size
  get_so_object_size-aligned obj_size object size other string e =
      let t = typetagof h object in
      size_dispatch (t == rt.julia_buff_tag) (is_plain_tag t) (ltb t (small_tag jl_max_tags))
        (is_sound_type h t) (some (obj_size object))
        (datatype_size rt h (rt.jl_small_typeof (t / 8)) object) (datatype_size rt h t object)
        (small_size rt h t object) size (grind arith)
        (datatype_multiple (rt.jl_small_typeof (t / 8)) object size)
        (datatype_multiple t object size) (small_multiple t object string) e
