-- ===== src/ObjectModel/Size.antt =====
-- mmtk/src/object_model.rs: `get_so_object_size`, the size of an object outside the large object
-- space, its header included. The sizes of structures are those that julia_types.rs asserts; `none`
-- stands for a panic.
use mmtk_julia.Base.{
  ℕ, ◌+◌, ◌-◌, ◌/◌, ◌%◌, ◌^◌, Bool, ◌&&◌, not, Option, none, some, Address, add_word, sub_word,
  mul_word, ◌==◌, ltb, leb, if◌then◌else◌,
}
use mmtk_julia.Structs.Tags.{
  jl_uniontype_tag, jl_module_tag, jl_simplevector_tag, jl_string_tag, jl_task_tag,
}
use mmtk_julia.ObjectScan.Layout.{
  svec_len, memory_length, Heap, Runtime, small_tag, jl_max_tags, typetagof, typeof, is_plain_tag,
  type_name, type_layout, is_sound_type, layout_size, layout_flags,
}

-- `x & !(align - 1)` for an `align` that is a power of two: the bits below `align` are cleared.
abbrev pub and_not_below : ℕ → ℕ → ℕ
and_not_below x align = x - x % align

unfoldable pub llt_align : ℕ → ℕ → ℕ
llt_align size align = and_not_below (sub_word (add_word size align) 1) align

unfoldable pub is_object_in_los : Address → Bool
is_object_in_los object = leb 6597069766656 object && ltb object 8796093022208

-- `obj_size` is `mmtk_get_obj_size`, for a buffer.
module _ (rt : Runtime) (h : Heap) where
  abbrev pub with_header : ℕ → ℕ
  with_header dtsz = add_word dtsz rt.julia_header_size

  unfoldable pub structure_size : Address → ℕ
  structure_size vt = llt_align (with_header (layout_size h (type_layout h vt))) 16

  unfoldable pub small_size : (vtag object : ℕ) → ℕ
  unfolding structure_size
  small_size vtag object =
      if vtag == small_tag jl_simplevector_tag
      then llt_align (with_header (add_word (mul_word (svec_len h object) 8) 8)) 16
      else if vtag == small_tag jl_module_tag
      then llt_align (with_header 392) 16
      else if vtag == small_tag jl_task_tag
      then llt_align (with_header 224) 16
      else if vtag == small_tag jl_string_tag
      then llt_align (with_header (add_word (add_word (h.load64 object) 8) 1)) 8
      else structure_size (rt.jl_small_typeof (vtag / 8))

  unfoldable pub genericmemory_size : (vt object : Address) → ℕ
  genericmemory_size vt object =
      let layout = type_layout h vt in
      let length = memory_length h object in
      let boxes = mul_word (layout_size h layout) length in
      let sz =
        if not (layout_flags h layout / 2 ^ 4 % 2 == 0) then add_word boxes length else boxes in
      if rt.gc_genericmemory_how object == 0
      then llt_align (with_header (add_word sz (llt_align 16 16))) 16
      else llt_align (with_header (16 + 8)) 16

  -- Behind the dispatch, for the type at `vt`: the assertion that it is the object's type, then its
  -- size.
  unfoldable pub datatype_size : (vt object : Address) → Option ℕ
  unfolding genericmemory_size structure_size
  datatype_size vt object =
      if not (typeof rt h object == vt)
      then none
      else if type_name h vt == rt.jl_genericmemory_typename
      then some (genericmemory_size (typetagof h object) object)
      else some (structure_size vt)

  unfoldable pub get_so_object_size : (obj_size : Address → ℕ) → Address → Option ℕ
  unfolding small_size datatype_size
  get_so_object_size obj_size object =
      let vtag = typetagof h object in
      if vtag == rt.julia_buff_tag
      then some (obj_size object)
      else if is_plain_tag vtag
      then datatype_size (rt.jl_small_typeof (vtag / 8)) object
      else if ltb vtag (small_tag jl_max_tags)
      then some (small_size vtag object)
      else if is_sound_type h vtag
      then datatype_size vtag object
      else none

  unfoldable pub get_object_start_ref : Address → Address
  get_object_start_ref object =
      if typeof rt h object == rt.julia_buff_tag
      then sub_word object (mul_word 2 rt.julia_header_size)
      else sub_word object rt.julia_header_size

  unfoldable pub ref_to_object_start : Address → Address
  unfolding is_object_in_los get_object_start_ref
  ref_to_object_start object =
      if is_object_in_los object then sub_word object 48 else get_object_start_ref object

  -- The other questions of mmtk-core about an object, and the test for a union type.
  unfoldable pub get_current_size : (obj_size : Address → ℕ) → Address → Option ℕ
  unfolding get_so_object_size
  get_current_size obj_size object = get_so_object_size obj_size object

  unfoldable pub mmtk_jl_is_uniontype : Address → Bool
  mmtk_jl_is_uniontype t = typetagof h t == small_tag jl_uniontype_tag

unfoldable pub ref_to_header : Address → Address
ref_to_header object = object
