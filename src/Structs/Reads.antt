-- ===== src/Structs/Reads.antt =====
-- The reads of the scanner and of the object model, against the fields of the structures: each stands
-- at the offset that `#[repr(C)]` gives its field.
use Prim.Native.String.{String}
use mathlib.Core.Option
use native.Mathlib.Nat.{add-zero}
use mmtk_julia.Base.{ℕ, ◌+◌, ◌/◌, ◌%◌, ◌^◌, ◌≡◌, refl, ap, Option, some, Address, ◌>>=◌}
use mmtk_julia.Structs.Tags.{jl_module_tag, jl_task_tag}
use mmtk_julia.Structs.Layout.{Structure, offset_of, layout_of, size_of}
use mmtk_julia.Structs.Objects.{
  jl_task_t, jl_svec_t, jl_genericmemory_t, jl_genericmemoryref_t, jl_array_t,
}
use mmtk_julia.Structs.Lists.{arraylist_t}
use mmtk_julia.Structs.Threads.{jl_ucontext_t}
use mmtk_julia.Structs.Types.{jl_datatype_t, jl_datatype_layout_t}
use mmtk_julia.Structs.Modules.{jl_module_t}
use mmtk_julia.ObjectScan.Layout.{
  Heap, Runtime, small_tag, type_name, type_layout, smalltag, layout_size, nfields, npointers,
  first_ptr, layout_flags, svec_len, usings_len, usings_items, memory_length, memory_ptr,
  ref_ptr_or_offset, ref_mem, ctx_stkbuf, ctx_bitfield_1, task_tid, task_gcstack, task_ptls,
  task_excstack,
}
use mmtk_julia.ObjectModel.Size.{small_size, with_header, llt_align}
use mmtk_julia.ObjectScan.Object.{offset_of_inlined_space_in_module}

-- `(*base).n`, read at the width of `load`.
abbrev pub field : (Address → ℕ) → Structure → String → Address → Option ℕ
field load s n base = Option.map (λ (o : ℕ). load (base + o)) (offset_of s n)

-- `offset_of!(S, n) + offset_of!(T, k)`, for a field within a field.
abbrev pub inner_offset : Structure → String → Structure → String → Option ℕ
inner_offset s n t k = do o ← offset_of s n; i ← offset_of t k; some (o + i)

abbrev pub inner_field :
    (Address → ℕ) → Structure → String → Structure → String → Address → Option ℕ
inner_field load s n t k base = Option.map (λ (o : ℕ). load (base + o)) (inner_offset s n t k)

abbrev pub TypeReads : Heap → (vt l : Address) → Type 0
TypeReads h vt l =
    (field h.load64 jl_datatype_t "name" vt ≡ some (type_name h vt))
    × (field h.load64 jl_datatype_t "layout" vt ≡ some (type_layout h vt))
    × (Option.map (λ (w : ℕ). w / 2 ^ 10 % 64) (field h.load16 jl_datatype_t "_bitfield_1" vt)
        ≡ some (smalltag h vt))
    × (field h.load32 jl_datatype_layout_t "size" l ≡ some (layout_size h l))
    × (field h.load32 jl_datatype_layout_t "nfields" l ≡ some (nfields h l))
    × (field h.load32 jl_datatype_layout_t "npointers" l ≡ some (npointers h l))
    × (field h.load32 jl_datatype_layout_t "first_ptr" l ≡ some (first_ptr h l))
    × (field h.load16 jl_datatype_layout_t "flags" l ≡ some (layout_flags h l))

-- A field at the start of its structure.
at_start : (load : Address → ℕ) (base : Address) → some (load (base + 0)) ≡ some (load base)
at_start load base = ap (λ (a : Address). some (load a)) (add-zero base)

type_reads : (h : Heap) (vt l : Address) → TypeReads h vt l
unfolding offset_of layout_of
type_reads h vt l = (at_start h.load64 vt, refl, refl, at_start h.load32 l, refl, refl, refl, refl)

-- Of a task and its context.
abbrev pub TaskReads : Heap → (ta : Address) → Type 0
TaskReads h ta =
    (inner_field h.load64 jl_task_t "ctx" jl_ucontext_t "stkbuf" ta ≡ some (ctx_stkbuf h ta))
    × (inner_field h.load32 jl_task_t "ctx" jl_ucontext_t "_bitfield_1" ta
        ≡ some (ctx_bitfield_1 h ta))
    × (field h.load16 jl_task_t "tid" ta ≡ some (task_tid h ta))
    × (field h.load64 jl_task_t "gcstack" ta ≡ some (task_gcstack h ta))
    × (field h.load64 jl_task_t "ptls" ta ≡ some (task_ptls h ta))
    × (field h.load64 jl_task_t "excstack" ta ≡ some (task_excstack h ta))

task_reads : (h : Heap) (ta : Address) → TaskReads h ta
unfolding offset_of layout_of
task_reads h ta = (refl, refl, refl, refl, refl, refl)

-- Of vectors, modules, arrays and memories.
abbrev pub ObjectReads : Heap → (obj : Address) → Type 0
ObjectReads h obj =
    (field h.load64 jl_svec_t "length" obj ≡ some (svec_len h obj))
    × (inner_field h.load64 jl_module_t "usings" arraylist_t "len" obj ≡ some (usings_len h obj))
    × (inner_field h.load64 jl_module_t "usings" arraylist_t "items" obj
        ≡ some (usings_items h obj))
    × (inner_offset jl_module_t "usings" arraylist_t "_space"
        ≡ some offset_of_inlined_space_in_module)
    × (field h.load64 jl_genericmemory_t "length" obj ≡ some (memory_length h obj))
    × (field h.load64 jl_genericmemory_t "ptr" obj ≡ some (memory_ptr h obj))
    × (inner_field h.load64 jl_array_t "ref_" jl_genericmemoryref_t "ptr_or_offset" obj
        ≡ some (ref_ptr_or_offset h obj))
    × (inner_field h.load64 jl_array_t "ref_" jl_genericmemoryref_t "mem" obj
        ≡ some (ref_mem h obj))

object_reads : (h : Heap) (obj : Address) → ObjectReads h obj
unfolding offset_of layout_of
object_reads h obj = (
  at_start h.load64 obj,
  refl,
  refl,
  refl,
  at_start h.load64 obj,
  refl,
  at_start h.load64 obj,
  refl,
)

module _ (rt : Runtime) (h : Heap) where
  -- The sizes of the objects whose tag alone gives their structure.
  abbrev pub TagSizes : Address → Type 0
  TagSizes obj =
      (small_size rt h (small_tag jl_module_tag) obj
        ≡ llt_align (with_header rt h (size_of jl_module_t)) 16)
      × (small_size rt h (small_tag jl_task_tag) obj
          ≡ llt_align (with_header rt h (size_of jl_task_t)) 16)

  tag_sizes : (obj : Address) → TagSizes obj
  unfolding size_of layout_of small_size
  tag_sizes obj = (refl, refl)

  -- The places that ObjectScan.Layout and ObjectModel.Size write as numbers, for types, layouts,
  -- tasks, vectors, modules, arrays and memories, are the offsets and sizes that `#[repr(C)]` gives the
  -- declared structures, fields of fields included.
  reads-offsets :
      (vt l ta obj : Address) → TypeReads h vt l × TaskReads h ta × ObjectReads h obj × TagSizes obj
  reads-offsets vt l ta obj =
      (type_reads h vt l, task_reads h ta, object_reads h obj, tag_sizes obj)
