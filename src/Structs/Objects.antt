-- ===== src/Structs/Objects.antt =====
-- mmtk/src/julia_types.rs: tasks and objects, and what the file asserts of them.
use mmtk_julia.Base.{List, [], ◌∷◌}
use mmtk_julia.Structs.Layout.{
  Structure, scalar, pointer, array, bitfield_unit, struct_of, union_of, layout_of,
  incomplete_array_field, std_atomic, ◌of◌,
}
use mmtk_julia.Structs.Asserted.{Assertions, Declaration}
use mmtk_julia.Structs.Threads.{jl_ucontext_t}

abbrev pub jl_task_t : Structure
jl_task_t = struct_of (
    ("next" of pointer)
    ∷ ("queue" of pointer)
    ∷ ("tls" of pointer)
    ∷ ("donenotify" of pointer)
    ∷ ("result" of pointer)
    ∷ ("scope" of pointer)
    ∷ ("start" of pointer)
    ∷ ("_state" of layout_of (std_atomic (scalar 1)))
    ∷ ("sticky" of scalar 1)
    ∷ ("priority" of scalar 2)
    ∷ ("_isexception" of layout_of (std_atomic (scalar 1)))
    ∷ ("pad0" of array (scalar 1) 3)
    ∷ ("rngState" of array (scalar 8) 5)
    ∷ ("metrics_enabled" of scalar 1)
    ∷ ("pad1" of array (scalar 1) 3)
    ∷ ("first_enqueued_at" of layout_of (std_atomic (scalar 8)))
    ∷ ("last_started_running_at" of layout_of (std_atomic (scalar 8)))
    ∷ ("running_time_ns" of layout_of (std_atomic (scalar 8)))
    ∷ ("finished_at" of layout_of (std_atomic (scalar 8)))
    ∷ ("tid" of layout_of (std_atomic (scalar 2)))
    ∷ ("threadpoolid" of scalar 1)
    ∷ ("reentrant_timing" of scalar 1)
    ∷ ("gcstack" of pointer)
    ∷ ("world_age" of scalar 8)
    ∷ ("ptls" of pointer)
    ∷ ("excstack" of pointer)
    ∷ ("eh" of pointer)
    ∷ ("ctx" of layout_of jl_ucontext_t)
    ∷ [])

abbrev pub jl_task_t_asserted : Assertions
jl_task_t_asserted = record {
  size = 224;
  align = 8;
  offsets =
      ("next", 0)
      ∷ ("queue", 8)
      ∷ ("tls", 16)
      ∷ ("donenotify", 24)
      ∷ ("result", 32)
      ∷ ("scope", 40)
      ∷ ("start", 48)
      ∷ ("_state", 56)
      ∷ ("sticky", 57)
      ∷ ("priority", 58)
      ∷ ("_isexception", 60)
      ∷ ("pad0", 61)
      ∷ ("rngState", 64)
      ∷ ("metrics_enabled", 104)
      ∷ ("pad1", 105)
      ∷ ("first_enqueued_at", 112)
      ∷ ("last_started_running_at", 120)
      ∷ ("running_time_ns", 128)
      ∷ ("finished_at", 136)
      ∷ ("tid", 144)
      ∷ ("threadpoolid", 146)
      ∷ ("reentrant_timing", 147)
      ∷ ("gcstack", 152)
      ∷ ("world_age", 160)
      ∷ ("ptls", 168)
      ∷ ("excstack", 176)
      ∷ ("eh", 184)
      ∷ ("ctx", 192)
      ∷ [];
}

abbrev pub jl_taggedvalue_bits : Structure
jl_taggedvalue_bits =
    struct_of
      (("_bitfield_align_1" of array (scalar 8) 0) ∷ ("_bitfield_1" of bitfield_unit 8) ∷ [])

abbrev pub jl_taggedvalue_bits_asserted : Assertions
jl_taggedvalue_bits_asserted = record { size = 8; align = 8; offsets = [] }

abbrev pub jl_taggedvalue_t_anon_1 : Structure
jl_taggedvalue_t_anon_1 = union_of (
    ("header" of scalar 8)
    ∷ ("next" of pointer)
    ∷ ("type_" of pointer)
    ∷ ("bits" of layout_of jl_taggedvalue_bits)
    ∷ [])

abbrev pub jl_taggedvalue_t_anon_1_asserted : Assertions
jl_taggedvalue_t_anon_1_asserted = record {
  size = 8;
  align = 8;
  offsets = ("header", 0) ∷ ("next", 0) ∷ ("type_", 0) ∷ ("bits", 0) ∷ [];
}

abbrev pub jl_taggedvalue_t : Structure
jl_taggedvalue_t = struct_of (("__bindgen_anon_1" of layout_of jl_taggedvalue_t_anon_1) ∷ [])

abbrev pub jl_taggedvalue_t_asserted : Assertions
jl_taggedvalue_t_asserted = record { size = 8; align = 8; offsets = [] }

abbrev pub jl_sym_t : Structure
jl_sym_t = struct_of (("left" of scalar 8) ∷ ("right" of scalar 8) ∷ ("hash" of scalar 8) ∷ [])

abbrev pub jl_sym_t_asserted : Assertions
jl_sym_t_asserted = record {
  size = 24;
  align = 8;
  offsets = ("left", 0) ∷ ("right", 8) ∷ ("hash", 16) ∷ [];
}

abbrev pub jl_svec_t : Structure
jl_svec_t = struct_of (("length" of scalar 8) ∷ [])

abbrev pub jl_svec_t_asserted : Assertions
jl_svec_t_asserted = record { size = 8; align = 8; offsets = ("length", 0) ∷ [] }

abbrev pub jl_genericmemory_t : Structure
jl_genericmemory_t = struct_of (("length" of scalar 8) ∷ ("ptr" of pointer) ∷ [])

abbrev pub jl_genericmemory_t_asserted : Assertions
jl_genericmemory_t_asserted = record {
  size = 16;
  align = 8;
  offsets = ("length", 0) ∷ ("ptr", 8) ∷ [];
}

abbrev pub jl_genericmemoryref_t : Structure
jl_genericmemoryref_t = struct_of (("ptr_or_offset" of pointer) ∷ ("mem" of pointer) ∷ [])

abbrev pub jl_genericmemoryref_t_asserted : Assertions
jl_genericmemoryref_t_asserted = record {
  size = 16;
  align = 8;
  offsets = ("ptr_or_offset", 0) ∷ ("mem", 8) ∷ [];
}

abbrev pub jl_array_t : Structure
jl_array_t = struct_of (
    ("ref_" of layout_of jl_genericmemoryref_t)
    ∷ ("dimsize" of layout_of (incomplete_array_field (scalar 8)))
    ∷ [])

abbrev pub jl_array_t_asserted : Assertions
jl_array_t_asserted = record { size = 16; align = 8; offsets = ("ref_", 0) ∷ ("dimsize", 16) ∷ [] }

-- The structures above, each with its assertions.
abbrev pub object_declarations : List Declaration
object_declarations =
    (jl_task_t, jl_task_t_asserted)
    ∷ (jl_taggedvalue_bits, jl_taggedvalue_bits_asserted)
    ∷ (jl_taggedvalue_t_anon_1, jl_taggedvalue_t_anon_1_asserted)
    ∷ (jl_taggedvalue_t, jl_taggedvalue_t_asserted)
    ∷ (jl_sym_t, jl_sym_t_asserted)
    ∷ (jl_svec_t, jl_svec_t_asserted)
    ∷ (jl_genericmemory_t, jl_genericmemory_t_asserted)
    ∷ (jl_genericmemoryref_t, jl_genericmemoryref_t_asserted)
    ∷ (jl_array_t, jl_array_t_asserted)
    ∷ []
