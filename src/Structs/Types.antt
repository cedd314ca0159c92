-- ===== src/Structs/Types.antt =====
-- mmtk/src/julia_types.rs: types and their layouts, and what the file asserts of them.
use mmtk_julia.Base.{List, [], ◌∷◌}
use mmtk_julia.Structs.Layout.{
  Structure, scalar, pointer, array, bitfield_unit, struct_of, struct_, layout_of, std_atomic, ◌of◌,
}
use mmtk_julia.Structs.Asserted.{Assertions, Declaration}

abbrev pub jl_typename_t : Structure
jl_typename_t = struct_of (
    ("name" of pointer)
    ∷ ("module" of pointer)
    ∷ ("singletonname" of pointer)
    ∷ ("names" of pointer)
    ∷ ("atomicfields" of pointer)
    ∷ ("constfields" of pointer)
    ∷ ("wrapper" of pointer)
    ∷ ("Typeofwrapper" of scalar 8)
    ∷ ("cache" of scalar 8)
    ∷ ("linearcache" of scalar 8)
    ∷ ("partial" of pointer)
    ∷ ("hash" of scalar 8)
    ∷ ("max_args" of layout_of (std_atomic (scalar 4)))
    ∷ ("n_uninitialized" of scalar 4)
    ∷ ("_bitfield_align_1" of array (scalar 1) 0)
    ∷ ("_bitfield_1" of bitfield_unit 1)
    ∷ ("cache_entry_count" of layout_of (std_atomic (scalar 1)))
    ∷ ("max_methods" of scalar 1)
    ∷ ("constprop_heustic" of scalar 1)
    ∷ [])

abbrev pub jl_typename_t_asserted : Assertions
jl_typename_t_asserted = record {
  size = 112;
  align = 8;
  offsets =
      ("name", 0)
      ∷ ("module", 8)
      ∷ ("singletonname", 16)
      ∷ ("names", 24)
      ∷ ("atomicfields", 32)
      ∷ ("constfields", 40)
      ∷ ("wrapper", 48)
      ∷ ("Typeofwrapper", 56)
      ∷ ("cache", 64)
      ∷ ("linearcache", 72)
      ∷ ("partial", 80)
      ∷ ("hash", 88)
      ∷ ("max_args", 96)
      ∷ ("n_uninitialized", 100)
      ∷ ("cache_entry_count", 105)
      ∷ ("max_methods", 106)
      ∷ ("constprop_heustic", 107)
      ∷ [];
}

abbrev pub jl_datatype_layout_t_anon_1 : Structure
jl_datatype_layout_t_anon_1 = record {
  kind = struct_;
  min_align = 2;
  members = ("_bitfield_align_1" of array (scalar 1) 0) ∷ ("_bitfield_1" of bitfield_unit 2) ∷ [];
}

abbrev pub jl_datatype_layout_t_anon_1_asserted : Assertions
jl_datatype_layout_t_anon_1_asserted = record { size = 2; align = 2; offsets = [] }

abbrev pub jl_datatype_layout_t : Structure
jl_datatype_layout_t = struct_of (
    ("size" of scalar 4)
    ∷ ("nfields" of scalar 4)
    ∷ ("npointers" of scalar 4)
    ∷ ("first_ptr" of scalar 4)
    ∷ ("alignment" of scalar 2)
    ∷ ("flags" of layout_of jl_datatype_layout_t_anon_1)
    ∷ [])

abbrev pub jl_datatype_layout_t_asserted : Assertions
jl_datatype_layout_t_asserted = record {
  size = 20;
  align = 4;
  offsets =
      ("size", 0)
      ∷ ("nfields", 4)
      ∷ ("npointers", 8)
      ∷ ("first_ptr", 12)
      ∷ ("alignment", 16)
      ∷ ("flags", 18)
      ∷ [];
}

abbrev pub jl_datatype_t : Structure
jl_datatype_t = struct_of (
    ("name" of pointer)
    ∷ ("super_" of pointer)
    ∷ ("parameters" of pointer)
    ∷ ("types" of pointer)
    ∷ ("instance" of pointer)
    ∷ ("layout" of pointer)
    ∷ ("hash" of scalar 4)
    ∷ ("_bitfield_align_1" of array (scalar 1) 0)
    ∷ ("_bitfield_1" of bitfield_unit 2)
    ∷ ("__bindgen_padding_0" of scalar 2)
    ∷ [])

abbrev pub jl_datatype_t_asserted : Assertions
jl_datatype_t_asserted = record {
  size = 56;
  align = 8;
  offsets =
      ("name", 0)
      ∷ ("super_", 8)
      ∷ ("parameters", 16)
      ∷ ("types", 24)
      ∷ ("instance", 32)
      ∷ ("layout", 40)
      ∷ ("hash", 48)
      ∷ [];
}

abbrev pub jl_weakref_t : Structure
jl_weakref_t = struct_of (("value" of pointer) ∷ [])

abbrev pub jl_weakref_t_asserted : Assertions
jl_weakref_t_asserted = record { size = 8; align = 8; offsets = ("value", 0) ∷ [] }

-- The structures above, each with its assertions.
abbrev pub type_declarations : List Declaration
type_declarations =
    (jl_typename_t, jl_typename_t_asserted)
    ∷ (jl_datatype_layout_t_anon_1, jl_datatype_layout_t_anon_1_asserted)
    ∷ (jl_datatype_layout_t, jl_datatype_layout_t_asserted)
    ∷ (jl_datatype_t, jl_datatype_t_asserted)
    ∷ (jl_weakref_t, jl_weakref_t_asserted)
    ∷ []
