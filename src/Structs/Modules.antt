-- ===== src/Structs/Modules.antt =====
-- mmtk/src/julia_types.rs: modules, frames, handlers and buffers, and what the file asserts of them.
use mmtk_julia.Base.{List, [], ◌∷◌}
use mmtk_julia.Structs.Layout.{
  Structure, scalar, pointer, struct_of, union_of, layout_of, std_atomic, ◌of◌,
}
use mmtk_julia.Structs.Asserted.{Assertions, Declaration}
use mmtk_julia.Structs.Lists.{arraylist_t, sig_atomic_t, sigjmp_buf}
use mmtk_julia.Structs.Threads.{jl_mutex_t}

abbrev pub jl_binding_partition_t : Structure
jl_binding_partition_t = struct_of (
    ("restriction" of pointer)
    ∷ ("min_world" of layout_of (std_atomic (scalar 8)))
    ∷ ("max_world" of layout_of (std_atomic (scalar 8)))
    ∷ ("next" of scalar 8)
    ∷ ("kind" of scalar 8)
    ∷ [])

abbrev pub jl_binding_partition_t_asserted : Assertions
jl_binding_partition_t_asserted = record {
  size = 40;
  align = 8;
  offsets =
      ("restriction", 0) ∷ ("min_world", 8) ∷ ("max_world", 16) ∷ ("next", 24) ∷ ("kind", 32) ∷ [];
}

abbrev pub jl_uuid_t : Structure
jl_uuid_t = struct_of (("hi" of scalar 8) ∷ ("lo" of scalar 8) ∷ [])

abbrev pub jl_uuid_t_asserted : Assertions
jl_uuid_t_asserted = record { size = 16; align = 8; offsets = ("hi", 0) ∷ ("lo", 8) ∷ [] }

abbrev pub jl_module_t : Structure
jl_module_t = struct_of (
    ("name" of pointer)
    ∷ ("parent" of pointer)
    ∷ ("bindings" of scalar 8)
    ∷ ("bindingkeyset" of scalar 8)
    ∷ ("file" of pointer)
    ∷ ("line" of scalar 4)
    ∷ ("usings_backedges" of pointer)
    ∷ ("scanned_methods" of pointer)
    ∷ ("usings" of layout_of arraylist_t)
    ∷ ("build_id" of layout_of jl_uuid_t)
    ∷ ("uuid" of layout_of jl_uuid_t)
    ∷ ("counter" of layout_of (std_atomic (scalar 4)))
    ∷ ("nospecialize" of scalar 4)
    ∷ ("optlevel" of scalar 1)
    ∷ ("compile" of scalar 1)
    ∷ ("infer" of scalar 1)
    ∷ ("istopmod" of scalar 1)
    ∷ ("max_methods" of scalar 1)
    ∷ ("export_set_changed_since_require_world" of layout_of (std_atomic (scalar 1)))
    ∷ ("has_reexports" of layout_of (std_atomic (scalar 1)))
    ∷ ("lock" of layout_of jl_mutex_t)
    ∷ ("hash" of scalar 8)
    ∷ [])

abbrev pub jl_module_t_asserted : Assertions
jl_module_t_asserted = record {
  size = 392;
  align = 8;
  offsets =
      ("name", 0)
      ∷ ("parent", 8)
      ∷ ("bindings", 16)
      ∷ ("bindingkeyset", 24)
      ∷ ("file", 32)
      ∷ ("line", 40)
      ∷ ("usings_backedges", 48)
      ∷ ("scanned_methods", 56)
      ∷ ("usings", 64)
      ∷ ("build_id", 320)
      ∷ ("uuid", 336)
      ∷ ("counter", 352)
      ∷ ("nospecialize", 356)
      ∷ ("optlevel", 360)
      ∷ ("compile", 361)
      ∷ ("infer", 362)
      ∷ ("istopmod", 363)
      ∷ ("max_methods", 364)
      ∷ ("export_set_changed_since_require_world", 365)
      ∷ ("has_reexports", 366)
      ∷ ("lock", 368)
      ∷ ("hash", 384)
      ∷ [];
}

abbrev pub jl_gcframe_t : Structure
jl_gcframe_t = struct_of (("nroots" of scalar 8) ∷ ("prev" of pointer) ∷ [])

abbrev pub jl_gcframe_t_asserted : Assertions
jl_gcframe_t_asserted = record { size = 16; align = 8; offsets = ("nroots", 0) ∷ ("prev", 8) ∷ [] }

abbrev pub jl_handler_t : Structure
jl_handler_t = struct_of (
    ("eh_ctx" of sigjmp_buf)
    ∷ ("gcstack" of pointer)
    ∷ ("scope" of pointer)
    ∷ ("prev" of pointer)
    ∷ ("locks_len" of scalar 8)
    ∷ ("timing_stack" of pointer)
    ∷ ("world_age" of scalar 8)
    ∷ ("defer_signal" of sig_atomic_t)
    ∷ ("gc_state" of scalar 1)
    ∷ [])

abbrev pub jl_handler_t_asserted : Assertions
jl_handler_t_asserted = record {
  size = 256;
  align = 8;
  offsets =
      ("eh_ctx", 0)
      ∷ ("gcstack", 200)
      ∷ ("scope", 208)
      ∷ ("prev", 216)
      ∷ ("locks_len", 224)
      ∷ ("timing_stack", 232)
      ∷ ("world_age", 240)
      ∷ ("defer_signal", 248)
      ∷ ("gc_state", 252)
      ∷ [];
}

abbrev pub jl_bt_element_t_anon_1 : Structure
jl_bt_element_t_anon_1 = union_of (("uintptr" of scalar 8) ∷ ("jlvalue" of pointer) ∷ [])

abbrev pub jl_bt_element_t_anon_1_asserted : Assertions
jl_bt_element_t_anon_1_asserted = record {
  size = 8;
  align = 8;
  offsets = ("uintptr", 0) ∷ ("jlvalue", 0) ∷ [];
}

abbrev pub jl_bt_element_t : Structure
jl_bt_element_t = struct_of (("__bindgen_anon_1" of layout_of jl_bt_element_t_anon_1) ∷ [])

abbrev pub jl_bt_element_t_asserted : Assertions
jl_bt_element_t_asserted = record { size = 8; align = 8; offsets = [] }

abbrev pub jl_excstack_t : Structure
jl_excstack_t = struct_of (("top" of scalar 8) ∷ ("reserved_size" of scalar 8) ∷ [])

abbrev pub jl_excstack_t_asserted : Assertions
jl_excstack_t_asserted = record {
  size = 16;
  align = 8;
  offsets = ("top", 0) ∷ ("reserved_size", 8) ∷ [];
}

abbrev pub jl_timing_block_t : Structure
jl_timing_block_t = struct_of (("_address" of scalar 1) ∷ [])

-- The structures above, each with its assertions.
abbrev pub module_declarations : List Declaration
module_declarations =
    (jl_binding_partition_t, jl_binding_partition_t_asserted)
    ∷ (jl_uuid_t, jl_uuid_t_asserted)
    ∷ (jl_module_t, jl_module_t_asserted)
    ∷ (jl_gcframe_t, jl_gcframe_t_asserted)
    ∷ (jl_handler_t, jl_handler_t_asserted)
    ∷ (jl_bt_element_t_anon_1, jl_bt_element_t_anon_1_asserted)
    ∷ (jl_bt_element_t, jl_bt_element_t_asserted)
    ∷ (jl_excstack_t, jl_excstack_t_asserted)
    ∷ []

-- The assertions about instances of `std_atomic`, up to `_jl_timing_block_t`.
abbrev pub first_atomic_declarations : List Declaration
first_atomic_declarations =
    (std_atomic (scalar 8), record { size = 8; align = 8; offsets = [] })
    ∷ (std_atomic (scalar 8), record { size = 8; align = 8; offsets = [] })
    ∷ (std_atomic (scalar 8), record { size = 8; align = 8; offsets = [] })
    ∷ (std_atomic (scalar 8), record { size = 8; align = 8; offsets = [] })
    ∷ (std_atomic (scalar 8), record { size = 8; align = 8; offsets = [] })
    ∷ (std_atomic (scalar 8), record { size = 8; align = 8; offsets = [] })
    ∷ (std_atomic (scalar 8), record { size = 8; align = 8; offsets = [] })
    ∷ (std_atomic (scalar 8), record { size = 8; align = 8; offsets = [] })
    ∷ (std_atomic (scalar 8), record { size = 8; align = 8; offsets = [] })
    ∷ (std_atomic (scalar 1), record { size = 1; align = 1; offsets = [] })
    ∷ (std_atomic (scalar 1), record { size = 1; align = 1; offsets = [] })
    ∷ []

-- Those after it.
abbrev pub later_atomic_declarations : List Declaration
later_atomic_declarations =
    (std_atomic (sig_atomic_t), record { size = 4; align = 4; offsets = [] })
    ∷ (std_atomic (scalar 2), record { size = 2; align = 2; offsets = [] })
    ∷ (std_atomic (scalar 1), record { size = 1; align = 1; offsets = [] })
    ∷ (std_atomic (scalar 1), record { size = 1; align = 1; offsets = [] })
    ∷ (std_atomic (scalar 8), record { size = 8; align = 8; offsets = [] })
    ∷ (std_atomic (scalar 8), record { size = 8; align = 8; offsets = [] })
    ∷ (std_atomic (scalar 8), record { size = 8; align = 8; offsets = [] })
    ∷ (std_atomic (scalar 8), record { size = 8; align = 8; offsets = [] })
    ∷ (std_atomic (scalar 2), record { size = 2; align = 2; offsets = [] })
    ∷ (std_atomic (scalar 4), record { size = 4; align = 4; offsets = [] })
    ∷ (std_atomic (scalar 1), record { size = 1; align = 1; offsets = [] })
    ∷ (std_atomic (scalar 8), record { size = 8; align = 8; offsets = [] })
    ∷ (std_atomic (scalar 8), record { size = 8; align = 8; offsets = [] })
    ∷ (std_atomic (scalar 4), record { size = 4; align = 4; offsets = [] })
    ∷ (std_atomic (scalar 1), record { size = 1; align = 1; offsets = [] })
    ∷ (std_atomic (scalar 1), record { size = 1; align = 1; offsets = [] })
    ∷ []
