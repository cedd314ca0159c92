-- ===== src/Structs/Lists.antt =====
-- mmtk/src/julia_types.rs: lists, signal sets and the heaps of threads, and what the file asserts of them.
use mmtk_julia.Base.{List, [], ◌∷◌}
use mmtk_julia.Structs.Layout.{
  Layout, Structure, scalar, pointer, array, struct_of, struct_, layout_of, std_atomic, ◌of◌,
}
use mmtk_julia.Structs.Asserted.{Assertions, Declaration}

abbrev pub sig_atomic_t : Layout
sig_atomic_t = scalar 4

abbrev pub sigset_t : Structure
sigset_t = struct_of (("__val" of array (scalar 8) 16) ∷ [])

abbrev pub sigset_t_asserted : Assertions
sigset_t_asserted = record { size = 128; align = 8; offsets = ("__val", 0) ∷ [] }

abbrev pub pthread_t : Layout
pthread_t = scalar 8

abbrev pub arraylist_t : Structure
arraylist_t = struct_of (
    ("len" of scalar 8)
    ∷ ("max" of scalar 8)
    ∷ ("items" of pointer)
    ∷ ("_space" of array pointer 29)
    ∷ [])

abbrev pub arraylist_t_asserted : Assertions
arraylist_t_asserted = record {
  size = 256;
  align = 8;
  offsets = ("len", 0) ∷ ("max", 8) ∷ ("items", 16) ∷ ("_space", 24) ∷ [];
}

abbrev pub small_arraylist_t : Structure
small_arraylist_t = struct_of (
    ("len" of scalar 8)
    ∷ ("max" of scalar 8)
    ∷ ("items" of pointer)
    ∷ ("_space" of array pointer 5)
    ∷ [])

abbrev pub small_arraylist_t_asserted : Assertions
small_arraylist_t_asserted = record {
  size = 64;
  align = 8;
  offsets = ("len", 0) ∷ ("max", 8) ∷ ("items", 16) ∷ ("_space", 24) ∷ [];
}

abbrev pub jmp_buf : Layout
jmp_buf = array (scalar 8) 8

abbrev pub jmp_buf_tag : Structure
jmp_buf_tag = struct_of (
    ("__jmpbuf" of jmp_buf)
    ∷ ("__mask_was_saved" of scalar 4)
    ∷ ("__saved_mask" of layout_of sigset_t)
    ∷ [])

abbrev pub jmp_buf_tag_asserted : Assertions
jmp_buf_tag_asserted = record {
  size = 200;
  align = 8;
  offsets = ("__jmpbuf", 0) ∷ ("__mask_was_saved", 64) ∷ ("__saved_mask", 72) ∷ [];
}

abbrev pub sigjmp_buf : Layout
sigjmp_buf = array (layout_of jmp_buf_tag) 1

abbrev pub mmtk_mutator_context : Structure
mmtk_mutator_context = record {
  kind = struct_;
  min_align = 8;
  members = ("_bindgen_opaque_blob" of array (scalar 8) 98) ∷ [];
}

abbrev pub mmtk_mutator_context_asserted : Assertions
mmtk_mutator_context_asserted = record { size = 784; align = 8; offsets = [] }

abbrev pub jl_gc_tls_states_t : Structure
jl_gc_tls_states_t = struct_of (
    ("mmtk_mutator" of layout_of mmtk_mutator_context)
    ∷ ("malloc_sz_since_last_poll" of layout_of (std_atomic (scalar 8)))
    ∷ [])

abbrev pub jl_gc_tls_states_t_asserted : Assertions
jl_gc_tls_states_t_asserted = record {
  size = 792;
  align = 8;
  offsets = ("mmtk_mutator", 0) ∷ ("malloc_sz_since_last_poll", 784) ∷ [];
}

abbrev pub jl_thread_heap_common_t : Structure
jl_thread_heap_common_t = struct_of (
    ("weak_refs" of layout_of small_arraylist_t)
    ∷ ("live_tasks" of layout_of small_arraylist_t)
    ∷ ("mallocarrays" of layout_of small_arraylist_t)
    ∷ ("free_stacks" of array (layout_of small_arraylist_t) 16)
    ∷ [])

abbrev pub jl_thread_heap_common_t_asserted : Assertions
jl_thread_heap_common_t_asserted = record {
  size = 1216;
  align = 8;
  offsets =
      ("weak_refs", 0) ∷ ("live_tasks", 64) ∷ ("mallocarrays", 128) ∷ ("free_stacks", 192) ∷ [];
}

abbrev pub jl_thread_gc_num_common_t : Structure
jl_thread_gc_num_common_t = struct_of (
    ("allocd" of layout_of (std_atomic (scalar 8)))
    ∷ ("pool_live_bytes" of layout_of (std_atomic (scalar 8)))
    ∷ ("malloc" of layout_of (std_atomic (scalar 8)))
    ∷ ("realloc" of layout_of (std_atomic (scalar 8)))
    ∷ ("poolalloc" of layout_of (std_atomic (scalar 8)))
    ∷ ("bigalloc" of layout_of (std_atomic (scalar 8)))
    ∷ ("free_acc" of layout_of (std_atomic (scalar 8)))
    ∷ ("alloc_acc" of layout_of (std_atomic (scalar 8)))
    ∷ [])

abbrev pub jl_thread_gc_num_common_t_asserted : Assertions
jl_thread_gc_num_common_t_asserted = record {
  size = 64;
  align = 8;
  offsets =
      ("allocd", 0)
      ∷ ("pool_live_bytes", 8)
      ∷ ("malloc", 16)
      ∷ ("realloc", 24)
      ∷ ("poolalloc", 32)
      ∷ ("bigalloc", 40)
      ∷ ("free_acc", 48)
      ∷ ("alloc_acc", 56)
      ∷ [];
}

abbrev pub jl_gc_tls_states_common_t : Structure
jl_gc_tls_states_common_t = struct_of (
    ("heap" of layout_of jl_thread_heap_common_t)
    ∷ ("gc_num" of layout_of jl_thread_gc_num_common_t)
    ∷ [])

-- The structures above, each with its assertions.
abbrev pub list_declarations : List Declaration
list_declarations =
    (sigset_t, sigset_t_asserted)
    ∷ (arraylist_t, arraylist_t_asserted)
    ∷ (small_arraylist_t, small_arraylist_t_asserted)
    ∷ (jmp_buf_tag, jmp_buf_tag_asserted)
    ∷ (mmtk_mutator_context, mmtk_mutator_context_asserted)
    ∷ (jl_gc_tls_states_t, jl_gc_tls_states_t_asserted)
    ∷ (jl_thread_heap_common_t, jl_thread_heap_common_t_asserted)
    ∷ (jl_thread_gc_num_common_t, jl_thread_gc_num_common_t_asserted)
    ∷ []
