-- ===== src/Structs/Threads.antt =====
-- mmtk/src/julia_types.rs: contexts and thread states, and what the file asserts of them.
use mmtk_julia.Base.{List, [], ◌∷◌}
use mmtk_julia.Structs.Layout.{
  Layout, Structure, scalar, pointer, array, bitfield_unit, struct_of, union_of, layout_of,
  std_atomic, ◌of◌,
}
use mmtk_julia.Structs.Asserted.{Assertions, Declaration}
use mmtk_julia.Structs.Lists.{
  arraylist_t, jl_gc_tls_states_common_t, jl_gc_tls_states_t, pthread_t, sig_atomic_t, sigjmp_buf,
  small_arraylist_t,
}

abbrev pub jl_gc_tls_states_common_t_asserted : Assertions
jl_gc_tls_states_common_t_asserted = record {
  size = 1280;
  align = 8;
  offsets = ("heap", 0) ∷ ("gc_num", 1216) ∷ [];
}

abbrev pub jl_stack_context_t : Structure
jl_stack_context_t = struct_of (("uc_mcontext" of sigjmp_buf) ∷ [])

abbrev pub jl_stack_context_t_asserted : Assertions
jl_stack_context_t_asserted = record { size = 200; align = 8; offsets = ("uc_mcontext", 0) ∷ [] }

abbrev pub jl_ucontext_t_anon_1 : Structure
jl_ucontext_t_anon_1 = union_of (("ctx" of pointer) ∷ ("copy_ctx" of pointer) ∷ [])

abbrev pub jl_ucontext_t_anon_1_asserted : Assertions
jl_ucontext_t_anon_1_asserted = record {
  size = 8;
  align = 8;
  offsets = ("ctx", 0) ∷ ("copy_ctx", 0) ∷ [];
}

abbrev pub jl_ucontext_t : Structure
jl_ucontext_t = struct_of (
    ("__bindgen_anon_1" of layout_of jl_ucontext_t_anon_1)
    ∷ ("stkbuf" of pointer)
    ∷ ("bufsz" of scalar 8)
    ∷ ("_bitfield_align_1" of array (scalar 4) 0)
    ∷ ("_bitfield_1" of bitfield_unit 4)
    ∷ ("__bindgen_padding_0" of scalar 4)
    ∷ [])

abbrev pub jl_ucontext_t_asserted : Assertions
jl_ucontext_t_asserted = record {
  size = 32;
  align = 8;
  offsets = ("stkbuf", 8) ∷ ("bufsz", 16) ∷ [];
}

abbrev pub jl_thread_t : Layout
jl_thread_t = pthread_t

abbrev pub jl_mutex_t : Structure
jl_mutex_t = struct_of (("owner" of scalar 8) ∷ ("count" of scalar 4) ∷ [])

abbrev pub jl_mutex_t_asserted : Assertions
jl_mutex_t_asserted = record { size = 16; align = 8; offsets = ("owner", 0) ∷ ("count", 8) ∷ [] }

abbrev pub jl_tls_states_t : Structure
jl_tls_states_t = struct_of (
    ("tid" of scalar 2)
    ∷ ("threadpoolid" of scalar 1)
    ∷ ("rngseed" of scalar 8)
    ∷ ("safepoint" of scalar 8)
    ∷ ("sleep_check_state" of layout_of (std_atomic (scalar 1)))
    ∷ ("gc_state" of layout_of (std_atomic (scalar 1)))
    ∷ ("in_pure_callback" of scalar 2)
    ∷ ("in_finalizer" of scalar 2)
    ∷ ("disable_gc" of scalar 2)
    ∷ ("finalizers_inhibited" of scalar 4)
    ∷ ("gc_tls" of layout_of jl_gc_tls_states_t)
    ∷ ("gc_tls_common" of layout_of jl_gc_tls_states_common_t)
    ∷ ("lazily_freed_mtarraylist_buffers" of layout_of small_arraylist_t)
    ∷ ("defer_signal" of sig_atomic_t)
    ∷ ("current_task" of scalar 8)
    ∷ ("next_task" of pointer)
    ∷ ("previous_task" of pointer)
    ∷ ("root_task" of pointer)
    ∷ ("timing_stack" of pointer)
    ∷ ("stackbase" of pointer)
    ∷ ("stacksize" of scalar 8)
    ∷ ("sig_exception" of pointer)
    ∷ ("bt_data" of pointer)
    ∷ ("bt_size" of scalar 8)
    ∷ ("profiling_bt_buffer" of pointer)
    ∷ ("signal_request" of layout_of (std_atomic (sig_atomic_t)))
    ∷ ("io_wait" of sig_atomic_t)
    ∷ ("signal_stack" of pointer)
    ∷ ("signal_stack_size" of scalar 8)
    ∷ ("signal_ctx_pc" of scalar 8)
    ∷ ("signal_ctx_sp" of scalar 8)
    ∷ ("signal_ctx_fptr" of pointer)
    ∷ ("signal_ctx_arg" of scalar 8)
    ∷ ("system_id" of jl_thread_t)
    ∷ ("suspend_count" of layout_of (std_atomic (scalar 2)))
    ∷ ("finalizers" of layout_of arraylist_t)
    ∷ ("previous_exception" of pointer)
    ∷ ("locks" of layout_of small_arraylist_t)
    ∷ ("engine_nqueued" of scalar 8)
    ∷ [])

abbrev pub jl_tls_states_t_asserted : Assertions
jl_tls_states_t_asserted = record {
  size = 2680;
  align = 8;
  offsets =
      ("tid", 0)
      ∷ ("threadpoolid", 2)
      ∷ ("rngseed", 8)
      ∷ ("safepoint", 16)
      ∷ ("sleep_check_state", 24)
      ∷ ("gc_state", 25)
      ∷ ("in_pure_callback", 26)
      ∷ ("in_finalizer", 28)
      ∷ ("disable_gc", 30)
      ∷ ("finalizers_inhibited", 32)
      ∷ ("gc_tls", 40)
      ∷ ("gc_tls_common", 832)
      ∷ ("lazily_freed_mtarraylist_buffers", 2112)
      ∷ ("defer_signal", 2176)
      ∷ ("current_task", 2184)
      ∷ ("next_task", 2192)
      ∷ ("previous_task", 2200)
      ∷ ("root_task", 2208)
      ∷ ("timing_stack", 2216)
      ∷ ("stackbase", 2224)
      ∷ ("stacksize", 2232)
      ∷ ("sig_exception", 2240)
      ∷ ("bt_data", 2248)
      ∷ ("bt_size", 2256)
      ∷ ("profiling_bt_buffer", 2264)
      ∷ ("signal_request", 2272)
      ∷ ("io_wait", 2276)
      ∷ ("signal_stack", 2280)
      ∷ ("signal_stack_size", 2288)
      ∷ ("signal_ctx_pc", 2296)
      ∷ ("signal_ctx_sp", 2304)
      ∷ ("signal_ctx_fptr", 2312)
      ∷ ("signal_ctx_arg", 2320)
      ∷ ("system_id", 2328)
      ∷ ("suspend_count", 2336)
      ∷ ("finalizers", 2344)
      ∷ ("previous_exception", 2600)
      ∷ ("locks", 2608)
      ∷ ("engine_nqueued", 2672)
      ∷ [];
}

-- The structures above, each with its assertions.
abbrev pub thread_declarations : List Declaration
thread_declarations =
    (jl_gc_tls_states_common_t, jl_gc_tls_states_common_t_asserted)
    ∷ (jl_stack_context_t, jl_stack_context_t_asserted)
    ∷ (jl_ucontext_t_anon_1, jl_ucontext_t_anon_1_asserted)
    ∷ (jl_ucontext_t, jl_ucontext_t_asserted)
    ∷ (jl_mutex_t, jl_mutex_t_asserted)
    ∷ (jl_tls_states_t, jl_tls_states_t_asserted)
    ∷ []
