-- ===== src/Api/Forward.antt =====
-- mmtk/src/api.rs: the calls that pass on to mmtk-core, with what they make of their arguments and
-- results. mmtk-core is a parameter: its state, and an operation for each of its functions.
use mmtk_julia.Base.{ℕ, Bool, not, Address, Option}
use mmtk_julia.Slots.Slot.{JuliaVmSlot, simple}

-- `mmtk::memory_manager` and the methods of its types. A mutator, a worker, a thread pointer and an
-- object reference are addresses; `into_option` is the conversion of a `NullableObjectReference`.
pub record Mmtk : Type 1 where
  pub State : Type 0
  pub AllocationSemantics : Type 0
  pub los : AllocationSemantics
  pub into_option : Address → Option Address
  pub bind_mutator : State → (tls : Address) → Address × State
  pub alloc :
      State → (mutator : Address) → (size align offset : ℕ) → AllocationSemantics → Address × State
  pub post_alloc : State → (mutator refer : Address) → (bytes : ℕ) → AllocationSemantics → State
  pub is_movable : State → Address → Bool
  pub is_live : State → Address → Bool
  pub is_mapped : State → Address → Bool
  pub start_worker : State → (tls worker : Address) → State
  pub initialize_collection : State → (tls : Address) → State
  pub used_bytes : State → ℕ
  pub free_bytes : State → ℕ
  pub total_bytes : State → ℕ
  pub add_weak_candidate : State → Address → State
  pub add_soft_candidate : State → Address → State
  pub add_phantom_candidate : State → Address → State
  pub harness_begin : State → (tls : Address) → State
  pub harness_end : State → State
  pub starting_heap_address : Address
  pub last_heap_address : Address
  pub gc_poll : State → (tls : Address) → State
  pub object_reference_write_post :
      State → (mutator src : Address) → JuliaVmSlot → Option Address → State
  pub object_reference_write_slow :
      State → (mutator src : Address) → JuliaVmSlot → Option Address → State

module _ (core : Mmtk) where
  open core use {State, AllocationSemantics, los}

  unfoldable pub mmtk_bind_mutator : State → (tls tid : ℕ) → Address × State
  mmtk_bind_mutator s tls tid = core.bind_mutator s tls

  unfoldable pub mmtk_alloc :
      State → (mutator : Address) (size align offset : ℕ) → AllocationSemantics → Address × State
  mmtk_alloc s mutator size align offset semantics =
      core.alloc s mutator size align offset semantics

  unfoldable pub mmtk_alloc_large :
      State → (mutator : Address) (size align offset : ℕ) → Address × State
  mmtk_alloc_large s mutator size align offset = core.alloc s mutator size align offset los

  unfoldable pub mmtk_post_alloc :
      State → (mutator refer : Address) (bytes : ℕ) → AllocationSemantics → State
  mmtk_post_alloc s mutator refer bytes semantics = core.post_alloc s mutator refer bytes semantics

  unfoldable pub mmtk_will_never_move : State → Address → Bool
  mmtk_will_never_move s object = not (core.is_movable s object)

  unfoldable pub mmtk_start_worker : State → (tls worker : Address) → State
  mmtk_start_worker s tls worker = core.start_worker s tls worker

  unfoldable pub mmtk_start_spawned_worker_thread : State → (tls ctx : Address) → State
  unfolding mmtk_start_worker
  mmtk_start_spawned_worker_thread s tls ctx = mmtk_start_worker s tls ctx

  unfoldable pub mmtk_initialize_collection : State → (tls : Address) → State
  mmtk_initialize_collection s tls = core.initialize_collection s tls

  unfoldable pub mmtk_used_bytes : State → ℕ
  mmtk_used_bytes s = core.used_bytes s

  unfoldable pub mmtk_free_bytes : State → ℕ
  mmtk_free_bytes s = core.free_bytes s

  unfoldable pub mmtk_total_bytes : State → ℕ
  mmtk_total_bytes s = core.total_bytes s

  unfoldable pub mmtk_is_live_object : State → Address → Bool
  mmtk_is_live_object s object = core.is_live s object

  unfoldable pub mmtk_is_mapped_address : State → Address → Bool
  mmtk_is_mapped_address s address = core.is_mapped s address

  unfoldable pub mmtk_object_is_managed_by_mmtk : State → ℕ → Bool
  unfolding mmtk_is_mapped_address
  mmtk_object_is_managed_by_mmtk s addr = mmtk_is_mapped_address s addr

  unfoldable pub mmtk_add_weak_candidate : State → Address → State
  mmtk_add_weak_candidate s reff = core.add_weak_candidate s reff

  unfoldable pub mmtk_add_soft_candidate : State → Address → State
  mmtk_add_soft_candidate s reff = core.add_soft_candidate s reff

  unfoldable pub mmtk_add_phantom_candidate : State → Address → State
  mmtk_add_phantom_candidate s reff = core.add_phantom_candidate s reff

  unfoldable pub mmtk_harness_begin : State → (tls : Address) → State
  mmtk_harness_begin s tls = core.harness_begin s tls

  unfoldable pub mmtk_harness_end : State → (tls : Address) → State
  mmtk_harness_end s tls = core.harness_end s

  unfoldable pub mmtk_starting_heap_address : Address
  mmtk_starting_heap_address = core.starting_heap_address

  unfoldable pub mmtk_last_heap_address : Address
  mmtk_last_heap_address = core.last_heap_address

  unfoldable pub mmtk_gc_poll : State → (tls : Address) → State
  mmtk_gc_poll s tls = core.gc_poll s tls

  -- The barriers: mmtk-core is given a slot at address zero.
  unfoldable pub mmtk_object_reference_write_post : State → (mutator src target : Address) → State
  mmtk_object_reference_write_post s mutator src target =
      core.object_reference_write_post s mutator src (simple 0) (core.into_option target)

  unfoldable pub mmtk_object_reference_write_slow : State → (mutator src target : Address) → State
  mmtk_object_reference_write_slow s mutator src target =
      core.object_reference_write_slow s mutator src (simple 0) (core.into_option target)
