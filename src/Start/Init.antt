-- ===== src/Start/Init.antt =====
-- mmtk/src/api.rs: `mmtk_gc_init`, over the statics of mmtk/src/lib.rs. Its last assertion, that the
-- binding's `MIN_ALIGNMENT` is 4, compares two constants and is left out. It is an `extern "C"`
-- function, so with the toolchain that mmtk/rust-toolchain pins a panic in it aborts the process:
-- there are no statics afterwards, and nobody ever finds the lock of `BUILDER` poisoned.
use mmtk_julia.Base.{ℕ, Bool, true, false, not, Option, none, some, ltb, Address, if◌then◌else◌}
use mmtk_julia.Start.Options.{PlanSelector, Features, force_plan, heap_trigger, MmtkOptions}

-- Why the call panics.
pub data Panic : Type 0 where
  heap_size_refused : Panic
  no_reference_types_refused : Panic
  threads_refused : Panic
  already_initialized : Panic
  default_allocator_differs : Panic
  immortal_allocator_differs : Panic

-- The hook of the standard library, or the one that aborts on a GC thread and else runs the older.
pub data Hook : Type 0 where
  standard : Hook
  abort_on_gc_thread : Hook → Hook

-- What `mmtk_gc_init` is called with.
pub record Request : Type 0 where
  pub min_heap_size : ℕ
  pub max_heap_size : ℕ
  pub n_gcthreads : ℕ
  pub header_size : ℕ
  pub buffer_tag : ℕ

module _ (core : MmtkOptions) (features : Features) (vm_base_address : Address) where
  -- The statics. `singleton` holds the options that the instance was made with.
  pub record Globals : Type 0 where
    pub julia_header_size : ℕ
    pub julia_buff_tag : ℕ
    pub builder : core.Options
    pub mmtk_initialized : Bool
    pub singleton : Option core.Options
    pub mmtk_side_log_bit_base_address : Address
    pub panic_hook : Hook

  pub data Run : Type 0 where
    returned : Globals → Run
    aborted : Panic → Run

  abbrev pub Command : Type 0
  Command = Globals → Run

  abbrev pub resume : Run → Command → Run
  resume (returned g) next = next g
  resume (aborted p) next = aborted p

  infixl 5 ◌>>◌
  abbrev pub ◌>>◌ : Command → Command → Command
  (c >> d) g = resume (c g) d

  abbrev pub change : (Globals → Globals) → Command
  change f g = returned (f g)

  abbrev pub assert : Bool → Panic → Command
  assert true p g = returned g
  assert false p g = aborted p

  -- An option is set under the lock of `BUILDER`, and its success asserted there.
  abbrev pub took : core.Options × Bool → Panic → Command
  took set p g = if set.1 then returned (record g { builder = set.0 }) else aborted p

  abbrev pub set_forced : Option PlanSelector → Globals → Globals
  set_forced none g = g
  set_forced (some plan) g = record g { builder = (core.set_plan g.builder plan).0 }

  unfoldable pub set_heap_size : (min_heap_size max_heap_size : ℕ) → Command
  set_heap_size min_heap_size max_heap_size g =
      took (core.set_gc_trigger g.builder (heap_trigger min_heap_size max_heap_size))
        heap_size_refused g

  unfoldable pub set_reference_types : Command
  set_reference_types g =
      took (core.set_no_reference_types g.builder false) no_reference_types_refused g

  unfoldable pub set_gc_threads : ℕ → Command
  set_gc_threads n_gcthreads g =
      if ltb 0 n_gcthreads
      then took (core.set_threads g.builder n_gcthreads) threads_refused g
      else returned g

  -- `lazy_static::initialize(&SINGLETON)`: `mmtk_init` runs once, with the builder's options.
  abbrev pub initialize : Option core.Options → Globals → Globals
  initialize (some made) g = g
  initialize none g = record g { singleton = some g.builder; mmtk_initialized = true }

  -- The options that the instance has, for its allocators.
  abbrev pub instance_options : Option core.Options → core.Options → core.Options
  instance_options (some made) builder = made
  instance_options none builder = builder

  unfoldable pub assert_allocators : Command
  assert_allocators = do
    λ g.
        assert (core.default_is_immix (instance_options g.singleton g.builder))
          default_allocator_differs g
    λ g.
        assert (core.immortal_is_bump_pointer (instance_options g.singleton g.builder))
          immortal_allocator_differs g

  -- The block that holds the lock, the rest, and the whole.
  unfoldable pub set_options : Request → Command
  set_options r = do
    change (set_forced (force_plan features))
    set_heap_size r.min_heap_size r.max_heap_size
    set_reference_types
    set_gc_threads r.n_gcthreads

  unfoldable pub start_instance : Command
  start_instance = do
    λ g. assert (not g.mmtk_initialized) already_initialized g
    change (λ g. initialize g.singleton g)
    change (λ g. record g { mmtk_side_log_bit_base_address = vm_base_address })
    change (λ g. record g { panic_hook = abort_on_gc_thread g.panic_hook })
    assert_allocators

  unfoldable pub mmtk_gc_init : Request → Command
  mmtk_gc_init r = do
    change (λ g. record g { julia_header_size = r.header_size; julia_buff_tag = r.buffer_tag })
    set_options r
    start_instance
