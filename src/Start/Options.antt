-- ===== src/Start/Options.antt =====
-- mmtk-core's options, as far as `mmtk_gc_init` of mmtk/src/api.rs sets them.
use mmtk_julia.Base.{ℕ, ◌≡◌, Bool, true, Option, none, some, ◌==◌, not, ◌&&◌, if◌then◌else◌}

pub data PlanSelector : Type 0 where
  no_gc : PlanSelector
  mark_sweep : PlanSelector
  immix : PlanSelector
  sticky_immix : PlanSelector

pub data GcTriggerSelector : Type 0 where
  delegated : GcTriggerSelector
  dynamic_heap_size : (min_bytes max_bytes : ℕ) → GcTriggerSelector
  fixed_heap_size : (max_bytes : ℕ) → GcTriggerSelector

-- The features of the build that force a plan.
pub record Features : Type 0 where
  pub nogc : Bool
  pub marksweep : Bool
  pub immix_plan : Bool
  pub stickyimmix : Bool

abbrev pub force_plan : Features → Option PlanSelector
force_plan f =
    if f.nogc
    then some no_gc
    else if f.marksweep
    then some mark_sweep
    else if f.immix_plan
    then some immix
    else if f.stickyimmix
    then some sticky_immix
    else none

abbrev pub heap_trigger : (min_heap_size max_heap_size : ℕ) → GcTriggerSelector
heap_trigger min_heap_size max_heap_size =
    if (min_heap_size == 0) && (max_heap_size == 0)
    then delegated
    else if not (min_heap_size == 0)
    then dynamic_heap_size min_heap_size max_heap_size
    else fixed_heap_size max_heap_size

-- The options of a builder. A `set` says whether it took the value.
pub record MmtkOptions : Type 1 where
  pub Options : Type 0
  pub gc_trigger : Options → GcTriggerSelector
  pub no_reference_types : Options → Bool
  pub threads : Options → ℕ
  pub set_plan : Options → PlanSelector → Options × Bool
  pub set_gc_trigger : Options → GcTriggerSelector → Options × Bool
  pub set_no_reference_types : Options → Bool → Options × Bool
  pub set_threads : Options → ℕ → Options × Bool
  -- whether an instance with these options maps the semantics to the allocator that C assumes
  pub default_is_immix : Options → Bool
  pub immortal_is_bump_pointer : Options → Bool

-- What a `set` promises: a value that it took is there, and the other options are as before.
pub record OptionLaws (core : MmtkOptions) : Type 0 where
  pub gc_trigger-set :
      (o : core.Options) (v : GcTriggerSelector)
      → (core.set_gc_trigger o v).1 ≡ true
      → core.gc_trigger (core.set_gc_trigger o v).0 ≡ v
  pub no_reference_types-set :
      (o : core.Options) (v : Bool)
      → (core.set_no_reference_types o v).1 ≡ true
      → core.no_reference_types (core.set_no_reference_types o v).0 ≡ v
  pub threads-set :
      (o : core.Options) (v : ℕ)
      → (core.set_threads o v).1 ≡ true
      → core.threads (core.set_threads o v).0 ≡ v
  pub gc_trigger-set_no_reference_types :
      (o : core.Options) (v : Bool)
      → core.gc_trigger (core.set_no_reference_types o v).0 ≡ core.gc_trigger o
  pub gc_trigger-set_threads :
      (o : core.Options) (v : ℕ) → core.gc_trigger (core.set_threads o v).0 ≡ core.gc_trigger o
  pub no_reference_types-set_threads :
      (o : core.Options) (v : ℕ)
      → core.no_reference_types (core.set_threads o v).0 ≡ core.no_reference_types o
