-- ===== src/Start/Once.antt =====
-- `mmtk_gc_init` returns once at most.
use Prim.Native.String.{String}
use mmtk_julia.Base.{
  ◌≡◌, refl, sym, ap, ◌∙◌, Bool, true, false, Option, none, some, is_some, Address, Bool-cases, inl,
  inr,
}
use mmtk_julia.Start.Options.{Features, MmtkOptions}
use mmtk_julia.Start.Init.{
  Panic, already_initialized, returned, aborted, abort_on_gc_thread, Request, resume, assert,
  assert_allocators, set_options, start_instance, instance_options, default_allocator_differs,
  immortal_allocator_differs, mmtk_gc_init,
}
use mmtk_julia.Start.Frame.{
  Statics, Ran, Do, seq, resume-returned, returned-injective, set_options-Same,
}
use mmtk_julia.Start.Process.{Processed, answered, mmtk_process}

module _ (core : MmtkOptions) (features : Features) (vm_base_address : Address) where
  -- `MMTK_INITIALIZED` tells whether `SINGLETON` was made.
  abbrev pub IsConsistent : Statics core features vm_base_address → Type 0
  IsConsistent g = is_some g.singleton ≡ g.mmtk_initialized

  abbrev pub init : Request → Do core features vm_base_address
  init = mmtk_gc_init core features vm_base_address

  abbrev pub start : Do core features vm_base_address
  start = start_instance core features vm_base_address

  start-initialized :
      (g : Statics core features vm_base_address)
      → g.mmtk_initialized ≡ true
      → start g ≡ aborted already_initialized
  unfolding start_instance
  start-initialized g e = rw e

  -- The statics behind the stores of a start, before the assertions on the allocators.
  abbrev pub started : Statics core features vm_base_address → Statics core features vm_base_address
  started g = record g {
    singleton = some g.builder;
    mmtk_initialized = true;
    mmtk_side_log_bit_base_address = vm_base_address;
    panic_hook = abort_on_gc_thread g.panic_hook;
  }

  start-fresh :
      (g : Statics core features vm_base_address)
      → g.mmtk_initialized ≡ false
      → g.singleton ≡ none
      → start g ≡ assert_allocators core features vm_base_address (started g)
  unfolding start_instance
  start-fresh g e none_yet = rw (e, none_yet)

  none_of : (o : Option core.Options) → is_some o ≡ false → o ≡ none
  none_of none e = refl
  none_of (some o) e = cc

  assert-returned :
      (b : Bool) (p : Panic) (g g' : Statics core features vm_base_address)
      → assert core features vm_base_address b p g ≡ returned g'
      → (b ≡ true) × (g ≡ g')
  assert-returned true p g g' h = (refl, returned-injective core features vm_base_address g g' h)
  assert-returned false p g g' h = cc

  both_asserted :
      (b : Bool) (c : Statics core features vm_base_address → Bool) (p q : Panic)
      (g g' : Statics core features vm_base_address)
      → seq core features vm_base_address
          (assert core features vm_base_address b p)
          (λ g. assert core features vm_base_address (c g) q g)
          g
        ≡ returned g'
      → (b ≡ true) × (c g ≡ true) × (g ≡ g')
  both_asserted true c p q g g' h = let r = assert-returned (c g) q g g' h in (refl, r.0, r.1)
  both_asserted false c p q g g' h = cc

  -- The allocators are those that C assumes.
  abbrev pub FitsC : core.Options → Type 0
  FitsC o = (core.default_is_immix o ≡ true) × (core.immortal_is_bump_pointer o ≡ true)

  allocators_asserted :
      (g g' : Statics core features vm_base_address)
      → assert_allocators core features vm_base_address g ≡ returned g'
      → FitsC (instance_options core features vm_base_address g.singleton g.builder) × (g ≡ g')
  unfolding assert_allocators
  allocators_asserted g g' h =
      let both =
        both_asserted
          (core.default_is_immix
            (instance_options core features vm_base_address g.singleton g.builder))
          (λ g.
            core.immortal_is_bump_pointer
              (instance_options core features vm_base_address g.singleton g.builder))
          default_allocator_differs immortal_allocator_differs g g' h in
      ((both.0, both.1), both.2)

  -- A start that returns was the first.
  pub start-returned :
      (g g' : Statics core features vm_base_address)
      → IsConsistent g
      → start g ≡ returned g'
      → FitsC g.builder × (started g ≡ g')
  start-returned g g' c h = elim (Bool-cases g.mmtk_initialized) [
    | inl made ↦
        let e : ◌≡◌ {A = Ran core features vm_base_address} (aborted already_initialized)
            (returned g') =
          sym (start-initialized g made) ∙ h in
        cc
    | inr fresh ↦
        allocators_asserted (started g) g'
          (sym (start-fresh g fresh (none_of g.singleton (c ∙ fresh))) ∙ h)
  ]

  abbrev pub with_constants :
      Request → Statics core features vm_base_address → Statics core features vm_base_address
  with_constants r g = record g { julia_header_size = r.header_size; julia_buff_tag = r.buffer_tag }

  -- A call that returns: the options were set, and behind them the instance started.
  pub init-returned :
      (r : Request) (g g' : Statics core features vm_base_address)
      → IsConsistent g
      → init r g ≡ returned g'
      → (g1 : Statics core features vm_base_address) × (set_options core features vm_base_address r
            (with_constants r g)
          ≡ returned g1)
        × FitsC g1.builder
        × (started g1 ≡ g')
  unfolding mmtk_gc_init
  init-returned r g g' c h =
      let g0 : Statics core features vm_base_address = with_constants r g in
      let both =
        resume-returned core features vm_base_address
          (set_options core features vm_base_address r g0) start g' h in
      let same = set_options-Same core features vm_base_address r g0 both.0 both.1 in
      let ending = start-returned both.0 g' (ap is_some same.1 ∙ c ∙ sym same.0) both.2 in
      (both.0, both.1, ending.0, ending.1)

  made_already :
      (r : Ran core features vm_base_address)
      → ((g : Statics core features vm_base_address) → r ≡ returned g → g.mmtk_initialized ≡ true)
      → (p : Panic) × (resume core features vm_base_address r start ≡ aborted p)
  made_already (aborted p) made = (p, refl)
  made_already (returned g) made = (already_initialized, start-initialized g (made g refl))

  init-initialized :
      (r : Request) (g : Statics core features vm_base_address)
      → g.mmtk_initialized ≡ true
      → (p : Panic) × (init r g ≡ aborted p)
  unfolding mmtk_gc_init
  init-initialized r g made =
      made_already (set_options core features vm_base_address r (with_constants r g)) (λ g1 e.
        (set_options-Same core features vm_base_address r (with_constants r g) g1 e).0 ∙ made)

  -- What `mmtk_process` makes of the statics, call by call.
  module _ (process : core.Options → String → String → core.Options × Bool) where
    pub data Later (g : Statics core features vm_base_address)
        : Statics core features vm_base_address → Type 0 where
      now : Later g g
      processed :
          {g1 g2 : Statics core features vm_base_address} (name value : Option String) (b : Bool)
          → Later g g1
          → mmtk_process core features vm_base_address process name value g1 ≡ answered b g2
          → Later g g2

    answered-injective :
        (a b : Bool) (g g' : Statics core features vm_base_address)
        → ◌≡◌ {A = Processed core features vm_base_address process} (answered a g) (answered b g')
        → g ≡ g'
    answered-injective a b g g' h = cc

    process-initialized :
        (name value : Option String) (b : Bool) (g g' : Statics core features vm_base_address)
        → mmtk_process core features vm_base_address process name value g ≡ answered b g'
        → g'.mmtk_initialized ≡ g.mmtk_initialized
    unfolding mmtk_process
    process-initialized none value b g g' h = cc
    process-initialized (some n) none b g g' h = cc
    process-initialized (some n) (some v) b g g' h =
        ap (λ a. a.mmtk_initialized)
          (sym (answered-injective _ b (record g { builder = (process g.builder n v).0 }) g' h))

    Later-initialized :
        (g g' : Statics core features vm_base_address)
        → Later g g'
        → g'.mmtk_initialized ≡ g.mmtk_initialized
    Later-initialized g g' now = refl
    Later-initialized g g' (processed {g1 = g1} {g2 = _} name value b l h) =
        process-initialized name value b g1 g' h ∙ Later-initialized g g1 l

    -- Once a call of `mmtk_gc_init` has returned, every later one aborts the process, whatever options
    -- `mmtk_process` has set in between: the instance is there, or an option is refused. At the first
    -- call `MMTK_INITIALIZED` has to tell whether the instance was made.
    pub mmtk_gc_init-once :
        (first later : Request) (g g' g'' : Statics core features vm_base_address)
        → IsConsistent g
        → init first g ≡ returned g'
        → Later g' g''
        → (p : Panic) × (init later g'' ≡ aborted p)
    mmtk_gc_init-once first later g g' g'' c h l =
        let (g1, set, fits, end) = init-returned first g g' c h in
        init-initialized later g''
          (Later-initialized g' g'' l ∙ sym (ap (λ a. a.mmtk_initialized) end))
