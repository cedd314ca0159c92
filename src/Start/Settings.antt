-- ===== src/Start/Settings.antt =====
-- The options that the first half of `mmtk_gc_init` has set where it returns.
use mmtk_julia.Base.{
  ℕ, zero, suc, ◌≡◌, ◌≢◌, ◌⊎◌, inl, inr, refl, sym, ap, ◌∙◌, Bool, true, false, ltb, Address,
  if◌then◌else◌, arith, ==_of_ne,
}
use mmtk_julia.Start.Options.{
  GcTriggerSelector, delegated, dynamic_heap_size, fixed_heap_size, Features, force_plan,
  heap_trigger, MmtkOptions, OptionLaws,
}
use mmtk_julia.Start.Init.{
  Panic, heap_size_refused, no_reference_types_refused, threads_refused, returned, Request, took,
  set_forced, set_heap_size, set_reference_types, set_gc_threads, set_options,
}
use mmtk_julia.Start.Frame.{Statics, Do, seq, resume-returned, returned-injective}

-- What two heap sizes ask for: Julia's own heuristics where both are 0, a heap between the sizes
-- where there is a least one, and else a heap of the greatest size.
pub data AsksFor : (min_heap_size max_heap_size : ℕ) → GcTriggerSelector → Type 0 where
  heuristics : AsksFor 0 0 delegated
  between : {low high : ℕ} → low ≢ 0 → AsksFor low high (dynamic_heap_size low high)
  at_most : {high : ℕ} → high ≢ 0 → AsksFor 0 high (fixed_heap_size high)

heap_trigger-AsksFor : (low high : ℕ) → AsksFor low high (heap_trigger low high)
heap_trigger-AsksFor zero zero = heuristics
heap_trigger-AsksFor zero (suc high) =
    rw (==_of_ne (suc high) 0 (omega arith)) (at_most (omega arith))
heap_trigger-AsksFor (suc low) high =
    rw (==_of_ne (suc low) 0 (omega arith)) (between (omega arith))

module _ (core : MmtkOptions) (features : Features) (vm_base_address : Address)
    (laws : OptionLaws core) where
  took-returned :
      (set : core.Options × Bool) (p : Panic) (g g' : Statics core features vm_base_address)
      → took core features vm_base_address set p g ≡ returned g'
      → (set.1 ≡ true) × (g'.builder ≡ set.0)
  took-returned (o, true) p g g' h = (
    refl,
    ap (λ a. a.builder)
        (sym (returned-injective core features vm_base_address (record g { builder = o }) g' h)),
  )
  took-returned (o, false) p g g' h = cc

  -- The builder's options after each of the commands.
  heap_size_set :
      (r : Request) (g g' : Statics core features vm_base_address)
      → set_heap_size core features vm_base_address r.min_heap_size r.max_heap_size g ≡ returned g'
      → core.gc_trigger g'.builder ≡ heap_trigger r.min_heap_size r.max_heap_size
  unfolding set_heap_size
  heap_size_set r g g' h =
      let took_it =
        took-returned (core.set_gc_trigger g.builder (heap_trigger r.min_heap_size r.max_heap_size))
          heap_size_refused g g' h in
      ap core.gc_trigger took_it.1 ∙ laws.gc_trigger-set g.builder _ took_it.0

  reference_types_set :
      (g g' : Statics core features vm_base_address)
      → set_reference_types core features vm_base_address g ≡ returned g'
      → (core.no_reference_types g'.builder ≡ false)
        × (core.gc_trigger g'.builder ≡ core.gc_trigger g.builder)
  unfolding set_reference_types
  reference_types_set g g' h =
      let took_it =
        took-returned (core.set_no_reference_types g.builder false) no_reference_types_refused g g'
          h in
      (
        ap core.no_reference_types took_it.1
            ∙ laws.no_reference_types-set g.builder false took_it.0,
        ap core.gc_trigger took_it.1 ∙ laws.gc_trigger-set_no_reference_types g.builder false,
      )

  -- The threads asked for, and the other two options as they were.
  abbrev Threaded : ℕ → (g g' : Statics core features vm_base_address) → Type 0
  Threaded n g g' =
      ((n ≡ 0) ⊎ (core.threads g'.builder ≡ n))
      × (core.no_reference_types g'.builder ≡ core.no_reference_types g.builder)
      × (core.gc_trigger g'.builder ≡ core.gc_trigger g.builder)

  threads_choice :
      (b : Bool) (n : ℕ) (g g' : Statics core features vm_base_address)
      → ltb 0 n ≡ b
      → (if b
          then took core features vm_base_address (core.set_threads g.builder n) threads_refused g
          else returned g)
        ≡ returned g'
      → Threaded n g g'
  threads_choice true n g g' e h =
      let took_it = took-returned (core.set_threads g.builder n) threads_refused g g' h in
      (
        inr (ap core.threads took_it.1 ∙ laws.threads-set g.builder n took_it.0),
        ap core.no_reference_types took_it.1 ∙ laws.no_reference_types-set_threads g.builder n,
        ap core.gc_trigger took_it.1 ∙ laws.gc_trigger-set_threads g.builder n,
      )
  threads_choice false n g g' e h =
      let same = sym (returned-injective core features vm_base_address g g' h) in
      (
        inl (ground arith),
        ap (λ a. core.no_reference_types a.builder) same,
        ap (λ a. core.gc_trigger a.builder) same,
      )

  threads_set :
      (n : ℕ) (g g' : Statics core features vm_base_address)
      → set_gc_threads core features vm_base_address n g ≡ returned g'
      → Threaded n g g'
  unfolding set_gc_threads
  threads_set n g g' h = threads_choice (ltb 0 n) n g g' refl h

  -- The options that the request asks for.
  abbrev pub AsRequested : Request → core.Options → Type 0
  AsRequested r o =
      AsksFor r.min_heap_size r.max_heap_size (core.gc_trigger o)
      × (core.no_reference_types o ≡ false)
      × ((r.n_gcthreads ≡ 0) ⊎ (core.threads o ≡ r.n_gcthreads))

  pub options_set :
      (r : Request) (g g' : Statics core features vm_base_address)
      → set_options core features vm_base_address r g ≡ returned g'
      → AsRequested r g'.builder
  unfolding set_options
  options_set r g g' h =
      let seq' = seq core features vm_base_address in
      let heap : Do core features vm_base_address =
        set_heap_size core features vm_base_address r.min_heap_size r.max_heap_size in
      let refs : Do core features vm_base_address =
        set_reference_types core features vm_base_address in
      let gc_threads : Do core features vm_base_address =
        set_gc_threads core features vm_base_address r.n_gcthreads in
      let forced : Statics core features vm_base_address =
        set_forced core features vm_base_address (force_plan features) g in
      let at_heap =
        resume-returned core features vm_base_address (heap forced) (seq' refs gc_threads) g' h in
      let at_refs =
        resume-returned core features vm_base_address (refs at_heap.0) gc_threads g' at_heap.2 in
      let sized = heap_size_set r forced at_heap.0 at_heap.1 in
      let referred = reference_types_set at_heap.0 at_refs.0 at_refs.1 in
      let threaded = threads_set r.n_gcthreads at_refs.0 g' at_refs.2 in
      (
        rw (threaded.2 ∙ referred.1 ∙ sized) (heap_trigger-AsksFor r.min_heap_size r.max_heap_size),
        threaded.1 ∙ referred.0,
        threaded.0,
      )
