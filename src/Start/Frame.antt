-- ===== src/Start/Frame.antt =====
-- What the first half of `mmtk_gc_init` leaves as it is where it returns.
use mathlib.Core.Path.{subst}
use mmtk_julia.Base.{
  ℕ, ◌≡◌, refl, ◌∙◌, Bool, true, false, Option, none, some, ltb, Address, if◌then◌else◌,
}
use mmtk_julia.Start.Options.{PlanSelector, Features, force_plan, heap_trigger, MmtkOptions}
use mmtk_julia.Start.Init.{
  Panic, heap_size_refused, no_reference_types_refused, threads_refused, Request, Globals, Run,
  returned, aborted, Command, resume, ◌>>◌, change, took, set_forced, set_heap_size,
  set_reference_types, set_gc_threads, set_options,
}

module _ (core : MmtkOptions) (features : Features) (vm_base_address : Address) where
  abbrev pub Statics : Type 0
  Statics = Globals core features vm_base_address

  abbrev pub Ran : Type 0
  Ran = Run core features vm_base_address

  abbrev pub Do : Type 0
  Do = Command core features vm_base_address

  abbrev pub seq : Do → Do → Do
  seq = ◌>>◌ core features vm_base_address

  -- The statics that only the second half of the call changes stay.
  abbrev pub Same : (g g' : Statics) → Type 0
  Same g g' =
      (g'.mmtk_initialized ≡ g.mmtk_initialized)
      × (g'.singleton ≡ g.singleton)
      × (g'.panic_hook ≡ g.panic_hook)
      × (g'.julia_header_size ≡ g.julia_header_size)
      × (g'.julia_buff_tag ≡ g.julia_buff_tag)

  Same-refl : (g : Statics) → Same g g
  Same-refl g = (refl, refl, refl, refl, refl)

  Same-trans : (g g' g'' : Statics) → Same g g' → Same g' g'' → Same g g''
  Same-trans g g' g'' s t = (t.0 ∙ s.0, t.1 ∙ s.1, t.2 ∙ s.2, t.3 ∙ s.3, t.4 ∙ s.4)

  pub returned-injective : (g g' : Statics) → ◌≡◌ {A = Ran} (returned g) (returned g') → g ≡ g'
  returned-injective g g' h = cc

  -- Where two commands return, the first did.
  pub resume-returned :
      (r : Ran) (d : Do) (g' : Statics)
      → resume core features vm_base_address r d ≡ returned g'
      → (g : Statics) × (r ≡ returned g) × (d g ≡ returned g')
  resume-returned (returned g) d g' h = (g, refl, h)
  resume-returned (aborted p) d g' h = cc

  abbrev EndsSame : Statics → Ran → Type 0
  EndsSame g (returned g') = Same g g'
  EndsSame g (aborted p) = Unit

  abbrev Frame : Do → Type 0
  Frame c = (g : Statics) → EndsSame g (c g)

  trans_EndsSame : (g g1 : Statics) (r : Ran) → Same g g1 → EndsSame g1 r → EndsSame g r
  trans_EndsSame g g1 (returned g2) s t = Same-trans g g1 g2 s t
  trans_EndsSame g g1 (aborted p) s t = tt

  resume-EndsSame :
      (g : Statics) (r : Ran) (d : Do)
      → EndsSame g r
      → Frame d
      → EndsSame g (resume core features vm_base_address r d)
  resume-EndsSame g (aborted p) d same frame = tt
  resume-EndsSame g (returned g1) d same frame = trans_EndsSame g g1 (d g1) same (frame g1)

  seq-Frame : (c d : Do) → Frame c → Frame d → Frame (seq c d)
  seq-Frame c d fc fd g = resume-EndsSame g (c g) d (fc g) fd

  forced-Frame :
      (plan : Option PlanSelector)
      → Frame (change core features vm_base_address (set_forced core features vm_base_address plan))
  forced-Frame none g = Same-refl g
  forced-Frame (some plan) g = Same-refl g

  took-Frame :
      (set : core.Options × Bool) (p : Panic) → Frame (took core features vm_base_address set p)
  took-Frame (o, true) p g = Same-refl g
  took-Frame (o, false) p g = tt

  threads_stay :
      (b : Bool) (set : core.Options × Bool) (p : Panic) (g : Statics)
      → EndsSame g (if b then took core features vm_base_address set p g else returned g)
  threads_stay true set p g = took-Frame set p g
  threads_stay false set p g = Same-refl g

  set_heap_size-Frame :
      (r : Request)
      → Frame (set_heap_size core features vm_base_address r.min_heap_size r.max_heap_size)
  unfolding set_heap_size
  set_heap_size-Frame r g =
      took-Frame (core.set_gc_trigger g.builder (heap_trigger r.min_heap_size r.max_heap_size))
        heap_size_refused g

  set_reference_types-Frame : Frame (set_reference_types core features vm_base_address)
  unfolding set_reference_types
  set_reference_types-Frame g =
      took-Frame (core.set_no_reference_types g.builder false) no_reference_types_refused g

  set_gc_threads-Frame : (n : ℕ) → Frame (set_gc_threads core features vm_base_address n)
  unfolding set_gc_threads
  set_gc_threads-Frame n g = threads_stay (ltb 0 n) (core.set_threads g.builder n) threads_refused g

  set_options-Frame : (r : Request) → Frame (set_options core features vm_base_address r)
  unfolding set_options
  set_options-Frame r =
      let forced : Do =
        change core features vm_base_address
          (set_forced core features vm_base_address (force_plan features)) in
      let heap : Do = set_heap_size core features vm_base_address r.min_heap_size r.max_heap_size in
      let refs : Do = set_reference_types core features vm_base_address in
      let gc_threads : Do = set_gc_threads core features vm_base_address r.n_gcthreads in
      seq-Frame forced (seq heap (seq refs gc_threads)) (forced-Frame (force_plan features)) (
        seq-Frame heap (seq refs gc_threads) (set_heap_size-Frame r) (
          seq-Frame refs gc_threads set_reference_types-Frame (set_gc_threads-Frame r.n_gcthreads)))

  pub set_options-Same :
      (r : Request) (g g' : Statics)
      → set_options core features vm_base_address r g ≡ returned g'
      → Same g g'
  set_options-Same r g g' h = subst (EndsSame g) h (set_options-Frame r g)
