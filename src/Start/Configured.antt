-- ===== src/Start/Configured.antt =====
-- What a call of `mmtk_gc_init` that returns has set.
use mmtk_julia.Base.{◌≡◌, sym, ap, ◌∙◌, true, some, Address}
use mmtk_julia.Start.Options.{Features, MmtkOptions, OptionLaws}
use mmtk_julia.Start.Init.{returned, abort_on_gc_thread, Request}
use mmtk_julia.Start.Frame.{Statics, set_options-Same}
use mmtk_julia.Start.Once.{init, with_constants, IsConsistent, FitsC, init-returned}
use mmtk_julia.Start.Settings.{options_set, AsRequested}

module _ (core : MmtkOptions) (features : Features) (vm_base_address : Address)
    (laws : OptionLaws core) where
  -- The statics after a call that returned.
  abbrev pub Configured : Request → (g after : Statics core features vm_base_address) → Type 0
  Configured r g after =
      (o : core.Options) × (after.singleton ≡ some o)
      × AsRequested core features vm_base_address laws r o
      × FitsC core features vm_base_address o
      × (after.mmtk_initialized ≡ true)
      × (after.mmtk_side_log_bit_base_address ≡ vm_base_address)
      × (after.panic_hook ≡ abort_on_gc_thread g.panic_hook)
      × (after.julia_header_size ≡ r.header_size)
      × (after.julia_buff_tag ≡ r.buffer_tag)

  -- A call of `mmtk_gc_init` that returns: the instance was made with options that keep reference
  -- types, have the number of threads given, if it is not 0, and a trigger as the heap sizes ask:
  -- delegated to Julia's heuristics where both are 0, a heap between the two where the least is not 0,
  -- and else one of the greatest size. It maps its allocators as C assumes; `MMTK_INITIALIZED` and the
  -- base of the log bits are set, the panic hook aborts on a GC thread and else runs the one before,
  -- and the header size and the buffer tag are those given. For options that keep what they took, and
  -- a `MMTK_INITIALIZED` that told before the call whether the instance was made.
  pub mmtk_gc_init-Configured :
      (r : Request) (g after : Statics core features vm_base_address)
      → IsConsistent core features vm_base_address g
      → init core features vm_base_address r g ≡ returned after
      → Configured r g after
  mmtk_gc_init-Configured r g after c h =
      let (g1, set, fits, end) = init-returned core features vm_base_address r g after c h in
      let same =
        set_options-Same core features vm_base_address r
          (with_constants core features vm_base_address r g) g1 set in
      let is = sym end in
      (
        g1.builder,
        ap (λ a. a.singleton) is,
        options_set core features vm_base_address laws r
            (with_constants core features vm_base_address r g) g1 set,
        fits,
        ap (λ a. a.mmtk_initialized) is,
        ap (λ a. a.mmtk_side_log_bit_base_address) is,
        ap (λ a. a.panic_hook) is ∙ ap abort_on_gc_thread same.2,
        ap (λ a. a.julia_header_size) is ∙ same.3,
        ap (λ a. a.julia_buff_tag) is ∙ same.4,
      )
