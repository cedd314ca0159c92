-- ===== src/Api/WeakRef.antt =====
-- mmtk/src/reference_glue.rs: weak references and finalizable objects, over a memory of words.
use mmtk_julia.Base.{◌≡◌, ◌≢◌, Bool, Option, none, some, arith, Address, ◌==◌, if◌then◌else◌}
use mmtk_julia.Slots.Slot.{Memory, store_word}

abbrev pub load_referent_raw : Memory → Address → Address
load_referent_raw m reference = m reference

abbrev pub set_referent_raw : Memory → (reference referent_raw : Address) → Memory
set_referent_raw m reference referent_raw = store_word m reference referent_raw

-- `jl_nothing` is the runtime's.
module _ (jl_nothing : Address) where
  unfoldable pub set_referent : Memory → (reference referent : Address) → Memory
  set_referent m reference referent = set_referent_raw m reference referent

  unfoldable pub clear_referent : Memory → Address → Memory
  clear_referent m new_reference = set_referent_raw m new_reference jl_nothing

  unfoldable pub get_referent : Memory → Address → Option Address
  get_referent m object =
      let value = load_referent_raw m object in if value == jl_nothing then none else some value

  -- A weak reference gives the referent that was set in it; a cleared one gives none, also after it
  -- was set; and neither changes what another reference gives.
  pub get_referent-set_clear :
      (m : Memory) (reference referent other : Address)
      → referent ≢ jl_nothing
      → other ≢ reference
      → (get_referent (set_referent m reference referent) reference ≡ some referent)
        × (get_referent (clear_referent (set_referent m reference referent) reference) reference
            ≡ none)
        × (get_referent (set_referent m reference referent) other ≡ get_referent m other)
        × (get_referent (clear_referent m reference) other ≡ get_referent m other)
  unfolding get_referent set_referent clear_referent
  get_referent-set_clear m reference referent other ne apart =
      (ground arith, ground arith, ground arith, ground arith)

pub record JuliaFinalizableObject : Type 0 where
  pub object : Address
  pub function : Address
  pub is_void_pointer : Bool

-- `keep_alive`: `trace` is the tracer's `trace_object`, over the tracer's state.
unfoldable pub keep_alive :
    {S : Type 0}
    → (trace : S → Address → Address × S) → S
    → JuliaFinalizableObject
    → JuliaFinalizableObject × S
keep_alive trace s f =
    let (moved, s2) = trace s f.object in
    let (_, s3) = trace s2 f.function in
    (record f { object = moved }, if f.is_void_pointer then s2 else s3)
