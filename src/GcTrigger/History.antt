-- ===== src/GcTrigger/History.antt =====
-- The trigger over any sequence of the calls that mmtk-core makes.
use mmtk_julia.Base.{ℕ, ◌+◌, ◌%◌, ◌^◌, ◌≡◌, refl, sym, ◌∙◌, ap, Bool, List, [], ◌∷◌, arith}
use mmtk_julia.GcTrigger.Floats.{Floats}
use mmtk_julia.GcTrigger.Policy.{
  JuliaGcTrigger, new, Plan, on_gc_start, on_gc_end, on_pending_allocation, retarget, store_target,
  count_thrash, update_thrashing, smooth_rates,
}

-- A call of the policy, with what its environment answers.
pub data Event : Type 0 where
  gc_start : Plan → (now : ℕ) → Event
  gc_end : Plan → (is_user_triggered : Bool) → (now : ℕ) → Event
  pending_allocation : (pages : ℕ) → Event

-- The pages of all pending allocations.
abbrev pub requested : List Event → ℕ
requested [] = 0
requested (pending_allocation pages ∷ es) = pages + requested es
requested (gc_start _ _ ∷ es) = requested es
requested (gc_end _ _ _ ∷ es) = requested es

requested-cons :
    (e : Event) (es : List Event) → requested (e ∷ es) ≡ requested (e ∷ []) + requested es
requested-cons (gc_start plan now) es = omega arith
requested-cons (gc_end plan user now) es = omega arith
requested-cons (pending_allocation pages) es = omega arith

module _ (fl : Floats) (pages_to_bytes : ℕ → ℕ) where
  abbrev pub step : JuliaGcTrigger → Event → JuliaGcTrigger
  step t (gc_start plan now) = on_gc_start pages_to_bytes t plan now
  step t (gc_end plan user now) = (on_gc_end fl pages_to_bytes t plan user now).0
  step t (pending_allocation pages) = on_pending_allocation t pages

  unfoldable pub run : JuliaGcTrigger → List Event → JuliaGcTrigger
  run t [] = t
  run t (e ∷ es) = run (step t e) es

  -- The thrashing counter and flag are off.
  pub record IsCalm (t : JuliaGcTrigger) : Type 0 where
    pub counter : t.thrash_counter ≡ 0
    pub flag : t.thrashing ≡ 0

  step-IsCalm : (t : JuliaGcTrigger) (e : Event) → IsCalm t → IsCalm (step t e)
  unfolding on_gc_start on_pending_allocation on_gc_end retarget store_target count_thrash
      update_thrashing smooth_rates
  step-IsCalm t (gc_start plan now) calm = ground arith
  step-IsCalm t (gc_end plan user now) calm = ground arith
  step-IsCalm t (pending_allocation pages) calm = ground arith

  run-IsCalm : (t : JuliaGcTrigger) (es : List Event) → IsCalm t → IsCalm (run t es)
  unfolding run
  run-IsCalm t [] calm = calm
  run-IsCalm t (e ∷ es) calm = run-IsCalm (step t e) es (step-IsCalm t e calm)

  -- From a new trigger no sequence of collections and allocations, however long the pauses, ever
  -- raises the thrashing counter or sets the thrashing flag: the counter only goes up from 4 on.
  pub run-new-IsCalm : (max_total_mem : ℕ) (es : List Event) → IsCalm (run (new max_total_mem) es)
  run-new-IsCalm max_total_mem es =
      run-IsCalm (new max_total_mem) es (record { counter = refl; flag = refl })

  step-pending :
      (t : JuliaGcTrigger) (e : Event) (n : ℕ)
      → ((step t e).pending_pages + n) % 2 ^ 64
        ≡ (t.pending_pages + (requested (e ∷ []) + n)) % 2 ^ 64
  unfolding on_gc_start on_pending_allocation on_gc_end retarget store_target count_thrash
      update_thrashing smooth_rates
  step-pending t (gc_start plan now) n = ground arith
  step-pending t (gc_end plan user now) n = ground arith
  step-pending t (pending_allocation pages) n = ground arith

  -- The pending pages are those of every allocation that ever was pending, modulo the word size: no
  -- collection takes any of them back.
  pub run-pending :
      (t : JuliaGcTrigger) (es : List Event)
      → (run t es).pending_pages % 2 ^ 64 ≡ (t.pending_pages + requested es) % 2 ^ 64
  unfolding run
  run-pending t [] = omega arith
  run-pending t (e ∷ es) =
      run-pending (step t e) es
      ∙ step-pending t e (requested es)
      ∙ ap (λ n. (t.pending_pages + n) % 2 ^ 64) (sym (requested-cons e es))
