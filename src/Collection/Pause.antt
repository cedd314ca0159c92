-- ===== src/Collection/Pause.antt =====
-- mmtk/src/collection.rs: what `stop_all_mutators` does behind its spin, and `resume_mutators` before
-- it lets the mutators go: the visit of the mutators, and the time of the pause.
use mathlib.Core.List.{foldl}
use mathlib.Core.Option
use mmtk_julia.Base.{
  ℕ, zero, suc, ◌+◌, ◌^◌, ◌≤◌, ◌<◌, ◌≡◌, refl, sym, ap, ap₂, ◌∙◌, Bool, Option, none, some, List,
  [], ◌∷◌, ◌++◌, arith, Address, sub_word, length, length-append, append_assoc, get_elem?,
}
use mmtk_julia.Mutators.Table.{Table, keys}
use mmtk_julia.Mutators.Iterator.{
  JuliaMutatorIterator, new, next, get_elem?-beyond, get_elem?-middle,
}

-- What `jl_gc_update_stats` gets.
pub record Statistics : Type 0 where
  pub gc_time : ℕ
  pub live_bytes : ℕ
  pub is_nursery : Bool

-- `mmtk_used_bytes` and `is_current_gc_nursery` at the end; the difference of `u64`s wraps around.
abbrev pub pause_statistics : (gc_start end used_bytes : ℕ) → Bool → Statistics
pause_statistics gc_start end used_bytes nursery = record {
  gc_time = sub_word end gc_start;
  live_bytes = used_bytes;
  is_nursery = nursery;
}

-- `mutator_visitor` is mmtk-core's, with a state of its own; `now` is what `jl_hrtime` gives.
module _ {S : Type 0} (mutator_visitor : S → Address → S) where
  -- The `for` loop over `VMActivePlan::mutators()`.
  unfoldable pub visit_mutators : ℕ → JuliaMutatorIterator → S → Option S
  visit_mutators zero it s = none
  visit_mutators (suc fuel) it s = elim ((next it).0) [
    | none ↦ some s
    | some m ↦ visit_mutators fuel ((next it).1) (mutator_visitor s m)
  ]

  -- The visitor's state and `GC_START` afterwards.
  unfoldable pub visit_stopped : (fuel : ℕ) → Table → (now : ℕ) → S → Option (S × ℕ)
  unfolding visit_mutators
  visit_stopped fuel mutators now s =
      Option.map (λ (r : S). (r, now)) (visit_mutators fuel (new mutators) s)

  visit_mutators-rest :
      (fuel : ℕ) (before rest vec : List Address) (cursor : ℕ) (s : S)
      → vec ≡ before ++ rest
      → cursor ≡ length before
      → length rest < fuel
      → visit_mutators fuel (record { vec = vec; cursor = cursor }) s
        ≡ some (foldl mutator_visitor s rest)
  unfolding visit_mutators next
  visit_mutators-rest zero before rest vec cursor s e f h = absurd (omega arith)
  visit_mutators-rest (suc fuel) before [] vec cursor s e f h =
      rw
        (
          get_elem?-beyond vec cursor (omega (arith, f, ap length e, length-append {0} before [])),
          visit_mutators,
        )
        refl
  visit_mutators-rest (suc fuel) before (m ∷ rest) vec cursor s e f h =
      rw
        (
          ap₂ (λ (v : List Address) (c : ℕ). get_elem? v c) e f ∙ get_elem?-middle before m rest,
          visit_mutators,
        )
        (visit_mutators-rest fuel (before ++ m ∷ []) rest vec (suc cursor) (mutator_visitor s m)
          (e ∙ sym (append_assoc before (m ∷ []) rest))
          (omega (arith, length-append {0} before (m ∷ []))) (omega arith))

  -- Behind the spin `stop_all_mutators` ends: it shows every mutator of the table to mmtk-core's
  -- visitor, once each and in the table's order, and notes the time. If the clock has not gone back and
  -- is within a `u64`, the statistics of the pause have the time from then to the end.
  pub visit_stopped-Pause :
      (t : Table) (extra now end used_bytes : ℕ) (nursery : Bool) (s : S)
      → now ≤ end
      → end < 2 ^ 64
      → (visit_stopped (suc (length (keys t)) + extra) t now s
          ≡ some (foldl mutator_visitor s (keys t), now))
        × ((pause_statistics now end used_bytes nursery).gc_time + now ≡ end)
  unfolding visit_stopped
  visit_stopped-Pause t extra now end used_bytes nursery s le high = (
    rw
        (visit_mutators-rest (suc (length (keys t)) + extra) [] (keys t) (keys t) 0 s refl refl
          (omega arith))
        refl,
    omega arith,
  )
