-- ===== src/GcTrigger/Examples.antt =====
-- The theorems on the trigger at concrete sizes, with whole numbers for floating-point ones.
use mmtk_julia.Base.{
  ℕ, ◌+◌, ◌-◌, ◌*◌, ◌/◌, ◌%◌, ◌^◌, ◌≤◌, ◌≡◌, ◌⊎◌, refl, Bool, true, false, some, List, [], ◌∷◌,
  arith, ltb, leb,
}
use mmtk_julia.GcTrigger.Overallocation.{
  bit_length, mmtk_overallocation, mmtk_overallocation_bounds,
}
use mmtk_julia.GcTrigger.Floats.{Floats, FloatLaws}
use mmtk_julia.GcTrigger.Policy.{
  JuliaGcTrigger, new, Plan, default_collect_interval, on_gc_end, is_gc_required,
}
use mmtk_julia.GcTrigger.Target.{on_gc_end-not_full}
use mmtk_julia.GcTrigger.History.{
  Event, gc_start, gc_end, pending_allocation, run, IsCalm, run-new-IsCalm, run-pending,
}

abbrev whole_numbers : Floats
whole_numbers = record {
  F = ℕ;
  of_usize = λ n. n;
  to_usize = λ x. x;
  decimal = λ digits places. digits / 10 ^ places;
  add = λ x y. x + y;
  sub = λ x y. x - y;
  mul = λ x y. x * y;
  div = λ x y. x / y;
  sqrt = λ x. x;
  le = leb;
  lt = ltb;
}

whole_laws : FloatLaws whole_numbers
whole_laws = record {
  IsNumber = λ x. Unit {0};
  not_le = λ x y _ _ e. ground arith;
  not_lt = λ x y _ _ e. ground arith;
  to_usize_mono = λ x y e. ground arith;
  to_usize_of = λ n _. refl;
  IsNumber_of = λ n. tt;
  le_refl = λ x _. ground arith;
  le_of_lt = λ x y e. ground arith;
  add_mono = λ x y z _ _ _ e. ground arith;
  add_of = λ m n _. refl;
  IsNumber_add = λ x n _. tt;
}

abbrev pages : ℕ → ℕ
pages n = n * 4096

abbrev plan : Plan
plan = record { reserved_pages = 20000; generational = some true }

abbrev fresh : JuliaGcTrigger
fresh = new (2 ^ 33)

abbrev events : List Event
events =
    pending_allocation 7 ∷ gc_start plan 1000 ∷ gc_end plan false 9000 ∷ pending_allocation 5 ∷ []

on_gc_end-not_full_example :
    (default_collect_interval ≤ (on_gc_end whole_numbers pages fresh plan false 9000).0.heap_target)
    × (81920000 + 81920000 / 20
        ≤ (on_gc_end whole_numbers pages fresh plan false 9000).0.heap_target)
    × (81920000 + default_collect_interval / 8
        ≤ (on_gc_end whole_numbers pages fresh plan false 9000).0.heap_target)
    × ((required : Bool)
        → is_gc_required pages (on_gc_end whole_numbers pages fresh plan false 9000).0 plan required
          ≡ required)
unfolding whole_laws
on_gc_end-not_full_example =
    on_gc_end-not_full whole_numbers whole_laws pages fresh plan 9000 tt (omega arith)

run-new-IsCalm_example : IsCalm whole_numbers pages (run whole_numbers pages (new (2 ^ 33)) events)
run-new-IsCalm_example = run-new-IsCalm whole_numbers pages (2 ^ 33) events

run-pending_example :
    (run whole_numbers pages fresh events).pending_pages % 2 ^ 64 ≡ (0 + 12) % 2 ^ 64
run-pending_example = run-pending whole_numbers pages fresh events

mmtk_overallocation_bounds_example :
    ((mmtk_overallocation 1000 500 2000 + 500 ≤ 2000)
      ⊎ (mmtk_overallocation 1000 500 2000 ≤ 2000 / 20))
    × ((mmtk_overallocation 1000 500 2000 ≡ 2000 / 20)
        ⊎ (mmtk_overallocation 1000 500 2000 ≡ 2 ^ (bit_length 64 1000 * 7 / 8) * 4 + 1000 / 8))
mmtk_overallocation_bounds_example =
    mmtk_overallocation_bounds 1000 500 2000 (omega arith) (omega arith)
