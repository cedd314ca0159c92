-- ===== src/Finalizer/Examples.antt =====
-- The finalizer theorems at concrete lists.
use mmtk_julia.Base.{
  ℕ, zero, suc, ◌*◌, ◌%◌, ◌≡◌, refl, ◌++◌, Bool, true, false, some, List, [], ◌∷◌, arith, Address,
  ◌==◌, values,
}
use mmtk_julia.Finalizer.ArrayList.{ArrayListT, contents, GrowKeeps}
use mmtk_julia.Finalizer.Sweep.Defs.{SweepState, sweep_finalizer_list}
use mmtk_julia.Finalizer.Sweep.Refines.{Outcome, sweep_finalizer_list-Outcome}
use mmtk_julia.Finalizer.Mark.Defs.{MarkState, mark_finlist}
use mmtk_julia.Finalizer.Mark.Entries.{mark_entries}
use mmtk_julia.Finalizer.Mark.Loop.{mark_finlist-entries}
use mmtk_julia.Finalizer.Scan.Defs.{FinalizerLists, scan_finalizers_in_rust}
use mmtk_julia.Finalizer.Scan.Nursery.{NurseryScan, scan_finalizers_in_rust-nursery}
use mmtk_julia.Finalizer.Scan.Full.{FullScan, scan_finalizers_in_rust-full}

abbrev item : List Address → ℕ → Address
item [] i = 0
item (x ∷ xs) zero = x
item (x ∷ xs) (suc i) = item xs i

-- A live object, a dead one behind a native finalizer, a quiescent one and a dropped entry.
abbrev four_pairs : ArrayListT
four_pairs = record { len = 8; max = 8; items = item (16 ∷ 100 ∷ 33 ∷ 200 ∷ 18 ∷ 300 ∷ 0 ∷ 0 ∷ []) }

abbrev no_pairs : ArrayListT
no_pairs = record { len = 0; max = 8; items = λ i. 0 }

abbrev same_buffer : ArrayListT → ℕ → ArrayListT
same_buffer l n = l

same_buffer-GrowKeeps : GrowKeeps same_buffer
same_buffer-GrowKeeps l n i below = refl

abbrev only_sixteen : Address → Bool
only_sixteen a = a == 16

-- Every object moves to twice its address; the tracer counts its calls.
abbrev doubling : ℕ → Address → ℕ × Address
doubling t a = (suc t, a * 2)

doubling-even : (t a : ℕ) → (doubling t a).1 % 2 ≡ 0
doubling-even t a = omega arith

abbrev lists : FinalizerLists
lists = record {
  thread_local = four_pairs ∷ no_pairs ∷ [];
  to_finalize = no_pairs;
  marked = no_pairs;
  have_pending = 0;
}

sweep_finalizer_list-Outcome_example :
    (r : SweepState) × (sweep_finalizer_list same_buffer only_sixteen four_pairs no_pairs
        (some no_pairs)
        0
      ≡ some r)
    × Outcome only_sixteen 4 four_pairs no_pairs (some no_pairs) 0 r
sweep_finalizer_list-Outcome_example =
    sweep_finalizer_list-Outcome same_buffer same_buffer-GrowKeeps only_sixteen 4 four_pairs
      no_pairs (some no_pairs) 0 refl (omega arith) (omega arith)

mark_finlist-entries_example :
    (r : MarkState ℕ) × (mark_finlist doubling four_pairs 2 0 ≡ some r)
    × (r.tracer ≡ (mark_entries doubling 0 (values four_pairs.items 2 6)).0)
    × (contents r.list
        ≡ values four_pairs.items 0 2 ++ (mark_entries doubling 0 (values four_pairs.items 2 6)).1)
mark_finlist-entries_example = mark_finlist-entries doubling doubling-even four_pairs 2 6 0 refl

scan_finalizers_in_rust-nursery_example :
    (r : FinalizerLists × ℕ) × (scan_finalizers_in_rust same_buffer only_sixteen doubling true lists
        0
      ≡ some r)
    × NurseryScan same_buffer same_buffer-GrowKeeps only_sixteen doubling doubling-even lists 0 r
scan_finalizers_in_rust-nursery_example =
    scan_finalizers_in_rust-nursery same_buffer same_buffer-GrowKeeps only_sixteen doubling
      doubling-even lists 0 (refl, (refl, tt)) (omega arith) (omega arith)

-- The marked list has a live object, which moves, and a dead one.
abbrev lists_with_marked : FinalizerLists
lists_with_marked = record lists {
  marked = record { len = 4; max = 8; items = item (16 ∷ 500 ∷ 48 ∷ 600 ∷ []) };
}

scan_finalizers_in_rust-full_example :
    (r : FinalizerLists × ℕ) × (scan_finalizers_in_rust same_buffer only_sixteen doubling false
        lists_with_marked 0
      ≡ some r)
    × FullScan same_buffer same_buffer-GrowKeeps only_sixteen doubling doubling-even
        lists_with_marked 0 r
scan_finalizers_in_rust-full_example =
    scan_finalizers_in_rust-full same_buffer same_buffer-GrowKeeps only_sixteen doubling
      doubling-even lists_with_marked 0 (refl, (refl, tt)) refl (omega arith)
