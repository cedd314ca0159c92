-- ===== src/Finalizer/Sweep/Refines.antt =====
-- `sweep_finalizer_list` against the fates of the entries.
use mmtk_julia.Base.{
  ℕ, zero, suc, ◌+◌, ◌^◌, ◌<◌, ◌≡◌, refl, Bool, true, false, Option, some, ◌++◌, arith, Address,
  is_some, ◌==◌, append-nil, sym,
}
use mmtk_julia.Finalizer.ArrayList.{ArrayListT, contents, GrowKeeps}
use mmtk_julia.Finalizer.Sweep.Defs.{SweepState, start_sweep, finish, sweep_finalizer_list}
use mmtk_julia.Finalizer.Sweep.Fate.{kept, freed, old, chosen, marked_contents}
use mmtk_julia.Finalizer.Sweep.Swept.{marked_len, flag_after}
use mmtk_julia.Finalizer.Sweep.Loop.{sweep_loop-Swept}

-- The lists that a sweep of the `n` pairs of `list` leaves.
pub record Outcome (live : Address → Bool) (n : ℕ) (list to_finalize : ArrayListT)
    (marked : Option ArrayListT) (pending : ℕ) (r : SweepState) : Type 0 where
  pub survivors : contents r.list ≡ chosen live kept (is_some marked) list.items 0 n
  pub finalized :
      contents r.to_finalize
      ≡ contents to_finalize ++ chosen live freed (is_some marked) list.items 0 n
  pub aged :
      marked_contents r.finalizer_list_marked
      ≡ marked_contents marked ++ chosen live old (is_some marked) list.items 0 n
  pub flag : r.have_pending ≡ flag_after (chosen live freed (is_some marked) list.items 0 n) pending
  pub same_marked : is_some r.finalizer_list_marked ≡ is_some marked

-- For C that keeps the entries when a list grows, a list of `n` pairs, and no list that outgrows a
-- `usize`: `sweep_finalizer_list` returns, the list holds exactly its pairs whose fate is `kept`, in
-- their order; `to_finalize` and the list of marked entries, if there is one, gain the pairs whose
-- fate is `freed` and `old`, in their order, behind what they held; and the pending flag is set if
-- some pair was freed and is else unchanged.
pub sweep_finalizer_list-Outcome :
    (grow : ArrayListT → ℕ → ArrayListT)
    → GrowKeeps grow
    → (live : Address → Bool) (n : ℕ) (list to_finalize : ArrayListT) (marked : Option ArrayListT)
      (pending : ℕ)
    → list.len ≡ n + n
    → to_finalize.len + list.len < 2 ^ 64
    → marked_len marked + list.len < 2 ^ 64
    → (r : SweepState) × (sweep_finalizer_list grow live list to_finalize marked pending ≡ some r)
      × Outcome live n list to_finalize marked pending r
unfolding sweep_finalizer_list
sweep_finalizer_list-Outcome grow keeps live zero list to_finalize marked pending even room mroom =
    let empty : list.len ≡ 0 = omega arith in
    let yes_empty : (list.len == 0) ≡ true = ground arith in
    (
      start_sweep list to_finalize marked pending,
      rw yes_empty refl,
      record {
        survivors = rw empty refl;
        finalized = sym (append-nil _);
        aged = sym (append-nil _);
        flag = refl;
        same_marked = refl;
      },
    )
sweep_finalizer_list-Outcome grow keeps live (suc n) list to_finalize marked pending even room
      mroom =
    let some_left : (list.len == 0) ≡ false = ground arith in
    let (r, ends, swept) =
      sweep_loop-Swept grow keeps live (suc n) (list.len + 1)
        (start_sweep list to_finalize marked pending) (omega arith)
        (record {
          even = omega arith;
          order = omega arith;
          room = omega arith;
          marked_room = omega arith;
        }) in
    (
      finish r,
      rw (some_left, ends) refl,
      record {
        survivors = swept.keeps;
        finalized = swept.frees;
        aged = swept.ages;
        flag = swept.pending;
        same_marked = swept.same_marked;
      },
    )
