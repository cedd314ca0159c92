-- ===== src/Finalizer/Sweep/Defs.antt =====
-- mmtk/src/julia_finalizer.rs: `sweep_finalizer_list`, its loop given a round for each entry.
use mmtk_julia.Base.{
  ℕ, zero, suc, ◌+◌, Bool, true, false, not, ◌&&◌, ◌||◌, Option, none, some, Address, is_some, ltb,
  ◌==◌, if◌then◌else◌,
}
use mmtk_julia.Finalizer.ArrayList.{ArrayListT, get, set, push, gc_ptr_clear_tag, gc_ptr_tag}

-- The lists that the function is given, the flag `jl_gc_have_pending_finalizers`, and its indices.
pub record SweepState : Type 0 where
  pub list : ArrayListT
  pub to_finalize : ArrayListT
  pub finalizer_list_marked : Option ArrayListT
  pub have_pending : ℕ
  pub i : ℕ
  pub j : ℕ

abbrev pub start_sweep : (list to_finalize : ArrayListT) → Option ArrayListT → ℕ → SweepState
start_sweep list to_finalize finalizer_list_marked have_pending = record {
  list = list;
  to_finalize = to_finalize;
  finalizer_list_marked = finalizer_list_marked;
  have_pending = have_pending;
  i = 0;
  j = 0;
}

-- Moves the entry at `i` and its finalizer down to `j`.
abbrev pub compact : ArrayListT → ℕ → ℕ → ArrayListT
compact list i j = let list' = set list j (get list i) in set list' (j + 1) (get list' (i + 1))

-- `list.len = j`
abbrev pub finish : SweepState → SweepState
finish s = record s { list = record s.list { len = s.j } }

abbrev pub finish? : Option SweepState → Option SweepState
finish? none = none
finish? (some s) = some (finish s)

module _ (arraylist_grow : ArrayListT → ℕ → ArrayListT) where
  abbrev pub push_pair : ArrayListT → Address → Address → ArrayListT
  push_pair l v0 fin = push arraylist_grow (push arraylist_grow l v0) fin

  abbrev pub push_marked : Option ArrayListT → Address → Address → Option ArrayListT
  push_marked none v0 fin = none
  push_marked (some l) v0 fin = some (push_pair l v0 fin)

-- `arraylist_grow` is C's, `is_live_object` is mmtk-core's.
module _ (arraylist_grow : ArrayListT → ℕ → ArrayListT) (is_live_object : Address → Bool) where
  -- `(isfreed, isold)`
  unfoldable pub classify : Bool → Address → Bool × Bool
  classify has_marked v0 =
      if gc_ptr_tag v0 2
      then (true, false)
      else (let isfreed = not (is_live_object (gc_ptr_clear_tag v0 3)) in
          (isfreed, has_marked && not isfreed))

  -- The part of a round behind the test for a zero entry.
  unfoldable pub sweep_entry : SweepState → Address → Address → Bool × Bool → SweepState
  sweep_entry s v0 fin (isfreed, isold) =
      let keep = not (isfreed || isold) in
      record {
        list = if keep && ltb s.j s.i then compact s.list s.i s.j else s.list;
        to_finalize =
            if isfreed then push_pair arraylist_grow s.to_finalize v0 fin else s.to_finalize;
        finalizer_list_marked =
            if isold
            then push_marked arraylist_grow s.finalizer_list_marked v0 fin
            else s.finalizer_list_marked;
        have_pending = if isfreed then 1 else s.have_pending;
        i = s.i + 2;
        j = if keep then s.j + 2 else s.j;
      }

  unfoldable pub sweep_round : SweepState → SweepState
  sweep_round s =
      let v0 = get s.list s.i in
      if v0 == 0
      then record s { i = s.i + 2 }
      else sweep_entry s v0 (get s.list (s.i + 1)) (classify (is_some s.finalizer_list_marked) v0)

  -- `none`: out of fuel.
  unfoldable pub sweep_loop : ℕ → SweepState → Option SweepState
  sweep_loop zero s = none
  sweep_loop (suc fuel) s =
      let rest = sweep_loop fuel (sweep_round s) in if ltb s.i s.list.len then rest else some s

  unfoldable pub sweep_finalizer_list :
      (list to_finalize : ArrayListT) → Option ArrayListT → ℕ → Option SweepState
  sweep_finalizer_list list to_finalize finalizer_list_marked have_pending =
      let start = start_sweep list to_finalize finalizer_list_marked have_pending in
      if list.len == 0 then some start else finish? (sweep_loop (list.len + 1) start)
