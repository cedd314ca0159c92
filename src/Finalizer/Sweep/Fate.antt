-- ===== src/Finalizer/Sweep/Fate.antt =====
-- What becomes of an entry of a finalizer list, said without the loop.
use mmtk_julia.Base.{
  ℕ, zero, suc, ◌+◌, ◌-◌, ◌/◌, ◌%◌, ◌≡◌, Bool, true, false, Option, none, some, List, [], ◌∷◌,
  arith, Address, is_some, ltb, ◌==◌, if◌then◌else◌, bit_and_two, bit_and_three,
}
use mmtk_julia.Finalizer.ArrayList.{ArrayListT, contents, gc_ptr_clear_tag, gc_ptr_tag}
use mmtk_julia.Finalizer.Sweep.Defs.{
  SweepState, compact, classify, push_pair, push_marked, sweep_entry, sweep_round,
}

pub data Fate : Type 0 where
  dropped : Fate
  freed : Fate
  old : Fate
  kept : Fate

abbrev pub is_fate : Fate → Fate → Bool
is_fate dropped dropped = true
is_fate freed freed = true
is_fate old old = true
is_fate kept kept = true
is_fate _ _ = false

abbrev pub marked_contents : Option ArrayListT → List Address
marked_contents none = []
marked_contents (some l) = contents l

module _ (is_live_object : Address → Bool) where
  -- A zero entry is dropped. An entry with bit 1 set, or whose object (the tags cleared) is dead, is
  -- freed. A live one grows old if there is a list of marked entries, and is kept if not.
  unfoldable pub fate : Bool → Address → Fate
  fate has_marked v0 =
      if v0 == 0
      then dropped
      else if v0 / 2 % 2 == 1
      then freed
      else if is_live_object (v0 - v0 % 4)
      then if has_marked then old else kept
      else freed

  -- The entries of one fate, each with its finalizer, among the `n` pairs from index `i` on.
  abbrev pub chosen : Fate → Bool → (ℕ → Address) → ℕ → ℕ → List Address
  chosen want has_marked items i zero = []
  chosen want has_marked items i (suc n) =
      let rest = chosen want has_marked items (i + 2) n in
      if is_fate want (fate has_marked (items i)) then items i ∷ items (i + 1) ∷ rest else rest

  abbrev pub fate_at : SweepState → Fate
  fate_at s = fate (is_some s.finalizer_list_marked) (s.list.items s.i)

module _ (arraylist_grow : ArrayListT → ℕ → ArrayListT) (is_live_object : Address → Bool)
    (s : SweepState) where
  pub round-dropped :
      fate_at is_live_object s ≡ dropped
      → sweep_round arraylist_grow is_live_object s ≡ record s { i = s.i + 2 }
  unfolding sweep_round fate
  round-dropped e = ground arith

  pub round-freed :
      fate_at is_live_object s ≡ freed
      → sweep_round arraylist_grow is_live_object s ≡ record s {
        to_finalize =
            push_pair arraylist_grow s.to_finalize (s.list.items s.i) (s.list.items (s.i + 1));
        have_pending = 1;
        i = s.i + 2;
      }
  unfolding sweep_round sweep_entry classify fate gc_ptr_tag gc_ptr_clear_tag
  round-freed e = ground (arith, bit_and_two (s.list.items s.i), bit_and_three (s.list.items s.i))

  pub round-old :
      fate_at is_live_object s ≡ old
      → sweep_round arraylist_grow is_live_object s ≡ record s {
        finalizer_list_marked =
            push_marked arraylist_grow s.finalizer_list_marked
              (s.list.items s.i)
              (s.list.items (s.i + 1));
        i = s.i + 2;
      }
  unfolding sweep_round sweep_entry classify fate gc_ptr_tag gc_ptr_clear_tag
  round-old e = ground (arith, bit_and_two (s.list.items s.i), bit_and_three (s.list.items s.i))

  pub round-kept :
      fate_at is_live_object s ≡ kept
      → sweep_round arraylist_grow is_live_object s ≡ record s {
        list = if ltb s.j s.i then compact s.list s.i s.j else s.list;
        i = s.i + 2;
        j = s.j + 2;
      }
  unfolding sweep_round sweep_entry classify fate gc_ptr_tag gc_ptr_clear_tag
  round-kept e = ground (arith, bit_and_two (s.list.items s.i), bit_and_three (s.list.items s.i))
