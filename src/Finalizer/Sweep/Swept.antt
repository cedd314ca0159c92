-- ===== src/Finalizer/Sweep/Swept.antt =====
-- What a round of `sweep_finalizer_list` adds to what the rest of the loop does, fate by fate.
use mmtk_julia.Base.{
  ℕ, suc, ◌+◌, ◌^◌, ◌≤◌, ◌<◌, ◌≡◌, refl, ap, ◌∙◌, Bool, Option, none, some, List, true, [], ◌∷◌,
  ◌++◌, append_assoc, arith, Address, is_some, values,
}
use mmtk_julia.Finalizer.ArrayList.{ArrayListT, contents, GrowKeeps}
use mmtk_julia.Finalizer.Sweep.Defs.{SweepState, push_pair, push_marked}
use mmtk_julia.Finalizer.Sweep.Fate.{
  Fate, dropped, freed, old, kept, fate, fate_at, chosen, marked_contents,
}
use mmtk_julia.Finalizer.Sweep.Compact.{
  moved, moved-above, values-moved, chosen-ext, contents-push_pair, len-push_pair,
}

-- Where the list of marked entries is, and how long.
abbrev pub marked_len : Option ArrayListT → ℕ
marked_len none = 0
marked_len (some l) = l.len

-- The flag once the given entries are to be finalized.
abbrev pub flag_after : List Address → ℕ → ℕ
flag_after [] pending = pending
flag_after (_ ∷ _) pending = 1

-- What the rounds for `n` pairs make of `s`.
pub record Swept (live : Address → Bool) (n : ℕ) (s r : SweepState) : Type 0 where
  pub keeps :
      values r.list.items 0 r.j
      ≡ values s.list.items 0 s.j
        ++ chosen live kept (is_some s.finalizer_list_marked) s.list.items s.i n
  pub frees :
      contents r.to_finalize
      ≡ contents s.to_finalize
        ++ chosen live freed (is_some s.finalizer_list_marked) s.list.items s.i n
  pub ages :
      marked_contents r.finalizer_list_marked
      ≡ marked_contents s.finalizer_list_marked
        ++ chosen live old (is_some s.finalizer_list_marked) s.list.items s.i n
  pub pending :
      r.have_pending
      ≡ flag_after
          (chosen live freed (is_some s.finalizer_list_marked) s.list.items s.i n)
          s.have_pending
  pub same_marked : is_some r.finalizer_list_marked ≡ is_some s.finalizer_list_marked

-- The state of the loop with `n` pairs to go.
pub record Going (n : ℕ) (s : SweepState) : Type 0 where
  pub even : s.i + (n + n) ≡ s.list.len
  pub order : s.j ≤ s.i
  pub room : s.to_finalize.len + (n + n) < 2 ^ 64
  pub marked_room : marked_len s.finalizer_list_marked + (n + n) < 2 ^ 64

-- A list that grows by a pair, and then by the rest.
append_after :
    {xs ys : List Address} (rest zs : List Address) (v w : Address)
    → xs ≡ ys ++ rest
    → ys ≡ zs ++ v ∷ w ∷ []
    → xs ≡ zs ++ v ∷ w ∷ rest
append_after rest zs v w p q = p ∙ ap (λ l. l ++ rest) q ∙ append_assoc zs (v ∷ w ∷ []) rest

is_some-push_marked :
    (grow : ArrayListT → ℕ → ArrayListT) (m : Option ArrayListT) (v w : Address)
    → is_some (push_marked grow m v w) ≡ is_some m
is_some-push_marked grow none v w = refl
is_some-push_marked grow (some l) v w = refl

is_some_of_old :
    (live : Address → Bool) (m : Option ArrayListT) (v0 : Address)
    → fate live (is_some m) v0 ≡ old
    → is_some m ≡ true
unfolding fate
is_some_of_old live m v0 e = ground arith

contents-push_marked :
    (grow : ArrayListT → ℕ → ArrayListT)
    → GrowKeeps grow
    → (m : Option ArrayListT) (v w : Address) → is_some m ≡ true
    → marked_len m + 2 < 2 ^ 64
    → marked_contents (push_marked grow m v w) ≡ marked_contents m ++ v ∷ w ∷ []
contents-push_marked grow keeps none v w e fits = cc
contents-push_marked grow keeps (some l) v w e fits = contents-push_pair grow keeps l v w fits

pub len-push_marked :
    (grow : ArrayListT → ℕ → ArrayListT) (m : Option ArrayListT) (v w : Address)
    → marked_len m + 2 < 2 ^ 64
    → marked_len (push_marked grow m v w) ≤ marked_len m + 2
len-push_marked grow none v w fits = omega arith
len-push_marked grow (some l) v w fits = omega (arith, len-push_pair grow l v w fits)

module _ (live : Address → Bool) (n : ℕ) (s : SweepState) (r : SweepState) where
  pub Swept-dropped :
      fate_at live s ≡ dropped → Swept live n (record s { i = s.i + 2 }) r → Swept live (suc n) s r
  Swept-dropped e h = record {
    keeps = rw e h.keeps;
    frees = rw e h.frees;
    ages = rw e h.ages;
    pending = rw e h.pending;
    same_marked = h.same_marked;
  }

  pub Swept-freed :
      (grow : ArrayListT → ℕ → ArrayListT)
      → GrowKeeps grow
      → Going (suc n) s
      → fate_at live s ≡ freed
      → Swept live n
          (record s {
            to_finalize = push_pair grow s.to_finalize (s.list.items s.i) (s.list.items (s.i + 1));
            have_pending = 1;
            i = s.i + 2;
          })
          r
      → Swept live (suc n) s r
  Swept-freed grow keeps g e h = record {
    keeps = rw e h.keeps;
    frees = rw e (
        append_after _ _ _ _ h.frees
          (contents-push_pair grow keeps s.to_finalize _ _ (omega (arith, g.room))));
    ages = rw e h.ages;
    pending = rw e (ground (arith, h.pending));
    same_marked = h.same_marked;
  }

  pub Swept-old :
      (grow : ArrayListT → ℕ → ArrayListT)
      → GrowKeeps grow
      → Going (suc n) s
      → fate_at live s ≡ old
      → Swept live n
          (record s {
            finalizer_list_marked =
                push_marked grow s.finalizer_list_marked
                  (s.list.items s.i)
                  (s.list.items (s.i + 1));
            i = s.i + 2;
          })
          r
      → Swept live (suc n) s r
  Swept-old grow keeps g e h = record {
    keeps = rw e (rw same at h.keeps);
    frees = rw e (rw same at h.frees);
    ages = rw e (
        append_after _ _ _ _ (rw same at h.ages) (
          contents-push_marked grow keeps s.finalizer_list_marked _ _
            (is_some_of_old live s.finalizer_list_marked _ e) (omega (arith, g.marked_room))));
    pending = rw e (
        h.pending
        ∙ ap (λ b. flag_after (chosen live freed b s.list.items (s.i + 2) n) s.have_pending) same);
    same_marked = h.same_marked ∙ same;
  }
    where
      same :
          is_some
            (push_marked grow s.finalizer_list_marked (s.list.items s.i) (s.list.items (s.i + 1)))
          ≡ is_some s.finalizer_list_marked
      same = is_some-push_marked grow s.finalizer_list_marked _ _

  pub Swept-kept :
      Going (suc n) s
      → fate_at live s ≡ kept
      → Swept live n (record s { list = moved s.list s.i s.j; i = s.i + 2; j = s.j + 2 }) r
      → Swept live (suc n) s r
  Swept-kept g e h = record {
    keeps = rw e (
        append_after _ _ _ _
          (h.keeps ∙ ap (λ l. values (moved s.list s.i s.j).items 0 (s.j + 2) ++ l) (later kept))
          (values-moved s.list s.i s.j g.order));
    frees = rw e (h.frees ∙ ap (λ l. contents s.to_finalize ++ l) (later freed));
    ages = rw e (h.ages ∙ ap (λ l. marked_contents s.finalizer_list_marked ++ l) (later old));
    pending = rw e (h.pending ∙ ap (λ l. flag_after l s.have_pending) (later freed));
    same_marked = h.same_marked;
  }
    where
      later :
          (want : Fate)
          → chosen live want
              (is_some s.finalizer_list_marked)
              (moved s.list s.i s.j).items
              (s.i + 2)
              n
            ≡ chosen live want (is_some s.finalizer_list_marked) s.list.items (s.i + 2) n
      later want =
          chosen-ext live want _ _ _ (s.i + 2) n λ k low. moved-above s.list s.i s.j k g.order low

pub Going-next :
    {n : ℕ} {s t : SweepState}
    → Going (suc n) s
    → t.i ≡ s.i + 2
    → t.list.len ≡ s.list.len
    → t.j ≤ s.j + 2
    → t.to_finalize.len ≤ s.to_finalize.len + 2
    → marked_len t.finalizer_list_marked ≤ marked_len s.finalizer_list_marked + 2
    → Going n t
Going-next g ei el ej ef em = record {
  even = omega (arith, g.even);
  order = omega (arith, g.order);
  room = omega (arith, g.room);
  marked_room = omega (arith, g.marked_room);
}
