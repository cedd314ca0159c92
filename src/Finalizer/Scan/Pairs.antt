-- ===== src/Finalizer/Scan/Pairs.antt =====
-- The second look that a full collection takes at the pairs of the marked list.
use mmtk_julia.Base.{
  ℕ, zero, suc, ◌+◌, ◌/◌, ◌%◌, ◌≤◌, ◌≡◌, refl, ap, ◌∙◌, Bool, true, false, List, [], ◌∷◌, ◌++◌,
  append-nil, arith, Address, length, length-append, values, if◌then◌else◌, Bool-cases, inl, inr,
}
use mmtk_julia.Finalizer.ArrayList.{ArrayListT}
use mmtk_julia.Finalizer.Sweep.Fate.{Fate, kept, freed, old, is_fate, fate, chosen}
use mmtk_julia.Finalizer.Scan.Threads.{thread_chosen, total_len, length-chosen}

module _ (live : Address → Bool) where
  -- The pairs of one fate in a list of pairs, when no list of marked entries is given.
  unfoldable pub picks : Fate → List Address → List Address
  picks want [] = []
  picks want (x ∷ []) = []
  picks want (x ∷ y ∷ xs) =
      let rest = picks want xs in if is_fate want (fate live false x) then x ∷ y ∷ rest else rest

  pub chosen-picks :
      (want : Fate) (f : ℕ → Address) (i n m : ℕ)
      → m ≡ n + n
      → chosen live want false f i n ≡ picks want (values f i m)
  unfolding picks
  chosen-picks want f i zero zero e = refl
  chosen-picks want f i zero (suc m) e = absurd (omega arith)
  chosen-picks want f i (suc n) zero e = absurd (omega arith)
  chosen-picks want f i (suc n) (suc zero) e = absurd (omega arith)
  chosen-picks want f i (suc n) (suc (suc m)) e = rw (
    let one : i + 1 ≡ suc i = omega arith in one,
    let two : i + 2 ≡ suc (suc i) = omega arith in two,
    chosen-picks want f (suc (suc i)) n m (omega arith),
  )

  picks-append :
      (want : Fate) (xs ys : List Address) (n : ℕ)
      → length xs ≡ n + n
      → picks want (xs ++ ys) ≡ picks want xs ++ picks want ys
  unfolding picks
  picks-append want [] ys n e = refl
  picks-append want (x ∷ []) ys n e = absurd (omega arith)
  picks-append want (x ∷ y ∷ xs) ys zero e = absurd (omega arith)
  picks-append want (x ∷ y ∷ xs) ys (suc n) e =
      elim (Bool-cases (is_fate want (fate live false x))) [
        | inl t ↦ rw (t, picks-append want xs ys n (omega arith))
        | inr t ↦ rw (t, picks-append want xs ys n (omega arith))
      ]

  -- Pairs that a sweep without a list of marked entries keeps.
  abbrev Stays : List Address → Type 0
  Stays [] = Unit
  Stays (x ∷ []) = true ≡ false
  Stays (x ∷ y ∷ xs) = (fate live false x ≡ kept) × Stays xs

  old_stays : (v : Address) → is_fate old (fate live true v) ≡ true → fate live false v ≡ kept
  unfolding fate
  old_stays v h = ground arith

  Stays-chosen : (f : ℕ → Address) (i n : ℕ) → Stays (chosen live old true f i n)
  Stays-chosen f i zero = tt
  Stays-chosen f i (suc n) = elim (Bool-cases (is_fate old (fate live true (f i)))) [
    | inl aged ↦ rw aged (old_stays (f i) aged, Stays-chosen f (i + 2) n)
    | inr other ↦ rw other (Stays-chosen f (i + 2) n)
  ]

  Stays-append : (xs ys : List Address) → Stays xs → Stays ys → Stays (xs ++ ys)
  Stays-append [] ys h k = k
  Stays-append (x ∷ []) ys h k = cc
  Stays-append (x ∷ y ∷ xs) ys h k = (h.0, Stays-append xs ys h.1 k)

  pub Stays-thread_chosen : (lists : List ArrayListT) → Stays (thread_chosen live old lists)
  Stays-thread_chosen [] = tt
  Stays-thread_chosen (l ∷ ls) =
      Stays-append (chosen live old true l.items 0 (l.len / 2)) (thread_chosen live old ls)
        (Stays-chosen l.items 0 (l.len / 2)) (Stays-thread_chosen ls)

  picks-kept : (xs : List Address) → Stays xs → picks kept xs ≡ xs
  unfolding picks
  picks-kept [] h = refl
  picks-kept (x ∷ []) h = cc
  picks-kept (x ∷ y ∷ xs) h = rw (h.0, picks-kept xs h.1)

  picks-freed : (xs : List Address) → Stays xs → picks freed xs ≡ []
  unfolding picks
  picks-freed [] h = refl
  picks-freed (x ∷ []) h = cc
  picks-freed (x ∷ y ∷ xs) h = rw (h.0, picks-freed xs h.1)

  length-Stays : (xs : List Address) → Stays xs → length xs % 2 ≡ 0
  length-Stays [] h = refl
  length-Stays (x ∷ []) h = cc
  length-Stays (x ∷ y ∷ xs) h = omega (arith, length-Stays xs h.1)

  -- The marked list behind the sweep of the mutators' lists: what it held, and the pairs that grew old.
  module _ (xs : List Address) (n : ℕ) (paired : length xs ≡ n + n) (lists : List ArrayListT) where
    pub picks-kept_aged :
        picks kept (xs ++ thread_chosen live old lists)
        ≡ picks kept xs ++ thread_chosen live old lists
    picks-kept_aged =
        picks-append kept xs (thread_chosen live old lists) n paired
        ∙ ap (λ ys. picks kept xs ++ ys) (picks-kept _ (Stays-thread_chosen lists))

    pub picks-freed_aged : picks freed (xs ++ thread_chosen live old lists) ≡ picks freed xs
    picks-freed_aged =
        picks-append freed xs (thread_chosen live old lists) n paired
        ∙ ap (λ ys. picks freed xs ++ ys) (picks-freed _ (Stays-thread_chosen lists))
        ∙ append-nil (picks freed xs)

  pub length-thread_chosen_even :
      (lists : List ArrayListT) → length (thread_chosen live old lists) % 2 ≡ 0
  length-thread_chosen_even lists =
      length-Stays (thread_chosen live old lists) (Stays-thread_chosen lists)

  pub length-thread_chosen :
      (want : Fate) (lists : List ArrayListT)
      → length (thread_chosen live want lists) ≤ total_len lists
  length-thread_chosen want [] = omega arith
  length-thread_chosen want (l ∷ ls) = omega (
    arith,
    length-append (chosen live want true l.items 0 (l.len / 2)) (thread_chosen live want ls),
    length-chosen live want l.items 0 (l.len / 2),
    length-thread_chosen want ls,
  )
