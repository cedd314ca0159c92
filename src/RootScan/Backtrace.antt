-- ===== src/RootScan/Backtrace.antt =====
-- The backtrace buffer: the entry helpers of mmtk/src/julia_scanning.rs and the loop over the buffer
-- in `scan_roots_in_mutator_thread` of scanning.rs. `elem i` is the buffer's element `i`.
use mmtk_julia.Base.{
  ℕ, zero, suc, ◌+◌, ◌-◌, ◌*◌, ◌/◌, ◌^◌, ◌<◌, ◌≤◌, ◌≡◌, ◌≢◌, refl, sym, ap, ap₂, ◌∙◌, Bool, not,
  List, [], ◌∷◌, ◌++◌, arith, bit_and, bit_and_seven, ◌==◌, ltb, if◌then◌else◌, length,
  length-append, values,
}

abbrev pub jl_bt_non_ptr_entry : ℕ
jl_bt_non_ptr_entry = 2 ^ 64 - 1

module _ (elem : ℕ → ℕ) where
  unfoldable pub bt_is_native : ℕ → Bool
  bt_is_native i = not (elem i == jl_bt_non_ptr_entry)

  unfoldable pub bt_num_jlvals : ℕ → ℕ
  bt_num_jlvals i = bit_and (elem (i + 1)) 7

  unfoldable pub bt_num_uintvals : ℕ → ℕ
  bt_num_uintvals i = bit_and (elem (i + 1) / 8) 7

  unfoldable pub bt_entry_size : ℕ → ℕ
  bt_entry_size i = if bt_is_native i then 1 else 2 + bt_num_jlvals i + bt_num_uintvals i

  unfoldable pub bt_entry_jlvalues : ℕ → List ℕ
  bt_entry_jlvalues i = if bt_is_native i then [] else values elem (i + 2) (bt_num_jlvals i)

  -- The loop from element `i` on; an entry has at least one element, so `bt_size` rounds are enough.
  unfoldable pub scan_bt : ℕ → (i bt_size : ℕ) → List ℕ
  scan_bt zero i bt_size = []
  scan_bt (suc rounds) i bt_size =
      let rest = scan_bt rounds (i + bt_entry_size i) bt_size in
      if ltb i bt_size then bt_entry_jlvalues i ++ rest else []

-- An entry as the runtime writes it: a native instruction pointer; or an extended entry, with its
-- Julia values, its plain words, and the bits of its descriptor above the two counts.
pub data Entry : Type 0 where
  native : ℕ → Entry
  extended : (jlvalues uintvals : List ℕ) → ℕ → Entry

abbrev pub entry_words : Entry → List ℕ
entry_words (native ip) = ip ∷ []
entry_words (extended js us bits) =
    jl_bt_non_ptr_entry ∷ (length js + 8 * length us + 64 * bits) ∷ (js ++ us)

abbrev pub IsEntry : Entry → Type 0
IsEntry (native ip) = ip ≢ jl_bt_non_ptr_entry
IsEntry (extended js us bits) = (length js ≤ 7) × (length us ≤ 7)

abbrev pub entry_values : Entry → List ℕ
entry_values (native ip) = []
entry_values (extended js us bits) = js

abbrev pub all_words : List Entry → List ℕ
all_words [] = []
all_words (e ∷ es) = entry_words e ++ all_words es

abbrev pub all_values : List Entry → List ℕ
all_values [] = []
all_values (e ∷ es) = entry_values e ++ all_values es

abbrev pub AreEntries : List Entry → Type 0
AreEntries [] = Unit
AreEntries (e ∷ es) = IsEntry e × AreEntries es

not_native :
    (e : ℕ) (xs js : List ℕ)
    → e ≡ jl_bt_non_ptr_entry
    → xs ≡ js
    → (if not (e == jl_bt_non_ptr_entry) then [] else xs) ≡ js
not_native e xs js f g = grind arith

some_words : (e : Entry) → 0 < length (entry_words e)
some_words (native ip) = omega arith
some_words (extended js us bits) = omega arith

module _ (elem : ℕ → ℕ) where
  -- The buffer holds the words from element `i` on.
  abbrev pub Holds : ℕ → List ℕ → Type 0
  Holds i [] = Unit
  Holds i (x ∷ xs) = (elem i ≡ x) × Holds (suc i) xs

  Holds-append_left : (i : ℕ) (xs ys : List ℕ) → Holds i (xs ++ ys) → Holds i xs
  Holds-append_left i [] ys h = tt
  Holds-append_left i (x ∷ xs) ys (e, h) = (e, Holds-append_left (suc i) xs ys h)

  Holds-append_right :
      (i j : ℕ) (xs ys : List ℕ) → Holds i (xs ++ ys) → j ≡ i + length xs → Holds j ys
  Holds-append_right i j [] ys h e = let same : i ≡ j = omega arith in rw (sym same) h
  Holds-append_right i j (x ∷ xs) ys (_, h) e = Holds-append_right (suc i) j xs ys h (omega arith)

  values-Holds : (i : ℕ) (xs : List ℕ) → Holds i xs → values elem i (length xs) ≡ xs
  values-Holds i [] h = refl
  values-Holds i (x ∷ xs) (e, h) = ap₂ (λ y ys. y ∷ ys) e (values-Holds (suc i) xs h)

  entry_lem :
      (i : ℕ) (e : Entry)
      → IsEntry e
      → Holds i (entry_words e)
      → (bt_entry_size elem i ≡ length (entry_words e))
        × (bt_entry_jlvalues elem i ≡ entry_values e)
  unfolding bt_entry_size bt_entry_jlvalues bt_is_native bt_num_jlvals bt_num_uintvals
  entry_lem i (native ip) ok (h, _) = (grind arith, grind arith)
  entry_lem i (extended js us bits) (few, fewer) (h, (d, rest)) =
      let a = bit_and_seven (elem (i + 1)) in
      let b = bit_and_seven (elem (i + 1) / 8) in
      let js_held = Holds-append_left (suc (suc i)) js us rest in
      let l = length-append js us in
      let next : i + 1 ≡ suc i = omega arith in
      let d2 = ap elem next ∙ d in
      let js_count : bit_and (elem (i + 1)) 7 ≡ length js = omega (arith, a, d2) in
      let us_count : bit_and (elem (i + 1) / 8) 7 ≡ length us = omega (arith, b, d2) in
      let two : i + 2 ≡ suc (suc i) = omega arith in
      let found =
        ap₂ (λ k n. values elem k n) two js_count ∙ values-Holds (suc (suc i)) js js_held in
      (
        ground arith,
        not_native (elem i) (values elem (i + 2) (bit_and (elem (i + 1)) 7)) js h found,
      )

  bt-round :
      (rounds i j bt_size : ℕ) (xs ys : List ℕ)
      → i < bt_size
      → i + bt_entry_size elem i ≡ j
      → bt_entry_jlvalues elem i ≡ xs
      → scan_bt elem rounds j bt_size ≡ ys
      → scan_bt elem (suc rounds) i bt_size ≡ xs ++ ys
  unfolding scan_bt
  bt-round rounds i j bt_size xs ys below step here rest = grind arith

  bt-end : (rounds i bt_size : ℕ) → bt_size ≤ i → scan_bt elem rounds i bt_size ≡ []
  unfolding scan_bt
  bt-end zero i bt_size done = refl
  bt-end (suc rounds) i bt_size done = grind arith

  -- The loop over a buffer of entries finds every entry, whatever its neighbours, ends at the last
  -- and reports the Julia values of the extended ones, in order: native entries and the plain words
  -- contribute nothing. `bt_size` rounds suffice.
  pub scan_bt-all_values :
      (rounds i bt_size : ℕ) (es : List Entry)
      → AreEntries es
      → Holds i (all_words es)
      → bt_size ≡ i + length (all_words es)
      → length (all_words es) ≤ rounds
      → scan_bt elem rounds i bt_size ≡ all_values es
  scan_bt-all_values rounds i bt_size [] ok h e enough = bt-end rounds i bt_size (omega arith)
  scan_bt-all_values zero i bt_size (x ∷ es) ok h e enough =
      absurd (omega (arith, some_words x, length-append (entry_words x) (all_words es)))
  scan_bt-all_values (suc rounds) i bt_size (x ∷ es) (ok, oks) h e enough =
      let l = length-append (entry_words x) (all_words es) in
      let j = i + length (entry_words x) in
      let (size, found) = entry_lem i x ok (Holds-append_left i (entry_words x) (all_words es) h) in
      bt-round rounds i j bt_size (entry_values x) (all_values es) (omega (arith, l, some_words x))
        (ap (λ k. i + k) size) found
        (scan_bt-all_values rounds j bt_size es oks
          (Holds-append_right i j (entry_words x) (all_words es) h refl) (omega (arith, l))
          (omega (arith, l, some_words x)))
