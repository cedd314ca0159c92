-- ===== src/ObjectScan/Loops.antt =====
-- The loops of `scan_julia_object` in mmtk/src/julia_scanning.rs. A scan is the list of the slots
-- that the visitor is given, in order; `none` stands for a panic, or for a loop that outlives its fuel.
use mmtk_julia.Base.{
  ℕ, zero, suc, ◌+◌, ◌*◌, ◌%◌, ◌^◌, ◌<◌, ◌≤◌, ◌≡◌, Option, none, some, List, [], ◌∷◌, ◌++◌, arith,
  Address, shift_words, ltb, if◌then◌else◌,
}
use mmtk_julia.Slots.Slot.{JuliaVmSlot, simple}

abbrev pub Scan : Type 0
Scan = Option (List JuliaVmSlot)

abbrev pub append_scans : Scan → Scan → Scan
append_scans (some xs) (some ys) = some (xs ++ ys)
append_scans _ _ = none

-- From `b` to `e` in steps of `k` words; every step is a slot.
unfoldable pub scan_words : ℕ → (b e k : ℕ) → Scan
scan_words zero b e k = none
scan_words (suc fuel) b e k =
    let rest = scan_words fuel (shift_words b k) e k in
    if ltb b e then append_scans (some (simple b ∷ [])) rest else some []

-- From `p` to `end` in steps of `width` bytes; the entry at each step, in words, is a slot's distance
-- from `base`.
unfoldable pub scan_fields : (load : Address → ℕ) (width fuel : ℕ) (base p end : Address) → Scan
scan_fields load width zero base p end = none
scan_fields load width (suc fuel) base p end =
    let rest = scan_fields load width fuel base ((p + width) % 2 ^ 64) end in
    if ltb p end
    then append_scans (some (simple (shift_words base (load p)) ∷ [])) rest
    else some []

-- From `b` to `e` in steps of `k` words; every step is an element, scanned by `fields`.
unfoldable pub scan_elements : (fields : Address → Scan) → ℕ → (b e k : ℕ) → Scan
scan_elements fields zero b e k = none
scan_elements fields (suc fuel) b e k =
    let rest = scan_elements fields fuel (shift_words b k) e k in
    if ltb b e then append_scans (fields b) rest else some []

-- The slots of `n` steps.
abbrev pub word_slots : (b k n : ℕ) → List JuliaVmSlot
word_slots b k zero = []
word_slots b k (suc n) = simple b ∷ word_slots (b + k * 8) k n

abbrev pub field_slots : (load : Address → ℕ) (width base p n : ℕ) → List JuliaVmSlot
field_slots load width base p zero = []
field_slots load width base p (suc n) =
    simple (shift_words base (load p)) ∷ field_slots load width base (p + width) n

scan_words-step :
    (fuel b b2 e k : ℕ) (xs : List JuliaVmSlot)
    → b < e
    → shift_words b k ≡ b2
    → scan_words fuel b2 e k ≡ some xs
    → scan_words (suc fuel) b e k ≡ some (simple b ∷ xs)
unfolding scan_words
scan_words-step fuel b b2 e k xs below shifted rest = grind arith

scan_fields-step :
    (load : Address → ℕ) (width fuel base p p2 end : ℕ) (xs : List JuliaVmSlot)
    → p < end
    → (p + width) % 2 ^ 64 ≡ p2
    → scan_fields load width fuel base p2 end ≡ some xs
    → scan_fields load width (suc fuel) base p end ≡ some (simple (shift_words base (load p)) ∷ xs)
unfolding scan_fields
scan_fields-step load width fuel base p p2 end xs below shifted rest = grind arith

scan_elements-step :
    (fields : Address → Scan) (fuel b b2 e k : ℕ) (xs ys : List JuliaVmSlot)
    → b < e
    → shift_words b k ≡ b2
    → fields b ≡ some xs
    → scan_elements fields fuel b2 e k ≡ some ys
    → scan_elements fields (suc fuel) b e k ≡ some (xs ++ ys)
unfolding scan_elements
scan_elements-step fields fuel b b2 e k xs ys below shifted here rest = grind arith

-- `n` steps of `k` words, the last of which may reach beyond `e`: the loop ends, and reports each.
pub scan_words_lem :
    (fuel b e k n : ℕ)
    → n < fuel
    → b + n * (k * 8) < 2 ^ 64
    → e ≤ b + n * (k * 8)
    → b + n * (k * 8) < e + k * 8
    → scan_words fuel b e k ≡ some (word_slots b k n)
unfolding scan_words
scan_words_lem zero b e k n enough fits inside last = absurd (omega arith)
scan_words_lem (suc fuel) b e k zero enough fits inside last = grind arith
scan_words_lem (suc fuel) b e k (suc n) enough fits inside last =
    let split : suc n * (k * 8) ≡ k * 8 + n * (k * 8) = omega arith in
    scan_words-step fuel b (b + k * 8) e k (word_slots (b + k * 8) k n) (grind arith) (grind arith)
      (scan_words_lem fuel (b + k * 8) e k n (omega arith) (grind arith) (grind arith)
        (grind arith))

-- A loop over `n` entries of `width` bytes ends, and reports the slot of each.
pub scan_fields_lem :
    (load : Address → ℕ) (width fuel base p end n : ℕ)
    → 0 < width
    → n < fuel
    → p + n * width < 2 ^ 64
    → end ≡ p + n * width
    → scan_fields load width fuel base p end ≡ some (field_slots load width base p n)
unfolding scan_fields
scan_fields_lem load width zero base p end n pos enough fits e = absurd (omega arith)
scan_fields_lem load width (suc fuel) base p end zero pos enough fits e = grind arith
scan_fields_lem load width (suc fuel) base p end (suc n) pos enough fits e =
    let split : suc n * width ≡ width + n * width = omega arith in
    scan_fields-step load width fuel base p (p + width) end
      (field_slots load width base (p + width) n) (grind arith) (grind arith)
      (scan_fields_lem load width fuel base (p + width) end n pos (omega arith) (grind arith)
        (grind arith))

-- The slots of `n` elements of `k` words.
abbrev pub element_slots : (Address → List JuliaVmSlot) → (b k n : ℕ) → List JuliaVmSlot
element_slots fields b k zero = []
element_slots fields b k (suc n) = fields b ++ element_slots fields (b + k * 8) k n

pub scan_elements_lem :
    (fields : Address → Scan) (slots : Address → List JuliaVmSlot) (fuel b e k n : ℕ)
    → ((a : Address) → fields a ≡ some (slots a))
    → n < fuel
    → b + n * (k * 8) < 2 ^ 64
    → e ≤ b + n * (k * 8)
    → b + n * (k * 8) < e + k * 8
    → scan_elements fields fuel b e k ≡ some (element_slots slots b k n)
unfolding scan_elements
scan_elements_lem fields slots zero b e k n each enough fits inside last = absurd (omega arith)
scan_elements_lem fields slots (suc fuel) b e k zero each enough fits inside last = grind arith
scan_elements_lem fields slots (suc fuel) b e k (suc n) each enough fits inside last =
    let split : suc n * (k * 8) ≡ k * 8 + n * (k * 8) = omega arith in
    scan_elements-step fields fuel b (b + k * 8) e k (slots b) (element_slots slots (b + k * 8) k n)
      (grind arith) (grind arith) (each b)
      (scan_elements_lem fields slots fuel (b + k * 8) e k n each (omega arith) (grind arith)
        (grind arith) (grind arith))
