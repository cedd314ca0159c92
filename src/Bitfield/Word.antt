-- ===== src/Bitfield/Word.antt =====
-- A unit as one word: what `get` reads is a shift and a mask of it.
use mmtk_julia.Base.{
  ℕ, zero, suc, ◌+◌, ◌-◌, ◌*◌, ◌/◌, ◌%◌, ◌^◌, ◌<◌, ◌≤◌, ◌≡◌, refl, sym, ap, ◌∙◌, some, [], ◌∷◌,
  arith, length,
}
use native.Mathlib.Nat.{div-div-eq-div-mul, pow-succ'}
use native.Mathlib.Decide.{dec_lt}
use mmtk_julia.Bitfield.Bits.{bit, bit-suc, bit-zero}
use mmtk_julia.Bitfield.Storage.{BindgenBitfieldUnit, get}
use mmtk_julia.Bitfield.Reading.{byte, storage_bit, field, field-ext, field-bits, get-field}

-- The word in memory, lowest byte first.
abbrev pub word : BindgenBitfieldUnit → ℕ
word [] = 0
word (b ∷ s) = b + 256 * word s

abbrev pub AreBytes : BindgenBitfieldUnit → Type 0
AreBytes [] = Unit
AreBytes (b ∷ s) = (b < 256) × AreBytes s

-- The eight lowest bits, and the others.
low_bits : (b r j : ℕ) → j < 8 → bit (b + 256 * r) j ≡ bit b j
low_bits b r zero h = omega arith
low_bits b r (suc zero) h = omega arith
low_bits b r (suc (suc zero)) h = omega arith
low_bits b r (suc (suc (suc zero))) h = omega arith
low_bits b r (suc (suc (suc (suc zero)))) h = omega arith
low_bits b r (suc (suc (suc (suc (suc zero))))) h = omega arith
low_bits b r (suc (suc (suc (suc (suc (suc zero)))))) h = omega arith
low_bits b r (suc (suc (suc (suc (suc (suc (suc zero))))))) h = omega arith
low_bits b r (suc (suc (suc (suc (suc (suc (suc (suc j)))))))) h = absurd (omega arith)

bit-shift : (x i j : ℕ) → bit (x / 2 ^ i) j ≡ bit x (j + i)
bit-shift x zero j =
    ap (λ y. bit y j) (let e : x / 1 ≡ x = omega arith in e)
    ∙ ap (bit x) (let e : j ≡ j + 0 = omega arith in e)
bit-shift x (suc i) j =
    ap (λ p. bit (x / p) j) (pow-succ' 2 i)
    ∙ ap (λ y. bit y j) (sym (div-div-eq-div-mul x 2 (2 ^ i)))
    ∙ bit-shift (x / 2) i j
    ∙ sym (bit-suc x (j + i))
    ∙ ap (bit x) (let e : suc (j + i) ≡ j + suc i = omega arith in e)

storage_bit-word :
    (s : BindgenBitfieldUnit) → AreBytes s → (j : ℕ) → storage_bit s j ≡ bit (word s) j
storage_bit-word [] h j = bit-zero (j % 8) ∙ sym (bit-zero j)
storage_bit-word (b ∷ s) h j = elim (dec_lt j 8) [
  | yes lt ↦
      let first : j / 8 ≡ 0 = omega arith in
      let same : j % 8 ≡ j = omega arith in rw (first, same) (sym (low_bits b (word s) j lt))
  | no ge ↦
      let k : ℕ = j - 8 in
      let index : j / 8 ≡ suc (k / 8) = omega arith in
      let place : j % 8 ≡ k % 8 = omega arith in
      let whole : j ≡ k + 8 = omega arith in
      let rest : (b + 256 * word s) / 2 ^ 8 ≡ word s = omega (arith, h.0) in
      ap (λ i. bit (byte (b ∷ s) i) (j % 8)) index
      ∙ ap (bit (byte s (k / 8))) place
      ∙ storage_bit-word s h.1 k
      ∙ ap (λ r. bit r k) (sym rest)
      ∙ bit-shift (b + 256 * word s) 8 k
      ∙ ap (bit (b + 256 * word s)) (sym whole)
]

shifted_field : (x off w : ℕ) → field (bit x) off w ≡ field (bit (x / 2 ^ off)) 0 w
unfolding field
shifted_field x off zero = refl
shifted_field x off (suc w) =
    rw (shifted_field x off w, bit-shift x off (w + 0), let e : w + 0 ≡ w = omega arith in e)

-- `get` is a shift and a mask of the word.
pub get-word :
    (s : BindgenBitfieldUnit) (off w : ℕ)
    → AreBytes s
    → w ≤ 64
    → off + w ≤ 8 * length s
    → get s off w ≡ some (word s / 2 ^ off % 2 ^ w)
get-word s off w hs hw h =
    get-field s off w hw h
    ∙ ap some (
        field-ext (storage_bit s) (bit (word s)) off w (λ j lo hi. storage_bit-word s hs j)
        ∙ shifted_field (word s) off w
        ∙ field-bits (word s / 2 ^ off) w)
