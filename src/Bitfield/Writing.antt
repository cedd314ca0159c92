-- ===== src/Bitfield/Writing.antt =====
-- What `set` of `__BindgenBitfieldUnit` leaves: the bits of its field are the value's, and no other
-- bit changes.
use mmtk_julia.Base.{
  ℕ, zero, suc, ◌+◌, ◌*◌, ◌/◌, ◌%◌, ◌<◌, ◌≤◌, ◌≡◌, ◌≢◌, ◌⊎◌, refl, sym, ap, ◌∙◌, Bool, true, false,
  some, [], ◌∷◌, arith, length, ◌==◌, ==_of_ne, ==_self,
}
use native.Mathlib.Decide.{ℕ_discrete}
use mmtk_julia.Bitfield.Bits.{bit, one_if, with_bit, bit-with_bit}
use mmtk_julia.Bitfield.Storage.{BindgenBitfieldUnit, change_bit, set_byte, set_bit, value_bit, set}
use mmtk_julia.Bitfield.Reading.{byte, storage_bit, get_elem-byte, value_bit-bit}

-- The operations without their panics.
unfoldable pub put : BindgenBitfieldUnit → ℕ → ℕ → BindgenBitfieldUnit
put [] i b = []
put (a ∷ s) zero b = b ∷ s
put (a ∷ s) (suc i) b = a ∷ put s i b

unfoldable pub changed : BindgenBitfieldUnit → ℕ → Bool → BindgenBitfieldUnit
changed s j v = put s (j / 8) (change_bit (byte s (j / 8)) j v)

unfoldable pub written : BindgenBitfieldUnit → (off w val : ℕ) → BindgenBitfieldUnit
written s off zero val = s
written s off (suc i) val = changed (written s off i val) (i + off) (value_bit val i)

length-put : (s : BindgenBitfieldUnit) (i b : ℕ) → length (put s i b) ≡ length s
unfolding put
length-put [] i b = refl
length-put (a ∷ s) zero b = refl
length-put (a ∷ s) (suc i) b = ap suc (length-put s i b)

byte-put_here : (s : BindgenBitfieldUnit) (i b : ℕ) → i < length s → byte (put s i b) i ≡ b
unfolding put
byte-put_here [] i b h = absurd (omega arith)
byte-put_here (a ∷ s) zero b h = refl
byte-put_here (a ∷ s) (suc i) b h = byte-put_here s i b (omega arith)

byte-put_other : (s : BindgenBitfieldUnit) (i b k : ℕ) → k ≢ i → byte (put s i b) k ≡ byte s k
unfolding put
byte-put_other [] i b k h = refl
byte-put_other (a ∷ s) zero b zero h = absurd (h refl)
byte-put_other (a ∷ s) zero b (suc k) h = refl
byte-put_other (a ∷ s) (suc i) b zero h = refl
byte-put_other (a ∷ s) (suc i) b (suc k) h = byte-put_other s i b k (λ e. h (ap suc e))

set_byte-put :
    (s : BindgenBitfieldUnit) (i b : ℕ) → i < length s → set_byte s i b ≡ some (put s i b)
unfolding put
set_byte-put [] i b h = absurd (omega arith)
set_byte-put (a ∷ s) zero b h = refl
set_byte-put (a ∷ s) (suc i) b h = rw (set_byte-put s i b (omega arith))

set_bit-changed :
    (s : BindgenBitfieldUnit) (j : ℕ) (v : Bool)
    → j < 8 * length s
    → set_bit s j v ≡ some (changed s j v)
unfolding changed
set_bit-changed s j v h =
    rw (get_elem-byte s (j / 8) (omega arith)) (set_byte-put s (j / 8) _ (omega arith))

change_bit-with_bit : (b j : ℕ) (v : Bool) → change_bit b j v ≡ with_bit b (j % 8) v
change_bit-with_bit b j true = refl
change_bit-with_bit b j false = refl

storage_bit-changed_here :
    (s : BindgenBitfieldUnit) (j : ℕ) (v : Bool)
    → j < 8 * length s
    → storage_bit (changed s j v) j ≡ one_if v
unfolding changed
storage_bit-changed_here s j v h =
    ap (λ b. bit b (j % 8)) (byte-put_here s (j / 8) _ (omega arith) ∙ change_bit-with_bit _ j v)
    ∙ bit-with_bit (byte s (j / 8)) (j % 8) (j % 8) v (omega arith) (omega arith)
    ∙ rw (==_self (j % 8))

storage_bit-changed_other :
    (s : BindgenBitfieldUnit) (j k : ℕ) (v : Bool)
    → j < 8 * length s
    → k ≢ j
    → storage_bit (changed s j v) k ≡ storage_bit s k
unfolding changed
storage_bit-changed_other s j k v h ne = elim (ℕ_discrete (k / 8) (j / 8)) [
  | yes same ↦
      ap (λ i. bit (byte (put s (j / 8) (change_bit (byte s (j / 8)) j v)) i) (k % 8)) same
      ∙ ap (λ b. bit b (k % 8))
          (byte-put_here s (j / 8) _ (omega arith) ∙ change_bit-with_bit _ j v)
      ∙ bit-with_bit (byte s (j / 8)) (j % 8) (k % 8) v (omega arith) (omega arith)
      ∙ rw (==_of_ne (j % 8) (k % 8) (λ e. ne (omega arith)))
          (ap (λ i. bit (byte s i) (k % 8)) (sym same))
  | no apart ↦ ap (λ b. bit b (k % 8)) (byte-put_other s (j / 8) _ (k / 8) apart)
]

pub length-written :
    (s : BindgenBitfieldUnit) (off w val : ℕ) → length (written s off w val) ≡ length s
unfolding written changed
length-written s off zero val = refl
length-written s off (suc w) val = length-put _ _ _ ∙ length-written s off w val

pub set-written :
    (s : BindgenBitfieldUnit) (off w val : ℕ)
    → off + w ≤ 8 * length s
    → set s off w val ≡ some (written s off w val)
unfolding set written
set-written s off zero val h = refl
set-written s off (suc w) val h =
    rw (set-written s off w val (omega arith)) (
      set_bit-changed (written s off w val) (w + off) _ (omega (arith, length-written s off w val)))

pub written-outside :
    (s : BindgenBitfieldUnit) (off w val k : ℕ)
    → off + w ≤ 8 * length s
    → (k < off) ⊎ (off + w ≤ k)
    → storage_bit (written s off w val) k ≡ storage_bit s k
unfolding written
written-outside s off zero val k h out = refl
written-outside s off (suc w) val k h out =
    storage_bit-changed_other (written s off w val) (w + off) k _
      (omega (arith, length-written s off w val)) (λ e. ground (arith, e))
    ∙ written-outside s off w val k (omega arith) (ground arith)

one_if-test : (n : ℕ) → n < 2 → one_if (n == 1) ≡ n
one_if-test zero h = refl
one_if-test (suc zero) h = refl
one_if-test (suc (suc n)) h = absurd (omega arith)

pub written-inside :
    (s : BindgenBitfieldUnit) (off w val k : ℕ)
    → w ≤ 64
    → off + w ≤ 8 * length s
    → k < w
    → storage_bit (written s off w val) (k + off) ≡ bit val k
unfolding written
written-inside s off zero val k hw h lt = absurd (omega arith)
written-inside s off (suc w) val k hw h lt = elim (ℕ_discrete k w) [
  | yes e ↦
      ap (λ i. storage_bit (changed (written s off w val) (w + off) (value_bit val w)) (i + off)) e
      ∙ storage_bit-changed_here (written s off w val) (w + off) _
          (omega (arith, length-written s off w val))
      ∙ ap one_if (value_bit-bit val w (omega arith))
      ∙ one_if-test (bit val w) (omega arith)
      ∙ ap (bit val) (sym e)
  | no ne ↦
      storage_bit-changed_other (written s off w val) (w + off) (k + off) _
        (omega (arith, length-written s off w val)) (λ e. ne (omega arith))
      ∙ written-inside s off w val k (omega arith) (omega arith) (omega arith)
]
