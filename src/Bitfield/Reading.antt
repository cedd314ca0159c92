-- ===== src/Bitfield/Reading.antt =====
-- What the loops of `__BindgenBitfieldUnit` read: the bits of the storage, lowest first.
use mmtk_julia.Base.{
  ℕ, zero, suc, ◌+◌, ◌*◌, ◌/◌, ◌%◌, ◌^◌, ◌<◌, ◌≤◌, ◌≡◌, refl, sym, ap, ◌∙◌, some, [], ◌∷◌, arith,
  length, bit_and, get_elem?, ◌==◌, ==_iff, ==_of_ne,
}
use native.Mathlib.Nat.{mod-eq_of_lt, pow-succ'}
use mmtk_julia.Bitfield.Bits.{bit, bit_and-power, bit_or-power, low-suc, power-pos}
use mmtk_julia.Bitfield.Storage.{BindgenBitfieldUnit, get_bit, with_value_bit, value_bit, get}

-- Byte `k`, and 0 beyond the last.
abbrev pub byte : BindgenBitfieldUnit → ℕ → ℕ
byte [] k = 0
byte (b ∷ s) zero = b
byte (b ∷ s) (suc k) = byte s k

abbrev pub storage_bit : BindgenBitfieldUnit → ℕ → ℕ
storage_bit s j = bit (byte s (j / 8)) (j % 8)

pub get_elem-byte :
    (s : BindgenBitfieldUnit) (k : ℕ) → k < length s → get_elem? s k ≡ some (byte s k)
get_elem-byte [] k h = absurd (omega arith)
get_elem-byte (b ∷ s) zero h = refl
get_elem-byte (b ∷ s) (suc k) h = get_elem-byte s k (omega arith)

-- A masked bit is the mask if the bit is set.
masked : (b p : ℕ) → b < 2 → 0 < p → (b * p == p) ≡ (b == 1)
masked zero p h hp = ==_of_ne (0 * p) p (λ e. omega arith)
masked (suc zero) p h hp = (==_iff (1 * p) p).1 (omega arith)
masked (suc (suc b)) p h hp = absurd (omega arith)

pub test-bit : (x i : ℕ) → (bit_and x (2 ^ i) == 2 ^ i) ≡ (bit x i == 1)
test-bit x i =
    ap (λ m. m == 2 ^ i) (bit_and-power x i) ∙ masked (bit x i) (2 ^ i) (omega arith) (power-pos i)

pub get_bit-storage_bit :
    (s : BindgenBitfieldUnit) (j : ℕ) → j < 8 * length s → get_bit s j ≡ some (storage_bit s j == 1)
get_bit-storage_bit s j h =
    rw (get_elem-byte s (j / 8) (omega arith)) (ap some (test-bit (byte s (j / 8)) (j % 8)))

pub value_bit-bit : (val i : ℕ) → i < 64 → value_bit val i ≡ (bit val i == 1)
value_bit-bit val i h = rw (mod-eq_of_lt h) (test-bit val i)

with_value_bit-add :
    (val i b : ℕ) → i < 64 → b < 2 → val < 2 ^ i → with_value_bit val i (b == 1) ≡ val + b * 2 ^ i
with_value_bit-add val i zero hi hb hv = omega arith
with_value_bit-add val i (suc zero) hi hb hv =
    rw (mod-eq_of_lt hi, bit_or-power val i hv) (omega arith)
with_value_bit-add val i (suc (suc b)) hi hb hv = absurd (omega arith)

-- The number whose `w` bits are those of `f` from `off` on.
unfoldable pub field : (ℕ → ℕ) → (off w : ℕ) → ℕ
field f off zero = 0
field f off (suc w) = field f off w + f (w + off) * 2 ^ w

pub field-ext :
    (f g : ℕ → ℕ) (off w : ℕ)
    → ((j : ℕ) → off ≤ j → j < off + w → f j ≡ g j)
    → field f off w ≡ field g off w
unfolding field
field-ext f g off zero same = refl
field-ext f g off (suc w) same = rw (
  same (w + off) (omega arith) (omega arith),
  field-ext f g off w (λ j lo hi. same j lo (omega arith)),
)

pub field-bits : (x w : ℕ) → field (bit x) 0 w ≡ x % 2 ^ w
unfolding field
field-bits x zero = omega arith
field-bits x (suc w) = rw (field-bits x w, let e : w + 0 ≡ w = omega arith in e) (sym (low-suc x w))

below_twice : (a b p : ℕ) → a < p → b < 2 → a + b * p < 2 * p
below_twice a zero p h hb = omega arith
below_twice a (suc zero) p h hb = omega arith
below_twice a (suc (suc b)) p h hb = absurd (omega arith)

field-lt : (f : ℕ → ℕ) (off w : ℕ) → ((j : ℕ) → f j < 2) → field f off w < 2 ^ w
unfolding field
field-lt f off zero small = omega arith
field-lt f off (suc w) small =
    rw (pow-succ' 2 w)
      (below_twice (field f off w) (f (w + off)) (2 ^ w) (field-lt f off w small) (small (w + off)))

pub get-field :
    (s : BindgenBitfieldUnit) (off w : ℕ)
    → w ≤ 64
    → off + w ≤ 8 * length s
    → get s off w ≡ some (field (storage_bit s) off w)
unfolding get field
get-field s off zero hw h = refl
get-field s off (suc w) hw h =
    rw
      (get-field s off w (omega arith) (omega arith), get_bit-storage_bit s (w + off) (omega arith))
      (ap some (
        with_value_bit-add (field (storage_bit s) off w) w (storage_bit s (w + off)) (omega arith)
          (omega arith) (field-lt (storage_bit s) off w (λ j. omega arith))))
