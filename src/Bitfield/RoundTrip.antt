-- ===== src/Bitfield/RoundTrip.antt =====
-- `set` and `get` of `__BindgenBitfieldUnit` together.
use mmtk_julia.Base.{
  ℕ, zero, suc, ◌+◌, ◌*◌, ◌%◌, ◌^◌, ◌<◌, ◌≤◌, ◌≡◌, ◌⊎◌, refl, sym, ap, ◌∙◌, some, arith, length,
}
use mmtk_julia.Bitfield.Bits.{bit}
use mmtk_julia.Bitfield.Storage.{BindgenBitfieldUnit, get, set}
use mmtk_julia.Bitfield.Reading.{storage_bit, field, field-ext, field-bits, get-field}
use mmtk_julia.Bitfield.Writing.{
  written, length-written, set-written, written-inside, written-outside,
}

-- The field that was written holds the value's lowest bits.
moved_field :
    (f g : ℕ → ℕ) (off w : ℕ) → ((k : ℕ) → k < w → f (k + off) ≡ g k) → field f off w ≡ field g 0 w
unfolding field
moved_field f g off zero same = refl
moved_field f g off (suc w) same = rw (
  same w (omega arith),
  moved_field f g off w (λ k h. same k (omega arith)),
  let e : w + 0 ≡ w = omega arith in e,
)

pub get-written :
    (s : BindgenBitfieldUnit) (off w val : ℕ)
    → w ≤ 64
    → off + w ≤ 8 * length s
    → get (written s off w val) off w ≡ some (val % 2 ^ w)
get-written s off w val hw h =
    get-field (written s off w val) off w hw (omega (arith, length-written s off w val))
    ∙ ap some (
        moved_field (storage_bit (written s off w val)) (bit val) off w
          (λ k lt. written-inside s off w val k hw h lt)
        ∙ field-bits val w)

pub get-written_other :
    (s : BindgenBitfieldUnit) (off w val off' w' : ℕ)
    → off + w ≤ 8 * length s
    → w' ≤ 64
    → off' + w' ≤ 8 * length s
    → (off' + w' ≤ off) ⊎ (off + w ≤ off')
    → get (written s off w val) off' w' ≡ get s off' w'
get-written_other s off w val off' w' h hw' h' apart =
    get-field (written s off w val) off' w' hw' (omega (arith, length-written s off w val))
    ∙ ap some (
        field-ext (storage_bit (written s off w val)) (storage_bit s) off' w'
          (λ j lo hi. written-outside s off w val j h (ground arith)))
    ∙ sym (get-field s off' w' hw' h')

-- A field of a unit that fits it can be set. Then the unit is as long as before, the field holds the
-- lowest bits of the value, and every field apart from it reads as before.
pub get-set :
    (s : BindgenBitfieldUnit) (off w val : ℕ)
    → w ≤ 64
    → off + w ≤ 8 * length s
    → (s' : BindgenBitfieldUnit) × (set s off w val ≡ some s')
      × (length s' ≡ length s)
      × (get s' off w ≡ some (val % 2 ^ w))
      × ((off' w' : ℕ)
          → w' ≤ 64
          → off' + w' ≤ 8 * length s
          → (off' + w' ≤ off) ⊎ (off + w ≤ off')
          → get s' off' w' ≡ get s off' w')
get-set s off w val hw h = (
  written s off w val,
  set-written s off w val h,
  length-written s off w val,
  get-written s off w val hw h,
  λ off' w' hw' h' apart. get-written_other s off w val off' w' h hw' h' apart,
)
