-- ===== src/Bitfield/Storage.antt =====
-- mmtk/src/julia_types.rs: `__BindgenBitfieldUnit`, on a little-endian machine. A unit is the list of
-- its bytes; `none` is the panic of an index beyond them. The `raw` operations read and write the
-- memory at `this`, without a check.
use mmtk_julia.Base.{
  ℕ, zero, suc, ◌+◌, ◌-◌, ◌/◌, ◌%◌, ◌^◌, Bool, Option, none, some, List, [], ◌∷◌, bit_and, bit_or,
  ◌==◌, if◌then◌else◌, get_elem?, ◌>>=◌, Address, Bytes, add_word,
}

abbrev pub BindgenBitfieldUnit : Type 0
BindgenBitfieldUnit = List ℕ

abbrev pub extract_bit : (byte index : ℕ) → Bool
extract_bit byte index =
    let bit_index = index % 8 in let mask = 2 ^ bit_index in bit_and byte mask == mask

abbrev pub change_bit : (byte index : ℕ) → Bool → ℕ
change_bit byte index val =
    let bit_index = index % 8 in
    let mask = 2 ^ bit_index in if val then bit_or byte mask else bit_and byte (255 - mask)

-- `storage[i] = byte`.
abbrev pub set_byte : BindgenBitfieldUnit → ℕ → ℕ → Option BindgenBitfieldUnit
set_byte [] i byte = none
set_byte (b ∷ bs) zero byte = some (byte ∷ bs)
set_byte (b ∷ bs) (suc i) byte = do bs' ← set_byte bs i byte; some (b ∷ bs')

abbrev pub get_bit : BindgenBitfieldUnit → (index : ℕ) → Option Bool
get_bit storage index = do byte ← get_elem? storage (index / 8); some (extract_bit byte index)

abbrev pub set_bit : BindgenBitfieldUnit → (index : ℕ) → Bool → Option BindgenBitfieldUnit
set_bit storage index val = do
  byte ← get_elem? storage (index / 8)
  set_byte storage (index / 8) (change_bit byte index val)

-- `val |= 1 << i`; a shift of a `u64` takes its distance modulo 64.
abbrev pub with_value_bit : (val i : ℕ) → Bool → ℕ
with_value_bit val i set = if set then bit_or val (2 ^ (i % 64)) else val

-- `val & (1 << i) == 1 << i`
abbrev pub value_bit : (val i : ℕ) → Bool
value_bit val i = let mask = 2 ^ (i % 64) in bit_and val mask == mask

-- After the rounds `0 .. bit_width` of the loop.
unfoldable pub get : BindgenBitfieldUnit → (bit_offset bit_width : ℕ) → Option ℕ
get storage bit_offset zero = some 0
get storage bit_offset (suc i) = do
  val ← get storage bit_offset i
  bit_set ← get_bit storage (i + bit_offset)
  some (with_value_bit val i bit_set)

unfoldable pub set :
    BindgenBitfieldUnit → (bit_offset bit_width val : ℕ) → Option BindgenBitfieldUnit
set storage bit_offset zero val = some storage
set storage bit_offset (suc i) val = do
  changed ← set storage bit_offset i val
  set_bit changed (i + bit_offset) (value_bit val i)

abbrev pub raw_get_bit : Bytes → (this : Address) (index : ℕ) → Bool
raw_get_bit m this index = extract_bit (m (add_word this (index / 8))) index

abbrev pub raw_set_bit : Bytes → (this : Address) (index : ℕ) → Bool → Bytes
raw_set_bit m this index val a =
    let byte = add_word this (index / 8) in if a == byte then change_bit (m byte) index val else m a

unfoldable pub raw_get : Bytes → (this : Address) (bit_offset bit_width : ℕ) → ℕ
raw_get m this bit_offset zero = 0
raw_get m this bit_offset (suc i) =
    with_value_bit (raw_get m this bit_offset i) i (raw_get_bit m this (i + bit_offset))

unfoldable pub raw_set : Bytes → (this : Address) (bit_offset bit_width val : ℕ) → Bytes
raw_set m this bit_offset zero val = m
raw_set m this bit_offset (suc i) val =
    raw_set_bit (raw_set m this bit_offset i val) this (i + bit_offset) (value_bit val i)
