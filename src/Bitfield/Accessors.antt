-- ===== src/Bitfield/Accessors.antt =====
-- mmtk/src/julia_types.rs: the four accessors that bindgen writes for a bit field of a structure. They
-- differ from field to field in the integer type alone, and in the field's offset and width.
use mmtk_julia.Base.{ℕ, zero, suc, ◌%◌, ◌^◌, Option, some, [], ◌∷◌, ◌>>=◌, Address, Bytes}
use mmtk_julia.Bitfield.Storage.{BindgenBitfieldUnit, get, set, raw_get, raw_set}

pub record Accessors : Type 0 where
  pub getter : BindgenBitfieldUnit → Option ℕ
  pub setter : BindgenBitfieldUnit → ℕ → Option BindgenBitfieldUnit
  pub getter_raw : Bytes → Address → ℕ
  pub setter_raw : Bytes → Address → ℕ → Bytes

-- For a field of the type `u32`, `u16`, …, which has `bits` bits: the value
-- read is cut to them. The value written is one of that type.
abbrev pub accessors : (bits offset width : ℕ) → Accessors
accessors bits offset width = record {
  getter = λ s. get s offset width >>= λ val. some (val % 2 ^ bits);
  setter = λ s val. set s offset width val;
  getter_raw = λ m this. raw_get m this offset width % 2 ^ bits;
  setter_raw = λ m this val. raw_set m this offset width val;
}

-- `Default::default()` for a unit of `n` bytes.
abbrev pub default_unit : ℕ → BindgenBitfieldUnit
default_unit zero = []
default_unit (suc n) = 0 ∷ default_unit n
