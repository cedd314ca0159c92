-- ===== src/Bitfield/Fields/TypeName.antt =====
-- mmtk/src/julia_types.rs: the bit fields of `jl_typename_t`.
use mmtk_julia.Base.{ℕ, Option, ◌>>=◌}
use mmtk_julia.Bitfield.Storage.{BindgenBitfieldUnit, set}
use mmtk_julia.Bitfield.Accessors.{Accessors, accessors, default_unit}

abbrev pub abstract : Accessors
abstract = accessors 8 0 1

abbrev pub mutabl : Accessors
mutabl = accessors 8 1 1

abbrev pub mayinlinealloc : Accessors
mayinlinealloc = accessors 8 2 1

abbrev pub unused : Accessors
unused = accessors 8 3 5

abbrev pub new_bitfield_1 :
    (abstract_val mutabl_val mayinlinealloc_val unused_val : ℕ) → Option BindgenBitfieldUnit
new_bitfield_1 abstract_val mutabl_val mayinlinealloc_val unused_val = do
  unit0 ← set (default_unit 1) 0 1 abstract_val
  unit1 ← set unit0 1 1 mutabl_val
  unit2 ← set unit1 2 1 mayinlinealloc_val
  set unit2 3 5 unused_val
