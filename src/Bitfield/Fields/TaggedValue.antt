-- ===== src/Bitfield/Fields/TaggedValue.antt =====
-- mmtk/src/julia_types.rs: the bit fields of `_jl_taggedvalue_bits`.
use mmtk_julia.Base.{ℕ, Option, ◌>>=◌}
use mmtk_julia.Bitfield.Storage.{BindgenBitfieldUnit, set}
use mmtk_julia.Bitfield.Accessors.{Accessors, accessors, default_unit}

abbrev pub gc : Accessors
gc = accessors 64 0 2

abbrev pub in_image : Accessors
in_image = accessors 64 2 1

abbrev pub unused : Accessors
unused = accessors 64 3 1

abbrev pub tag : Accessors
tag = accessors 64 4 60

abbrev pub new_bitfield_1 :
    (gc_val in_image_val unused_val tag_val : ℕ) → Option BindgenBitfieldUnit
new_bitfield_1 gc_val in_image_val unused_val tag_val = do
  unit0 ← set (default_unit 8) 0 2 gc_val
  unit1 ← set unit0 2 1 in_image_val
  unit2 ← set unit1 3 1 unused_val
  set unit2 4 60 tag_val
