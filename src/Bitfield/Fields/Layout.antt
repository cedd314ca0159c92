-- ===== src/Bitfield/Fields/Layout.antt =====
-- mmtk/src/julia_types.rs: the bit fields of `jl_datatype_layout_t__bindgen_ty_1`.
use mmtk_julia.Base.{ℕ, Option, ◌>>=◌}
use mmtk_julia.Bitfield.Storage.{BindgenBitfieldUnit, set}
use mmtk_julia.Bitfield.Accessors.{Accessors, accessors, default_unit}

abbrev pub haspadding : Accessors
haspadding = accessors 16 0 1

abbrev pub fielddesc_type : Accessors
fielddesc_type = accessors 16 1 2

abbrev pub arrayelem_isboxed : Accessors
arrayelem_isboxed = accessors 16 3 1

abbrev pub arrayelem_isunion : Accessors
arrayelem_isunion = accessors 16 4 1

abbrev pub arrayelem_isatomic : Accessors
arrayelem_isatomic = accessors 16 5 1

abbrev pub arrayelem_islocked : Accessors
arrayelem_islocked = accessors 16 6 1

abbrev pub isbitsegal : Accessors
isbitsegal = accessors 16 7 1

abbrev pub padding : Accessors
padding = accessors 16 8 8

abbrev pub new_bitfield_1 :
    (haspadding_val fielddesc_type_val arrayelem_isboxed_val arrayelem_isunion_val
      arrayelem_isatomic_val arrayelem_islocked_val isbitsegal_val padding_val : ℕ)
    → Option BindgenBitfieldUnit
new_bitfield_1 haspadding_val fielddesc_type_val arrayelem_isboxed_val arrayelem_isunion_val
      arrayelem_isatomic_val arrayelem_islocked_val isbitsegal_val padding_val =
    do
      unit0 ← set (default_unit 2) 0 1 haspadding_val
      unit1 ← set unit0 1 2 fielddesc_type_val
      unit2 ← set unit1 3 1 arrayelem_isboxed_val
      unit3 ← set unit2 4 1 arrayelem_isunion_val
      unit4 ← set unit3 5 1 arrayelem_isatomic_val
      unit5 ← set unit4 6 1 arrayelem_islocked_val
      unit6 ← set unit5 7 1 isbitsegal_val
      set unit6 8 8 padding_val
