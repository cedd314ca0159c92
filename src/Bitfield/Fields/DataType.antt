-- ===== src/Bitfield/Fields/DataType.antt =====
-- mmtk/src/julia_types.rs: the bit fields of `_jl_datatype_t`.
use mmtk_julia.Base.{ℕ, Option, ◌>>=◌}
use mmtk_julia.Bitfield.Storage.{BindgenBitfieldUnit, set}
use mmtk_julia.Bitfield.Accessors.{Accessors, accessors, default_unit}

abbrev pub hasfreetypevars : Accessors
hasfreetypevars = accessors 16 0 1

abbrev pub isconcretetype : Accessors
isconcretetype = accessors 16 1 1

abbrev pub isdispatchtuple : Accessors
isdispatchtuple = accessors 16 2 1

abbrev pub isbitstype : Accessors
isbitstype = accessors 16 3 1

abbrev pub zeroinit : Accessors
zeroinit = accessors 16 4 1

abbrev pub has_concrete_subtype : Accessors
has_concrete_subtype = accessors 16 5 1

abbrev pub maybe_subtype_of_cache : Accessors
maybe_subtype_of_cache = accessors 16 6 1

abbrev pub isprimitivetype : Accessors
isprimitivetype = accessors 16 7 1

abbrev pub ismutationfree : Accessors
ismutationfree = accessors 16 8 1

abbrev pub isidentityfree : Accessors
isidentityfree = accessors 16 9 1

abbrev pub smalltag : Accessors
smalltag = accessors 16 10 6

abbrev pub new_bitfield_1 :
    (hasfreetypevars_val isconcretetype_val isdispatchtuple_val isbitstype_val zeroinit_val
      has_concrete_subtype_val maybe_subtype_of_cache_val isprimitivetype_val ismutationfree_val
      isidentityfree_val smalltag_val : ℕ)
    → Option BindgenBitfieldUnit
new_bitfield_1 hasfreetypevars_val isconcretetype_val isdispatchtuple_val isbitstype_val
      zeroinit_val has_concrete_subtype_val maybe_subtype_of_cache_val isprimitivetype_val
      ismutationfree_val isidentityfree_val smalltag_val =
    do
      unit0 ← set (default_unit 2) 0 1 hasfreetypevars_val
      unit1 ← set unit0 1 1 isconcretetype_val
      unit2 ← set unit1 2 1 isdispatchtuple_val
      unit3 ← set unit2 3 1 isbitstype_val
      unit4 ← set unit3 4 1 zeroinit_val
      unit5 ← set unit4 5 1 has_concrete_subtype_val
      unit6 ← set unit5 6 1 maybe_subtype_of_cache_val
      unit7 ← set unit6 7 1 isprimitivetype_val
      unit8 ← set unit7 8 1 ismutationfree_val
      unit9 ← set unit8 9 1 isidentityfree_val
      set unit9 10 6 smalltag_val
