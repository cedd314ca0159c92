-- ===== src/Structs/Tags.antt =====
-- mmtk/src/julia_types.rs: the tags of the types whose objects carry no pointer to their type.
use mmtk_julia.Base.{ℕ}

abbrev pub jl_null_tag : ℕ
jl_null_tag = 0

abbrev pub jl_typeofbottom_tag : ℕ
jl_typeofbottom_tag = 1

abbrev pub jl_datatype_tag : ℕ
jl_datatype_tag = 2

abbrev pub jl_unionall_tag : ℕ
jl_unionall_tag = 3

abbrev pub jl_uniontype_tag : ℕ
jl_uniontype_tag = 4

abbrev pub jl_vararg_tag : ℕ
jl_vararg_tag = 5

abbrev pub jl_tvar_tag : ℕ
jl_tvar_tag = 6

abbrev pub jl_symbol_tag : ℕ
jl_symbol_tag = 7

abbrev pub jl_module_tag : ℕ
jl_module_tag = 8

abbrev pub jl_simplevector_tag : ℕ
jl_simplevector_tag = 9

abbrev pub jl_string_tag : ℕ
jl_string_tag = 10

abbrev pub jl_task_tag : ℕ
jl_task_tag = 11

abbrev pub jl_bool_tag : ℕ
jl_bool_tag = 12

abbrev pub jl_nothing_tag : ℕ
jl_nothing_tag = 13

abbrev pub jl_char_tag : ℕ
jl_char_tag = 14

abbrev pub jl_int16_tag : ℕ
jl_int16_tag = 15

abbrev pub jl_int32_tag : ℕ
jl_int32_tag = 16

abbrev pub jl_int64_tag : ℕ
jl_int64_tag = 17

abbrev pub jl_int8_tag : ℕ
jl_int8_tag = 18

abbrev pub jl_uint16_tag : ℕ
jl_uint16_tag = 19

abbrev pub jl_uint32_tag : ℕ
jl_uint32_tag = 20

abbrev pub jl_uint64_tag : ℕ
jl_uint64_tag = 21

abbrev pub jl_uint8_tag : ℕ
jl_uint8_tag = 22

abbrev pub jl_addrspacecore_tag : ℕ
jl_addrspacecore_tag = 23

abbrev pub jl_intrinsic_tag : ℕ
jl_intrinsic_tag = 24

abbrev pub jl_argument_tag : ℕ
jl_argument_tag = 25

abbrev pub jl_slotnumber_tag : ℕ
jl_slotnumber_tag = 26

abbrev pub jl_ssavalue_tag : ℕ
jl_ssavalue_tag = 27

abbrev pub jl_gotoifnot_tag : ℕ
jl_gotoifnot_tag = 28

abbrev pub jl_returnnode_tag : ℕ
jl_returnnode_tag = 29

abbrev pub jl_enternode_tag : ℕ
jl_enternode_tag = 30

abbrev pub jl_pinode_tag : ℕ
jl_pinode_tag = 31

abbrev pub jl_phinode_tag : ℕ
jl_phinode_tag = 32

abbrev pub jl_phicnode_tag : ℕ
jl_phicnode_tag = 33

abbrev pub jl_upsilonnode_tag : ℕ
jl_upsilonnode_tag = 34

abbrev pub jl_globalref_tag : ℕ
jl_globalref_tag = 35

abbrev pub jl_gotonode_tag : ℕ
jl_gotonode_tag = 36

abbrev pub jl_quotenode_tag : ℕ
jl_quotenode_tag = 37

abbrev pub jl_tags_count : ℕ
jl_tags_count = 38

abbrev pub jl_bitstags_first : ℕ
jl_bitstags_first = 14

abbrev pub jl_max_tags : ℕ
jl_max_tags = 64
