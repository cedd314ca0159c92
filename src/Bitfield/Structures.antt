-- ===== src/Bitfield/Structures.antt =====
-- mmtk/src/julia_types.rs: `new_bitfield_1` of each structure, and its getters.
use mmtk_julia.Base.{ℕ, ◌%◌, ◌^◌, refl, [], ◌∷◌, arith}
use mmtk_julia.Bitfield.Packing.{set_all, ascend, Builds, set_all-Builds}
use mmtk_julia.Bitfield.Fields.Context
use mmtk_julia.Bitfield.Fields.TaggedValue
use mmtk_julia.Bitfield.Fields.TypeName
use mmtk_julia.Bitfield.Fields.Layout
use mmtk_julia.Bitfield.Fields.DataType

context-Builds :
    (v : ℕ → ℕ)
    → Builds
        (Context.new_bitfield_1 (v 0) (v 1))
        ((Context.copy_stack, v 0 % 2 ^ 31) ∷ (Context.started, v 1 % 2 ^ 1) ∷ [])
unfolding set_all ascend
context-Builds v =
    set_all-Builds 4 32 32 (record { offset = 0; width = 31; val = v 0 })
      ((record { offset = 31; width = 1; val = v 1 }) ∷ []) (omega arith) refl refl

tagged_value-Builds :
    (v : ℕ → ℕ)
    → Builds (TaggedValue.new_bitfield_1 (v 0) (v 1) (v 2) (v 3)) (
        (TaggedValue.gc, v 0 % 2 ^ 2)
        ∷ (TaggedValue.in_image, v 1 % 2 ^ 1)
        ∷ (TaggedValue.unused, v 2 % 2 ^ 1)
        ∷ (TaggedValue.tag, v 3 % 2 ^ 60)
        ∷ [])
unfolding set_all ascend
tagged_value-Builds v =
    set_all-Builds 8 64 64 (record { offset = 0; width = 2; val = v 0 })
      ((record { offset = 2; width = 1; val = v 1 })
        ∷ (record { offset = 3; width = 1; val = v 2 })
        ∷ (record { offset = 4; width = 60; val = v 3 })
        ∷ [])
      (omega arith) refl refl

type_name-Builds :
    (v : ℕ → ℕ)
    → Builds (TypeName.new_bitfield_1 (v 0) (v 1) (v 2) (v 3)) (
        (TypeName.abstract, v 0 % 2 ^ 1)
        ∷ (TypeName.mutabl, v 1 % 2 ^ 1)
        ∷ (TypeName.mayinlinealloc, v 2 % 2 ^ 1)
        ∷ (TypeName.unused, v 3 % 2 ^ 5)
        ∷ [])
unfolding set_all ascend
type_name-Builds v =
    set_all-Builds 1 8 8 (record { offset = 0; width = 1; val = v 0 })
      ((record { offset = 1; width = 1; val = v 1 })
        ∷ (record { offset = 2; width = 1; val = v 2 })
        ∷ (record { offset = 3; width = 5; val = v 3 })
        ∷ [])
      (omega arith) refl refl

layout-Builds :
    (v : ℕ → ℕ)
    → Builds (Layout.new_bitfield_1 (v 0) (v 1) (v 2) (v 3) (v 4) (v 5) (v 6) (v 7)) (
        (Layout.haspadding, v 0 % 2 ^ 1)
        ∷ (Layout.fielddesc_type, v 1 % 2 ^ 2)
        ∷ (Layout.arrayelem_isboxed, v 2 % 2 ^ 1)
        ∷ (Layout.arrayelem_isunion, v 3 % 2 ^ 1)
        ∷ (Layout.arrayelem_isatomic, v 4 % 2 ^ 1)
        ∷ (Layout.arrayelem_islocked, v 5 % 2 ^ 1)
        ∷ (Layout.isbitsegal, v 6 % 2 ^ 1)
        ∷ (Layout.padding, v 7 % 2 ^ 8)
        ∷ [])
unfolding set_all ascend
layout-Builds v =
    set_all-Builds 2 16 16 (record { offset = 0; width = 1; val = v 0 })
      ((record { offset = 1; width = 2; val = v 1 })
        ∷ (record { offset = 3; width = 1; val = v 2 })
        ∷ (record { offset = 4; width = 1; val = v 3 })
        ∷ (record { offset = 5; width = 1; val = v 4 })
        ∷ (record { offset = 6; width = 1; val = v 5 })
        ∷ (record { offset = 7; width = 1; val = v 6 })
        ∷ (record { offset = 8; width = 8; val = v 7 })
        ∷ [])
      (omega arith) refl refl

data_type-Builds :
    (v : ℕ → ℕ)
    → Builds
        (DataType.new_bitfield_1 (v 0) (v 1) (v 2) (v 3) (v 4) (v 5) (v 6) (v 7) (v 8) (v 9) (v 10))
        ((DataType.hasfreetypevars, v 0 % 2 ^ 1)
          ∷ (DataType.isconcretetype, v 1 % 2 ^ 1)
          ∷ (DataType.isdispatchtuple, v 2 % 2 ^ 1)
          ∷ (DataType.isbitstype, v 3 % 2 ^ 1)
          ∷ (DataType.zeroinit, v 4 % 2 ^ 1)
          ∷ (DataType.has_concrete_subtype, v 5 % 2 ^ 1)
          ∷ (DataType.maybe_subtype_of_cache, v 6 % 2 ^ 1)
          ∷ (DataType.isprimitivetype, v 7 % 2 ^ 1)
          ∷ (DataType.ismutationfree, v 8 % 2 ^ 1)
          ∷ (DataType.isidentityfree, v 9 % 2 ^ 1)
          ∷ (DataType.smalltag, v 10 % 2 ^ 6)
          ∷ [])
unfolding set_all ascend
data_type-Builds v =
    set_all-Builds 2 16 16 (record { offset = 0; width = 1; val = v 0 })
      ((record { offset = 1; width = 1; val = v 1 })
        ∷ (record { offset = 2; width = 1; val = v 2 })
        ∷ (record { offset = 3; width = 1; val = v 3 })
        ∷ (record { offset = 4; width = 1; val = v 4 })
        ∷ (record { offset = 5; width = 1; val = v 5 })
        ∷ (record { offset = 6; width = 1; val = v 6 })
        ∷ (record { offset = 7; width = 1; val = v 7 })
        ∷ (record { offset = 8; width = 1; val = v 8 })
        ∷ (record { offset = 9; width = 1; val = v 9 })
        ∷ (record { offset = 10; width = 6; val = v 10 })
        ∷ [])
      (omega arith) refl refl

-- For any values of the fields: the constructor of each of the five structures does not panic, and
-- every getter of the structure reads from the unit made the lowest bits of the value given for its
-- field, as many as the field has.
pub new_bitfield_1-Builds :
    (v : ℕ → ℕ)
    → (Builds
        (Context.new_bitfield_1 (v 0) (v 1))
        ((Context.copy_stack, v 0 % 2 ^ 31) ∷ (Context.started, v 1 % 2 ^ 1) ∷ []))
      × (Builds (TaggedValue.new_bitfield_1 (v 0) (v 1) (v 2) (v 3)) (
          (TaggedValue.gc, v 0 % 2 ^ 2)
          ∷ (TaggedValue.in_image, v 1 % 2 ^ 1)
          ∷ (TaggedValue.unused, v 2 % 2 ^ 1)
          ∷ (TaggedValue.tag, v 3 % 2 ^ 60)
          ∷ []))
      × (Builds (TypeName.new_bitfield_1 (v 0) (v 1) (v 2) (v 3)) (
          (TypeName.abstract, v 0 % 2 ^ 1)
          ∷ (TypeName.mutabl, v 1 % 2 ^ 1)
          ∷ (TypeName.mayinlinealloc, v 2 % 2 ^ 1)
          ∷ (TypeName.unused, v 3 % 2 ^ 5)
          ∷ []))
      × (Builds (Layout.new_bitfield_1 (v 0) (v 1) (v 2) (v 3) (v 4) (v 5) (v 6) (v 7)) (
          (Layout.haspadding, v 0 % 2 ^ 1)
          ∷ (Layout.fielddesc_type, v 1 % 2 ^ 2)
          ∷ (Layout.arrayelem_isboxed, v 2 % 2 ^ 1)
          ∷ (Layout.arrayelem_isunion, v 3 % 2 ^ 1)
          ∷ (Layout.arrayelem_isatomic, v 4 % 2 ^ 1)
          ∷ (Layout.arrayelem_islocked, v 5 % 2 ^ 1)
          ∷ (Layout.isbitsegal, v 6 % 2 ^ 1)
          ∷ (Layout.padding, v 7 % 2 ^ 8)
          ∷ []))
      × (Builds
          (DataType.new_bitfield_1
            (v 0)
            (v 1)
            (v 2)
            (v 3)
            (v 4)
            (v 5)
            (v 6)
            (v 7)
            (v 8)
            (v 9)
            (v 10))
          ((DataType.hasfreetypevars, v 0 % 2 ^ 1)
            ∷ (DataType.isconcretetype, v 1 % 2 ^ 1)
            ∷ (DataType.isdispatchtuple, v 2 % 2 ^ 1)
            ∷ (DataType.isbitstype, v 3 % 2 ^ 1)
            ∷ (DataType.zeroinit, v 4 % 2 ^ 1)
            ∷ (DataType.has_concrete_subtype, v 5 % 2 ^ 1)
            ∷ (DataType.maybe_subtype_of_cache, v 6 % 2 ^ 1)
            ∷ (DataType.isprimitivetype, v 7 % 2 ^ 1)
            ∷ (DataType.ismutationfree, v 8 % 2 ^ 1)
            ∷ (DataType.isidentityfree, v 9 % 2 ^ 1)
            ∷ (DataType.smalltag, v 10 % 2 ^ 6)
            ∷ []))
new_bitfield_1-Builds v = (
  context-Builds v,
  tagged_value-Builds v,
  type_name-Builds v,
  layout-Builds v,
  data_type-Builds v,
)
