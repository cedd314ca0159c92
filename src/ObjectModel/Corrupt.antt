-- ===== src/ObjectModel/Corrupt.antt =====
-- Where `get_so_object_size` of mmtk/src/object_model.rs panics.
use mathlib.Core.Path.{subst}
use native.Mathlib.Decide.{ℕ_discrete}
use mmtk_julia.Base.{
  ℕ, ◌/◌, ◌%◌, ◌<◌, ◌≤◌, ◌≡◌, ◌≢◌, ◌⊎◌, inl, inr, refl, Bool, true, false, Option, none, some,
  arith, Address, ◌==◌, ltb, ==_of_ne, ==_iff, add_word, sym, Bool-cases, if◌then◌else◌,
}
use mmtk_julia.Structs.Tags.{jl_string_tag}
use mmtk_julia.ObjectScan.Layout.{
  Heap, Runtime, small_tag, jl_max_tags, typetagof, typeof, is_plain_tag, is_sound_type, type_name,
}
use mmtk_julia.ObjectModel.Size.{
  llt_align, with_header, datatype_size, structure_size, genericmemory_size, small_size,
  get_so_object_size,
}
use mmtk_julia.ObjectModel.Align.{get_so_object_size-aligned, multiple_of_eight}

plain_below : (t : ℕ) → is_plain_tag t ≡ true → t < small_tag jl_max_tags
plain_below t h = ground arith

above_below : (t : ℕ) → small_tag jl_max_tags ≤ t → ltb t (small_tag jl_max_tags) ≡ true → ⊥
above_below t a b = ground arith

above_not_below : (t : ℕ) → small_tag jl_max_tags ≤ t → ltb t (small_tag jl_max_tags) ≡ false
above_not_below t a = ground arith

not_below_above : (t : ℕ) → ltb t (small_tag jl_max_tags) ≡ false → small_tag jl_max_tags ≤ t
not_below_above t a = ground arith

above_not_plain : (t : ℕ) → small_tag jl_max_tags ≤ t → is_plain_tag t ≡ false
above_not_plain t a = elim (Bool-cases (is_plain_tag t)) [
  | inl plain ↦ absurd (omega (arith, plain_below t plain))
  | inr other ↦ other
]

Bool-apart : (b : Bool) → b ≡ true → b ≡ false → ⊥
Bool-apart b p q = cc

abbrev pub Found : Option ℕ → Type 0
Found o = (size : ℕ) × (o ≡ some size)

-- The dispatch of `get_so_object_size` with its tests as variables.
dispatch-Found :
    (buff plain below sound : Bool) (b s : ℕ) (a c : Option ℕ)
    → (plain ≡ true → Found a)
    → (below ≡ false → Found c)
    → (below ≡ true) ⊎ (sound ≡ true)
    → Found (
        if buff
        then some b
        else if plain
        then a
        else if below
        then some s
        else if sound
        then c
        else none)
dispatch-Found true plain below sound b s a c fa fc either = (b, refl)
dispatch-Found false true below sound b s a c fa fc either = fa refl
dispatch-Found false false true sound b s a c fa fc either = (s, refl)
dispatch-Found false false false true b s a c fa fc either = fc refl
dispatch-Found false false false false b s a c fa fc (inl e) = cc
dispatch-Found false false false false b s a c fa fc (inr e) = cc

dispatch-none :
    (buff plain below sound : Bool) (b s : ℕ) (a c : Option ℕ)
    → buff ≡ false
    → plain ≡ false
    → below ≡ false
    → sound ≡ false
    → (if buff
        then some b
        else if plain
        then a
        else if below
        then some s
        else if sound
        then c
        else none)
      ≡ none
dispatch-none buff plain below sound b s a c p q r t = rw (p, q, r, t) refl

module _ (rt : Runtime) (h : Heap) where
  -- The tag is no small one, and what it points to is no type of Julia's.
  abbrev pub IsCorrupt : Address → Type 0
  IsCorrupt object =
      (small_tag jl_max_tags ≤ typetagof h object) × (is_sound_type h (typetagof h object) ≡ false)

  datatype_size-typed :
      (vt object : Address)
      → typeof rt h object ≡ vt
      → (size : ℕ) × (datatype_size rt h vt object ≡ some size)
  unfolding datatype_size
  datatype_size-typed vt object e =
      elim (Bool-cases (type_name h vt == rt.jl_genericmemory_typename)) [
        | inl memory ↦ (genericmemory_size rt h (typetagof h object) object, ground arith)
        | inr other ↦ (structure_size rt h vt, ground arith)
      ]

  small_typeof :
      (object : Address)
      → typetagof h object < small_tag jl_max_tags
      → typeof rt h object ≡ rt.jl_small_typeof (typetagof h object / 8)
  small_typeof object below = ground arith

  large_typeof :
      (object : Address)
      → small_tag jl_max_tags ≤ typetagof h object
      → typeof rt h object ≡ typetagof h object
  large_typeof object above = ground arith

  sound-Found :
      (obj_size : Address → ℕ) (object : Address)
      → (ltb (typetagof h object) (small_tag jl_max_tags) ≡ true)
        ⊎ (is_sound_type h (typetagof h object) ≡ true)
      → Found (get_so_object_size rt h obj_size object)
  unfolding get_so_object_size
  sound-Found obj_size object sound =
      let t = typetagof h object in
      dispatch-Found (t == rt.julia_buff_tag) (is_plain_tag t) (ltb t (small_tag jl_max_tags))
        (is_sound_type h t) (obj_size object) (small_size rt h t object)
        (datatype_size rt h (rt.jl_small_typeof (t / 8)) object) (datatype_size rt h t object)
        (λ plain.
          datatype_size-typed (rt.jl_small_typeof (t / 8)) object
            (small_typeof object (plain_below t plain)))
        (λ above. datatype_size-typed t object (large_typeof object (ground arith))) sound

  corrupt-none :
      (obj_size : Address → ℕ) (object : Address)
      → typetagof h object ≢ rt.julia_buff_tag
      → IsCorrupt object
      → get_so_object_size rt h obj_size object ≡ none
  unfolding get_so_object_size
  corrupt-none obj_size object other corrupt =
      let t = typetagof h object in
      dispatch-none (t == rt.julia_buff_tag) (is_plain_tag t) (ltb t (small_tag jl_max_tags))
        (is_sound_type h t) (obj_size object) (small_size rt h t object)
        (datatype_size rt h (rt.jl_small_typeof (t / 8)) object) (datatype_size rt h t object)
        (==_of_ne t rt.julia_buff_tag other) (above_not_plain t corrupt.0)
        (above_not_below t corrupt.0) corrupt.1

  string_size :
      (obj_size : Address → ℕ) (object : Address)
      → typetagof h object ≢ rt.julia_buff_tag
      → typetagof h object ≡ small_tag jl_string_tag
      → get_so_object_size rt h obj_size object
        ≡ some (llt_align (with_header rt h (add_word (add_word (h.load64 object) 8) 1)) 8)
  unfolding get_so_object_size small_size
  string_size obj_size object other string =
      let apart : small_tag jl_string_tag ≢ rt.julia_buff_tag = rw string at other in
      rw string (rw (==_of_ne (small_tag jl_string_tag) rt.julia_buff_tag apart) refl)

  -- What becomes of a call, by the tag of the object: a buffer has the size that stands before it; a
  -- string's size is a multiple of 8; another object's is a multiple of 16 if it is not corrupt; and
  -- else the code panics.
  pub data Settled (obj_size : Address → ℕ) (object : Address) : Option ℕ → Type 0 where
    of_buffer :
        typetagof h object ≡ rt.julia_buff_tag → Settled obj_size object (some (obj_size object))
    of_string :
        {size : ℕ}
        → typetagof h object ≢ rt.julia_buff_tag
        → typetagof h object ≡ small_tag jl_string_tag
        → size % 8 ≡ 0
        → Settled obj_size object (some size)
    of_other :
        {size : ℕ}
        → typetagof h object ≢ rt.julia_buff_tag
        → typetagof h object ≢ small_tag jl_string_tag
        → ¬ IsCorrupt object
        → size % 16 ≡ 0
        → Settled obj_size object (some size)
    panics :
        typetagof h object ≢ rt.julia_buff_tag → IsCorrupt object → Settled obj_size object none

  other-Settled :
      (obj_size : Address → ℕ) (object : Address)
      → typetagof h object ≢ rt.julia_buff_tag
      → typetagof h object ≢ small_tag jl_string_tag
      → ¬ IsCorrupt object
      → (ltb (typetagof h object) (small_tag jl_max_tags) ≡ true)
        ⊎ (is_sound_type h (typetagof h object) ≡ true)
      → Settled obj_size object (get_so_object_size rt h obj_size object)
  other-Settled obj_size object other string fine sound =
      let found = sound-Found obj_size object sound in
      subst (Settled obj_size object) (sym found.1) (
        of_other other string fine
          (get_so_object_size-aligned rt h obj_size object found.0 other string found.1))

  by_tag :
      (obj_size : Address → ℕ) (object : Address)
      → typetagof h object ≢ rt.julia_buff_tag
      → typetagof h object ≢ small_tag jl_string_tag
      → Settled obj_size object (get_so_object_size rt h obj_size object)
  by_tag obj_size object other string =
      let t = typetagof h object in
      elim (Bool-cases (ltb t (small_tag jl_max_tags))) [
        | inl below ↦
            other-Settled obj_size object other string (λ c. above_below t c.0 below) (inl below)
        | inr above ↦ elim (Bool-cases (is_sound_type h t)) [
          | inl sound ↦
              other-Settled obj_size object other string
                (λ c. Bool-apart (is_sound_type h t) sound c.1) (inr sound)
          | inr unsound ↦
              let corrupt : IsCorrupt object = (not_below_above t above, unsound) in
              subst (Settled obj_size object) (sym (corrupt-none obj_size object other corrupt))
                (panics other corrupt)
        ]
      ]

  buffer_size :
      (obj_size : Address → ℕ) (object : Address)
      → typetagof h object ≡ rt.julia_buff_tag
      → get_so_object_size rt h obj_size object ≡ some (obj_size object)
  unfolding get_so_object_size
  buffer_size obj_size object e = rw ((==_iff (typetagof h object) rt.julia_buff_tag).1 e) refl

  -- `get_so_object_size` gives every object a size but one whose tag is neither a buffer's nor a small
  -- one and points to no type, for which it panics. A buffer's is the size that stands before it, a
  -- string's a multiple of 8, and any other object's a multiple of 16.
  pub get_so_object_size-settles :
      (obj_size : Address → ℕ) (object : Address)
      → Settled obj_size object (get_so_object_size rt h obj_size object)
  get_so_object_size-settles obj_size object =
      let t = typetagof h object in
      elim (ℕ_discrete t rt.julia_buff_tag) [
        | yes buffer ↦
            subst (Settled obj_size object) (sym (buffer_size obj_size object buffer))
              (of_buffer buffer)
        | no other ↦ elim (ℕ_discrete t (small_tag jl_string_tag)) [
          | yes string ↦
              subst (Settled obj_size object) (sym (string_size obj_size object other string))
                (of_string other string (multiple_of_eight _))
          | no string ↦ by_tag obj_size object other string
        ]
      ]
