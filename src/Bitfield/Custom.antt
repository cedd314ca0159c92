-- ===== src/Bitfield/Custom.antt =====
-- What the scanner and the object model read of headers, types and tasks, with shifts and masks of
-- words (mmtk/src/util.rs among others), is what the accessors of julia_types.rs read.
use mmtk_julia.Base.{
  ℕ, zero, suc, ◌+◌, ◌-◌, ◌*◌, ◌/◌, ◌%◌, ◌^◌, ◌<◌, ◌≤◌, ◌≡◌, sym, ap, ◌∙◌, none, some, arith,
  values, length-values, bit_and_three, Address, Bytes, add_word, sub_word,
}
use native.Mathlib.Nat.{mod-eq_of_lt}
use mmtk_julia.ObjectScan.Layout.{typetagof, smalltag, layout_flags, fielddesc_type_custom}
use mmtk_julia.ObjectScan.Stack.{copy_stack}
use mmtk_julia.ObjectModel.Copying.{heap_of}
use mmtk_julia.Bitfield.Storage.{raw_get}
use mmtk_julia.Bitfield.Word.{word, AreBytes, get-word}
use mmtk_julia.Bitfield.Raw.{bytes_at, raw-bytes_at}
use mmtk_julia.Bitfield.Fields.Context
use mmtk_julia.Bitfield.Fields.TaggedValue
use mmtk_julia.Bitfield.Fields.Layout
use mmtk_julia.Bitfield.Fields.DataType

AreBytes-values : (f : ℕ → ℕ) (i n : ℕ) → ((k : ℕ) → f k < 256) → AreBytes (values f i n)
AreBytes-values f i zero small = tt
AreBytes-values f i (suc n) small = (small i, AreBytes-values f (suc i) n small)

some_inj : (a b : ℕ) → some a ≡ some b → a ≡ b
some_inj a b e = ap (λ o. elim o [ none ↦ a | some c ↦ c ]) e

module _ (m : Bytes) (small : (a : Address) → m a < 256) where
  -- A raw getter reads a shift and a mask of the word in memory.
  raw_get-word :
      (this : Address) (n off w : ℕ)
      → this + n ≤ 2 ^ 64
      → w ≤ 64
      → off + w ≤ 8 * n
      → raw_get m this off w ≡ word (bytes_at m this n) / 2 ^ off % 2 ^ w
  raw_get-word this n off w top hw h = some_inj _ _ (
      sym (raw-bytes_at m this n off w 0 top h).0
      ∙ get-word (bytes_at m this n) off w (AreBytes-values _ 0 n (λ k. small _)) hw
          (omega (arith, length-values (λ k. m (add_word this k)) 0 n)))

  byte_at : (a k : ℕ) → a + k < 2 ^ 64 → m (add_word a k) ≡ m (a + k)
  byte_at a k h = ap m (mod-eq_of_lt h)

  first_byte : (a : ℕ) → a < 2 ^ 64 → m (add_word a 0) ≡ m a
  first_byte a h = ap m (omega arith)

  word-load16 : (a : Address) → a + 2 ≤ 2 ^ 64 → word (bytes_at m a 2) ≡ (heap_of m).load16 a
  unfolding heap_of
  word-load16 a top = omega (arith, first_byte a (omega arith), byte_at a 1 (omega arith))

  apart : (a i j : ℕ) → m (a + i + j) ≡ m (a + (i + j))
  apart a i j = ap m (omega arith)

  word-load32 : (a : Address) → a + 4 ≤ 2 ^ 64 → word (bytes_at m a 4) ≡ (heap_of m).load32 a
  unfolding heap_of
  word-load32 a top = omega (
    arith,
    first_byte a (omega arith),
    byte_at a 1 (omega arith),
    byte_at a 2 (omega arith),
    byte_at a 3 (omega arith),
    apart a 2 1,
  )

  word-load64 : (a : Address) → a + 8 ≤ 2 ^ 64 → word (bytes_at m a 8) ≡ (heap_of m).load64 a
  unfolding heap_of
  word-load64 a top = omega (
    arith,
    first_byte a (omega arith),
    byte_at a 1 (omega arith),
    byte_at a 2 (omega arith),
    byte_at a 3 (omega arith),
    byte_at a 4 (omega arith),
    byte_at a 5 (omega arith),
    byte_at a 6 (omega arith),
    byte_at a 7 (omega arith),
    apart a 2 1,
    apart a 4 1,
    apart a 4 2,
    ap m (let e : a + 4 + 2 + 1 ≡ a + 7 = omega arith in e),
  )

  load64-lt : (a : Address) → (heap_of m).load64 a < 2 ^ 64
  unfolding heap_of
  load64-lt a = omega (
    arith,
    small a,
    small (a + 1),
    small (a + 2),
    small (a + 2 + 1),
    small (a + 4),
    small (a + 4 + 1),
    small (a + 4 + 2),
    small (a + 4 + 2 + 1),
  )

  -- Over a memory of bytes: the small tag of a type, the layout's kind of field table and its flags for
  -- boxed and union elements, the size of a copied stack and the tag in a header, as they are read
  -- with shifts and masks, are what the generated accessors read of the same bytes.
  pub fields-accessors :
      (vt l ta obj : Address)
      → vt + 54 ≤ 2 ^ 64
      → l + 20 ≤ 2 ^ 64
      → ta + 220 ≤ 2 ^ 64
      → 8 ≤ obj
      → obj ≤ 2 ^ 64
      → (smalltag (heap_of m) vt ≡ DataType.smalltag.getter_raw m (vt + 52))
        × (fielddesc_type_custom (layout_flags (heap_of m) l)
            ≡ Layout.fielddesc_type.getter_raw m (l + 18))
        × (layout_flags (heap_of m) l / 2 ^ 3 % 2 ≡ Layout.arrayelem_isboxed.getter_raw m (l + 18))
        × (layout_flags (heap_of m) l / 2 ^ 4 % 2 ≡ Layout.arrayelem_isunion.getter_raw m (l + 18))
        × (copy_stack ((heap_of m).load32 (ta + 216)) ≡ Context.copy_stack.getter_raw m (ta + 216))
        × (typetagof (heap_of m) obj ≡ TaggedValue.tag.getter_raw m (obj - 8) * 2 ^ 4)
  fields-accessors vt l ta obj h1 h2 h3 h4 h5 =
      let flags : word (bytes_at m (l + 18) 2) ≡ layout_flags (heap_of m) l =
        word-load16 (l + 18) (omega arith) in
      (
        omega (
          arith,
          word-load16 (vt + 52) (omega arith),
          raw_get-word (vt + 52) 2 10 6 (omega arith) (omega arith) (omega arith),
        ),
        bit_and_three (layout_flags (heap_of m) l / 2)
            ∙ omega (
              arith,
              flags,
              raw_get-word (l + 18) 2 1 2 (omega arith) (omega arith) (omega arith),
            ),
        omega (arith, flags, raw_get-word (l + 18) 2 3 1 (omega arith) (omega arith) (omega arith)),
        omega (arith, flags, raw_get-word (l + 18) 2 4 1 (omega arith) (omega arith) (omega arith)),
        omega (
          arith,
          word-load32 (ta + 216) (omega arith),
          raw_get-word (ta + 216) 4 0 31 (omega arith) (omega arith) (omega arith),
        ),
        ap (λ a. (heap_of m).load64 a - (heap_of m).load64 a % 2 ^ 4)
              (let before : sub_word obj 8 ≡ obj - 8 = omega arith in before)
            ∙ omega (
              arith,
              word-load64 (obj - 8) (omega arith),
              load64-lt (obj - 8),
              raw_get-word (obj - 8) 8 4 60 (omega arith) (omega arith) (omega arith),
            ),
      )
