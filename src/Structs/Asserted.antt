-- ===== src/Structs/Asserted.antt =====
-- mmtk/src/julia_types.rs: the assertions that stand after a structure, `["Size of T"][size_of::<T>() - n]`
-- and the like: an index into one text, which is in range where the two numbers are equal.
use Prim.Native.String.{String}
use mmtk_julia.Base.{ℕ, ◌≡◌, some, List, [], ◌∷◌}
use mmtk_julia.Structs.Layout.{Structure, size_of, align_of, offset_of}

pub record Assertions : Type 0 where
  pub size : ℕ
  pub align : ℕ
  pub offsets : List (String × ℕ)

abbrev pub Declaration : Type 0
Declaration = Structure × Assertions

abbrev pub OffsetsAgree : Structure → List (String × ℕ) → Type 0
OffsetsAgree s [] = Unit
OffsetsAgree s ((n, o) ∷ ps) = (offset_of s n ≡ some o) × OffsetsAgree s ps

-- The layout of the structure is the asserted one.
abbrev pub Agrees : Declaration → Type 0
Agrees d = (size_of d.0 ≡ d.1.size) × (align_of d.0 ≡ d.1.align) × OffsetsAgree d.0 d.1.offsets
