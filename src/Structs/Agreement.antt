-- ===== src/Structs/Agreement.antt =====
-- The layouts that `#[repr(C)]` computes, against those that julia_types.rs asserts.
use Prim.Native.String.{String}
use mmtk_julia.Base.{
  ℕ, ◌≡◌, refl, zero, suc, Bool, true, false, ◌&&◌, Option, some, none, List, [], ◌∷◌, ◌++◌, ◌==◌,
  get_elem?, arith,
}
use mmtk_julia.Structs.Layout.{Structure, size_of, align_of, offset_of, layout_of}
use mmtk_julia.Structs.Asserted.{Declaration, OffsetsAgree, Agrees}
use mmtk_julia.Structs.Lists.{list_declarations}
use mmtk_julia.Structs.Threads.{thread_declarations}
use mmtk_julia.Structs.Objects.{object_declarations}
use mmtk_julia.Structs.Types.{type_declarations}
use mmtk_julia.Structs.Modules.{
  module_declarations, first_atomic_declarations, later_atomic_declarations,
}

-- All of the file's assertions.
abbrev pub declarations : List Declaration
declarations =
    list_declarations ++ thread_declarations ++ object_declarations ++ type_declarations
    ++ module_declarations ++ first_atomic_declarations ++ later_atomic_declarations

-- `Agrees` as a test, to evaluate it on the whole file.
abbrev is_at : Option ℕ → ℕ → Bool
is_at none o = false
is_at (some p) o = p == o

offsets_agree : Structure → List (String × ℕ) → Bool
offsets_agree s [] = true
offsets_agree s ((n, o) ∷ ps) = is_at (offset_of s n) o && offsets_agree s ps

agrees : Declaration → Bool
agrees d = (size_of d.0 == d.1.size) && (align_of d.0 == d.1.align) && offsets_agree d.0 d.1.offsets

all_agree : List Declaration → Bool
all_agree [] = true
all_agree (d ∷ ds) = agrees d && all_agree ds

is_at-eq : (p : Option ℕ) (o : ℕ) → is_at p o ≡ true → p ≡ some o
is_at-eq none o h = cc
is_at-eq (some p) o h = ground arith

offsets_agree-OffsetsAgree :
    (s : Structure) (ps : List (String × ℕ)) → offsets_agree s ps ≡ true → OffsetsAgree s ps
unfolding offsets_agree
offsets_agree-OffsetsAgree s [] h = tt
offsets_agree-OffsetsAgree s ((n, o) ∷ ps) h =
    (is_at-eq (offset_of s n) o (ground arith), offsets_agree-OffsetsAgree s ps (ground arith))

agrees-Agrees : (d : Declaration) → agrees d ≡ true → Agrees d
unfolding agrees
agrees-Agrees d h =
    (ground arith, ground arith, offsets_agree-OffsetsAgree d.0 d.1.offsets (ground arith))

all_agree-Agrees :
    (ds : List Declaration) (i : ℕ) (d : Declaration)
    → all_agree ds ≡ true
    → get_elem? ds i ≡ some d
    → Agrees d
unfolding all_agree
all_agree-Agrees [] i d h e = cc
all_agree-Agrees (x ∷ ds) zero d h e = agrees-Agrees d (ground arith)
all_agree-Agrees (x ∷ ds) (suc i) d h e = all_agree-Agrees ds i d (ground arith) e

all_agree-declarations : all_agree declarations ≡ true
unfolding all_agree agrees offsets_agree size_of align_of offset_of layout_of
all_agree-declarations = refl

-- Every structure, union and instance of `std_atomic` that julia_types.rs asserts something of, laid
-- out by the rules of `#[repr(C)]` from its members, has the asserted size and alignment, and each
-- asserted field stands at the asserted offset.
pub declarations-Agrees : (i : ℕ) (d : Declaration) → get_elem? declarations i ≡ some d → Agrees d
declarations-Agrees i d e = all_agree-Agrees declarations i d all_agree-declarations e
