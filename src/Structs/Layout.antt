-- ===== src/Structs/Layout.antt =====
-- mmtk/src/julia_types.rs: how `#[repr(C)]` lays the declared structures out, and the types that its
-- fields have. A structure is the list of its members, by name.
use Prim.Native.String.{String}
use text.Mathlib.Text.{◌==◌ as str_eq}
use Prim.Native.Nat.{max}
use mmtk_julia.Base.{ℕ, ◌+◌, ◌-◌, ◌*◌, ◌/◌, Option, none, some, List, [], ◌∷◌, if◌then◌else◌}

-- The size and the alignment of a type.
pub record Layout : Type 0 where
  pub size : ℕ
  pub align : ℕ

abbrev pub scalar : ℕ → Layout
scalar n = record { size = n; align = n }

abbrev pub pointer : Layout
pointer = scalar 8

-- `[T; n]`
abbrev pub array : Layout → ℕ → Layout
array l n = record { size = l.size * n; align = l.align }

-- `__BindgenBitfieldUnit<[u8; n]>`
abbrev pub bitfield_unit : ℕ → Layout
bitfield_unit n = array (scalar 1) n

pub record Member : Type 0 where
  pub name : String
  pub layout : Layout

infix 68 ◌of◌
abbrev pub ◌of◌ : String → Layout → Member
n of l = record { name = n; layout = l }

-- A member and the place that it got.
pub record Placed : Type 0 where
  pub member : Member
  pub offset : ℕ

-- The first multiple of `a` from `n` on.
unfoldable pub round_up : ℕ → ℕ → ℕ
round_up n a = (n + (a - 1)) / a * a

-- Each member of a structure stands at the first aligned place after the one before it.
unfoldable pub place : ℕ → List Member → List Placed
unfolding round_up
place from [] = []
place from (m ∷ ms) =
    let o = round_up from m.layout.align in
    record { member = m; offset = o } ∷ place (o + m.layout.size) ms

-- Where the last of the members ends.
unfoldable pub end_of : ℕ → List Placed → ℕ
end_of from [] = from
end_of from (p ∷ ps) = end_of (p.offset + p.member.layout.size) ps

unfoldable pub max_align : ℕ → List Member → ℕ
max_align a [] = a
max_align a (m ∷ ms) = max_align (max a m.layout.align) ms

-- The members of a union all stand at its start.
unfoldable pub overlay : List Member → List Placed
overlay [] = []
overlay (m ∷ ms) = record { member = m; offset = 0 } ∷ overlay ms

unfoldable pub max_size : ℕ → List Member → ℕ
max_size n [] = n
max_size n (m ∷ ms) = max_size (max n m.layout.size) ms

pub data Kind : Type 0 where
  struct_ : Kind
  union_ : Kind

-- A type declared with `#[repr(C)]`; `min_align` is 1, or the alignment that a `#[repr(align)]` asks for.
pub record Structure : Type 0 where
  pub kind : Kind
  pub min_align : ℕ
  pub members : List Member

abbrev pub struct_of : List Member → Structure
struct_of ms = record { kind = struct_; min_align = 1; members = ms }

abbrev pub union_of : List Member → Structure
union_of ms = record { kind = union_; min_align = 1; members = ms }

unfoldable pub placed_in : Kind → List Member → List Placed
unfolding place overlay
placed_in struct_ ms = place 0 ms
placed_in union_ ms = overlay ms

unfoldable pub placed : Structure → List Placed
unfolding placed_in
placed s = placed_in s.kind s.members

unfoldable pub align_of : Structure → ℕ
unfolding max_align
align_of s = max_align s.min_align s.members

unfoldable pub used_size : Kind → List Member → ℕ
unfolding placed_in end_of max_size
used_size struct_ ms = end_of 0 (placed_in struct_ ms)
used_size union_ ms = max_size 0 ms

-- The size is a multiple of the alignment.
unfoldable pub size_of : Structure → ℕ
unfolding used_size align_of round_up
size_of s = round_up (used_size s.kind s.members) (align_of s)

-- A structure as the type of a member of another.
unfoldable pub layout_of : Structure → Layout
unfolding size_of align_of
layout_of s = record { size = size_of s; align = align_of s }

unfoldable pub find_offset : String → List Placed → Option ℕ
find_offset n [] = none
find_offset n (p ∷ ps) = if str_eq p.member.name n then some p.offset else find_offset n ps

-- `::std::mem::offset_of!`
unfoldable pub offset_of : Structure → String → Option ℕ
unfolding placed find_offset
offset_of s n = find_offset n (placed s)

-- `__IncompleteArrayField<T>(PhantomData<T>, [T; 0])`
abbrev pub incomplete_array_field : Layout → Structure
incomplete_array_field t =
    struct_of (("0" of record { size = 0; align = 1 }) ∷ ("1" of array t 0) ∷ [])

-- `std_atomic<T>`
abbrev pub std_atomic : Layout → Structure
std_atomic t = struct_of (("_phantom_0" of record { size = 0; align = 1 }) ∷ ("_M_i" of t) ∷ [])
