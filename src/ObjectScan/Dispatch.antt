-- ===== src/ObjectScan/Dispatch.antt =====
-- mmtk/src/julia_scanning.rs: the tests by which `scan_julia_object` picks a kind of object, over
-- variables in place of the scans.
use mmtk_julia.Base.{
  ℕ, zero, suc, ◌/◌, ◌<◌, ◌≤◌, ◌≡◌, ◌≢◌, Bool, true, false, none, some, List, [], arith, Address,
  ◌==◌, ltb, if◌then◌else◌,
}
use mmtk_julia.Slots.Slot.{JuliaVmSlot}
use mmtk_julia.ObjectScan.Layout.{
  Heap, Runtime, small_tag, typetagof, is_plain_tag, is_sound_type, jl_max_tags,
}
use mmtk_julia.ObjectScan.Loops.{Scan, append_scans}

-- The choice that `scan_pointers` makes, with its tests and its scans as variables.
pub choice :
    (n k : ℕ) (a b c : Scan) (x y z : List JuliaVmSlot)
    → k < 3
    → (n ≡ 0 → x ≡ [])
    → (n ≡ 0 → y ≡ [])
    → (n ≡ 0 → z ≡ [])
    → a ≡ some x
    → b ≡ some y
    → c ≡ some z
    → (if n == 0
        then some []
        else if k == 0
        then a
        else if k == 1
        then b
        else if k == 2
        then c
        else none)
      ≡ some (if k == 0 then x else if k == 1 then y else z)
choice zero k a b c x y z small ex ey ez ea eb ec = grind arith
choice (suc n) k a b c x y z small ex ey ez ea eb ec = ground arith

pub datatype_choice :
    (name array memory vt weak : ℕ) (r : List JuliaVmSlot) (m p : Scan) (x : List JuliaVmSlot)
    → name ≢ array
    → name ≢ memory
    → vt ≢ weak
    → p ≡ some x
    → append_scans
        (some (if name == array then r else []))
        (if name == memory then m else if vt == weak then some [] else p)
      ≡ some x
datatype_choice name array memory vt weak r m p x e f g is = grind arith

-- The type at `vt` is the object's: by a small tag for a type that needs no other handling, or by
-- the address of the type itself.
pub data HasType (rt : Runtime) (h : Heap) (obj : Address) : Address → Type 0 where
  small :
      is_plain_tag (typetagof h obj) ≡ true
      → HasType rt h obj (rt.jl_small_typeof (typetagof h obj / 8))
  large :
      small_tag jl_max_tags ≤ typetagof h obj
      → is_sound_type h (typetagof h obj) ≡ true
      → HasType rt h obj (typetagof h obj)

pub large-not_plain : (t : ℕ) → small_tag jl_max_tags ≤ t → is_plain_tag t ≡ false
large-not_plain t h = ground arith

pub not_below : (t : ℕ) → small_tag jl_max_tags ≤ t → ltb t (small_tag jl_max_tags) ≡ false
not_below t h = grind arith

-- The dispatch of `scan_julia_object` with its tests as variables.
pub dispatch_plain :
    (skip plain below sound : Bool) (a b c x : Scan)
    → skip ≡ false
    → plain ≡ true
    → a ≡ x
    → (if skip
        then some []
        else if plain
        then a
        else if below
        then b
        else if sound
        then c
        else none)
      ≡ x
dispatch_plain skip plain below sound a b c x e f g = grind arith

pub dispatch_large :
    (skip plain below sound : Bool) (a b c x : Scan)
    → skip ≡ false
    → plain ≡ false
    → below ≡ false
    → sound ≡ true
    → c ≡ x
    → (if skip
        then some []
        else if plain
        then a
        else if below
        then b
        else if sound
        then c
        else none)
      ≡ x
dispatch_large skip plain below sound a b c x e f g i j = grind arith
