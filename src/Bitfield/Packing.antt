-- ===== src/Bitfield/Packing.antt =====
-- Setting the fields of a unit one after the other, as `new_bitfield_1` of each structure does, and
-- reading them back.
use mmtk_julia.Base.{
  ℕ, ◌+◌, ◌*◌, ◌%◌, ◌^◌, ◌≤◌, ◌≡◌, inl, ap, ◌∙◌, Bool, true, ◌&&◌, Option, some, List, [], ◌∷◌, map,
  arith, length, leb, ◌>>=◌,
}
use native.Mathlib.Nat.{mod-eq_of_lt, mod-lt, pow-le-pow_right}
use mmtk_julia.Bitfield.Bits.{power-pos}
use mmtk_julia.Bitfield.Storage.{BindgenBitfieldUnit, get, set}
use mmtk_julia.Bitfield.Writing.{written, length-written, set-written}
use mmtk_julia.Bitfield.RoundTrip.{get-written, get-written_other}
use mmtk_julia.Bitfield.Accessors.{Accessors, accessors, default_unit}

-- A field and the value given for it.
pub record Given : Type 0 where
  pub offset : ℕ
  pub width : ℕ
  pub val : ℕ

unfoldable pub set_all : BindgenBitfieldUnit → Given → List Given → Option BindgenBitfieldUnit
set_all s f [] = set s f.offset f.width f.val
set_all s f (g ∷ gs) = set s f.offset f.width f.val >>= λ s'. set_all s' g gs

-- The fields, of an integer type of `bits` bits, follow each other from bit `from` on, up to bit `top`
-- at most.
unfoldable pub ascend : (bits from top : ℕ) → Given → List Given → Bool
ascend bits from top f [] = leb from f.offset && leb f.width bits && leb (f.offset + f.width) top
ascend bits from top f (g ∷ gs) =
    leb from f.offset
    && leb f.width bits
    && leb (f.offset + f.width) top
    && ascend bits (f.offset + f.width) top g gs

Reads : BindgenBitfieldUnit → Given → Type 0
Reads s f = get s f.offset f.width ≡ some (f.val % 2 ^ f.width)

AllRead : BindgenBitfieldUnit → Given → List Given → Type 0
AllRead s f [] = Reads s f
AllRead s f (g ∷ gs) = Reads s f × AllRead s g gs

-- What was read below the first field is read still.
Below : (s s' : BindgenBitfieldUnit) → ℕ → Type 0
Below s s' from = (off w : ℕ) → w ≤ 64 → off + w ≤ from → get s' off w ≡ get s off w

abbrev Fits : (bits from top : ℕ) → Given → Type 0
Fits bits from top f = (from ≤ f.offset) × (f.width ≤ bits) × (f.offset + f.width ≤ top)

ascend-one :
    (bits from top : ℕ) (f : Given) → ascend bits from top f [] ≡ true → Fits bits from top f
unfolding ascend
ascend-one bits from top f h = ground arith

ascend-more :
    (bits from top : ℕ) (f g : Given) (gs : List Given)
    → ascend bits from top f (g ∷ gs) ≡ true
    → Fits bits from top f × (ascend bits (f.offset + f.width) top g gs ≡ true)
unfolding ascend
ascend-more bits from top f g gs h = ground arith

set_one :
    (s : BindgenBitfieldUnit) (bits from top : ℕ) (f : Given)
    → bits ≤ 64
    → top ≡ 8 * length s
    → Fits bits from top f
    → (set s f.offset f.width f.val ≡ some (written s f.offset f.width f.val))
      × Reads (written s f.offset f.width f.val) f
      × Below s (written s f.offset f.width f.val) from
unfolding Reads Below
set_one s bits from top f small size fits = (
  set-written s f.offset f.width f.val (omega (arith, fits.2)),
  get-written s f.offset f.width f.val (omega (arith, fits.1)) (omega (arith, fits.2)),
  λ off w hw h.
      get-written_other s f.offset f.width f.val off w (omega (arith, fits.2)) hw
        (omega (arith, fits.0, fits.2)) (inl (omega (arith, fits.0))),
)

set_all-reads :
    (s : BindgenBitfieldUnit) (bits from top : ℕ) (f : Given) (gs : List Given)
    → bits ≤ 64
    → top ≡ 8 * length s
    → ascend bits from top f gs ≡ true
    → (s' : BindgenBitfieldUnit) × (set_all s f gs ≡ some s') × AllRead s' f gs × Below s s' from
unfolding set_all AllRead Reads Below
set_all-reads s bits from top f [] small size fits =
    let one = set_one s bits from top f small size (ascend-one bits from top f fits) in
    (written s f.offset f.width f.val, one.0, one.1, one.2)
set_all-reads s bits from top f (g ∷ gs) small size fits =
    let here = ascend-more bits from top f g gs fits in
    let one = set_one s bits from top f small size here.0 in
    let s1 : BindgenBitfieldUnit = written s f.offset f.width f.val in
    let rest =
      set_all-reads s1 bits (f.offset + f.width) top g gs small
        (omega (arith, length-written s f.offset f.width f.val)) here.1 in
    (
      rest.0,
      rw one.0 rest.1,
      (rest.3 f.offset f.width (omega (arith, here.0.1)) (omega arith) ∙ one.1, rest.2),
      λ off w hw h. rest.3 off w hw (omega (arith, here.0.0)) ∙ one.2 off w hw h,
    )

-- Through the getter, of a type that the field fits.
getter-Reads :
    (s : BindgenBitfieldUnit) (f : Given) (bits : ℕ)
    → Reads s f
    → f.width ≤ bits
    → (accessors bits f.offset f.width).getter s ≡ some (f.val % 2 ^ f.width)
unfolding Reads
getter-Reads s f bits h fit = rw h (
    ap some (
      mod-eq_of_lt {m = 2 ^ bits} (
        omega
          (arith, mod-lt f.val (power-pos f.width), pow-le-pow_right {n = 2} (omega arith) fit))))

-- The value that each getter reads from a unit.
abbrev pub ReadBack : BindgenBitfieldUnit → List (Accessors × ℕ) → Type 0
ReadBack s [] = Unit
ReadBack s (f ∷ fs) = (f.0.getter s ≡ some f.1) × ReadBack s fs

-- The constructor does not panic, and the getters read those values from what it made.
abbrev pub Builds : Option BindgenBitfieldUnit → List (Accessors × ℕ) → Type 0
Builds made fs = (s : BindgenBitfieldUnit) × (made ≡ some s) × ReadBack s fs

abbrev pub lowest_bits : ℕ → Given → Accessors × ℕ
lowest_bits bits f = (accessors bits f.offset f.width, f.val % 2 ^ f.width)

AllRead-ReadBack :
    (s : BindgenBitfieldUnit) (bits from top : ℕ) (f : Given) (gs : List Given)
    → ascend bits from top f gs ≡ true
    → AllRead s f gs
    → ReadBack s (map (lowest_bits bits) (f ∷ gs))
unfolding AllRead
AllRead-ReadBack s bits from top f [] fits reads =
    (getter-Reads s f bits reads (ascend-one bits from top f fits).1, tt)
AllRead-ReadBack s bits from top f (g ∷ gs) fits reads =
    let here = ascend-more bits from top f g gs fits in
    (
      getter-Reads s f bits reads.0 here.0.1,
      AllRead-ReadBack s bits (f.offset + f.width) top g gs here.1 reads.1,
    )

pub set_all-Builds :
    (n bits top : ℕ) (f : Given) (gs : List Given)
    → bits ≤ 64
    → top ≡ 8 * length (default_unit n)
    → ascend bits 0 top f gs ≡ true
    → Builds (set_all (default_unit n) f gs) (map (lowest_bits bits) (f ∷ gs))
set_all-Builds n bits top f gs small size fits =
    let all = set_all-reads (default_unit n) bits 0 top f gs small size fits in
    (all.0, all.1, AllRead-ReadBack all.0 bits 0 top f gs fits all.2)
