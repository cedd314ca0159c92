-- ===== src/Bitfield/Bits.antt =====
-- Single bits of numbers: what the masks `1 << i` read and change, for mmtk/src/julia_types.rs.
use mmtk_julia.Base.{
  ℕ, zero, suc, ◌+◌, ◌-◌, ◌*◌, ◌/◌, ◌%◌, ◌^◌, ◌<◌, ◌≤◌, ◌≡◌, refl, sym, ap, ◌∙◌, Bool, true, false,
  not, arith, min, bit_and, bit_or, bit_and-one, and_lowest, or_lowest, ◌==◌, if◌then◌else◌,
  ==_of_ne,
}
use Prim.Native.Nat.{max}
use native.Mathlib.Nat.{
  div-div-eq-div-mul, div-add-mod, add-mul-mod_self_left, mod-eq_of_lt, mod-lt, pow-succ',
  one-le-pow, pow-le-pow_right,
}

-- Bit `i` of a number.
abbrev pub bit : ℕ → ℕ → ℕ
bit x i = x / 2 ^ i % 2

pub power-pos : (i : ℕ) → 0 < 2 ^ i
power-pos i = one-le-pow i 2 (omega arith)

pub bit-suc : (x i : ℕ) → bit x (suc i) ≡ bit (x / 2) i
bit-suc x i =
    ap (λ d. d % 2) (ap (λ p. x / p) (pow-succ' 2 i) ∙ sym (div-div-eq-div-mul x 2 (2 ^ i)))

-- A number of `k` pairs of blocks of `p`, one block more if `b` is 1, and a rest.
blocks : (p k b r : ℕ) → b < 2 → r < p → (p * (2 * k + b) + r) % (2 * p) ≡ r + b * p
blocks p k zero r hb hr =
    ap (λ n. n % (2 * p)) (let e : p * (2 * k + 0) + r ≡ r + 2 * p * k = omega arith in e)
    ∙ add-mul-mod_self_left r (2 * p) k
    ∙ mod-eq_of_lt (omega arith)
    ∙ omega arith
blocks p k (suc zero) r hb hr =
    ap (λ n. n % (2 * p)) (let e : p * (2 * k + 1) + r ≡ (r + p) + 2 * p * k = omega arith in e)
    ∙ add-mul-mod_self_left (r + p) (2 * p) k
    ∙ mod-eq_of_lt (omega arith)
    ∙ omega arith
blocks p k (suc (suc b)) r hb hr = absurd (omega arith)

-- The lowest `w + 1` bits are the lowest `w` and bit `w`.
pub low-suc : (x w : ℕ) → x % 2 ^ suc w ≡ x % 2 ^ w + bit x w * 2 ^ w
low-suc x w =
    let p : ℕ = 2 ^ w in
    let y : ℕ = x / p in
    ap (λ q. x % q) (pow-succ' 2 w)
    ∙ ap (λ n. n % (2 * p))
        (sym (div-add-mod x p)
          ∙ ap (λ n. p * n + x % p) (let e : y ≡ 2 * (y / 2) + y % 2 = omega arith in e))
    ∙ blocks p (y / 2) (y % 2) (x % p) (omega arith) (mod-lt x (power-pos w))

pub bit-bit_and : (x y i : ℕ) → bit (bit_and x y) i ≡ min (bit x i) (bit y i)
bit-bit_and x y zero = omega (arith, and_lowest x y)
bit-bit_and x y (suc i) =
    let half : bit_and x y / 2 ≡ bit_and (x / 2) (y / 2) = omega (arith, and_lowest x y) in
    rw (bit-suc (bit_and x y) i, bit-suc x i, bit-suc y i, half) (bit-bit_and (x / 2) (y / 2) i)

pub bit-bit_or : (x y i : ℕ) → bit (bit_or x y) i ≡ max (bit x i) (bit y i)
bit-bit_or x y zero = omega (arith, or_lowest x y)
bit-bit_or x y (suc i) =
    let half : bit_or x y / 2 ≡ bit_or (x / 2) (y / 2) = omega (arith, or_lowest x y) in
    rw (bit-suc (bit_or x y) i, bit-suc x i, bit-suc y i, half) (bit-bit_or (x / 2) (y / 2) i)

double_half : (p : ℕ) → 2 * p / 2 ≡ p
double_half p = omega arith

and_step : (b p r : ℕ) → b * p * 2 + min r (2 * p % 2) ≡ b * (2 * p)
and_step b p r = omega arith

pub bit_and-power : (x i : ℕ) → bit_and x (2 ^ i) ≡ bit x i * 2 ^ i
bit_and-power x zero = omega (arith, bit_and-one x)
bit_and-power x (suc i) =
    rw (bit-suc x i, pow-succ' 2 i, and_lowest x (2 * 2 ^ i), double_half, bit_and-power (x / 2) i)
      (and_step (bit (x / 2) i) (2 ^ i) (x % 2))

-- A bit above all those of the number is added.
pub bit_or-power : (x i : ℕ) → x < 2 ^ i → bit_or x (2 ^ i) ≡ x + 2 ^ i
bit_or-power zero zero h = refl
bit_or-power (suc x) zero h = absurd (omega arith)
bit_or-power x (suc i) h =
    rw (pow-succ' 2 i, or_lowest x (2 * 2 ^ i), double_half)
      (omega (
        arith,
        bit_or-power (x / 2) i
            (let below : x < 2 * 2 ^ i = rw (sym (pow-succ' 2 i)) h in omega arith),
      ))

pub bit-zero : (i : ℕ) → bit 0 i ≡ 0
bit-zero zero = refl
bit-zero (suc i) = bit-suc 0 i ∙ bit-zero i

abbrev pub one_if : Bool → ℕ
one_if true = 1
one_if false = 0

==_suc : (i j : ℕ) → (suc i == suc j) ≡ (i == j)
==_suc i j = ground arith

pub bit-power : (i j : ℕ) → bit (2 ^ i) j ≡ one_if (i == j)
bit-power zero zero = refl
bit-power zero (suc j) =
    bit-suc 1 j ∙ bit-zero j ∙ ap one_if (sym (==_of_ne 0 (suc j) (λ e. omega arith)))
bit-power (suc i) zero = rw (pow-succ' 2 i, ==_of_ne (suc i) 0 (λ e. omega arith)) (omega arith)
bit-power (suc i) (suc j) =
    bit-suc (2 ^ suc i) j ∙ rw (pow-succ' 2 i, double_half, ==_suc i j) (bit-power i j)

-- A mask of ones, and one with a hole.
ones-bit : (n j : ℕ) → j < n → bit (2 ^ n - 1) j ≡ 1
ones-bit zero j h = absurd (omega arith)
ones-bit (suc n) zero h = rw (pow-succ' 2 n) (omega (arith, power-pos n))
ones-bit (suc n) (suc j) h =
    let half : (2 * 2 ^ n - 1) / 2 ≡ 2 ^ n - 1 = omega (arith, power-pos n) in
    bit-suc (2 ^ suc n - 1) j ∙ rw (pow-succ' 2 n, half) (ones-bit n j (omega arith))

double_below : (i n : ℕ) → i < n → 2 * 2 ^ i ≤ 2 ^ n
double_below i n h = rw (sym (pow-succ' 2 i)) (pow-le-pow_right {n = 2} (omega arith) h)

hole-bit : (n i j : ℕ) → i < n → j < n → bit (2 ^ n - 1 - 2 ^ i) j ≡ one_if (not (i == j))
hole-bit zero i j hi hj = absurd (omega arith)
hole-bit (suc n) zero zero hi hj = rw (pow-succ' 2 n) (omega (arith, power-pos n))
hole-bit (suc n) zero (suc j) hi hj =
    let half : (2 * 2 ^ n - 1 - 1) / 2 ≡ 2 ^ n - 1 = omega (arith, power-pos n) in
    bit-suc (2 ^ suc n - 1 - 1) j
    ∙ rw (pow-succ' 2 n, half, ==_of_ne 0 (suc j) (λ e. omega arith)) (ones-bit n j (omega arith))
hole-bit (suc n) (suc i) zero hi hj =
    rw (pow-succ' 2 n, pow-succ' 2 i, ==_of_ne (suc i) 0 (λ e. omega arith))
      (omega (arith, double_below i n (omega arith), power-pos i))
hole-bit (suc n) (suc i) (suc j) hi hj =
    let half : (2 * 2 ^ n - 1 - 2 * 2 ^ i) / 2 ≡ 2 ^ n - 1 - 2 ^ i =
      omega (arith, double_below i n (omega arith), power-pos i) in
    bit-suc (2 ^ suc n - 1 - 2 ^ suc i) j
    ∙ rw (pow-succ' 2 n, pow-succ' 2 i, half, ==_suc i j)
        (hole-bit n i j (omega arith) (omega arith))

set_choice : (c : Bool) (n : ℕ) → n < 2 → max n (one_if c) ≡ (if c then 1 else n)
set_choice true n h = omega arith
set_choice false n h = omega arith

clear_choice : (c : Bool) (n : ℕ) → n < 2 → min n (one_if (not c)) ≡ (if c then 0 else n)
clear_choice true n h = omega arith
clear_choice false n h = omega arith

-- One bit of a byte is set or cleared, and the other bits stay.
abbrev pub with_bit : (byte bit_index : ℕ) → Bool → ℕ
with_bit byte bit_index true = bit_or byte (2 ^ bit_index)
with_bit byte bit_index false = bit_and byte (255 - 2 ^ bit_index)

pub bit-with_bit :
    (b i j : ℕ) (v : Bool)
    → i < 8
    → j < 8
    → bit (with_bit b i v) j ≡ (if i == j then one_if v else bit b j)
bit-with_bit b i j true hi hj =
    bit-bit_or b (2 ^ i) j ∙ rw (bit-power i j) (set_choice (i == j) (bit b j) (omega arith))
bit-with_bit b i j false hi hj =
    bit-bit_and b (255 - 2 ^ i) j
    ∙ rw (hole-bit 8 i j hi hj) (clear_choice (i == j) (bit b j) (omega arith))
