-- ===== src/Base/Bits.antt =====
-- `&` and `|` with the small masks that the binding uses, as arithmetic.
use Prim.Native.Nat.{
  ℕ, zero, suc, ◌+◌, ◌-◌, ◌*◌, ◌/◌, ◌%◌, ◌^◌, ◌≤◌, min, max, bit_and, bit_or, digits, bitwise,
  bit_and-bitwise, bit_or-bitwise,
}
use mathlib.Core.Path.{◌≡◌, refl, ◌∙◌}
use native.Mathlib.Decide.{dec_lt}
use native.Mathlib.Omega.{arith}

module _ (last : ℕ → ℕ) (digit : ℕ → ℕ → ℕ) where
  -- A round beyond those that the first number needs changes nothing.
  digits-extra_round : (k x y : ℕ) → x ≤ k → digits last digit (suc k) x y ≡ digits last digit k x y
  digits-extra_round zero zero y small = refl
  digits-extra_round zero (suc x) y small = absurd (omega arith)
  digits-extra_round (suc k) zero y small = refl
  digits-extra_round (suc k) (suc x) y small =
      rw (digits-extra_round k (suc x / 2) (y / 2) (omega arith))

  digits-eq-bitwise : (k x y : ℕ) → x ≤ k → digits last digit k x y ≡ bitwise last digit x y
  digits-eq-bitwise zero zero y small = refl
  digits-eq-bitwise zero (suc x) y small = absurd (omega arith)
  digits-eq-bitwise (suc k) x y small = elim (dec_lt k x) [
    | yes top ↦ rw (let e : x ≡ suc k = omega arith in e)
    | no below ↦ digits-extra_round k x y (omega arith) ∙ digits-eq-bitwise k x y (omega arith)
  ]

  lowest_digit :
      (x y : ℕ)
      → bitwise last digit (suc x) y
        ≡ bitwise last digit (suc x / 2) (y / 2) * 2 + digit (suc x % 2) (y % 2)
  lowest_digit x y = rw (digits-eq-bitwise x (suc x / 2) (y / 2) (omega arith))

pub and_lowest : (x y : ℕ) → bit_and x y ≡ bit_and (x / 2) (y / 2) * 2 + min (x % 2) (y % 2)
and_lowest zero y = simp bit_and-bitwise (omega arith)
and_lowest (suc x) y = simp bit_and-bitwise (lowest_digit (λ _. 0) min x y)

pub or_lowest : (x y : ℕ) → bit_or x y ≡ bit_or (x / 2) (y / 2) * 2 + max (x % 2) (y % 2)
or_lowest zero y = simp bit_or-bitwise (omega arith)
or_lowest (suc x) y = simp bit_or-bitwise (lowest_digit (λ v. v) max x y)

and_none : (k x : ℕ) → x ≤ k → bit_and x 0 ≡ 0
and_none k zero h = refl
and_none zero (suc x) h = absurd (omega arith)
and_none (suc k) (suc x) h =
    omega (arith, and_lowest (suc x) 0, and_none k (suc x / 2) (omega arith))

or_none : (k x : ℕ) → x ≤ k → bit_or x 0 ≡ x
or_none k zero h = refl
or_none zero (suc x) h = absurd (omega arith)
or_none (suc k) (suc x) h = omega (arith, or_lowest (suc x) 0, or_none k (suc x / 2) (omega arith))

pub bit_and-zero : (x : ℕ) → bit_and x 0 ≡ 0
bit_and-zero x = and_none x x (omega arith)

pub bit_or-zero : (x : ℕ) → bit_or x 0 ≡ x
bit_or-zero x = or_none x x (omega arith)

pub bit_and-one : (x : ℕ) → bit_and x 1 ≡ x % 2
bit_and-one x = omega (arith, and_lowest x 1, bit_and-zero (x / 2))

pub bit_or-one : (x : ℕ) → bit_or x 1 ≡ x + (1 - x % 2)
bit_or-one x = omega (arith, or_lowest x 1, bit_or-zero (x / 2))

pub bit_and_two : (x : ℕ) → bit_and x 2 ≡ x / 2 % 2 * 2
bit_and_two x = omega (arith, and_lowest x 2, bit_and-one (x / 2))

pub bit_and_three : (x : ℕ) → bit_and x 3 ≡ x % 4
bit_and_three x = omega (arith, and_lowest x 3, bit_and-one (x / 2))

pub bit_and_seven : (x : ℕ) → bit_and x 7 ≡ x % 8
bit_and_seven x = omega (arith, and_lowest x 7, bit_and_three (x / 2))

-- `x & !m` for the mask `m` of the lowest `k` bits: those bits are cleared.
abbrev pub clear_low : ℕ → ℕ → ℕ
clear_low x k = x - x % 2 ^ k
