-- ===== src/GcTrigger/Overallocation.antt =====
-- mmtk/src/gc_trigger.rs: `mmtk_overallocation`, in 64-bit words.
use native.Mathlib.Nat.{pow-le-pow_right}
use mmtk_julia.Base.{
  ℕ, zero, suc, ◌+◌, ◌*◌, ◌/◌, ◌%◌, ◌^◌, ◌≤◌, ◌<◌, ◌≡◌, ◌⊎◌, ◌&&◌, arith, add_word, mul_word, ltb,
  ◌==◌, if◌then◌else◌,
}

-- `usize::BITS - x.leading_zeros()`: the number of binary digits, at most `fuel`.
unfoldable pub bit_length : ℕ → ℕ → ℕ
bit_length zero x = 0
bit_length (suc fuel) x = let rest = bit_length fuel (x / 2) in if x == 0 then 0 else rest + 1

-- The increment before its limit.
unfoldable pub increment : ℕ → ℕ
increment old_val =
    let exp2 = bit_length 64 old_val in
    add_word (mul_word (2 ^ (exp2 * 7 / 8) % 2 ^ 64) 4) (old_val / 8)

unfoldable pub mmtk_overallocation : (old_val val max_val : ℕ) → ℕ
mmtk_overallocation old_val val max_val =
    let inc = increment old_val in
    if ltb max_val (add_word inc val) && ltb (max_val / 20) inc then max_val / 20 else inc

bit_length-le : (fuel x : ℕ) → bit_length fuel x ≤ fuel
unfolding bit_length
bit_length-le zero x = omega arith
bit_length-le (suc fuel) x = ground (arith, bit_length-le fuel (x / 2))

-- The increment does not wrap around.
increment_lem :
    (old_val : ℕ)
    → old_val < 2 ^ 64
    → increment old_val ≡ 2 ^ (bit_length 64 old_val * 7 / 8) * 4 + old_val / 8
unfolding increment
increment_lem old_val fits =
    let e = bit_length 64 old_val * 7 / 8 in
    omega (
      arith,
      bit_length-le 64 old_val,
      pow-le-pow_right {n = 2} (omega arith) {i = e} {j = 56}
          (omega (arith, bit_length-le 64 old_val)),
    )

increment-lt : (old_val : ℕ) → old_val < 2 ^ 64 → increment old_val < 2 ^ 62
increment-lt old_val fits =
    let e = bit_length 64 old_val * 7 / 8 in
    omega (
      arith,
      increment_lem old_val fits,
      pow-le-pow_right {n = 2} (omega arith) {i = e} {j = 56}
          (omega (arith, bit_length-le 64 old_val)),
    )

-- For values below `2 ^ 64` and a live size below `2 ^ 62`: with the result the heap stays within the
-- maximum, or the result is at most a twentieth of the maximum; and the result is either that
-- twentieth or the curve `4 * 2 ^ (7/8 of the binary digits) + old / 8`, with no wrap-around.
pub mmtk_overallocation_bounds :
    (old_val val max_val : ℕ)
    → old_val < 2 ^ 64
    → val < 2 ^ 62
    → ((mmtk_overallocation old_val val max_val + val ≤ max_val)
        ⊎ (mmtk_overallocation old_val val max_val ≤ max_val / 20))
      × ((mmtk_overallocation old_val val max_val ≡ max_val / 20)
          ⊎ (mmtk_overallocation old_val val max_val
              ≡ 2 ^ (bit_length 64 old_val * 7 / 8) * 4 + old_val / 8))
unfolding mmtk_overallocation
mmtk_overallocation_bounds old_val val max_val fits vfits =
    let small = increment-lt old_val fits in
    (ground (arith, small), ground (arith, increment_lem old_val fits))
