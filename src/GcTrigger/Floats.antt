-- ===== src/GcTrigger/Floats.antt =====
-- The `f64` operations that mmtk/src/gc_trigger.rs uses, which the model takes as a parameter.
use mmtk_julia.Base.{ℕ, ◌+◌, ◌≤◌, ◌<◌, ◌^◌, ◌≡◌, Bool, true, false}

pub record Floats : Type 1 where
  pub F : Type 0
  pub of_usize : ℕ → F  -- `n as f64`
  pub to_usize : F → ℕ  -- `x as usize`
  pub decimal : ℕ → ℕ → F  -- the literal with these digits, the last so many behind the point
  pub add : F → F → F
  pub sub : F → F → F
  pub mul : F → F → F
  pub div : F → F → F
  pub sqrt : F → F
  pub le : F → F → Bool
  pub lt : F → F → Bool

-- What Rust and IEEE 754 say of them at values that are a number: comparison is total there, addition
-- and a cast to `usize` are monotone, and integers and their sums below `2 ^ 53` are exact.
pub record FloatLaws (fl : Floats) : Type 1 where
  pub IsNumber : fl.F → Type 0
  pub not_le : (x y : fl.F) → IsNumber x → IsNumber y → fl.le x y ≡ false → fl.le y x ≡ true
  pub not_lt : (x y : fl.F) → IsNumber x → IsNumber y → fl.lt x y ≡ false → fl.le y x ≡ true
  pub to_usize_mono : (x y : fl.F) → fl.le x y ≡ true → fl.to_usize x ≤ fl.to_usize y
  pub to_usize_of : (n : ℕ) → n < 2 ^ 53 → fl.to_usize (fl.of_usize n) ≡ n
  pub IsNumber_of : (n : ℕ) → IsNumber (fl.of_usize n)
  pub le_refl : (x : fl.F) → IsNumber x → fl.le x x ≡ true
  pub le_of_lt : (x y : fl.F) → fl.lt x y ≡ true → fl.le x y ≡ true
  pub add_mono :
      (x y z : fl.F)
      → IsNumber x
      → IsNumber y
      → IsNumber z
      → fl.le x y ≡ true
      → fl.le (fl.add x z) (fl.add y z) ≡ true
  pub add_of :
      (m n : ℕ) → m + n < 2 ^ 53 → fl.add (fl.of_usize m) (fl.of_usize n) ≡ fl.of_usize (m + n)
  pub IsNumber_add : (x : fl.F) (n : ℕ) → IsNumber x → IsNumber (fl.add x (fl.of_usize n))
