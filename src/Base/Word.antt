-- ===== src/Base/Word.antt =====
-- 64-bit words (`usize`, `u64` and addresses) as native numbers that wrap around, as the release
-- build computes them.
use Prim.Native.Nat.{ℕ, ◌+◌, ◌-◌, ◌*◌, ◌%◌, ◌^◌}

abbrev pub add_word : ℕ → ℕ → ℕ
add_word a b = (a + b) % 2 ^ 64

abbrev pub sub_word : ℕ → ℕ → ℕ
sub_word a b = (a + 2 ^ 64 - b) % 2 ^ 64

abbrev pub mul_word : ℕ → ℕ → ℕ
mul_word a b = (a * b) % 2 ^ 64

-- An `Address` of mmtk-core is a `usize`.
abbrev pub Address : Type 0
Address = ℕ

-- `shift::<T>(n)` for a `T` of 8 bytes.
abbrev pub shift_words : Address → ℕ → Address
shift_words a n = (a + n * 8) % 2 ^ 64

-- A memory of bytes.
abbrev pub Bytes : Type 0
Bytes = Address → ℕ
