-- ===== src/Slots/Copy.antt =====
-- `JuliaMemorySlice::copy` moves overlapping regions as C's `memmove` does.
use native.Mathlib.Decide.{ℕ_discrete}
use mmtk_julia.Base.{
  ℕ, zero, suc, ◌+◌, ◌*◌, ◌/◌, ◌%◌, ◌^◌, ◌≤◌, ◌<◌, ◌≡◌, ◌≢◌, ◌⊎◌, inl, inr, refl, ◌∙◌, ◌||◌, arith,
  Address, add_word, shift_words, ltb, Bool-cases,
}
use mmtk_julia.Slots.Slot.{Memory, store_word}
use mmtk_julia.Slots.Slice.{JuliaMemorySlice, bytes, copy_forward, copy_backward, copy}

module _ (src tgt n : ℕ) (src_fits : src + n * 8 < 2 ^ 64) (tgt_fits : tgt + n * 8 < 2 ^ 64) where
  -- A write of a round, at an address other than the word written.
  stored_other :
      (m : Memory) (i a : ℕ)
      → i < n
      → a ≢ tgt + i * 8
      → store_word m (shift_words tgt i) (m (shift_words src i)) a ≡ m a
  stored_other m i a low ne = ground arith

  stored_here :
      (m : Memory) (i : ℕ)
      → i < n
      → store_word m (shift_words tgt i) (m (shift_words src i)) (tgt + i * 8) ≡ m (src + i * 8)
  stored_here m i low = ground arith

  copy_forward-other :
      (k i : ℕ) (m : Memory) (a : Address)
      → i + k ≡ n
      → ((j : ℕ) → i ≤ j → j < n → a ≢ tgt + j * 8)
      → copy_forward src tgt k i m a ≡ m a
  unfolding copy_forward
  copy_forward-other zero i m a e out = refl
  copy_forward-other (suc k) i m a e out =
      copy_forward-other k (suc i) _ a (omega arith) (λ j low. out j (omega arith))
      ∙ stored_other m i a (omega arith) (out i (omega arith) (omega arith))

  copy_forward-read :
      (k i : ℕ) (m : Memory) (j : ℕ)
      → (tgt < src) ⊎ (src + n * 8 < tgt)
      → i + k ≡ n
      → i ≤ j
      → j < n
      → copy_forward src tgt k i m (tgt + j * 8) ≡ m (src + j * 8)
  unfolding copy_forward
  copy_forward-read zero i m j apart e low high = absurd (omega arith)
  copy_forward-read (suc k) i m j apart e low high = elim (ℕ_discrete i j) [
    | yes same ↦
        copy_forward-other k (suc i) _ (tgt + j * 8) (omega arith) (λ j' low' high'. omega arith)
        ∙ rw (← same) (stored_here m i (omega arith))
    | no ne ↦
        copy_forward-read k (suc i) _ j apart (omega arith) (omega arith) high
        ∙ stored_other m i (src + j * 8) (omega arith) (omega arith)
  ]

  copy_backward-other :
      (k : ℕ) (m : Memory) (a : Address)
      → k ≤ n
      → ((j : ℕ) → j < k → a ≢ tgt + j * 8)
      → copy_backward src tgt k m a ≡ m a
  unfolding copy_backward
  copy_backward-other zero m a e out = refl
  copy_backward-other (suc k) m a e out =
      copy_backward-other k _ a (omega arith) (λ j low. out j (omega arith))
      ∙ stored_other m k a (omega arith) (out k (omega arith))

  copy_backward-read :
      (k : ℕ) (m : Memory) (j : ℕ)
      → src ≤ tgt
      → k ≤ n
      → j < k
      → copy_backward src tgt k m (tgt + j * 8) ≡ m (src + j * 8)
  unfolding copy_backward
  copy_backward-read zero m j up e low = absurd (omega arith)
  copy_backward-read (suc k) m j up e low = elim (ℕ_discrete j k) [
    | yes same ↦ rw same (
        copy_backward-other k _ (tgt + k * 8) (omega arith) (λ j' low'. omega arith)
        ∙ stored_here m k (omega arith))
    | no ne ↦
        copy_backward-read k _ j up (omega arith) (omega arith)
        ∙ stored_other m k (src + j * 8) (omega arith) (omega arith)
  ]

-- For slices within the address space, however they overlap: after the copy each word of the target
-- holds what the word of the source at the same index held before, and no other word has changed.
pub copy-memmove :
    (src tgt : JuliaMemorySlice) (m : Memory)
    → src.start + tgt.count * 8 < 2 ^ 64
    → tgt.start + tgt.count * 8 < 2 ^ 64
    → ((j : ℕ) → j < tgt.count → copy src tgt m (tgt.start + j * 8) ≡ m (src.start + j * 8))
      × ((a : Address) → ((j : ℕ) → j < tgt.count → a ≢ tgt.start + j * 8) → copy src tgt m a ≡ m a)
unfolding copy bytes
copy-memmove src tgt m sf tf =
    let n = tgt.count in
    let words : (n * 2 ^ 3) % 2 ^ 64 / 2 ^ 3 ≡ n = omega arith in
    rw words
      (elim (Bool-cases
        (ltb tgt.start src.start || ltb (add_word src.start ((n * 2 ^ 3) % 2 ^ 64)) tgt.start)) [
          | inl apart ↦ rw apart (
            λ j low.
                copy_forward-read src.start tgt.start n sf tf n 0 m j (ground arith) (omega arith)
                  (omega arith) low,
            λ a out.
                copy_forward-other src.start tgt.start n sf tf n 0 m a (omega arith) (λ j _. out j),
          )
          | inr lapped ↦ rw lapped (
            λ j low.
                copy_backward-read src.start tgt.start n sf tf n m j (ground arith) (omega arith)
                  low,
            λ a out. copy_backward-other src.start tgt.start n sf tf n m a (omega arith) out,
          )
        ])
