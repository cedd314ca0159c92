-- ===== src/Slots/Slice.antt =====
-- mmtk/src/slots.rs: `JuliaMemorySlice`, a run of words in an object, and its copy.
use mmtk_julia.Base.{
  ℕ, zero, suc, ◌*◌, ◌/◌, ◌%◌, ◌^◌, ◌||◌, Option, some, Address, add_word, shift_words, ltb,
  if◌then◌else◌,
}
use mmtk_julia.Slots.Slot.{Memory, store_word}

pub record JuliaMemorySlice : Type 0 where
  pub owner : Address
  pub start : Address
  pub count : ℕ

abbrev pub object : JuliaMemorySlice → Option Address
object s = some s.owner

-- `count << LOG_BYTES_IN_ADDRESS`
unfoldable pub bytes : JuliaMemorySlice → ℕ
bytes s = (s.count * 2 ^ 3) % 2 ^ 64

-- `for i in 0..n`, with `k` rounds left.
unfoldable pub copy_forward : (src_addr tgt_addr : Address) → ℕ → ℕ → Memory → Memory
copy_forward src_addr tgt_addr zero i m = m
copy_forward src_addr tgt_addr (suc k) i m =
    copy_forward src_addr tgt_addr k (suc i)
      (store_word m (shift_words tgt_addr i) (m (shift_words src_addr i)))

-- The same from the last word to the first: `n - i - 1` is the number of rounds left after this one.
unfoldable pub copy_backward : (src_addr tgt_addr : Address) → ℕ → Memory → Memory
copy_backward src_addr tgt_addr zero m = m
copy_backward src_addr tgt_addr (suc k) m =
    copy_backward src_addr tgt_addr k
      (store_word m (shift_words tgt_addr k) (m (shift_words src_addr k)))

unfoldable pub copy : JuliaMemorySlice → JuliaMemorySlice → Memory → Memory
unfolding bytes
copy src tgt m =
    let words = bytes tgt / 2 ^ 3 in
    if ltb tgt.start src.start || ltb (add_word src.start (bytes tgt)) tgt.start
    then copy_forward src.start tgt.start words 0 m
    else copy_backward src.start tgt.start words m
