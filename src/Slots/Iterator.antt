-- ===== src/Slots/Iterator.antt =====
-- mmtk/src/slots.rs: `JuliaMemorySliceSlotIterator`, the slots of a memory slice.
use mmtk_julia.Base.{
  ℕ, zero, suc, ◌+◌, ◌*◌, ◌%◌, ◌^◌, ◌<◌, ◌≡◌, refl, ap, false, Option, none, some, List, [], ◌∷◌,
  arith, Address, shift_words, leb, if◌then◌else◌, values,
}
use mmtk_julia.Slots.Slot.{JuliaVmSlot, simple}
use mmtk_julia.Slots.Slice.{JuliaMemorySlice}

pub record SlotIterator : Type 0 where
  pub cursor : Address
  pub limit : Address

unfoldable pub iter_slots : JuliaMemorySlice → SlotIterator
iter_slots s = record { cursor = s.start; limit = shift_words s.start s.count }

unfoldable pub next : SlotIterator → Option JuliaVmSlot × SlotIterator
next it =
    if leb it.limit it.cursor
    then (none, it)
    else (some (simple it.cursor), record it { cursor = shift_words it.cursor 1 })

-- What the loop over an iterator makes of a call of `next` and of the rounds behind it.
abbrev pub collect_step : Option JuliaVmSlot → Option (List JuliaVmSlot) → Option (List JuliaVmSlot)
collect_step none rest = some []
collect_step (some s) none = none
collect_step (some s) (some l) = some (s ∷ l)

-- Calls `next` until it returns `None`; `none`: out of fuel.
unfoldable pub collect : ℕ → SlotIterator → Option (List JuliaVmSlot)
collect zero it = none
collect (suc fuel) it = collect_step (next it).0 (collect fuel (next it).1)

next-more :
    (c l : ℕ)
    → c < l
    → l < 2 ^ 64
    → next (record { cursor = c; limit = l })
      ≡ (some (simple c), record { cursor = (c + 8) % 2 ^ 64; limit = l })
unfolding next
next-more c l h fits = let more : leb l c ≡ false = ground arith in rw more refl

collect-more :
    (fuel c l : ℕ)
    → c < l
    → l < 2 ^ 64
    → collect (suc fuel) (record { cursor = c; limit = l })
      ≡ collect_step
          (some (simple c))
          (collect fuel (record { cursor = (c + 8) % 2 ^ 64; limit = l }))
unfolding collect
collect-more fuel c l h fits = rw (next-more c l h fits) refl

collect-values :
    (n fuel start i c l : ℕ)
    → n < fuel
    → c ≡ start + i * 8
    → l ≡ start + (i + n) * 8
    → l < 2 ^ 64
    → collect fuel (record { cursor = c; limit = l })
      ≡ some (values (λ k. simple (start + k * 8)) i n)
unfolding collect next
collect-values n zero start i c l f ec el fits = absurd (omega arith)
collect-values zero (suc fuel) start i c l f ec el fits = ground arith
collect-values (suc n) (suc fuel) start i c l f ec el fits =
    rw
      (
        collect-more fuel c l (omega arith) fits,
        collect-values n fuel start (suc i) ((c + 8) % 2 ^ 64) l (omega arith) (omega arith)
            (omega arith) fits,
      )
      (ap (λ x. some (simple x ∷ values (λ k. simple (start + k * 8)) (suc i) n)) ec)

-- The iterator over a slice within the address space ends, and yields a simple slot for each of its
-- words, in order.
pub iter_slots-values :
    (s : JuliaMemorySlice)
    → s.start + s.count * 8 < 2 ^ 64
    → collect (s.count + 1) (iter_slots s) ≡ some (values (λ k. simple (s.start + k * 8)) 0 s.count)
unfolding iter_slots
iter_slots-values s fits =
    let limit : shift_words s.start s.count ≡ s.start + s.count * 8 = omega arith in
    rw limit (
      collect-values s.count (s.count + 1) s.start 0 s.start (s.start + s.count * 8) (omega arith)
        (omega arith) (omega arith) fits)
