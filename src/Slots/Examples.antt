-- ===== src/Slots/Examples.antt =====
-- The theorems on slots and slices at concrete memories.
use mmtk_julia.Base.{
  ℕ, ◌+◌, ◌*◌, ◌<◌, ◌≡◌, ◌≢◌, refl, Option, some, true, false, List, [], ◌∷◌, arith, Address,
  values,
}
use mmtk_julia.Slots.Slot.{
  Memory, store_word, from_raw_address, OffsetSlot, new_with_offset, offset_load, SimpleSlotLaws,
}
use mmtk_julia.Slots.Slice.{JuliaMemorySlice, copy}
use mmtk_julia.Slots.Copy.{copy-memmove}
use mmtk_julia.Slots.Roots.{RootsWorkBuffer, Factory}
use mmtk_julia.Slots.Reports.{
  Report, slots, nodes, scan_vm_specific_roots, Delivered, scan_vm_specific_roots-Delivered,
}

-- Each word holds its own address.
abbrev own_address : Memory
own_address a = a

-- A simple slot that holds the address itself.
abbrev plain_load : Memory → Address → Option Address
plain_load m e = from_raw_address (m e)

abbrev plain_store : Memory → Address → Address → Memory
plain_store m e object = store_word m e object

plain_laws : SimpleSlotLaws plain_load plain_store
plain_laws = record {
  loads = λ m e object ne. grind arith;
  spares = λ m e object a ne. grind arith;
}

abbrev inner : OffsetSlot
inner = new_with_offset 72 8

abbrev low : JuliaMemorySlice
low = record { owner = 64; start = 80; count = 3 }

abbrev high : JuliaMemorySlice
high = record { owner = 64; start = 88; count = 3 }

inner_load : offset_load own_address inner ≡ some 64
unfolding offset_load
inner_load = refl

-- The target overlaps the source from above.
copy-memmove_example :
    ((j : ℕ) → j < 3 → copy low high own_address (88 + j * 8) ≡ own_address (80 + j * 8))
    × ((a : Address)
        → ((j : ℕ) → j < 3 → a ≢ 88 + j * 8)
        → copy low high own_address a ≡ own_address a)
copy-memmove_example = copy-memmove low high own_address (omega arith) (omega arith)

abbrev fresh_buffer : ℕ → RootsWorkBuffer
fresh_buffer capacity = record { ptr = 4096; capacity = capacity }

abbrev buffer_contents : Address → ℕ → List Address
buffer_contents buf size = values (λ k. buf + k * 8) 0 size

abbrev no_packets : Factory
no_packets = record { slot_roots = []; pinning_roots = []; tpinning_roots = [] }

-- A first call for a buffer, then two slots, then a node as the last.
abbrev reports : List Report
reports =
    (record { kind = slots; buf = 0; size = 0; renew = true })
    ∷ (record { kind = slots; buf = 4096; size = 2; renew = true })
    ∷ (record { kind = nodes; buf = 8192; size = 1; renew = false })
    ∷ []

scan_vm_specific_roots-Delivered_example :
    Delivered fresh_buffer buffer_contents reports no_packets
      (scan_vm_specific_roots fresh_buffer buffer_contents reports no_packets)
scan_vm_specific_roots-Delivered_example =
    scan_vm_specific_roots-Delivered fresh_buffer buffer_contents reports no_packets
