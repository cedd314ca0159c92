-- ===== src/Slots/Slot.antt =====
-- mmtk/src/slots.rs: `JuliaVmSlot` and `OffsetSlot`, over a memory of words.
use mmtk_julia.Base.{
  ℕ, ◌^◌, ◌<◌, ◌≡◌, ◌≢◌, Option, none, some, arith, Address, add_word, sub_word, ◌==◌,
  if◌then◌else◌,
}

-- The word at an address.
abbrev pub Memory : Type 0
Memory = Address → ℕ

abbrev pub store_word : Memory → Address → ℕ → Memory
store_word m a v b = if a == b then v else m b

-- `ObjectReference::from_raw_address`: a reference is an address that is not zero.
abbrev pub from_raw_address : Address → Option Address
from_raw_address a = if a == 0 then none else some a

pub record OffsetSlot : Type 0 where
  pub slot_addr : Address
  pub offset : ℕ

abbrev pub new_no_offset : Address → OffsetSlot
new_no_offset address = record { slot_addr = address; offset = 0 }

abbrev pub new_with_offset : Address → ℕ → OffsetSlot
new_with_offset address offset = record { slot_addr = address; offset = offset }

-- `Simple` holds the address of mmtk-core's `SimpleSlot`.
pub data JuliaVmSlot : Type 0 where
  simple : Address → JuliaVmSlot
  offset : OffsetSlot → JuliaVmSlot

unfoldable pub offset_load : Memory → OffsetSlot → Option Address
offset_load m s = let middle = m s.slot_addr in from_raw_address (sub_word middle s.offset)

unfoldable pub offset_store : Memory → OffsetSlot → Address → Memory
offset_store m s object = store_word m s.slot_addr (add_word object s.offset)

-- `SimpleSlot`'s own `load` and `store` are mmtk-core's.
module _ (simple_load : Memory → Address → Option Address)
    (simple_store : Memory → Address → Address → Memory) where
  unfoldable pub load : Memory → JuliaVmSlot → Option Address
  load m (simple e) = simple_load m e
  load m (offset e) = offset_load m e

  unfoldable pub store : Memory → JuliaVmSlot → Address → Memory
  store m (simple e) object = simple_store m e object
  store m (offset e) object = offset_store m e object

-- What mmtk-core documents of a simple slot: it holds the reference that was stored, and only the
-- slot's own word is written.
pub record SimpleSlotLaws (simple_load : Memory → Address → Option Address)
    (simple_store : Memory → Address → Address → Memory) : Type 0 where
  pub loads :
      (m : Memory) (e object : Address)
      → object ≢ 0
      → simple_load (simple_store m e object) e ≡ some object
  pub spares : (m : Memory) (e object a : Address) → a ≢ e → simple_store m e object a ≡ m a

-- The word that a slot is.
abbrev pub slot_word : JuliaVmSlot → Address
slot_word (simple e) = e
slot_word (offset e) = e.slot_addr

-- An offset below the size of the address space.
abbrev pub FitsSlot : JuliaVmSlot → Type 0
FitsSlot (simple e) = Unit
FitsSlot (offset e) = e.offset < 2 ^ 64

module _ (simple_load : Memory → Address → Option Address)
    (simple_store : Memory → Address → Address → Memory)
    (laws : SimpleSlotLaws simple_load simple_store) where
  -- A slot of either kind gives back the reference stored in it, whatever its offset, and a store
  -- changes no word but the slot's.
  pub load-store :
      (m : Memory) (s : JuliaVmSlot) (object : Address)
      → FitsSlot s
      → object ≢ 0
      → object < 2 ^ 64
      → (load simple_load simple_store (store simple_load simple_store m s object) s ≡ some object)
        × ((a : Address) → a ≢ slot_word s → store simple_load simple_store m s object a ≡ m a)
  unfolding load store offset_load offset_store
  load-store m (simple e) object f ne fits = (laws.loads m e object ne, laws.spares m e object)
  load-store m (offset e) object f ne fits = (ground arith, λ a other. ground arith)

-- When the collector moves the object of an offset slot, the interior pointer moves with it: its
-- distance from the object stays the offset.
pub offset_store-interior :
    (m : Memory) (s : OffsetSlot) (object moved : Address)
    → s.offset < 2 ^ 64
    → m s.slot_addr < 2 ^ 64
    → offset_load m s ≡ some object
    → moved < 2 ^ 64
    → (m s.slot_addr ≡ add_word object s.offset)
      × (offset_store m s moved s.slot_addr ≡ add_word moved s.offset)
unfolding offset_load offset_store
offset_store-interior m s object moved f w h fits = (ground arith, ground arith)
