-- ===== src/Slots/Roots.antt =====
-- mmtk/src/slots.rs: `RootsWorkBuffer` and the callbacks of `RootsWorkClosure`, by which C hands
-- buffers of roots to the collector.
use mmtk_julia.Base.{ℕ, Bool, List, [], ◌∷◌, ◌++◌, map, Address, ◌==◌, if◌then◌else◌}
use mmtk_julia.Slots.Slot.{JuliaVmSlot, simple}

abbrev pub root_work_packet_size : ℕ
root_work_packet_size = 4096

-- `ptr` is zero for a null pointer.
pub record RootsWorkBuffer : Type 0 where
  pub ptr : Address
  pub capacity : ℕ

abbrev pub empty : RootsWorkBuffer
empty = record { ptr = 0; capacity = 0 }

-- The packets that the factory of mmtk-core was given, oldest first.
pub record Factory : Type 0 where
  pub slot_roots : List (List JuliaVmSlot)
  pub pinning_roots : List (List Address)
  pub tpinning_roots : List (List Address)

abbrev pub create_process_roots_work : List JuliaVmSlot → Factory → Factory
create_process_roots_work work f = record f { slot_roots = f.slot_roots ++ work ∷ [] }

abbrev pub create_process_pinning_roots_work : List Address → Factory → Factory
create_process_pinning_roots_work work f = record f { pinning_roots = f.pinning_roots ++ work ∷ [] }

abbrev pub create_process_tpinning_roots_work : List Address → Factory → Factory
create_process_tpinning_roots_work work f = record f {
  tpinning_roots = f.tpinning_roots ++ work ∷ [];
}

-- `allocate` is the allocator's answer to `Vec::with_capacity`: where the new buffer is. `read` is
-- the memory of a buffer: its first `size` entries.
module _ (allocate : ℕ → RootsWorkBuffer) (read : Address → ℕ → List Address) where
  unfoldable pub new : RootsWorkBuffer
  new = allocate root_work_packet_size

  unfoldable pub renewed : Bool → RootsWorkBuffer
  unfolding new
  renewed renew = if renew then new else empty

  unfoldable pub report_simple_slots :
      (buf : Address) (size : ℕ) → Factory → (renew : Bool) → Factory × RootsWorkBuffer
  report_simple_slots buf size f renew = (
    if buf == 0 then f else create_process_roots_work (map simple (read buf size)) f,
    renewed renew,
  )

  unfoldable pub report_nodes :
      (buf : Address) (size : ℕ) → Factory → (renew : Bool) → Factory × RootsWorkBuffer
  report_nodes buf size f renew =
      (if buf == 0 then f else create_process_pinning_roots_work (read buf size) f, renewed renew)

  unfoldable pub report_tpinned_nodes :
      (buf : Address) (size : ℕ) → Factory → (renew : Bool) → Factory × RootsWorkBuffer
  report_tpinned_nodes buf size f renew =
      (if buf == 0 then f else create_process_tpinning_roots_work (read buf size) f, renewed renew)

  -- The function pointers that C is given; the factory behind `factory_ptr` is passed on.
  pub record RootsWorkClosure : Type 0 where
    pub report_slots_func :
        (buf : Address) (size : ℕ) → Factory → (renew : Bool) → Factory × RootsWorkBuffer
    pub report_nodes_func :
        (buf : Address) (size : ℕ) → Factory → (renew : Bool) → Factory × RootsWorkBuffer
    pub report_tpinned_nodes_func :
        (buf : Address) (size : ℕ) → Factory → (renew : Bool) → Factory × RootsWorkBuffer

  abbrev pub from_roots_work_factory : RootsWorkClosure
  from_roots_work_factory = record {
    report_slots_func = report_simple_slots;
    report_nodes_func = report_nodes;
    report_tpinned_nodes_func = report_tpinned_nodes;
  }
