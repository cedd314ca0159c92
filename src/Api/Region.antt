-- ===== src/Api/Region.antt =====
-- mmtk/src/api.rs: `mmtk_memory_region_copy`, and the log bits of a region under the feature
-- `stickyimmix`.
use mmtk_julia.Base.{ℕ, ◌+◌, ◌*◌, ◌^◌, ◌<◌, ◌≡◌, ◌≢◌, ◌∙◌, Bool, Address, if◌then◌else◌}
use mmtk_julia.Slots.Slot.{Memory}
use mmtk_julia.Slots.Slice.{JuliaMemorySlice, copy}
use mmtk_julia.Slots.Copy.{copy-memmove}

-- mmtk-core's `memory_region_copy` runs its barriers around the copy of the slice.
module _ (memory_region_copy : (src dst : JuliaMemorySlice) → Memory → Memory) where
  unfoldable pub mmtk_memory_region_copy :
      (src_obj src_addr dst_obj dst_addr : Address) (count : ℕ) → Memory → Memory
  mmtk_memory_region_copy src_obj src_addr dst_obj dst_addr count =
      memory_region_copy (record { owner = src_obj; start = src_addr; count = count })
        (record { owner = dst_obj; start = dst_addr; count = count })

  -- The barriers leave the words of the mutator's memory alone.
  abbrev pub CopiesSlices : Type 0
  CopiesSlices =
      (src dst : JuliaMemorySlice) (m : Memory) (a : Address)
      → memory_region_copy src dst m a ≡ copy src dst m a

  -- `count` words move from one address to the other, whatever overlaps, and no other word changes:
  -- within the address space, and for barriers that leave the words alone.
  pub mmtk_memory_region_copy-memmove :
      CopiesSlices
      → (src_obj src_addr dst_obj dst_addr : Address) (count : ℕ) (m : Memory)
      → src_addr + count * 8 < 2 ^ 64
      → dst_addr + count * 8 < 2 ^ 64
      → let m' = mmtk_memory_region_copy src_obj src_addr dst_obj dst_addr count m in
        ((j : ℕ) → j < count → m' (dst_addr + j * 8) ≡ m (src_addr + j * 8))
        × ((a : Address) → ((j : ℕ) → j < count → a ≢ dst_addr + j * 8) → m' a ≡ m a)
  unfolding mmtk_memory_region_copy
  mmtk_memory_region_copy-memmove copies src_obj src_addr dst_obj dst_addr count m sf df =
      let src : JuliaMemorySlice = record { owner = src_obj; start = src_addr; count = count } in
      let dst : JuliaMemorySlice = record { owner = dst_obj; start = dst_addr; count = count } in
      let moved = copy-memmove src dst m sf df in
      (
        λ j h. copies src dst m (dst_addr + j * 8) ∙ moved.0 j h,
        λ a h. copies src dst m a ∙ moved.1 a h,
      )

-- mmtk-core's state, what `set_vm_space` does to it, and `bset_metadata` of the log bits, which are in
-- side metadata.
module _ {Core : Type 0} (stickyimmix : Bool)
    (set_vm_space bset_metadata : Core → Address → (size : ℕ) → Core) where
  abbrev pub set_side_log_bit_for_region : Core → Address → (size : ℕ) → Core
  set_side_log_bit_for_region core start size = bset_metadata core start size

  abbrev pub mmtk_set_vm_space : Core → Address → (size : ℕ) → Core
  mmtk_set_vm_space core start size =
      let made = set_vm_space core start size in
      if stickyimmix then set_side_log_bit_for_region made start size else made

  abbrev pub mmtk_immortal_region_post_alloc : Core → Address → (size : ℕ) → Core
  mmtk_immortal_region_post_alloc core start size =
      if stickyimmix then set_side_log_bit_for_region core start size else core
