-- ===== src/Api/Examples.antt =====
-- The theorem on the size before a buffer at a concrete memory.
use mmtk_julia.Base.{ℕ, ◌≡◌, ◌≤◌, ◌<◌, ◌⊎◌, refl, ◌*◌, ◌^◌, arith, Address, Bytes}
use mmtk_julia.Api.Buffer.{
  store_u64, load_u64, store_obj_size, mmtk_get_obj_size, mmtk_get_obj_size-store_obj_size,
}

abbrev zeroes : Bytes
zeroes a = 0

mmtk_get_obj_size-store_obj_size_example :
    (◌≡◌ {A = ℕ} 8 8 → mmtk_get_obj_size 8 (store_obj_size zeroes 1000 96) 1000 ≡ 96)
    × ((8 ≤ 4) ⊎ (12 ≤ 8)
        → mmtk_get_obj_size 8 (store_obj_size zeroes 1000 96) 1000
          ≡ mmtk_get_obj_size 8 zeroes 1000)
    × ((a : Address) → (a < 984) ⊎ (992 ≤ a) → store_obj_size zeroes 1000 96 a ≡ zeroes a)
mmtk_get_obj_size-store_obj_size_example =
    mmtk_get_obj_size-store_obj_size 8 zeroes 1000 96 (omega arith) (omega arith) (omega arith)
      (omega arith)

-- With headers of 6 bytes the upper half of what was stored is read as the lower.
overlapping_words : mmtk_get_obj_size 6 (store_obj_size zeroes 1000 (5 * 2 ^ 32)) 1000 ≡ 5
unfolding mmtk_get_obj_size store_obj_size store_u64 load_u64
overlapping_words = refl
