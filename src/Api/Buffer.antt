-- ===== src/Api/Buffer.antt =====
-- mmtk/src/api.rs: the size that stands before a buffer, `store_obj_size`, `mmtk_store_obj_size_c`
-- and `mmtk_get_obj_size`, over memory by bytes; and pinning.
use native.Mathlib.Nat.{add-zero}
use mmtk_julia.Base.{
  ℕ, ◌+◌, ◌-◌, ◌*◌, ◌/◌, ◌%◌, ◌^◌, ◌<◌, ◌≤◌, ◌≡◌, ◌⊎◌, inl, inr, refl, sym, ap, ◌∙◌, Bool, false,
  ◌&&◌, arith, Address, Bytes, sub_word, mul_word, leb, ltb, le→leb, lt→ltb, if◌then◌else◌,
}

-- `store::<u64>` and `load::<u64>`, the lowest byte first.
unfoldable pub store_u64 : Bytes → Address → ℕ → Bytes
store_u64 m a v b = if leb a b && ltb b (a + 8) then v / 256 ^ (b - a) % 256 else m b

unfoldable pub load_u64 : Bytes → Address → ℕ
load_u64 m a =
    m a
    + 256 * m (a + 1)
    + 256 ^ 2 * m (a + 2)
    + 256 ^ 3 * m (a + 3)
    + 256 ^ 4 * m (a + 4)
    + 256 ^ 5 * m (a + 5)
    + 256 ^ 6 * m (a + 6)
    + 256 ^ 7 * m (a + 7)

unfoldable pub store_obj_size : Bytes → (obj size : ℕ) → Bytes
unfolding store_u64
store_obj_size m obj size = store_u64 m (sub_word obj 16) size

unfoldable pub mmtk_store_obj_size_c : Bytes → (obj size : ℕ) → Bytes
unfolding store_u64
mmtk_store_obj_size_c m obj size = store_u64 m (sub_word obj 16) size

unfoldable pub mmtk_get_obj_size : (julia_header_size : ℕ) → Bytes → Address → ℕ
unfolding load_u64
mmtk_get_obj_size julia_header_size m obj = load_u64 m (sub_word obj (mul_word 2 julia_header_size))

store_u64-inside : (m : Bytes) (a v i : ℕ) → i < 8 → store_u64 m a v (a + i) ≡ v / 256 ^ i % 256
unfolding store_u64
store_u64-inside m a v i h =
    let place : (a + i) - a ≡ i = omega arith in
    rw (le→leb a (a + i) (omega arith), lt→ltb (a + i) (a + 8) (omega arith), place) refl

store_u64-outside : (m : Bytes) (a v b : ℕ) → (b < a) ⊎ (a + 8 ≤ b) → store_u64 m a v b ≡ m b
unfolding store_u64
store_u64-outside m a v b apart = ground arith

-- The bytes of a word make it up again.
bytes_of_word :
    (v : ℕ)
    → v < 2 ^ 64
    → v / 256 ^ 0 % 256
        + 256 * (v / 256 ^ 1 % 256)
        + 256 ^ 2 * (v / 256 ^ 2 % 256)
        + 256 ^ 3 * (v / 256 ^ 3 % 256)
        + 256 ^ 4 * (v / 256 ^ 4 % 256)
        + 256 ^ 5 * (v / 256 ^ 5 % 256)
        + 256 ^ 6 * (v / 256 ^ 6 % 256)
        + 256 ^ 7 * (v / 256 ^ 7 % 256)
      ≡ v
bytes_of_word v h = omega arith

load_u64-store : (m : Bytes) (a v : ℕ) → v < 2 ^ 64 → load_u64 (store_u64 m a v) a ≡ v
unfolding load_u64
load_u64-store m a v h =
    rw
      (
        ap (store_u64 m a v) (sym (add-zero a)) ∙ store_u64-inside m a v 0 (omega arith),
        store_u64-inside m a v 1 (omega arith),
        store_u64-inside m a v 2 (omega arith),
        store_u64-inside m a v 3 (omega arith),
        store_u64-inside m a v 4 (omega arith),
        store_u64-inside m a v 5 (omega arith),
        store_u64-inside m a v 6 (omega arith),
        store_u64-inside m a v 7 (omega arith),
      )
      (bytes_of_word v h)

store_u64-apart :
    (m : Bytes) (a v b i : ℕ)
    → (b + 8 ≤ a) ⊎ (a + 8 ≤ b)
    → i < 8
    → store_u64 m a v (b + i) ≡ m (b + i)
store_u64-apart m a v b i (inl below) h = store_u64-outside m a v (b + i) (inl (omega arith))
store_u64-apart m a v b i (inr above) h = store_u64-outside m a v (b + i) (inr (omega arith))

load_u64-elsewhere :
    (m : Bytes) (a v b : ℕ)
    → (b + 8 ≤ a) ⊎ (a + 8 ≤ b)
    → load_u64 (store_u64 m a v) b ≡ load_u64 m b
unfolding load_u64
load_u64-elsewhere m a v b apart =
    rw
      (
        ap (store_u64 m a v) (sym (add-zero b))
            ∙ store_u64-apart m a v b 0 apart (omega arith)
            ∙ ap m (add-zero b),
        store_u64-apart m a v b 1 apart (omega arith),
        store_u64-apart m a v b 2 apart (omega arith),
        store_u64-apart m a v b 3 apart (omega arith),
        store_u64-apart m a v b 4 apart (omega arith),
        store_u64-apart m a v b 5 apart (omega arith),
        store_u64-apart m a v b 6 apart (omega arith),
        store_u64-apart m a v b 7 apart (omega arith),
      )
      refl

before_buffer :
    (obj header : ℕ)
    → 2 * header ≤ obj
    → obj < 2 ^ 64
    → sub_word obj (mul_word 2 header) ≡ obj - 2 * header
before_buffer obj header low high = ground arith

-- The size stored before a buffer is read back where the header size given to `mmtk_gc_init` is 8, the
-- 16 bytes that `store_obj_size` takes for granted being two headers. Where it is at most 4 or at
-- least 12, what stood there before the store is read; between, the words overlap. The store changes
-- no byte but the eight from 16 before the buffer on. For a size of 64 bits, and a buffer that has its
-- headers within the address space.
pub mmtk_get_obj_size-store_obj_size :
    (header : ℕ) (m : Bytes) (obj size : ℕ)
    → 2 * header ≤ obj
    → 16 ≤ obj
    → obj < 2 ^ 64
    → size < 2 ^ 64
    → (header ≡ 8 → mmtk_get_obj_size header (store_obj_size m obj size) obj ≡ size)
      × ((header ≤ 4) ⊎ (12 ≤ header)
          → mmtk_get_obj_size header (store_obj_size m obj size) obj
            ≡ mmtk_get_obj_size header m obj)
      × ((a : Address) → (a < obj - 16) ⊎ (obj - 8 ≤ a) → store_obj_size m obj size a ≡ m a)
unfolding mmtk_get_obj_size store_obj_size
mmtk_get_obj_size-store_obj_size header m obj size low low2 high bound =
    let stored : sub_word obj 16 ≡ obj - 16 = before_buffer obj 8 (omega arith) high in
    let loaded = before_buffer obj header low high in
    (
      λ e.
          let same : obj - 2 * header ≡ obj - 16 = omega arith in
          rw (stored, loaded, same) (load_u64-store m (obj - 16) size bound),
      λ apart.
          rw (stored, loaded)
            (load_u64-elsewhere m (obj - 16) size (obj - 2 * header)
              (elim apart [ inl small ↦ inr (omega arith) | inr large ↦ inl (omega arith) ])),
      λ a apart. rw stored (
          store_u64-outside m (obj - 16) size a
            (elim apart [ inl below ↦ inl below | inr above ↦ inr (omega arith) ])),
    )

-- Pinning, with the features `object_pinning` and not `non_moving`: mmtk-core is asked only for an
-- object that it manages.
module _ (object_is_managed_by_mmtk : ℕ → Bool)
    (pin_object unpin_object is_pinned : Address → Bool) where
  unfoldable pub mmtk_pin_object : Address → Bool
  mmtk_pin_object object = if object_is_managed_by_mmtk object then pin_object object else false

  unfoldable pub mmtk_unpin_object : Address → Bool
  mmtk_unpin_object object = if object_is_managed_by_mmtk object then unpin_object object else false

  unfoldable pub mmtk_is_pinned : Address → Bool
  mmtk_is_pinned object = if object_is_managed_by_mmtk object then is_pinned object else false
