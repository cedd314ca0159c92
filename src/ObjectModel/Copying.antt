-- ===== src/ObjectModel/Copying.antt =====
-- mmtk/src/object_model.rs: `copy`, over a memory of bytes.
use mmtk_julia.Base.{
  ℕ, ◌+◌, ◌-◌, ◌*◌, ◌^◌, ◌<◌, ◌≤◌, ◌≡◌, ◌≢◌, ◌⊎◌, sym, ap, ◌∙◌, false, ◌&&◌, Option, none, some,
  arith, Address, Bytes, add_word, sub_word, ◌==◌, ltb, leb, if◌then◌else◌,
}
use mmtk_julia.ObjectScan.Layout.{Heap, Runtime, typeof, type_name}
use mmtk_julia.ObjectModel.Size.{
  is_object_in_los, get_so_object_size, get_object_start_ref, ref_to_object_start,
}

-- The reads of a memory of bytes, lowest byte first.
unfoldable pub heap_of : Bytes → Heap
heap_of m =
    let load16 : Address → ℕ = λ a. m a + 2 ^ 8 * m (a + 1) in
    let load32 : Address → ℕ = λ a. load16 a + 2 ^ 16 * load16 (a + 2) in
    record {
      load64 = λ a. load32 a + 2 ^ 32 * load32 (a + 4);
      load32 = load32;
      load16 = load16;
      load8 = m;
    }

unfoldable pub copy_nonoverlapping : Bytes → (src dst bytes : ℕ) → Bytes
copy_nonoverlapping m src dst bytes a =
    if leb dst a && ltb a (dst + bytes) then m (src + (a - dst)) else m a

pub record Copied : Type 0 where
  pub memory : Bytes
  pub to_obj : Address
  pub post_copied : ℕ  -- the bytes that `post_copy` is told of

-- `alloc_copy from bytes align offset` is the allocator of mmtk-core; `update_inlined_array` is the
-- upcall `jl_gc_update_inlined_array`; `obj_size` is `mmtk_get_obj_size`.
module _ (rt : Runtime) (obj_size : Address → ℕ)
    (alloc_copy : (from bytes align offset : ℕ) → Address)
    (update_inlined_array : (from to : Address) → Bytes → Bytes) where
  -- Behind the byte copy: the upcall for a generic memory, by the name of the object's type.
  unfoldable pub after_copy : (copied : Bytes) (from to_obj bytes name : ℕ) → Copied
  after_copy copied from to_obj bytes name = record {
    memory =
        if name == rt.jl_genericmemory_typename
        then update_inlined_array from to_obj copied
        else copied;
    to_obj = to_obj;
    post_copied = bytes;
  }

  unfoldable pub copy_to_start : Bytes → (from from_start bytes : ℕ) → Option Copied
  copy_to_start m from from_start bytes =
      let header_offset = sub_word from from_start in
      let dst = alloc_copy from bytes 16 8 in
      let copied = copy_nonoverlapping m from_start dst bytes in
      if header_offset == 8
      then some (
          after_copy copied from (add_word dst header_offset) bytes
            (type_name (heap_of copied) (typeof rt (heap_of copied) from)))
      else none

  unfoldable pub copy_sized : Bytes → (from : Address) → Option ℕ → Option Copied
  copy_sized m from none = none
  copy_sized m from (some bytes) =
      copy_to_start m from (ref_to_object_start rt (heap_of m) from) bytes

  unfoldable pub copy : Bytes → (from : Address) → Option Copied
  copy m from = copy_sized m from (get_so_object_size rt (heap_of m) obj_size from)

  start_of_regular :
      (h : Heap) (from : Address)
      → rt.julia_header_size ≡ 8
      → is_object_in_los from ≡ false
      → typeof rt h from ≢ rt.julia_buff_tag
      → 8 ≤ from
      → from < 2 ^ 64
      → ref_to_object_start rt h from ≡ from - 8
  unfolding ref_to_object_start get_object_start_ref
  start_of_regular h from header los buff low high = grind arith

  copy_sized_lem :
      (m : Bytes) (from bytes : ℕ) (size : Option ℕ)
      → size ≡ some bytes
      → copy_sized m from size
        ≡ copy_to_start m from (ref_to_object_start rt (heap_of m) from) bytes
  unfolding copy_sized
  copy_sized_lem m from bytes size e = ap (copy_sized m from) e

  byte_at :
      (m : Bytes) (src dst bytes i d : ℕ)
      → i < bytes
      → d ≡ i
      → (if leb dst (dst + i) && ltb (dst + i) (dst + bytes) then m (src + d) else m (dst + i))
        ≡ m (src + i)
  byte_at m src dst bytes i d inside same = grind arith

  inner_byte :
      (m : Bytes) (from bytes dst : ℕ) (copied : Bytes)
      → copy_nonoverlapping m (from - 8) dst bytes ≡ copied
      → (i : ℕ) → i < bytes
      → copied (dst + i) ≡ m (from - 8 + i)
  unfolding copy_nonoverlapping
  inner_byte m from bytes dst copied e i inside =
      let same : dst + i - dst ≡ i = omega arith in
      sym (ap (λ c. c (dst + i)) e) ∙ byte_at m (from - 8) dst bytes i (dst + i - dst) inside same

  outer_byte :
      (m : Bytes) (from bytes dst : ℕ) (copied : Bytes)
      → copy_nonoverlapping m (from - 8) dst bytes ≡ copied
      → (a : Address) → (a < dst) ⊎ (dst + bytes ≤ a)
      → copied a ≡ m a
  unfolding copy_nonoverlapping
  outer_byte m from bytes dst copied e a away = sym (ap (λ c. c a) e) ∙ ground arith

  after_copy_lem :
      (c copied : Bytes) (from to_obj bytes name to_obj2 : ℕ)
      → c ≡ copied
      → to_obj ≡ to_obj2
      → name ≢ rt.jl_genericmemory_typename
      → after_copy c from to_obj bytes name
        ≡ record { memory = copied; to_obj = to_obj2; post_copied = bytes }
  unfolding after_copy
  after_copy_lem c copied from to_obj bytes name to_obj2 e f regular = grind arith

  regular_test :
      (offset : ℕ) (x : Copied) (y : Copied)
      → offset ≡ 8
      → x ≡ y
      → (if offset == 8 then some x else none) ≡ some y
  regular_test offset x y e f = grind arith

  regular_copy :
      (m : Bytes) (from bytes : ℕ)
      → 8 ≤ from
      → from < 2 ^ 64
      → alloc_copy from bytes 16 8 + 8 < 2 ^ 64
      → (copied : Bytes)
      → copy_nonoverlapping m (from - 8) (alloc_copy from bytes 16 8) bytes ≡ copied
      → type_name (heap_of copied) (typeof rt (heap_of copied) from) ≢ rt.jl_genericmemory_typename
      → copy_to_start m from (from - 8) bytes
        ≡ some (record {
          memory = copied;
          to_obj = alloc_copy from bytes 16 8 + 8;
          post_copied = bytes;
        })
  unfolding copy_to_start
  regular_copy m from bytes low high fits copied e regular =
      let dst = alloc_copy from bytes 16 8 in
      let c = copy_nonoverlapping m (from - 8) dst bytes in
      let name : Bytes → Address = λ b. type_name (heap_of b) (typeof rt (heap_of b) from) in
      let eight : sub_word from (from - 8) ≡ 8 = omega arith in
      regular_test (sub_word from (from - 8))
        (after_copy c from (add_word dst (sub_word from (from - 8))) bytes (name c))
        (record { memory = copied; to_obj = dst + 8; post_copied = bytes }) eight
        (after_copy_lem c copied from (add_word dst (sub_word from (from - 8))) bytes (name c)
          (dst + 8) e (omega arith) (λ f. regular (sym (ap name e) ∙ f)))

  -- For a header of 8 bytes, the copy of an object outside the large object space that is neither a
  -- buffer nor a generic memory, and whose size is found, succeeds: the new reference is 8 bytes behind
  -- what the allocator gave, the copy takes over the header and every byte of the object, every byte
  -- outside it is as it was, and mmtk-core is told the object's size.
  pub copy-relocates :
      (m : Bytes) (from bytes : ℕ)
      → rt.julia_header_size ≡ 8
      → is_object_in_los from ≡ false
      → typeof rt (heap_of m) from ≢ rt.julia_buff_tag
      → 8 ≤ from
      → from < 2 ^ 64
      → get_so_object_size rt (heap_of m) obj_size from ≡ some bytes
      → alloc_copy from bytes 16 8 + 8 < 2 ^ 64
      → (copied : Bytes)
      → copy_nonoverlapping m (from - 8) (alloc_copy from bytes 16 8) bytes ≡ copied
      → type_name (heap_of copied) (typeof rt (heap_of copied) from) ≢ rt.jl_genericmemory_typename
      → (copy m from
          ≡ some (record {
            memory = copied;
            to_obj = alloc_copy from bytes 16 8 + 8;
            post_copied = bytes;
          }))
        × ((i : ℕ) → i < bytes → copied (alloc_copy from bytes 16 8 + i) ≡ m (from - 8 + i))
        × ((a : Address)
            → (a < alloc_copy from bytes 16 8) ⊎ (alloc_copy from bytes 16 8 + bytes ≤ a)
            → copied a ≡ m a)
  unfolding copy
  copy-relocates m from bytes header los buff low high size fits copied e regular =
      let start = start_of_regular (heap_of m) from header los buff low high in
      (
        copy_sized_lem m from bytes (get_so_object_size rt (heap_of m) obj_size from) size
            ∙ ap (λ s. copy_to_start m from s bytes) start
            ∙ regular_copy m from bytes low high fits copied e regular,
        λ i inside. inner_byte m from bytes (alloc_copy from bytes 16 8) copied e i inside,
        λ a away. outer_byte m from bytes (alloc_copy from bytes 16 8) copied e a away,
      )
