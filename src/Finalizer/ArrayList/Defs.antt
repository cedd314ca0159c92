-- ===== src/Finalizer/ArrayList/Defs.antt =====
-- mmtk/src/julia_finalizer.rs: `ArrayListT` and the tags of its entries.
use mmtk_julia.Base.{
  ℕ, ◌-◌, ◌<◌, ◌≡◌, Bool, not, List, Address, add_word, ltb, ◌==◌, if◌then◌else◌, values, bit_and,
}

-- `items` is the buffer that the pointer of that name leads to, a slot for each index.
pub record ArrayListT : Type 0 where
  pub len : ℕ
  pub max : ℕ
  pub items : ℕ → Address

abbrev pub update : (ℕ → Address) → ℕ → Address → ℕ → Address
update f i v k = if i == k then v else f k

abbrev pub get : ArrayListT → ℕ → Address
get l i = l.items i

abbrev pub set : ArrayListT → ℕ → Address → ArrayListT
set l i v = record l { items = update l.items i v }

-- The entries of a list, in order.
abbrev pub contents : ArrayListT → List Address
contents l = values l.items 0 l.len

-- `arraylist_grow` is the C function that enlarges the buffer.
module _ (arraylist_grow : ArrayListT → ℕ → ArrayListT) where
  unfoldable pub grow : ArrayListT → ℕ → ArrayListT
  grow l n =
      let newlen = add_word l.len n in
      let l' = if ltb l.max newlen then arraylist_grow l n else l in record l' { len = newlen }

  unfoldable pub push : ArrayListT → Address → ArrayListT
  push l v = let l' = grow l 1 in set l' (l'.len - 1) v

-- What C promises: growing a list keeps the entries that it has.
abbrev pub GrowKeeps : (ArrayListT → ℕ → ArrayListT) → Type 0
GrowKeeps arraylist_grow =
    (l : ArrayListT) (n i : ℕ) → i < l.len → (arraylist_grow l n).items i ≡ l.items i

-- The tag is a mask below 4.
unfoldable pub gc_ptr_clear_tag : Address → ℕ → Address
gc_ptr_clear_tag addr tag = addr - bit_and addr tag

unfoldable pub gc_ptr_tag : Address → ℕ → Bool
gc_ptr_tag addr tag = not (bit_and addr tag == 0)
