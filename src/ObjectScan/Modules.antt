-- ===== src/ObjectScan/Modules.antt =====
-- What `scan_julia_object` of mmtk/src/julia_scanning.rs reports for modules.
use Prim.Native.String.{String}
use mathlib.Core.Option.{some-injective}
use mmtk_julia.Base.{
  ℕ, zero, suc, ◌+◌, ◌*◌, ◌^◌, ◌<◌, ◌≡◌, ◌≢◌, refl, true, false, Option, some, List, [], ◌∷◌, ◌++◌,
  arith, Address, shift_words, ltb, ap, ap₂, ◌∙◌, sym, ◌>>=◌,
}
use mmtk_julia.Structs.Tags.{jl_module_tag}
use mmtk_julia.Structs.Layout.{offset_of, layout_of}
use mmtk_julia.Structs.Lists.{arraylist_t}
use mmtk_julia.Structs.Modules.{jl_module_t}
use mmtk_julia.Slots.Slot.{JuliaVmSlot, simple, offset, new_with_offset}
use mmtk_julia.ObjectScan.Layout.{Heap, Runtime, small_tag, typetagof}
use mmtk_julia.ObjectScan.Loops.{append_scans, word_slots, scan_words_lem, Scan}
use mmtk_julia.ObjectScan.Object.{
  module_fields, module_items, scan_usings, scan_module, scan_special, scan_julia_object,
}

-- The slots of the fields of these names, for a module at `m`.
abbrev pub named_slots : (m : Address) → List String → Option (List JuliaVmSlot)
named_slots m [] = some []
named_slots m (n ∷ ns) = do
  o ← offset_of jl_module_t n
  rest ← named_slots m ns
  some (simple (m + o) ∷ rest)

-- The fields of a module that refer to objects.
abbrev pub module_field_names : List String
module_field_names =
    "bindings" ∷ "bindingkeyset" ∷ "parent" ∷ "usings_backedges" ∷ "scanned_methods" ∷ []

-- What the pointer of a module's list of usings gives: nothing where the list is not on the managed
-- heap; else it is in the module, at `usings._space`, and the slot of the pointer is given with that
-- distance from the module.
pub data UsingsSlots (rt : Runtime) (h : Heap) (m : Address) : List JuliaVmSlot → Type 0 where
  apart : rt.object_is_managed_by_mmtk (h.load64 (m + 80)) ≡ false → UsingsSlots rt h m []
  inlined :
      {usings items space : ℕ}
      → rt.object_is_managed_by_mmtk (h.load64 (m + 80)) ≡ true
      → offset_of jl_module_t "usings" ≡ some usings
      → offset_of arraylist_t "items" ≡ some items
      → offset_of arraylist_t "_space" ≡ some space
      → UsingsSlots rt h m (offset (new_with_offset (m + (usings + items)) (usings + space)) ∷ [])

module _ (rt : Runtime) (h : Heap) (fuel : ℕ) where
  usings_lem :
      (m n : ℕ)
      → h.load64 (m + 64) ≡ n * 4
      → h.load64 (m + 80) + n * 32 < 2 ^ 64
      → n < fuel
      → scan_usings rt h fuel m ≡ some (word_slots (h.load64 (m + 80)) 4 n)
  unfolding scan_usings
  usings_lem m zero len fits enough = ground arith
  usings_lem m (suc n) len fits enough =
      let loop =
        scan_words_lem fuel (h.load64 (m + 80)) (h.load64 (m + 80) + suc n * 32) 4 (suc n) enough
          (omega arith) (omega arith) (omega arith) in
      let stop : shift_words (h.load64 (m + 80)) (h.load64 (m + 64))
          ≡ h.load64 (m + 80) + suc n * 32 =
        grind arith in
      let some_left : ltb 0 (h.load64 (m + 64)) ≡ true = grind arith in rw (some_left, stop) loop

  module_lem :
      (m n : ℕ)
      → h.load64 (m + 64) ≡ n * 4
      → h.load64 (m + 80) + n * 32 < 2 ^ 64
      → n < fuel
      → scan_module rt h fuel m
        ≡ some (
            (module_fields rt h fuel m ++ module_items rt h fuel m)
            ++ word_slots (h.load64 (m + 80)) 4 n)
  unfolding scan_module
  module_lem m n len fits enough =
      ap (append_scans (some (module_fields rt h fuel m ++ module_items rt h fuel m)))
        (usings_lem m n len fits enough)

  module_fields-named :
      (m : Address) → named_slots m module_field_names ≡ some (module_fields rt h fuel m)
  unfolding module_fields offset_of layout_of
  module_fields-named m = refl

  offsets_are :
      (a b c : ℕ)
      → offset_of jl_module_t "usings" ≡ some a
      → offset_of arraylist_t "items" ≡ some b
      → offset_of arraylist_t "_space" ≡ some c
      → (64 ≡ a) × (16 ≡ b) × (24 ≡ c)
  unfolding offset_of layout_of
  offsets_are a b c p q r = (some-injective 64 a p, some-injective 16 b q, some-injective 24 c r)

  module_items-UsingsSlots :
      (m : Address) (xs : List JuliaVmSlot) → UsingsSlots rt h m xs → module_items rt h fuel m ≡ xs
  unfolding module_items
  module_items-UsingsSlots m _ (apart e) = rw e refl
  module_items-UsingsSlots m _ (inlined {usings} {items} {space} e p q r) =
      let (a, b, c) = offsets_are usings items space p q r in rw (← a, ← b, ← c, e) refl

  -- A module whose list of usings has `n` entries of four words reports the slots of its fields
  -- `bindings`, `bindingkeyset`, `parent`, `usings_backedges` and `scanned_methods`, at the offsets
  -- that they have in the structure; then, if the list is on the managed heap, the pointer to it with
  -- the offset of the space inside the module; then the first word of each entry; each once and in
  -- this order. The fuel is more than the number of entries, the list is within the address space, and
  -- the tag of modules is neither the symbols' nor the buffers'.
  pub scan_julia_object-module :
      (scan_gcstack : Address → Scan) (obj n : ℕ) (fields items : List JuliaVmSlot)
      → typetagof h obj ≡ small_tag jl_module_tag
      → rt.jl_symbol_type ≢ small_tag jl_module_tag
      → rt.julia_buff_tag ≢ small_tag jl_module_tag
      → named_slots obj module_field_names ≡ some fields
      → UsingsSlots rt h obj items
      → h.load64 (obj + 64) ≡ n * 4
      → h.load64 (obj + 80) + n * 32 < 2 ^ 64
      → n < fuel
      → scan_julia_object rt h fuel scan_gcstack obj
        ≡ some ((fields ++ items) ++ word_slots (h.load64 (obj + 80)) 4 n)
  unfolding scan_julia_object scan_special
  scan_julia_object-module scan_gcstack obj n fields items tag sym_tag buff named list len fits
        enough =
      let reported : module_fields rt h fuel obj ++ module_items rt h fuel obj ≡ fields ++ items =
        ap₂ ◌++◌
          (some-injective (module_fields rt h fuel obj) fields
            (sym (module_fields-named obj) ∙ named))
          (module_items-UsingsSlots obj items list) in
      let whole =
        module_lem obj n len fits enough
        ∙ ap (λ xs. some (xs ++ word_slots (h.load64 (obj + 80)) 4 n)) reported in
      rw tag (ground arith)
