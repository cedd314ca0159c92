-- ===== src/ObjectScan/Elements.antt =====
-- What the loops of `scan_julia_object` of mmtk/src/julia_scanning.rs report for the structures in a
-- generic memory.
use mmtk_julia.Base.{
  ℕ, suc, ◌+◌, ◌*◌, ◌/◌, ◌^◌, ◌<◌, ◌≡◌, none, some, List, arith, Address, mul_word, shift_words,
  ◌==◌, if◌then◌else◌, ap, sym, ◌∙◌,
}
use mmtk_julia.Slots.Slot.{JuliaVmSlot}
use mmtk_julia.ObjectScan.Layout.{
  Heap, Runtime, layout_size, npointers, first_ptr, layout_flags, fielddesc_type_custom,
  dt_layout_ptrs,
}
use mmtk_julia.ObjectScan.Loops.{
  Scan, scan_words, scan_elements, word_slots, element_slots, field_slots, scan_words_lem,
  scan_elements_lem,
}
use mmtk_julia.ObjectScan.Object.{scan_fields8, scan_fields16, scan_struct_elements}
use mmtk_julia.ObjectScan.Kinds.{pointer_slots, fields8_lem, fields16_lem}

first_of :
    (k : ℕ) (x y z : List JuliaVmSlot) → k ≡ 0 → (if k == 0 then x else if k == 1 then y else z) ≡ x
first_of k x y z e = grind arith

second_of :
    (k : ℕ) (x y z : List JuliaVmSlot) → k ≡ 1 → (if k == 0 then x else if k == 1 then y else z) ≡ y
second_of k x y z e = grind arith

-- The choice that `scan_struct_elements` makes, with its tests and its scans as variables.
struct_choice :
    (count kind : ℕ) (a b c : Scan) (x y : List JuliaVmSlot)
    → kind < 2
    → a ≡ some x
    → (kind ≡ 0 → b ≡ some y)
    → (kind ≡ 1 → c ≡ some y)
    → (if count == 1 then a else if kind == 0 then b else if kind == 1 then c else none)
      ≡ some (if count == 1 then x else y)
struct_choice count kind a b c x y small ea eb ec = grind arith

module _ (rt : Runtime) (h : Heap) (fuel : ℕ) where
  -- What an array of structures of `elsize` words reports: the only pointer of each element, or
  -- those that the layout lists for each.
  abbrev pub struct_slots : (layout begin elsize n : ℕ) → List JuliaVmSlot
  struct_slots layout begin elsize n =
      if npointers h layout == 1
      then word_slots (begin + first_ptr h layout * 8) elsize n
      else element_slots (pointer_slots h layout) begin elsize n

  one_word :
      (n elsize begin : ℕ) → begin + suc n * (elsize * 8) < 2 ^ 64 → mul_word n elsize ≡ n * elsize
  one_word n elsize begin fits = omega arith

  one_pointer :
      (layout begin elsize n : ℕ)
      → first_ptr h layout < elsize
      → begin + suc n * (elsize * 8) < 2 ^ 64
      → n < fuel
      → scan_words fuel
          (shift_words begin (first_ptr h layout))
          (shift_words begin (mul_word n elsize))
          elsize
        ≡ some (word_slots (begin + first_ptr h layout * 8) elsize n)
  one_pointer layout begin elsize n inside fits enough =
      let total : mul_word n elsize ≡ n * elsize = one_word n elsize begin fits in
      let start : shift_words begin (first_ptr h layout) ≡ begin + first_ptr h layout * 8 =
        omega arith in
      let stop : shift_words begin (mul_word n elsize) ≡ begin + n * (elsize * 8) =
        omega (arith, total) in
      rw (start, stop)
        (scan_words_lem fuel (begin + first_ptr h layout * 8) (begin + n * (elsize * 8)) elsize n
          enough (omega arith) (omega arith) (omega arith))

  each_element :
      (layout begin elsize n : ℕ) (fields : Address → Scan)
      → ((a : Address) → fields a ≡ some (pointer_slots h layout a))
      → 0 < elsize
      → begin + suc n * (elsize * 8) < 2 ^ 64
      → n < fuel
      → scan_elements fields fuel begin (shift_words begin (mul_word n elsize)) elsize
        ≡ some (element_slots (pointer_slots h layout) begin elsize n)
  each_element layout begin elsize n fields each pos fits enough =
      let total : mul_word n elsize ≡ n * elsize = one_word n elsize begin fits in
      let stop : shift_words begin (mul_word n elsize) ≡ begin + n * (elsize * 8) =
        omega (arith, total) in
      rw stop (
        scan_elements_lem fields (pointer_slots h layout) fuel begin (begin + n * (elsize * 8))
          elsize n each enough (omega arith) (omega arith) (omega arith))

  pointers8 :
      (layout : Address)
      → fielddesc_type_custom (layout_flags h layout) ≡ 0
      → dt_layout_ptrs h layout + npointers h layout * 2 < 2 ^ 64
      → npointers h layout < fuel
      → (a : Address) → scan_fields8 rt h fuel layout a ≡ some (pointer_slots h layout a)
  pointers8 layout e table few a =
      fields8_lem rt h fuel layout a (omega arith) few
      ∙ ap some (
          sym (
            first_of (fielddesc_type_custom (layout_flags h layout))
              (field_slots h.load8 1 a (dt_layout_ptrs h layout) (npointers h layout))
              (field_slots h.load16 2 a (dt_layout_ptrs h layout) (npointers h layout))
              (field_slots h.load32 4 a (dt_layout_ptrs h layout) (npointers h layout)) e))

  pointers16 :
      (layout : Address)
      → fielddesc_type_custom (layout_flags h layout) ≡ 1
      → dt_layout_ptrs h layout + npointers h layout * 2 < 2 ^ 64
      → npointers h layout < fuel
      → (a : Address) → scan_fields16 rt h fuel layout a ≡ some (pointer_slots h layout a)
  pointers16 layout e table few a =
      fields16_lem rt h fuel layout a table few
      ∙ ap some (
          sym (
            second_of (fielddesc_type_custom (layout_flags h layout))
              (field_slots h.load8 1 a (dt_layout_ptrs h layout) (npointers h layout))
              (field_slots h.load16 2 a (dt_layout_ptrs h layout) (npointers h layout))
              (field_slots h.load32 4 a (dt_layout_ptrs h layout) (npointers h layout)) e))

  -- A generic memory of `n` structures of `elsize` words reports, for each structure in order, its
  -- only pointer, or the pointers that the layout lists, once each, and nothing beyond the last: for
  -- structures of at least one word whose first pointer is inside, a table of entries of one or two
  -- bytes within the address space, and a memory that ends at least one structure below its top. The
  -- fuel is more than the number of structures and that of the pointers of one.
  pub scan_struct_elements-struct_slots :
      (m layout n elsize : ℕ)
      → h.load64 m ≡ n
      → layout_size h layout / 8 ≡ elsize
      → 0 < elsize
      → first_ptr h layout < elsize
      → fielddesc_type_custom (layout_flags h layout) < 2
      → dt_layout_ptrs h layout + npointers h layout * 2 < 2 ^ 64
      → h.load64 (m + 8) + suc n * (elsize * 8) < 2 ^ 64
      → n < fuel
      → npointers h layout < fuel
      → scan_struct_elements rt h fuel m layout
        ≡ some (struct_slots layout (h.load64 (m + 8)) elsize n)
  unfolding scan_struct_elements
  scan_struct_elements-struct_slots m layout n elsize len size pos inside kind table fits enough
        few =
      let begin = h.load64 (m + 8) in
      let end = shift_words begin (mul_word n elsize) in
      rw (len, size)
        (struct_choice (npointers h layout) (fielddesc_type_custom (layout_flags h layout))
          (scan_words fuel (shift_words begin (first_ptr h layout)) end elsize)
          (scan_elements (scan_fields8 rt h fuel layout) fuel begin end elsize)
          (scan_elements (scan_fields16 rt h fuel layout) fuel begin end elsize)
          (word_slots (begin + first_ptr h layout * 8) elsize n)
          (element_slots (pointer_slots h layout) begin elsize n) kind
          (one_pointer layout begin elsize n inside fits enough)
          (λ e.
            each_element layout begin elsize n (scan_fields8 rt h fuel layout)
              (pointers8 layout e table few) pos fits enough)
          (λ e.
            each_element layout begin elsize n (scan_fields16 rt h fuel layout)
              (pointers16 layout e table few) pos fits enough))
