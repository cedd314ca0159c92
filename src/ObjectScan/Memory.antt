-- ===== src/ObjectScan/Memory.antt =====
-- What `scan_julia_object` of mmtk/src/julia_scanning.rs reports for a generic memory, by its kind.
use mmtk_julia.Base.{
  ℕ, suc, ◌+◌, ◌*◌, ◌/◌, ◌%◌, ◌^◌, ◌<◌, ◌≤◌, ◌≡◌, ◌≢◌, refl, sym, Bool, true, false, not, ◌||◌,
  some, List, [], arith, Address, shift_words, ◌==◌, ==_of_ne, ==_iff, ==_self, ltb, lt→ltb,
  if◌then◌else◌,
}
use mmtk_julia.Slots.Slot.{JuliaVmSlot}
use mmtk_julia.ObjectScan.Layout.{
  Heap, Runtime, typetagof, type_name, type_layout, layout_size, npointers, first_ptr, layout_flags,
  fielddesc_type_custom, dt_layout_ptrs, memory_length, memory_ptr,
}
use mmtk_julia.ObjectScan.Loops.{Scan, scan_words, word_slots, scan_words_lem}
use mmtk_julia.ObjectScan.Object.{
  process_slot, scan_struct_elements, scan_genericmemory, scan_datatype, scan_julia_object,
}
use mmtk_julia.ObjectScan.Dispatch.{HasType}
use mmtk_julia.ObjectScan.Kinds.{by_type}
use mmtk_julia.ObjectScan.Elements.{struct_slots, scan_struct_elements-struct_slots}

-- The choice of `scan_genericmemory` with its tests and scans as variables.
choose_owner :
    (how none_left boxes pointers : Bool) (a b c x : Scan)
    → how ≡ true
    → a ≡ x
    → (if how
        then a
        else if none_left
        then some []
        else if boxes
        then b
        else if pointers
        then c
        else some [])
      ≡ x
choose_owner how none_left boxes pointers a b c x p e = rw p e

choose_empty :
    (how none_left boxes pointers : Bool) (a b c : Scan)
    → how ≡ false
    → none_left ≡ true
    → (if how
        then a
        else if none_left
        then some []
        else if boxes
        then b
        else if pointers
        then c
        else some [])
      ≡ some []
choose_empty how none_left boxes pointers a b c p q = rw (p, q) refl

choose_by_element :
    (how none_left boxes pointers : Bool) (a b c x : Scan)
    → how ≡ false
    → none_left ≡ false
    → (if boxes then b else if pointers then c else some []) ≡ x
    → (if how
        then a
        else if none_left
        then some []
        else if boxes
        then b
        else if pointers
        then c
        else some [])
      ≡ x
choose_by_element how none_left boxes pointers a b c x p q e = rw (p, q) e

not_empty : (k n : ℕ) → k ≡ suc n → (k == 0) ≡ false
not_empty k n e = ground arith

not_below_half : (k : ℕ) → 2 ^ 31 ≤ k → ltb k (2 ^ 31) ≡ false
not_below_half k h = ground arith

module _ (rt : Runtime) (h : Heap) (fuel vt m : ℕ) where
  abbrev pub elements_are_boxed : Bool
  elements_are_boxed = not (layout_flags h (type_layout h vt) / 2 ^ 3 % 2 == 0)

  -- The kinds of memory, each with the slots that it holds. Its `n` elements lie within the address
  -- space, structures at least one below its top; the fuel is more than their number.
  pub data Holds : List JuliaVmSlot → Type 0 where
    owned_by_object :
        rt.gc_genericmemory_how m ≡ 3 → Holds (process_slot (rt.gc_get_owner_address m))
    no_elements : rt.gc_genericmemory_how m ≢ 3 → memory_length h m ≡ 0 → Holds []
    boxed :
        (n : ℕ)
        → rt.gc_genericmemory_how m ≢ 3
        → memory_length h m ≡ suc n
        → elements_are_boxed ≡ true
        → memory_ptr h m + suc n * 8 < 2 ^ 64
        → suc n < fuel
        → Holds (word_slots (memory_ptr h m) 1 (suc n))
    structures :
        (n elsize : ℕ)
        → rt.gc_genericmemory_how m ≢ 3
        → memory_length h m ≡ suc n
        → elements_are_boxed ≡ false
        → first_ptr h (type_layout h vt) < 2 ^ 31
        → layout_size h (type_layout h vt) / 8 ≡ elsize
        → 0 < elsize
        → first_ptr h (type_layout h vt) < elsize
        → fielddesc_type_custom (layout_flags h (type_layout h vt)) < 2
        → dt_layout_ptrs h (type_layout h vt) + npointers h (type_layout h vt) * 2 < 2 ^ 64
        → memory_ptr h m + suc (suc n) * (elsize * 8) < 2 ^ 64
        → suc n < fuel
        → npointers h (type_layout h vt) < fuel
        → Holds (struct_slots rt h fuel (type_layout h vt) (memory_ptr h m) elsize (suc n))
    no_pointers :
        (n : ℕ)
        → rt.gc_genericmemory_how m ≢ 3
        → memory_length h m ≡ suc n
        → elements_are_boxed ≡ false
        → 2 ^ 31 ≤ first_ptr h (type_layout h vt)
        → Holds []

  owner_scan : Scan
  owner_scan = some (process_slot (rt.gc_get_owner_address m))

  word_scan : Scan
  word_scan = scan_words fuel (memory_ptr h m) (shift_words (memory_ptr h m) (memory_length h m)) 1

  struct_scan : Scan
  struct_scan = scan_struct_elements rt h fuel m (type_layout h vt)

  abbrev has_pointers : Bool
  has_pointers = ltb (first_ptr h (type_layout h vt)) (2 ^ 31)

  -- Behind the tests of the owner and of the length.
  by_element :
      (n : ℕ) (x : Scan)
      → rt.gc_genericmemory_how m ≢ 3
      → memory_length h m ≡ suc n
      → (if elements_are_boxed then word_scan else if has_pointers then struct_scan else some [])
        ≡ x
      → scan_genericmemory rt h fuel vt m ≡ x
  unfolding scan_genericmemory owner_scan word_scan struct_scan
  by_element n x how len e =
      choose_by_element (rt.gc_genericmemory_how m == 3) (memory_length h m == 0) elements_are_boxed
        has_pointers owner_scan word_scan struct_scan x (==_of_ne _ 3 how)
        (not_empty (memory_length h m) n len) e

  boxed_words :
      (n : ℕ)
      → memory_length h m ≡ suc n
      → memory_ptr h m + suc n * 8 < 2 ^ 64
      → suc n < fuel
      → word_scan ≡ some (word_slots (memory_ptr h m) 1 (suc n))
  unfolding word_scan
  boxed_words n len fits enough = rw len (
      scan_words_lem fuel (memory_ptr h m) (shift_words (memory_ptr h m) (suc n)) 1 (suc n) enough
        (omega arith) (omega arith) (omega arith))

  memory_lem :
      (slots : List JuliaVmSlot) → Holds slots → scan_genericmemory rt h fuel vt m ≡ some slots
  unfolding scan_genericmemory owner_scan word_scan struct_scan
  memory_lem _ (owned_by_object how) =
      choose_owner (rt.gc_genericmemory_how m == 3) (memory_length h m == 0) elements_are_boxed
        has_pointers owner_scan word_scan struct_scan owner_scan ((==_iff _ 3).1 how) refl
  memory_lem _ (no_elements how len) =
      choose_empty (rt.gc_genericmemory_how m == 3) (memory_length h m == 0) elements_are_boxed
        has_pointers owner_scan word_scan struct_scan (==_of_ne _ 3 how) ((==_iff _ 0).1 len)
  memory_lem _ (boxed n how len boxes fits enough) =
      by_element n (some (word_slots (memory_ptr h m) 1 (suc n))) how len
        (rw boxes (boxed_words n len fits enough))
  memory_lem _
        (structures n elsize how len boxes first size pos inside kind table fits enough few) =
      by_element n
        (some (struct_slots rt h fuel (type_layout h vt) (memory_ptr h m) elsize (suc n))) how len
        (rw (boxes, lt→ltb (first_ptr h (type_layout h vt)) (2 ^ 31) first)
          (scan_struct_elements-struct_slots rt h fuel m (type_layout h vt) (suc n) elsize len size
            pos inside kind table fits enough few))
  memory_lem _ (no_pointers n how len boxes first) =
      by_element n (some []) how len
        (rw (boxes, not_below_half (first_ptr h (type_layout h vt)) first) refl)

  memory_datatype :
      (slots : List JuliaVmSlot)
      → rt.jl_array_typename ≢ rt.jl_genericmemory_typename
      → type_name h vt ≡ rt.jl_genericmemory_typename
      → Holds slots
      → scan_datatype rt h fuel vt m ≡ some slots
  unfolding scan_datatype
  memory_datatype slots apart name kind =
      rw (name, ==_of_ne _ _ (λ e. apart (sym e)), ==_self rt.jl_genericmemory_typename)
        (rw (memory_lem slots kind) refl)

  -- A generic memory, of whichever kind, reports the slots that it holds and nothing else: the owner's
  -- field where the data belong to another object; none for a memory without elements, or whose
  -- elements hold no pointers; one for each boxed element; and for elements that are structures the
  -- pointers of each, in order. Its tag is neither a symbol's nor a buffer's.
  pub scan_julia_object-memory :
      (scan_gcstack : Address → Scan) (slots : List JuliaVmSlot)
      → ((typetagof h m == rt.jl_symbol_type) || (typetagof h m == rt.julia_buff_tag)) ≡ false
      → HasType rt h m vt
      → rt.jl_array_typename ≢ rt.jl_genericmemory_typename
      → type_name h vt ≡ rt.jl_genericmemory_typename
      → Holds slots
      → scan_julia_object rt h fuel scan_gcstack m ≡ some slots
  scan_julia_object-memory scan_gcstack slots other type apart name kind =
      by_type rt h fuel scan_gcstack m vt (some slots) other type
        (memory_datatype slots apart name kind)
