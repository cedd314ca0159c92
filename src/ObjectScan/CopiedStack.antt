-- ===== src/ObjectScan/CopiedStack.antt =====
-- The scan of a stack that is copied out to a buffer, against that of the stack in its place
-- (`mmtk_scan_gcstack` of mmtk/src/julia_scanning.rs).
use mmtk_julia.Base.{
  ℕ, zero, suc, ◌+◌, ◌/◌, ◌≡◌, refl, sym, ap, ap₂, ◌∙◌, Bool, true, false, not, none, some, List,
  [], ◌++◌, map, bit_and, arith, Address, add_word, shift_words, ◌==◌, ltb, if◌then◌else◌,
}
use mathlib.Core.List.{map-append}
use mmtk_julia.Slots.Slot.{JuliaVmSlot, simple, offset}
use mmtk_julia.Finalizer.ArrayList.{gc_ptr_tag}
use mmtk_julia.ObjectScan.Layout.{Heap}
use mmtk_julia.ObjectScan.Loops.{Scan, append_scans}
use mmtk_julia.ObjectScan.Object.{process_slot, process_offset_slot}
use mmtk_julia.ObjectScan.Stack.{
  Window, whole_stack, get_stack_addr, read_stack, root_slots, root_step, scan_roots, frame_slots,
  prev_frame, scan_frames,
}

get_stack_addr-whole_stack : (a : Address) → get_stack_addr whole_stack a ≡ a
get_stack_addr-whole_stack a = ground arith

module _ (h : Heap) (w : Window) where
  -- The memory with the stack put back in its place.
  abbrev pub restored : Heap
  restored = record h { load64 = λ a. h.load64 (get_stack_addr w a) }

  -- A slot on the stack in its place, as one in the buffer.
  abbrev pub relocate : JuliaVmSlot → JuliaVmSlot
  relocate (simple a) = simple (get_stack_addr w a)
  relocate (offset o) = offset (record o { slot_addr = get_stack_addr w o.slot_addr })

  read_stack-restored : (a : Address) → read_stack restored whole_stack a ≡ read_stack h w a
  read_stack-restored a = ap (λ b. h.load64 (get_stack_addr w b)) (get_stack_addr-whole_stack a)

  -- The choice of a round, over the tests that it makes.
  chosen_slots : (pointer malloced native : Bool) (slot real : Address) → List JuliaVmSlot
  chosen_slots pointer malloced native slot real =
      if pointer
      then process_slot slot
      else if malloced
      then []
      else if native
      then process_offset_slot real 1
      else process_slot real

  relocate-chosen_slots :
      (p q r : Bool) (slot real : Address)
      → map relocate (chosen_slots p q r slot real)
        ≡ chosen_slots p q r (get_stack_addr w slot) (get_stack_addr w real)
  unfolding chosen_slots
  relocate-chosen_slots true q r slot real = refl
  relocate-chosen_slots false true r slot real = refl
  relocate-chosen_slots false false true slot real = refl
  relocate-chosen_slots false false false slot real = refl

  -- A round over the word that stands at the place `a`.
  round_slots : (nroots slot a : ℕ) → List JuliaVmSlot
  round_slots nroots slot a =
      chosen_slots (not (bit_and nroots 1 == 0)) (bit_and slot 3 == 3) (gc_ptr_tag slot 1) slot a

  root_slots-relocate :
      (nroots rts i : ℕ)
      → root_slots h w nroots rts i ≡ map relocate (root_slots restored whole_stack nroots rts i)
  unfolding root_slots chosen_slots round_slots
  root_slots-relocate nroots rts i =
      let a = shift_words rts i in
      let slot = read_stack h w a in
      sym (
        relocate-chosen_slots (not (bit_and nroots 1 == 0)) (bit_and slot 3 == 3)
          (gc_ptr_tag slot 1) slot a)
      ∙ ap (λ s. map relocate (round_slots nroots s a)) (sym (read_stack-restored a))
      ∙ ap
          (λ k. map relocate (
            chosen_slots (not (bit_and nroots 1 == 0))
              (bit_and (read_stack restored whole_stack a) 3 == 3)
              (gc_ptr_tag (read_stack restored whole_stack a) 1) k a))
          (sym (get_stack_addr-whole_stack (read_stack restored whole_stack a)))
      ∙ ap
          (λ k. map relocate (
            chosen_slots (not (bit_and nroots 1 == 0))
              (bit_and (read_stack restored whole_stack a) 3 == 3)
              (gc_ptr_tag (read_stack restored whole_stack a) 1)
              (get_stack_addr whole_stack (read_stack restored whole_stack a)) k))
          (sym (get_stack_addr-whole_stack a))

  root_step-restored :
      (nroots rts i : ℕ) → root_step restored whole_stack nroots rts i ≡ root_step h w nroots rts i
  unfolding root_step
  root_step-restored nroots rts i = rw (read_stack-restored (shift_words rts i))

  if-relocate :
      (b : Bool) (xs ys : List JuliaVmSlot)
      → xs ≡ map relocate ys
      → (if b then xs else []) ≡ map relocate (if b then ys else [])
  if-relocate true xs ys e = e
  if-relocate false xs ys e = refl

  scan_roots-relocate :
      (rounds nroots rts nr i : ℕ)
      → scan_roots h w rounds nroots rts nr i
        ≡ map relocate (scan_roots restored whole_stack rounds nroots rts nr i)
  unfolding scan_roots
  scan_roots-relocate zero nroots rts nr i = refl
  scan_roots-relocate (suc rounds) nroots rts nr i = if-relocate (ltb i nr) _ _ (
      ap₂ ◌++◌ (root_slots-relocate nroots rts i) (
        scan_roots-relocate rounds nroots rts nr (i + root_step h w nroots rts i)
        ∙ ap (λ k. map relocate (scan_roots restored whole_stack rounds nroots rts nr (i + k)))
            (sym (root_step-restored nroots rts i)))
      ∙ sym (map-append relocate (root_slots restored whole_stack nroots rts i) _))

  frame_slots-relocate :
      (s : Address) → frame_slots h w s ≡ map relocate (frame_slots restored whole_stack s)
  unfolding frame_slots
  frame_slots-relocate s =
      scan_roots-relocate (read_stack h w s / 4) (read_stack h w s) (shift_words s 2)
        (read_stack h w s / 4) 0
      ∙ ap
          (λ n.
            map relocate (scan_roots restored whole_stack (n / 4) n (shift_words s 2) (n / 4) 0))
          (sym (read_stack-restored s))

  prev_frame-restored : (s : Address) → prev_frame restored whole_stack s ≡ prev_frame h w s
  unfolding prev_frame
  prev_frame-restored s = read_stack-restored (add_word s 8)

  abbrev pub relocate_all : Scan → Scan
  relocate_all none = none
  relocate_all (some xs) = some (map relocate xs)

  append_scans-relocate_all :
      (ys : List JuliaVmSlot) (r : Scan)
      → append_scans (some (map relocate ys)) (relocate_all r)
        ≡ relocate_all (append_scans (some ys) r)
  append_scans-relocate_all ys none = refl
  append_scans-relocate_all ys (some zs) = ap some (sym (map-append relocate ys zs))

  if-relocate_all :
      (b : Bool) (xs ys : List JuliaVmSlot) (q r : Scan)
      → xs ≡ map relocate ys
      → q ≡ relocate_all r
      → (if b then some xs else append_scans (some xs) q)
        ≡ relocate_all (if b then some ys else append_scans (some ys) r)
  if-relocate_all true xs ys q r e f = ap some e
  if-relocate_all false xs ys q r e f =
      ap₂ (λ k l. append_scans (some k) l) e f ∙ append_scans-relocate_all ys r

  -- While a stack is copied out, its scan in the buffer ends if and only if that of the stack in its
  -- place would, with the same fuel, and reports the same slots, each moved to the buffer if it is on
  -- the stack.
  pub scan_frames-relocate_all :
      (fuel : ℕ) (s : Address)
      → scan_frames h w fuel s ≡ relocate_all (scan_frames restored whole_stack fuel s)
  unfolding scan_frames
  scan_frames-relocate_all zero s = refl
  scan_frames-relocate_all (suc fuel) s =
      if-relocate_all (prev_frame h w s == 0) (frame_slots h w s)
        (frame_slots restored whole_stack s) (scan_frames h w fuel (prev_frame h w s))
        (scan_frames restored whole_stack fuel (prev_frame h w s)) (frame_slots-relocate s)
        (scan_frames-relocate_all fuel (prev_frame h w s))
      ∙ ap
          (λ p. relocate_all (
            if p == 0
            then some (frame_slots restored whole_stack s)
            else append_scans (some (frame_slots restored whole_stack s))
                (scan_frames restored whole_stack fuel p)))
          (sym (prev_frame-restored s))
