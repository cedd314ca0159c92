-- ===== src/ObjectScan/Frames.antt =====
-- What the loops over a shadow stack in mmtk/src/julia_scanning.rs report.
use mmtk_julia.Base.{
  ℕ, zero, suc, ◌+◌, ◌%◌, ◌<◌, ◌≤◌, ◌≡◌, ◌≢◌, refl, sym, ap, ◌∙◌, some, List, [], ◌∷◌, ◌++◌,
  append-nil, arith, bit_and-one, bit_and_three, Address, shift_words, length,
}
use mmtk_julia.Slots.Slot.{JuliaVmSlot, simple, offset, new_with_offset}
use mmtk_julia.Finalizer.ArrayList.{gc_ptr_tag}
use mmtk_julia.ObjectScan.Layout.{Heap}
use mmtk_julia.ObjectScan.Stack.{
  Window, get_stack_addr, read_stack, root_slots, root_step, scan_roots, frame_slots, prev_frame,
  scan_frames,
}

module _ (h : Heap) (w : Window) where
  -- The frames from `s` on, linked by `prev` and ended by a null pointer.
  pub data Chain : Address → List Address → Type 0 where
    last : {s : Address} → prev_frame h w s ≡ 0 → Chain s (s ∷ [])
    link :
        {s p : Address} {frames : List Address}
        → prev_frame h w s ≡ p
        → p ≢ 0
        → Chain p frames
        → Chain s (s ∷ frames)

  abbrev pub all_slots : List Address → List JuliaVmSlot
  all_slots [] = []
  all_slots (s ∷ frames) = frame_slots h w s ++ all_slots frames

  frames-last :
      (fuel : ℕ) (s : Address)
      → prev_frame h w s ≡ 0
      → scan_frames h w (suc fuel) s ≡ some (frame_slots h w s)
  unfolding scan_frames
  frames-last fuel s e = grind arith

  frames-link :
      (fuel : ℕ) (s p : Address) (xs : List JuliaVmSlot)
      → prev_frame h w s ≡ p
      → p ≢ 0
      → scan_frames h w fuel p ≡ some xs
      → scan_frames h w (suc fuel) s ≡ some (frame_slots h w s ++ xs)
  unfolding scan_frames
  frames-link fuel s p xs e ne rest = grind arith

  -- The outer loop ends on a chain of frames with one unit of fuel for each, and reports the roots of
  -- every frame, from the innermost frame out.
  pub scan_frames-all_slots :
      (fuel : ℕ) (s : Address) (frames : List Address)
      → Chain s frames
      → length frames ≤ fuel
      → scan_frames h w fuel s ≡ some (all_slots frames)
  scan_frames-all_slots zero s _ (last e) enough = absurd (omega arith)
  scan_frames-all_slots zero s _ (link e ne c) enough = absurd (omega arith)
  scan_frames-all_slots (suc fuel) s _ (last e) enough =
      frames-last fuel s e ∙ ap some (sym (append-nil (frame_slots h w s)))
  scan_frames-all_slots (suc fuel) s _ (link {s = _} {p = p} {frames = frames} e ne c) enough =
      frames-link fuel s p (all_slots frames) e ne
        (scan_frames-all_slots fuel p frames c (omega arith))

-- An entry of a frame whose roots stand in the frame itself: the word at its place is an object's
-- address; or the address of an object whose finalizer function, the next word, is native; or a
-- `malloc`ed address, with the next word a function as well.
pub data Root : Type 0 where
  object : Root
  native : Root
  malloced : Root

abbrev pub root_words : Root → ℕ
root_words object = 1
root_words native = 2
root_words malloced = 2

abbrev pub frame_words : List Root → ℕ
frame_words [] = 0
frame_words (r ∷ rs) = root_words r + frame_words rs

some_words : (r : Root) → 0 < root_words r
some_words object = omega arith
some_words native = omega arith
some_words malloced = omega arith

-- The word at the place of an entry is tagged as the entry says.
abbrev pub IsTagged : ℕ → Root → Type 0
IsTagged slot object = slot % 2 ≡ 0
IsTagged slot native = slot % 4 ≡ 1
IsTagged slot malloced = slot % 4 ≡ 3

abbrev pub reported : Address → Root → List JuliaVmSlot
reported real_addr object = simple real_addr ∷ []
reported real_addr native = offset (new_with_offset real_addr 1) ∷ []
reported real_addr malloced = []

module _ (h : Heap) (w : Window) (rts : Address) where
  -- The entries `rs` stand in the frame from the place `i` on.
  abbrev pub Stands : ℕ → List Root → Type 0
  Stands i [] = Unit
  Stands i (r ∷ rs) = IsTagged (read_stack h w (shift_words rts i)) r × Stands (i + root_words r) rs

  abbrev pub roots_reported : ℕ → List Root → List JuliaVmSlot
  roots_reported i [] = []
  roots_reported i (r ∷ rs) =
      reported (get_stack_addr w (shift_words rts i)) r ++ roots_reported (i + root_words r) rs

  root_lem :
      (nroots i : ℕ) (r : Root)
      → nroots % 2 ≡ 0
      → IsTagged (read_stack h w (shift_words rts i)) r
      → (root_slots h w nroots rts i ≡ reported (get_stack_addr w (shift_words rts i)) r)
        × (root_step h w nroots rts i ≡ root_words r)
  unfolding root_slots root_step gc_ptr_tag
  root_lem nroots i object even tag =
      let slot = read_stack h w (shift_words rts i) in
      let a = bit_and-one nroots in
      let b = bit_and-one slot in let c = bit_and_three slot in (ground arith, ground arith)
  root_lem nroots i native even tag =
      let slot = read_stack h w (shift_words rts i) in
      let a = bit_and-one nroots in
      let b = bit_and-one slot in let c = bit_and_three slot in (ground arith, ground arith)
  root_lem nroots i malloced even tag =
      let slot = read_stack h w (shift_words rts i) in
      let a = bit_and-one nroots in
      let b = bit_and-one slot in let c = bit_and_three slot in (ground arith, ground arith)

  scan_roots-round :
      (rounds nroots nr i j : ℕ) (xs ys : List JuliaVmSlot)
      → i < nr
      → root_slots h w nroots rts i ≡ xs
      → i + root_step h w nroots rts i ≡ j
      → scan_roots h w rounds nroots rts nr j ≡ ys
      → scan_roots h w (suc rounds) nroots rts nr i ≡ xs ++ ys
  unfolding scan_roots
  scan_roots-round rounds nroots nr i j xs ys below slots step rest = grind arith

  -- The inner loop over a frame that holds its roots: an object's place is a slot, the place of an
  -- object with a native function is a slot with offset 1, a `malloc`ed address is passed over, and so
  -- is the function behind either. The loop ends at the last entry, within `nr` rounds.
  pub scan_roots-roots_reported :
      (rounds nroots nr i : ℕ) (rs : List Root)
      → nroots % 2 ≡ 0
      → Stands i rs
      → nr ≡ i + frame_words rs
      → frame_words rs ≤ rounds
      → scan_roots h w rounds nroots rts nr i ≡ roots_reported i rs
  unfolding scan_roots
  scan_roots-roots_reported zero nroots nr i [] even ok e enough = refl
  scan_roots-roots_reported zero nroots nr i (object ∷ rs) even ok e enough = absurd (omega arith)
  scan_roots-roots_reported zero nroots nr i (native ∷ rs) even ok e enough = absurd (omega arith)
  scan_roots-roots_reported zero nroots nr i (malloced ∷ rs) even ok e enough = absurd (omega arith)
  scan_roots-roots_reported (suc rounds) nroots nr i [] even ok e enough = ground arith
  scan_roots-roots_reported (suc rounds) nroots nr i (r ∷ rs) even (tag, ok) e enough =
      let words = some_words r in
      let (slots, step) = root_lem nroots i r even tag in
      scan_roots-round rounds nroots nr i (i + root_words r)
        (reported (get_stack_addr w (shift_words rts i)) r) (roots_reported (i + root_words r) rs)
        (omega arith) slots (ap (λ k. i + k) step)
        (scan_roots-roots_reported rounds nroots nr (i + root_words r) rs even ok (omega arith)
          (omega arith))
