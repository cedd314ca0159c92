-- ===== src/Finalizer/Mark/Entries.antt =====
-- `mark_finlist` against a recursion over the entries.
use mmtk_julia.Base.{
  ℕ, ◌+◌, ◌-◌, ◌/◌, ◌%◌, ◌≡◌, ◌≢◌, List, [], ◌∷◌, arith, Address, ◌==◌, if◌then◌else◌, bit_and-one,
  bit_and_two, bit_or-one, bit_or-zero,
}
use mmtk_julia.Finalizer.ArrayList.{gc_ptr_clear_tag, gc_ptr_tag}
use mmtk_julia.Finalizer.Mark.Defs.{MarkState, mark_entry, mark_round}

module _ {T : Type 0} (trace_object : T → Address → T × Address) where
  -- One entry: a quiescent one (bit 1) stays; another gives way to where its object is now, with its
  -- tag (bit 0).
  unfoldable pub mark_one : T → Address → T × Address
  mark_one t cur =
      if cur / 2 % 2 == 1
      then (t, cur)
      else (let traced = trace_object t (cur - cur % 2) in (traced.0, traced.1 + cur % 2))

  -- Zero entries are skipped; behind an entry with bit 0 set, the next one is a native function and
  -- is skipped too.
  unfoldable pub mark_entries : T → List Address → T × List Address
  mark_entries t [] = (t, [])
  mark_entries t (cur ∷ []) =
      if cur == 0 then (t, cur ∷ []) else (let one = mark_one t cur in (one.0, one.1 ∷ []))
  mark_entries t (cur ∷ next ∷ rest) =
      let skip = mark_entries t (next ∷ rest) in
      let one = mark_one t cur in
      let plain = mark_entries one.0 (next ∷ rest) in
      let tagged = mark_entries one.0 rest in
      if cur == 0
      then (skip.0, cur ∷ skip.1)
      else if cur % 2 == 1
      then (tagged.0, one.1 ∷ next ∷ tagged.1)
      else (plain.0, one.1 ∷ plain.1)

-- Objects are at even addresses, so that bit 0 is free for the tag.
abbrev pub TracesEven : {T : Type 0} → (T → Address → T × Address) → Type 0
TracesEven {T} trace_object = (t : T) (a : Address) → (trace_object t a).1 % 2 ≡ 0

-- A round that makes `one` of the entry and steps `width` entries on.
pub record Rounded {T : Type 0} (one : T × Address) (width : ℕ) (s s' : MarkState T) : Type 0 where
  pub next : s'.i ≡ s.i + width
  pub same_len : s'.list.len ≡ s.list.len
  pub tracer : s'.tracer ≡ one.0
  pub here : s'.list.items s.i ≡ one.1
  pub others : (k : ℕ) → k ≢ s.i → s'.list.items k ≡ s.list.items k

module _ {T : Type 0} (trace_object : T → Address → T × Address) (s : MarkState T) where
  abbrev cur : Address
  cur = s.list.items s.i

  pub round-zero :
      s.list.items s.i ≡ 0 → Rounded (s.tracer, s.list.items s.i) 1 s (mark_round trace_object s)
  unfolding mark_round
  round-zero e = ground arith

  pub round-plain :
      s.list.items s.i ≢ 0
      → s.list.items s.i % 2 ≡ 0
      → Rounded (mark_one trace_object s.tracer (s.list.items s.i)) 1 s (mark_round trace_object s)
  unfolding mark_round mark_entry mark_one gc_ptr_tag gc_ptr_clear_tag
  round-plain ne e =
      ground (arith, bit_and-one cur, bit_and_two cur, bit_or-zero (trace_object s.tracer cur).1)

  pub round-tagged :
      TracesEven trace_object
      → s.list.items s.i ≢ 0
      → s.list.items s.i % 2 ≡ 1
      → Rounded (mark_one trace_object s.tracer (s.list.items s.i)) 2 s (mark_round trace_object s)
  unfolding mark_round mark_entry mark_one gc_ptr_tag gc_ptr_clear_tag
  round-tagged even ne e = ground (
    arith,
    bit_and-one cur,
    bit_and_two cur,
    bit_or-one (trace_object s.tracer (cur - 1)).1,
    even s.tracer (cur - 1),
  )
