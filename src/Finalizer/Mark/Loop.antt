-- ===== src/Finalizer/Mark/Loop.antt =====
-- The loop of `mark_finlist`, entry by entry.
use mmtk_julia.Base.{
  ℕ, zero, suc, ◌+◌, ◌%◌, ◌≤◌, ◌<◌, ◌≡◌, ◌≢◌, refl, ◌∙◌, ap, ap₂, sym, true, false, some, ◌++◌,
  append-nil, arith, Address, leb, values,
}
use mmtk_julia.Finalizer.ArrayList.{ArrayListT, contents, values-ext, values-split}
use mmtk_julia.Finalizer.Mark.Defs.{MarkState, mark_round, mark_loop, mark_finlist}
use mmtk_julia.Finalizer.Mark.Entries.{
  mark_entries, TracesEven, round-zero, round-plain, round-tagged,
}
use mmtk_julia.Finalizer.Mark.Marked.{
  mark_entries-zero, mark_entries-plain, Marked, Marked-next, Marked-skip, Marked-last, empty,
  plain, tagged, entry,
}

module _ {T : Type 0} (trace_object : T → Address → T × Address)
    (even : TracesEven trace_object) where
  -- A loop that ends in what the rounds for `n` entries make of `s`.
  abbrev pub Ends : ℕ → ℕ → MarkState T → MarkState T → Type 0
  Ends n fuel s s' =
      (r : MarkState T) × (mark_loop trace_object fuel s' ≡ some r) × Marked trace_object n s r

  mark_loop-stop :
      (fuel : ℕ) (s : MarkState T)
      → 0 < fuel
      → s.list.len ≤ s.i
      → mark_loop trace_object fuel s ≡ some s
  unfolding mark_loop
  mark_loop-stop zero s f h = absurd (omega arith)
  mark_loop-stop (suc fuel) s f h = ground arith

  mark_loop-more :
      (fuel : ℕ) (s : MarkState T)
      → s.i < s.list.len
      → mark_loop trace_object (suc fuel) s
        ≡ mark_loop trace_object fuel (mark_round trace_object s)
  unfolding mark_loop
  mark_loop-more fuel s h = ground arith

  module _ (n fuel : ℕ) (s : MarkState T)
      (ih : (s' : MarkState T) → s'.i + n ≡ s'.list.len → Ends n fuel s' s') where
    after_empty :
        s.i + suc n ≡ s.list.len
        → s.list.items s.i ≡ 0
        → Ends (suc n) fuel s (mark_round trace_object s)
    after_empty at e =
        let h = round-zero trace_object s e in
        let (r, ends, m) = ih (mark_round trace_object s) (omega (arith, h.next, h.same_len)) in
        (
          r,
          ends,
          Marked-next trace_object n s _ r _ h (mark_entries-zero trace_object s.tracer _ _ e) m,
        )

    after_plain :
        s.i + suc n ≡ s.list.len
        → s.list.items s.i ≢ 0
        → s.list.items s.i % 2 ≡ 0
        → Ends (suc n) fuel s (mark_round trace_object s)
    after_plain at ne e =
        let h = round-plain trace_object s ne e in
        let (r, ends, m) = ih (mark_round trace_object s) (omega (arith, h.next, h.same_len)) in
        (
          r,
          ends,
          Marked-next trace_object n s _ r _ h (mark_entries-plain trace_object s.tracer _ _ ne e)
              m,
        )

    after_tagged :
        s.i + suc (suc n) ≡ s.list.len
        → s.list.items s.i ≢ 0
        → s.list.items s.i % 2 ≡ 1
        → Ends (suc (suc n)) fuel s (mark_round trace_object s)
    after_tagged at ne odd =
        let h = round-tagged trace_object s even ne odd in
        let (r, ends, m) = ih (mark_round trace_object s) (omega (arith, h.next, h.same_len)) in
        (r, ends, Marked-skip trace_object n s _ r h ne odd m)

  -- Tag 1 on the last entry: the index passes the end.
  after_last :
      (fuel : ℕ) (s : MarkState T)
      → 0 < fuel
      → s.i + 1 ≡ s.list.len
      → s.list.items s.i ≢ 0
      → s.list.items s.i % 2 ≡ 1
      → Ends 1 fuel s (mark_round trace_object s)
  after_last fuel s f at ne odd =
      let h = round-tagged trace_object s even ne odd in
      (
        mark_round trace_object s,
        mark_loop-stop fuel (mark_round trace_object s) f (omega (arith, h.next, h.same_len)),
        Marked-last trace_object s (mark_round trace_object s) h ne,
      )

  -- The rounds for the `n` entries from `s.i` on end, and do what `mark_entries` does.
  pub mark_loop-Marked :
      (n fuel : ℕ) (s : MarkState T) → n < fuel → s.i + n ≡ s.list.len → Ends n fuel s s
  unfolding mark_entries
  mark_loop-Marked zero fuel s f at = (
    s,
    mark_loop-stop fuel s f (omega arith),
    record { same_len = refl; tracer = refl; entries = refl; below = λ k low. refl },
  )
  mark_loop-Marked (suc n) zero s f at = absurd (omega arith)
  mark_loop-Marked (suc zero) (suc fuel) s f at =
      rw (mark_loop-more fuel s (omega arith)) (elim (entry (s.list.items s.i)) [
        | empty e ↦
            after_empty 0 fuel s (λ s' a. mark_loop-Marked zero fuel s' (omega arith) a) at e
        | plain ne e ↦
            after_plain 0 fuel s (λ s' a. mark_loop-Marked zero fuel s' (omega arith) a) at ne e
        | tagged ne odd ↦ after_last fuel s (omega arith) at ne odd
      ])
  mark_loop-Marked (suc (suc n)) (suc fuel) s f at =
      rw (mark_loop-more fuel s (omega arith)) (elim (entry (s.list.items s.i)) [
        | empty e ↦
            after_empty (suc n) fuel s (λ s' a. mark_loop-Marked (suc n) fuel s' (omega arith) a) at
              e
        | plain ne e ↦
            after_plain (suc n) fuel s (λ s' a. mark_loop-Marked (suc n) fuel s' (omega arith) a) at
              ne e
        | tagged ne odd ↦
            after_tagged n fuel s (λ s' a. mark_loop-Marked n fuel s' (omega arith) a) at ne odd
      ])

  -- For a tracer that moves objects to even addresses, `mark_finlist` returns for every start up
  -- to the length. The tracer has then traced, in order, the objects of the entries from `start` on that are
  -- neither zero, nor quiescent, nor a native function behind tag 1; each such entry leads to where
  -- its object is now, with its tag; and every other entry, those before `start` included, and the
  -- length are unchanged.
  pub mark_finlist-entries :
      (list : ArrayListT) (start n : ℕ) (t : T)
      → start + n ≡ list.len
      → (r : MarkState T) × (mark_finlist trace_object list start t ≡ some r)
        × (r.tracer ≡ (mark_entries trace_object t (values list.items start n)).0)
        × (contents r.list
            ≡ values list.items 0 start
              ++ (mark_entries trace_object t (values list.items start n)).1)
  unfolding mark_finlist mark_entries
  mark_finlist-entries list start zero t at =
      let stop : leb list.len start ≡ true = ground arith in
      let e : start ≡ list.len = omega arith in
      (record { list = list; i = start; tracer = t }, rw stop refl, refl, rw e (sym (append-nil _)))
  mark_finlist-entries list start (suc n) t at =
      let more : leb list.len start ≡ false = ground arith in
      let (r, ends, m) =
        mark_loop-Marked (suc n) (list.len + 1) (record { list = list; i = start; tracer = t })
          (omega arith) at in
      (
        r,
        rw more ends,
        m.tracer,
        values-split r.list.items 0 start (suc n) r.list.len (omega (arith, m.same_len))
            ∙ ap₂ ◌++◌
                (values-ext r.list.items list.items 0 start λ k low high. m.below k (omega arith))
                (ap (λ j. values r.list.items j (suc n)) (omega arith) ∙ m.entries),
      )
