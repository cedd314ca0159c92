-- ===== src/Finalizer/Scan/Nursery.antt =====
-- `scan_finalizers_in_rust` at a nursery collection.
use mmtk_julia.Base.{
  ℕ, ◌+◌, ◌^◌, ◌<◌, ◌≡◌, refl, ◌∙◌, ap, ap₂, sym, Bool, true, some, List, [], ◌∷◌, ◌++◌, arith,
  Address, leb, length, values, length-values,
}
use mmtk_julia.Finalizer.ArrayList.{ArrayListT, contents, GrowKeeps, values-split}
use mmtk_julia.Finalizer.Sweep.Fate.{freed, old}
use mmtk_julia.Finalizer.Mark.Defs.{mark_finlist}
use mmtk_julia.Finalizer.Mark.Entries.{mark_entries, TracesEven}
use mmtk_julia.Finalizer.Mark.Loop.{mark_finlist-entries}
use mmtk_julia.Finalizer.Scan.Defs.{FinalizerLists, mark_threads, mark_all, scan_finalizers_in_rust}
use mmtk_julia.Finalizer.Scan.Threads.{
  len_of_append, AllPaired, AllEmpty, total_len, thread_chosen, sweep_threads-ThreadsSwept,
}

abbrev tail_or : List Address → List Address
tail_or [] = []
tail_or (x ∷ xs) = xs

append-cancel :
    (xs ys us vs : List Address)
    → length xs ≡ length ys
    → xs ++ us ≡ ys ++ vs
    → (xs ≡ ys) × (us ≡ vs)
append-cancel [] [] us vs e p = (refl, p)
append-cancel [] (y ∷ ys) us vs e p = absurd (omega arith)
append-cancel (x ∷ xs) [] us vs e p = absurd (omega arith)
append-cancel (x ∷ xs) (y ∷ ys) us vs e p =
    let (front, back) = append-cancel xs ys us vs (omega arith) (ap tail_or p) in (cc, back)

-- What stands behind the first `l.len` entries of a list that grew.
split-grown :
    (l l' : ArrayListT) (xs : List Address) (n : ℕ)
    → contents l' ≡ contents l ++ xs
    → l.len + n ≡ l'.len
    → (values l'.items 0 l.len ≡ contents l) × (values l'.items l.len n ≡ xs)
split-grown l l' xs n e at =
    append-cancel (values l'.items 0 l.len) (contents l) (values l'.items l.len n) xs
      (length-values l'.items 0 l.len ∙ sym (length-values l.items 0 l.len))
      (ap (λ j. values l'.items 0 l.len ++ values l'.items j n)
          (let z : l.len ≡ 0 + l.len = omega arith in z)
        ∙ sym (values-split l'.items 0 l.len n l'.len at)
        ∙ e)

module _ {T : Type 0} (trace_object : T → Address → T × Address) where
  pub mark_threads-AllEmpty :
      (lists : List ArrayListT) (t : T)
      → AllEmpty lists
      → mark_threads trace_object lists t ≡ some (lists, t)
  unfolding mark_threads mark_finlist
  mark_threads-AllEmpty [] t e = refl
  mark_threads-AllEmpty (l ∷ ls) t e =
      let stop : leb l.len 0 ≡ true = ground arith in rw (stop, mark_threads-AllEmpty ls t e.1) refl

module _ {T : Type 0} (grow : ArrayListT → ℕ → ArrayListT) (keeps : GrowKeeps grow)
    (live : Address → Bool) (trace_object : T → Address → T × Address)
    (even : TracesEven trace_object) where
  -- What a nursery collection makes of the lists: `aged` are the pairs whose objects are live and
  -- `dead` those whose objects are not.
  pub record NurseryScan (s : FinalizerLists) (t : T) (r : FinalizerLists × T) : Type 0 where
    pub emptied : AllEmpty r.0.thread_local
    pub aged :
        contents r.0.marked
        ≡ contents s.marked
          ++ (mark_entries trace_object t (thread_chosen live old s.thread_local)).1
    pub finalized :
        contents r.0.to_finalize
        ≡ (mark_entries trace_object
            (mark_entries trace_object t (thread_chosen live old s.thread_local)).0
            (contents s.to_finalize ++ thread_chosen live freed s.thread_local)).1

  -- For lists of pairs that fit a `usize`, C that keeps entries and a tracer that keeps addresses
  -- even, the finalizer work of a nursery collection ends. The mutators' lists are empty then. The
  -- marked list holds what it held, untraced, and behind it the pairs of live objects, traced; and
  -- `to_finalize` holds its own entries and the pairs of the dead or quiescent objects, all traced.
  pub scan_finalizers_in_rust-nursery :
      (s : FinalizerLists) (t : T)
      → AllPaired s.thread_local
      → s.to_finalize.len + total_len s.thread_local < 2 ^ 64
      → s.marked.len + total_len s.thread_local < 2 ^ 64
      → (r : FinalizerLists × T) × (scan_finalizers_in_rust grow live trace_object true s t
          ≡ some r)
        × NurseryScan s t r
  unfolding scan_finalizers_in_rust mark_all
  scan_finalizers_in_rust-nursery s t paired room mroom =
      let (s1, ends, swept) =
        sweep_threads-ThreadsSwept grow keeps live s.thread_local s paired room mroom in
      let added = length (thread_chosen live old s.thread_local) in
      let grown : s.marked.len + added ≡ s1.marked.len =
        sym (len_of_append s.marked s1.marked _ swept.aged) in
      let (front, back) = split-grown s.marked s1.marked _ added swept.aged grown in
      let (m, m_ends, m_tracer, m_contents) =
        mark_finlist-entries trace_object even s1.marked s.marked.len added t grown in
      let (f, f_ends, f_tracer, f_contents) =
        mark_finlist-entries trace_object even s1.to_finalize 0 s1.to_finalize.len m.tracer
          (omega arith) in
      (
        (record s1 { marked = m.list; to_finalize = f.list }, f.tracer),
        rw
            (
              ends,
              mark_threads-AllEmpty trace_object s1.thread_local t swept.emptied,
              m_ends,
              f_ends,
            )
            refl,
        record {
          emptied = swept.emptied;
          aged = m_contents ∙ ap₂ (λ xs ys. xs ++ (mark_entries trace_object t ys).1) front back;
          finalized =
              f_contents
              ∙ ap₂ (λ t xs. (mark_entries trace_object t xs).1)
                  (m_tracer ∙ ap (λ ys. (mark_entries trace_object t ys).0) back) swept.finalized;
        },
      )
