-- ===== src/Finalizer/Scan/Full.antt =====
-- `scan_finalizers_in_rust` at a full collection.
use mmtk_julia.Base.{
  ℕ, ◌+◌, ◌*◌, ◌/◌, ◌%◌, ◌^◌, ◌<◌, ◌≡◌, refl, ◌∙◌, ap, ap₂, Bool, false, none, some, List, ◌++◌,
  append_assoc, arith, Address, length, length-values,
}
use mmtk_julia.Finalizer.ArrayList.{ArrayListT, contents, GrowKeeps}
use mmtk_julia.Finalizer.Sweep.Fate.{kept, freed, old}
use mmtk_julia.Finalizer.Sweep.Refines.{sweep_finalizer_list-Outcome}
use mmtk_julia.Finalizer.Mark.Entries.{mark_entries, TracesEven}
use mmtk_julia.Finalizer.Mark.Loop.{mark_finlist-entries}
use mmtk_julia.Finalizer.Scan.Defs.{FinalizerLists, sweep_marked, mark_all, scan_finalizers_in_rust}
use mmtk_julia.Finalizer.Scan.Threads.{
  len_of_append, AllPaired, AllEmpty, total_len, thread_chosen, sweep_threads-ThreadsSwept,
  ThreadsSwept,
}
use mmtk_julia.Finalizer.Scan.Nursery.{mark_threads-AllEmpty}
use mmtk_julia.Finalizer.Scan.Pairs.{
  picks, chosen-picks, picks-kept_aged, picks-freed_aged, length-thread_chosen_even,
  length-thread_chosen,
}

module _ (grow : ArrayListT → ℕ → ArrayListT) (keeps : GrowKeeps grow) (live : Address → Bool) where
  -- The lists behind the sweep of the marked list, from those that the mutators' sweep left.
  record MarkedSwept (s s1 r : FinalizerLists) : Type 0 where
    threads : r.thread_local ≡ s1.thread_local
    survivors :
        contents r.marked
        ≡ picks live kept (contents s.marked) ++ thread_chosen live old s.thread_local
    finalized :
        contents r.to_finalize
        ≡ contents s.to_finalize
          ++ (thread_chosen live freed s.thread_local ++ picks live freed (contents s.marked))

  sweep_marked-MarkedSwept :
      (s s1 : FinalizerLists)
      → ThreadsSwept live s.thread_local s s1
      → s.marked.len % 2 ≡ 0
      → s.to_finalize.len + s.marked.len + 2 * total_len s.thread_local < 2 ^ 64
      → (r : FinalizerLists) × (sweep_marked grow live s1 ≡ some r) × MarkedSwept s s1 r
  unfolding sweep_marked
  sweep_marked-MarkedSwept s s1 swept paired room =
      let n = s1.marked.len / 2 in
      let marked_len = len_of_append s.marked s1.marked _ swept.aged in
      let final_len = len_of_append s.to_finalize s1.to_finalize _ swept.finalized in
      let even : s1.marked.len ≡ n + n =
        omega (arith, length-thread_chosen_even live s.thread_local) in
      let (r, ends, out) =
        sweep_finalizer_list-Outcome grow keeps live n s1.marked s1.to_finalize none s1.have_pending
          even
          (omega (
            arith,
            length-thread_chosen live freed s.thread_local,
            length-thread_chosen live old s.thread_local,
          ))
          (omega (arith, length-thread_chosen live old s.thread_local)) in
      let half = s.marked.len / 2 in
      let entries : length (contents s.marked) ≡ half + half =
        omega (arith, length-values s.marked.items 0 s.marked.len) in
      (
        record s1 { to_finalize = r.to_finalize; marked = r.list; have_pending = r.have_pending },
        rw ends,
        record {
          threads = refl;
          survivors =
              out.survivors
              ∙ chosen-picks live kept s1.marked.items 0 n s1.marked.len even
              ∙ ap (picks live kept) swept.aged
              ∙ picks-kept_aged live (contents s.marked) half entries s.thread_local;
          finalized =
              out.finalized
              ∙ ap₂ ◌++◌ swept.finalized (
                  chosen-picks live freed s1.marked.items 0 n s1.marked.len even
                  ∙ ap (picks live freed) swept.aged
                  ∙ picks-freed_aged live (contents s.marked) half entries s.thread_local)
              ∙ append_assoc (contents s.to_finalize) (thread_chosen live freed s.thread_local) _;
        },
      )

module _ {T : Type 0} (grow : ArrayListT → ℕ → ArrayListT) (keeps : GrowKeeps grow)
    (live : Address → Bool) (trace_object : T → Address → T × Address)
    (even : TracesEven trace_object) where
  -- What is left of the marked list, with the pairs that grew old behind it.
  abbrev pub survivors_of : FinalizerLists → List Address
  survivors_of s = picks live kept (contents s.marked) ++ thread_chosen live old s.thread_local

  -- What is finalized: the old entries, then the mutators' pairs, then those of the marked list.
  abbrev pub finalized_of : FinalizerLists → List Address
  finalized_of s =
      contents s.to_finalize
      ++ (thread_chosen live freed s.thread_local ++ picks live freed (contents s.marked))

  -- What a full collection makes of the lists.
  pub record FullScan (s : FinalizerLists) (t : T) (r : FinalizerLists × T) : Type 0 where
    pub emptied : AllEmpty r.0.thread_local
    pub survivors : contents r.0.marked ≡ (mark_entries trace_object t (survivors_of s)).1
    pub finalized :
        contents r.0.to_finalize
        ≡ (mark_entries trace_object
            (mark_entries trace_object t (survivors_of s)).0
            (finalized_of s)).1
    pub traced :
        r.1
        ≡ (mark_entries trace_object
            (mark_entries trace_object t (survivors_of s)).0
            (finalized_of s)).0

  -- For lists of pairs that fit a `usize` together, C that keeps entries and a tracer that keeps
  -- addresses even, the finalizer work of a full collection ends. The mutators' lists are empty then.
  -- The marked list holds its pairs of objects that are live and not quiescent, and behind them those
  -- of the mutators' lists; `to_finalize` holds its own entries, the mutators' pairs of dead or
  -- quiescent objects, and those of the marked list. The tracer has traced all of both lists, the
  -- marked list first.
  pub scan_finalizers_in_rust-full :
      (s : FinalizerLists) (t : T)
      → AllPaired s.thread_local
      → s.marked.len % 2 ≡ 0
      → s.to_finalize.len + s.marked.len + 2 * total_len s.thread_local < 2 ^ 64
      → (r : FinalizerLists × T) × (scan_finalizers_in_rust grow live trace_object false s t
          ≡ some r)
        × FullScan s t r
  unfolding scan_finalizers_in_rust mark_all
  scan_finalizers_in_rust-full s t paired marked_paired room =
      let (s1, ends, swept) =
        sweep_threads-ThreadsSwept grow keeps live s.thread_local s paired (omega arith)
          (omega arith) in
      let (s2, ends2, again) =
        sweep_marked-MarkedSwept grow keeps live s s1 swept marked_paired room in
      let (m, m_ends, m_tracer, m_contents) =
        mark_finlist-entries trace_object even s2.marked 0 s2.marked.len t (omega arith) in
      let (f, f_ends, f_tracer, f_contents) =
        mark_finlist-entries trace_object even s2.to_finalize 0 s2.to_finalize.len m.tracer
          (omega arith) in
      let empty : AllEmpty s2.thread_local = rw again.threads swept.emptied in
      let marked_tracer =
        m_tracer ∙ ap (λ xs. (mark_entries trace_object t xs).0) again.survivors in
      (
        (record s2 { marked = m.list; to_finalize = f.list }, f.tracer),
        rw (ends, ends2, mark_threads-AllEmpty trace_object s2.thread_local t empty, m_ends, f_ends)
            refl,
        record {
          emptied = empty;
          survivors = m_contents ∙ ap (λ xs. (mark_entries trace_object t xs).1) again.survivors;
          finalized =
              f_contents
              ∙ ap₂ (λ t xs. (mark_entries trace_object t xs).1) marked_tracer again.finalized;
          traced =
              f_tracer
              ∙ ap₂ (λ t xs. (mark_entries trace_object t xs).0) marked_tracer again.finalized;
        },
      )
