-- ===== src/Finalizer/Scan/Defs.antt =====
-- mmtk/src/julia_finalizer.rs: `scan_finalizers_in_rust`.
use mmtk_julia.Base.{ℕ, Bool, Option, none, some, List, [], ◌∷◌, Address, if◌then◌else◌, ◌>>=◌}
use mmtk_julia.Finalizer.ArrayList.{ArrayListT}
use mmtk_julia.Finalizer.Sweep.Defs.{sweep_finalizer_list}
use mmtk_julia.Finalizer.Mark.Defs.{mark_finlist}

-- The lists behind the C pointers: each mutator's list, the two global ones, and the flag.
pub record FinalizerLists : Type 0 where
  pub thread_local : List ArrayListT
  pub to_finalize : ArrayListT
  pub marked : ArrayListT
  pub have_pending : ℕ

-- The marked list as a sweep that was given it leaves it.
abbrev pub marked_or : ArrayListT → Option ArrayListT → ArrayListT
marked_or l none = l
marked_or l (some l') = l'

module _ (arraylist_grow : ArrayListT → ℕ → ArrayListT) (is_live_object : Address → Bool) where
  -- One mutator's list, swept into the global ones.
  abbrev pub sweep_thread : FinalizerLists → ArrayListT → Option (FinalizerLists × ArrayListT)
  sweep_thread s list = do
    r ←
        sweep_finalizer_list arraylist_grow is_live_object list s.to_finalize (some s.marked)
          s.have_pending
    some (
      record s {
        to_finalize = r.to_finalize;
        marked = marked_or s.marked r.finalizer_list_marked;
        have_pending = r.have_pending;
      },
      r.list,
    )

  -- The first loop over the mutators; `thread_local` of the result are the lists swept.
  unfoldable pub sweep_threads : FinalizerLists → List ArrayListT → Option FinalizerLists
  sweep_threads s [] = some (record s { thread_local = [] })
  sweep_threads s (list ∷ lists) = do
    (s', list') ← sweep_thread s list
    s'' ← sweep_threads s' lists
    some (record s'' { thread_local = list' ∷ s''.thread_local })

  -- The sweep of the marked list, at a full collection only.
  unfoldable pub sweep_marked : FinalizerLists → Option FinalizerLists
  sweep_marked s = do
    r ←
        sweep_finalizer_list arraylist_grow is_live_object s.marked s.to_finalize none
          s.have_pending
    some (record s { to_finalize = r.to_finalize; marked = r.list; have_pending = r.have_pending })

module _ {T : Type 0} (trace_object : T → Address → T × Address) where
  -- The second loop over the mutators.
  unfoldable pub mark_threads : List ArrayListT → T → Option (List ArrayListT × T)
  mark_threads [] t = some ([], t)
  mark_threads (list ∷ lists) t = do
    r ← mark_finlist trace_object list 0 t
    (lists', t') ← mark_threads lists r.tracer
    some (r.list ∷ lists', t')

  -- The marking of all lists; the marked list is traced from `orig_marked_len` on.
  unfoldable pub mark_all : ℕ → FinalizerLists → T → Option (FinalizerLists × T)
  mark_all orig_marked_len s t = do
    (lists, t1) ← mark_threads s.thread_local t
    m ← mark_finlist trace_object s.marked orig_marked_len t1
    f ← mark_finlist trace_object s.to_finalize 0 m.tracer
    some (record s { thread_local = lists; marked = m.list; to_finalize = f.list }, f.tracer)

-- `nursery` is what `is_current_gc_nursery` returns.
unfoldable pub scan_finalizers_in_rust :
    {T : Type 0}
    → (ArrayListT → ℕ → ArrayListT)
    → (Address → Bool)
    → (T → Address → T × Address)
    → (nursery : Bool) → FinalizerLists
    → T
    → Option (FinalizerLists × T)
scan_finalizers_in_rust arraylist_grow is_live_object trace_object nursery s t = do
  s1 ← sweep_threads arraylist_grow is_live_object s s.thread_local
  s2 ← (if nursery then some s1 else sweep_marked arraylist_grow is_live_object s1)
  mark_all trace_object (if nursery then s.marked.len else 0) s2 t
