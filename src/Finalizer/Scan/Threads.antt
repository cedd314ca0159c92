-- ===== src/Finalizer/Scan/Threads.antt =====
-- `scan_finalizers_in_rust` at the mutators' lists, and the whole of it at a nursery collection.
use mmtk_julia.Base.{
  ℕ, zero, suc, ◌+◌, ◌/◌, ◌%◌, ◌^◌, ◌≤◌, ◌<◌, ◌≡◌, refl, ◌∙◌, ap, sym, Bool, true, false, Option,
  none, some, List, [], ◌∷◌, ◌++◌, append-nil, append_assoc, arith, Address, is_some, length,
  length-append, length-values,
}
use mmtk_julia.Finalizer.ArrayList.{ArrayListT, contents, GrowKeeps}
use mmtk_julia.Finalizer.Sweep.Fate.{Fate, kept, freed, old, is_fate, fate, chosen, marked_contents}
use mmtk_julia.Finalizer.Sweep.Refines.{sweep_finalizer_list-Outcome}
use mmtk_julia.Finalizer.Scan.Defs.{FinalizerLists, marked_or, sweep_threads}

-- Each list holds pairs.
abbrev pub AllPaired : List ArrayListT → Type 0
AllPaired [] = Unit
AllPaired (l ∷ ls) = (l.len % 2 ≡ 0) × AllPaired ls

abbrev pub AllEmpty : List ArrayListT → Type 0
AllEmpty [] = Unit
AllEmpty (l ∷ ls) = (l.len ≡ 0) × AllEmpty ls

abbrev pub total_len : List ArrayListT → ℕ
total_len [] = 0
total_len (l ∷ ls) = l.len + total_len ls

module _ (live : Address → Bool) where
  -- The pairs of one fate in the mutators' lists, in order.
  abbrev pub thread_chosen : Fate → List ArrayListT → List Address
  thread_chosen want [] = []
  thread_chosen want (l ∷ ls) = chosen live want true l.items 0 (l.len / 2) ++ thread_chosen want ls

  fate-ne-kept : (v : Address) → is_fate kept (fate live true v) ≡ false
  unfolding fate
  fate-ne-kept v = ground arith

  chosen-kept : (f : ℕ → Address) (i n : ℕ) → chosen live kept true f i n ≡ []
  chosen-kept f i zero = refl
  chosen-kept f i (suc n) = rw (fate-ne-kept (f i)) (chosen-kept f (i + 2) n)

  pub length-chosen :
      (want : Fate) (f : ℕ → Address) (i n : ℕ) → length (chosen live want true f i n) ≤ n + n
  length-chosen want f i zero = omega arith
  length-chosen want f i (suc n) = ground (arith, length-chosen want f (i + 2) n)

-- The lists once the mutators' lists are swept.
pub record ThreadsSwept (live : Address → Bool) (lists : List ArrayListT) (s r : FinalizerLists)
    : Type 0 where
  pub emptied : AllEmpty r.thread_local
  pub finalized : contents r.to_finalize ≡ contents s.to_finalize ++ thread_chosen live freed lists
  pub aged : contents r.marked ≡ contents s.marked ++ thread_chosen live old lists

len_of_contents : (l : ArrayListT) → length (contents l) ≡ l.len
len_of_contents l = length-values l.items 0 l.len

pub len_of_append :
    (l l' : ArrayListT) (xs : List Address)
    → contents l' ≡ contents l ++ xs
    → l'.len ≡ l.len + length xs
len_of_append l l' xs e =
    omega (
      arith,
      len_of_contents l,
      len_of_contents l',
      ap (length {0}) e,
      length-append (contents l) xs,
    )

marked_or-contents :
    (l : ArrayListT) (m : Option ArrayListT)
    → is_some m ≡ true
    → contents (marked_or l m) ≡ marked_contents m
marked_or-contents l none e = cc
marked_or-contents l (some m) e = refl

module _ (grow : ArrayListT → ℕ → ArrayListT) (keeps : GrowKeeps grow) (live : Address → Bool) where
  pub sweep_threads-ThreadsSwept :
      (lists : List ArrayListT) (s : FinalizerLists)
      → AllPaired lists
      → s.to_finalize.len + total_len lists < 2 ^ 64
      → s.marked.len + total_len lists < 2 ^ 64
      → (r : FinalizerLists) × (sweep_threads grow live s lists ≡ some r)
        × ThreadsSwept live lists s r
  unfolding sweep_threads
  sweep_threads-ThreadsSwept [] s paired room mroom = (
    record s { thread_local = [] },
    refl,
    record { emptied = tt; finalized = sym (append-nil _); aged = sym (append-nil _) },
  )
  sweep_threads-ThreadsSwept (l ∷ ls) s paired room mroom =
      let n = l.len / 2 in
      let (r, ends, out) =
        sweep_finalizer_list-Outcome grow keeps live n l s.to_finalize (some s.marked)
          s.have_pending (omega arith) (omega arith) (omega arith) in
      let m : contents (marked_or s.marked r.finalizer_list_marked)
          ≡ contents s.marked ++ chosen live old true l.items 0 n =
        marked_or-contents s.marked r.finalizer_list_marked out.same_marked ∙ out.aged in
      let s' : FinalizerLists = record s {
        to_finalize = r.to_finalize;
        marked = marked_or s.marked r.finalizer_list_marked;
        have_pending = r.have_pending;
      } in
      let (r', ends', rest) =
        sweep_threads-ThreadsSwept ls s' paired.1
          (omega (
            arith,
            len_of_append s.to_finalize r.to_finalize _ out.finalized,
            length-chosen live freed l.items 0 n,
          ))
          (omega
            (arith, len_of_append s.marked s'.marked _ m, length-chosen live old l.items 0 n)) in
      (
        record r' { thread_local = r.list ∷ r'.thread_local },
        rw (ends, ends') refl,
        record {
          emptied = (
            omega (
              arith,
              len_of_contents r.list,
              ap (length {0}) (out.survivors ∙ chosen-kept live l.items 0 n),
            ),
            rest.emptied,
          );
          finalized =
              rest.finalized
              ∙ ap (λ xs. xs ++ thread_chosen live freed ls) out.finalized
              ∙ append_assoc (contents s.to_finalize) _ _;
          aged =
              rest.aged
              ∙ ap (λ xs. xs ++ thread_chosen live old ls) m
              ∙ append_assoc (contents s.marked) _ _;
        },
      )
