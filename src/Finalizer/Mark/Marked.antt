-- ===== src/Finalizer/Mark/Marked.antt =====
-- What a round of `mark_finlist` adds to what the rest of the loop does, entry by entry.
use mmtk_julia.Base.{
  ℕ, zero, suc, ◌+◌, ◌%◌, ◌<◌, ◌≡◌, ◌≢◌, refl, ◌∙◌, ap, ap₂, sym, List, [], ◌∷◌, arith, Address,
  values,
}
use native.Mathlib.Decide.{ℕ_discrete}
use mmtk_julia.Finalizer.ArrayList.{values-ext}
use mmtk_julia.Finalizer.Mark.Defs.{MarkState}
use mmtk_julia.Finalizer.Mark.Entries.{mark_one, mark_entries, Rounded}

module _ {T : Type 0} (trace_object : T → Address → T × Address) where
  abbrev pub put_front : Address → T × List Address → T × List Address
  put_front a p = (p.0, a ∷ p.1)

  pub mark_entries-zero :
      (t : T) (cur : Address) (rest : List Address)
      → cur ≡ 0
      → mark_entries trace_object t (cur ∷ rest) ≡ put_front cur (mark_entries trace_object t rest)
  unfolding mark_entries
  mark_entries-zero t cur [] e = ground arith
  mark_entries-zero t cur (a ∷ rest) e = ground arith

  pub mark_entries-plain :
      (t : T) (cur : Address) (rest : List Address)
      → cur ≢ 0
      → cur % 2 ≡ 0
      → mark_entries trace_object t (cur ∷ rest)
        ≡ put_front
            (mark_one trace_object t cur).1
            (mark_entries trace_object (mark_one trace_object t cur).0 rest)
  unfolding mark_entries
  mark_entries-plain t cur [] ne e = ground arith
  mark_entries-plain t cur (a ∷ rest) ne e = ground arith

  mark_entries-tagged :
      (t : T) (cur next : Address) (rest : List Address)
      → cur ≢ 0
      → cur % 2 ≡ 1
      → mark_entries trace_object t (cur ∷ next ∷ rest)
        ≡ put_front
            (mark_one trace_object t cur).1
            (put_front next (mark_entries trace_object (mark_one trace_object t cur).0 rest))
  unfolding mark_entries
  mark_entries-tagged t cur next rest ne e = ground arith

  -- What the rounds for the `n` entries from `s.i` on make of `s`.
  pub record Marked (n : ℕ) (s r : MarkState T) : Type 0 where
    pub same_len : r.list.len ≡ s.list.len
    pub tracer : r.tracer ≡ (mark_entries trace_object s.tracer (values s.list.items s.i n)).0
    pub entries :
        values r.list.items s.i n
        ≡ (mark_entries trace_object s.tracer (values s.list.items s.i n)).1
    pub below : (k : ℕ) → k < s.i → r.list.items k ≡ s.list.items k

  module _ {n : ℕ} {one : T × Address} {width : ℕ} {s s' r : MarkState T}
      (h : Rounded one width s s') (m : Marked n s' r) (wide : 0 < width) (from : ℕ)
      (at : s.i + width ≡ from) where
    -- The call that the rounds behind this one stand for.
    call :
        mark_entries trace_object s'.tracer (values s'.list.items s'.i n)
        ≡ mark_entries trace_object one.0 (values s.list.items from n)
    call = ap₂ (mark_entries trace_object) h.tracer (
        ap (λ j. values s'.list.items j n) (omega (arith, h.next))
        ∙ values-ext s'.list.items s.list.items from n λ k low high. h.others k (omega arith))

    later_tracer : r.tracer ≡ (mark_entries trace_object one.0 (values s.list.items from n)).0
    later_tracer = m.tracer ∙ ap (λ p. p.0) call

    later_entries :
        values r.list.items from n
        ≡ (mark_entries trace_object one.0 (values s.list.items from n)).1
    later_entries =
        ap (λ j. values r.list.items j n) (omega (arith, h.next)) ∙ m.entries ∙ ap (λ p. p.1) call

    first : r.list.items s.i ≡ one.1
    first = m.below s.i (omega (arith, h.next)) ∙ h.here

    untouched : (k : ℕ) → k < s.i → r.list.items k ≡ s.list.items k
    untouched k low = m.below k (omega (arith, h.next)) ∙ h.others k (omega arith)

  -- A round of width 1, and the rounds behind it.
  pub Marked-next :
      (n : ℕ) (s s' r : MarkState T) (one : T × Address)
      → Rounded one 1 s s'
      → mark_entries trace_object s.tracer (s.list.items s.i ∷ values s.list.items (suc s.i) n)
        ≡ put_front one.1 (mark_entries trace_object one.0 (values s.list.items (suc s.i) n))
      → Marked n s' r
      → Marked (suc n) s r
  Marked-next n s s' r one h e m =
      let at : s.i + 1 ≡ suc s.i = omega arith in
      record {
        same_len = m.same_len ∙ h.same_len;
        tracer = later_tracer h m (omega arith) (suc s.i) at ∙ sym (ap (λ p. p.0) e);
        entries =
            ap₂ ◌∷◌ (first h m (omega arith) (suc s.i) at)
              (later_entries h m (omega arith) (suc s.i) at)
            ∙ sym (ap (λ p. p.1) e);
        below = untouched h m (omega arith) (suc s.i) at;
      }

  -- A round behind tag 1: the next entry is not looked at.
  pub Marked-skip :
      (n : ℕ) (s s' r : MarkState T)
      → Rounded (mark_one trace_object s.tracer (s.list.items s.i)) 2 s s'
      → s.list.items s.i ≢ 0
      → s.list.items s.i % 2 ≡ 1
      → Marked n s' r
      → Marked (suc (suc n)) s r
  Marked-skip n s s' r h ne odd m =
      let at : s.i + 2 ≡ suc (suc s.i) = omega arith in
      let e =
        mark_entries-tagged s.tracer (s.list.items s.i) (s.list.items (suc s.i))
          (values s.list.items (suc (suc s.i)) n) ne odd in
      record {
        same_len = m.same_len ∙ h.same_len;
        tracer = later_tracer h m (omega arith) (suc (suc s.i)) at ∙ sym (ap (λ p. p.0) e);
        entries =
            ap₂ ◌∷◌ (first h m (omega arith) (suc (suc s.i)) at) (
              ap₂ ◌∷◌ (m.below (suc s.i) (omega (arith, h.next)) ∙ h.others (suc s.i) (omega arith))
                (later_entries h m (omega arith) (suc (suc s.i)) at))
            ∙ sym (ap (λ p. p.1) e);
        below = untouched h m (omega arith) (suc (suc s.i)) at;
      }

  -- The last entry has tag 1: the loop ends one index behind the list.
  pub Marked-last :
      (s s' : MarkState T)
      → Rounded (mark_one trace_object s.tracer (s.list.items s.i)) 2 s s'
      → s.list.items s.i ≢ 0
      → Marked 1 s s'
  unfolding mark_entries
  Marked-last s s' h ne = record {
    same_len = h.same_len;
    tracer = ground (arith, h.tracer);
    entries = ground (arith, h.here);
    below = λ k low. h.others k (omega arith);
  }

pub data Entry (cur : Address) : Type 0 where
  empty : cur ≡ 0 → Entry cur
  plain : cur ≢ 0 → cur % 2 ≡ 0 → Entry cur
  tagged : cur ≢ 0 → cur % 2 ≡ 1 → Entry cur

pub entry : (cur : Address) → Entry cur
entry zero = empty refl
entry (suc n) = elim (ℕ_discrete (suc n % 2) 0) [
  | yes e ↦ plain (omega arith) e
  | no ne ↦ tagged (omega arith) (omega arith)
]
