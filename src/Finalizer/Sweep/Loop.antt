-- ===== src/Finalizer/Sweep/Loop.antt =====
-- The loop of `sweep_finalizer_list`: what it has done, fate by fate.
use mmtk_julia.Base.{
  ℕ, zero, suc, ◌+◌, ◌<◌, ◌≡◌, refl, sym, Bool, some, true, append-nil, arith, Address, ltb,
}
use mmtk_julia.Finalizer.ArrayList.{ArrayListT, GrowKeeps}
use mmtk_julia.Finalizer.Sweep.Defs.{SweepState, sweep_round, sweep_loop}
use mmtk_julia.Finalizer.Sweep.Fate.{
  Fate, dropped, freed, old, kept, fate_at, round-dropped, round-freed, round-old, round-kept,
}
use mmtk_julia.Finalizer.Sweep.Compact.{len-push_pair}
use mmtk_julia.Finalizer.Sweep.Swept.{
  Swept, Going, len-push_marked, Swept-dropped, Swept-freed, Swept-old, Swept-kept, Going-next,
}

module _ (grow : ArrayListT → ℕ → ArrayListT) (keeps : GrowKeeps grow) (live : Address → Bool) where
  round-Swept :
      (n : ℕ) (s : SweepState)
      → Going (suc n) s
      → (x : Fate) → fate_at live s ≡ x
      → Going n (sweep_round grow live s)
        × ((r : SweepState) → Swept live n (sweep_round grow live s) r → Swept live (suc n) s r)
  round-Swept n s g dropped e = rw (round-dropped grow live s e) (
    Going-next g refl refl (omega arith) (omega arith) (omega arith),
    λ r. Swept-dropped live n s r e,
  )
  round-Swept n s g freed e = rw (round-freed grow live s e) (
    Going-next g refl refl (omega arith)
        (omega (
          arith,
          g.room,
          len-push_pair grow s.to_finalize (s.list.items s.i) (s.list.items (s.i + 1)),
        ))
        (omega arith),
    λ r. Swept-freed live n s r grow keeps g e,
  )
  round-Swept n s g old e = rw (round-old grow live s e) (
    Going-next g refl refl (omega arith) (omega arith)
        (len-push_marked grow s.finalizer_list_marked _ _ (omega (arith, g.marked_room))),
    λ r. Swept-old live n s r grow keeps g e,
  )
  round-Swept n s g kept e = rw (round-kept grow live s e) (
    Going-next g refl (ground arith) (omega arith) (omega arith) (omega arith),
    λ r. Swept-kept live n s r g e,
  )

  -- The rounds for `n` pairs end, and do to the lists what the fates of the entries say.
  pub sweep_loop-Swept :
      (n fuel : ℕ) (s : SweepState)
      → n < fuel
      → Going n s
      → (r : SweepState) × (sweep_loop grow live fuel s ≡ some r) × Swept live n s r
  unfolding sweep_loop
  sweep_loop-Swept n zero s f g = absurd (omega arith)
  sweep_loop-Swept zero (suc fuel) s f g = (
    s,
    ground (arith, g.even),
    record {
      keeps = sym (append-nil _);
      frees = sym (append-nil _);
      ages = sym (append-nil _);
      pending = refl;
      same_marked = refl;
    },
  )
  sweep_loop-Swept (suc n) (suc fuel) s f g =
      let more : ltb s.i s.list.len ≡ true = ground (arith, g.even) in
      let (going, back) = round-Swept n s g (fate_at live s) refl in
      let (r, ends, swept) =
        sweep_loop-Swept n fuel (sweep_round grow live s) (omega arith) going in
      (r, rw more ends, back r swept)
