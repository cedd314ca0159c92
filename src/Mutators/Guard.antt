-- ===== src/Mutators/Guard.antt =====
-- An open iterator keeps the table of mutators as it is.
use mathlib.Core.Path.{subst}
use mathlib.Core.Option.{some-injective}
use mmtk_julia.Base.{
  ℕ, zero, suc, ◌≡◌, refl, ap, sym, true, Option, none, some, is_some, List, [], ◌∷◌, Address,
  get_elem?, arith,
}
use mmtk_julia.Mutators.Table.{Table, keys, get, mmtk_post_bind_mutator, mmtk_destroy_mutator}
use mmtk_julia.Mutators.Iterator.{JuliaMutatorIterator, next}
use mmtk_julia.Mutators.Lock.{
  Shared, Attempt, blocked, returned, aborted, mmtk_new_mutator_iterator, advance_at, drop_at,
  mmtk_close_mutator_iterator, write_locked, post_bind_locked, destroyed, destroy_locked, Step,
  opens, advances, closes, binds, destroys, Reach, here, next_step,
}

-- Every open iterator goes through the keys that the table has now.
abbrev pub AllCurrent : Table → List JuliaMutatorIterator → Type 0
AllCurrent t [] = Unit
AllCurrent t (it ∷ its) = (it.vec ≡ keys t) × AllCurrent t its

abbrev pub IsGuarded : Shared → Type 0
IsGuarded s = AllCurrent s.table s.iterators

advance_at-AllCurrent :
    (t : Table) (its : List JuliaMutatorIterator) (i : ℕ)
    → AllCurrent t its
    → AllCurrent t (advance_at its i)
unfolding advance_at next
advance_at-AllCurrent t [] i h = h
advance_at-AllCurrent t (it ∷ its) zero h = h
advance_at-AllCurrent t (it ∷ its) (suc i) h = (h.0, advance_at-AllCurrent t its i h.1)

drop_at-AllCurrent :
    (t : Table) (its : List JuliaMutatorIterator) (i : ℕ)
    → AllCurrent t its
    → AllCurrent t (drop_at its i)
unfolding drop_at
drop_at-AllCurrent t [] i h = h
drop_at-AllCurrent t (it ∷ its) zero h = h.1
drop_at-AllCurrent t (it ∷ its) (suc i) h = (h.0, drop_at-AllCurrent t its i h.1)

-- A call that ends in a state for which `P` holds.
abbrev EndsIn : Attempt → Type 0
EndsIn blocked = Unit
EndsIn (returned s) = IsGuarded s
EndsIn aborted = Unit

returned-IsGuarded : (a : Attempt) (s : Shared) → EndsIn a → a ≡ returned s → IsGuarded s
returned-IsGuarded a s h e = subst EndsIn e h

-- A writer runs where no iterator is open, so whatever table it leaves is as the iterators know it.
write_locked-EndsIn :
    (its : List JuliaMutatorIterator) (body : Attempt)
    → (its ≡ [] → EndsIn body)
    → EndsIn (write_locked its body)
write_locked-EndsIn (it ∷ its) body b = tt
write_locked-EndsIn [] body b = b refl

no_iterators-AllCurrent :
    (t : Table) (its : List JuliaMutatorIterator) → its ≡ [] → AllCurrent t its
no_iterators-AllCurrent t its e = subst (AllCurrent t) (sym e) tt

destroyed-EndsIn :
    (s : Shared) (o : Option (Table × Address)) → s.iterators ≡ [] → EndsIn (destroyed s o)
destroyed-EndsIn s none e = tt
destroyed-EndsIn s (some (t, dropped)) e = no_iterators-AllCurrent t s.iterators e

mmtk_new_mutator_iterator-EndsIn : (s : Shared) → IsGuarded s → EndsIn (mmtk_new_mutator_iterator s)
unfolding mmtk_new_mutator_iterator
mmtk_new_mutator_iterator-EndsIn s h = (refl, h)

Step-IsGuarded : {s s' : Shared} → IsGuarded s → Step s s' → IsGuarded s'
unfolding mmtk_close_mutator_iterator post_bind_locked destroy_locked
Step-IsGuarded {s} {s'} h (opens e) =
    returned-IsGuarded (mmtk_new_mutator_iterator s) s' (mmtk_new_mutator_iterator-EndsIn s h) e
Step-IsGuarded {s} {s'} h (advances i) = advance_at-AllCurrent s.table s.iterators i h
Step-IsGuarded {s} {s'} h (closes i) = drop_at-AllCurrent s.table s.iterators i h
Step-IsGuarded {s} {s'} h (binds m b e) =
    returned-IsGuarded (post_bind_locked s m b) s'
      (write_locked-EndsIn s.iterators
        (returned (record s { table = mmtk_post_bind_mutator s.table m b }))
        (λ e. no_iterators-AllCurrent (mmtk_post_bind_mutator s.table m b) s.iterators e))
      e
Step-IsGuarded {s} {s'} h (destroys m e) =
    returned-IsGuarded (destroy_locked s m) s'
      (write_locked-EndsIn s.iterators (destroyed s (mmtk_destroy_mutator s.table m))
        (destroyed-EndsIn s (mmtk_destroy_mutator s.table m)))
      e

Reach-IsGuarded : {s : Shared} → Reach s → IsGuarded s
Reach-IsGuarded here = tt
Reach-IsGuarded (next_step r st) = Step-IsGuarded (Reach-IsGuarded r) st

-- A key of the table is bound.
get-keys :
    (t : Table) (i : ℕ) (m : Address) → get_elem? (keys t) i ≡ some m → is_some (get t m) ≡ true
unfolding get
get-keys [] i m e = cc
get-keys ((k, v) ∷ t) zero m e = ground arith
get-keys ((k, v) ∷ t) (suc i) m e = ground (arith, get-keys t i m e)

current-bound :
    (t : Table) (its : List JuliaMutatorIterator) (i : ℕ) (it : JuliaMutatorIterator) (m : Address)
    → AllCurrent t its
    → get_elem? its i ≡ some it
    → (next it).0 ≡ some m
    → is_some (get t m) ≡ true
unfolding next
current-bound t [] i it m h e n = cc
current-bound t (x ∷ its) zero it m h e n =
    get-keys t it.cursor m
      (rw (← h.0, ap (λ (y : JuliaMutatorIterator). y.vec) (some-injective _ _ e)) n)
current-bound t (x ∷ its) (suc i) it m h e n = current-bound t its i it m h.1 e n

write_locked-blocked :
    (its : List JuliaMutatorIterator) (i : ℕ) (it : JuliaMutatorIterator) (body : Attempt)
    → get_elem? its i ≡ some it
    → write_locked its body ≡ blocked
write_locked-blocked [] i it body e = cc
write_locked-blocked (x ∷ its) i it body e = refl

-- However the threads open, move and close iterators, bind and destroy mutators: a mutator that an
-- open iterator yields is bound at that time, so that its box has not been dropped; and while an
-- iterator is open, a call that binds or destroys any mutator waits.
pub Reach-next_bound :
    {s : Shared} (i : ℕ) (it : JuliaMutatorIterator) (m other original_box : Address)
    → Reach s
    → get_elem? s.iterators i ≡ some it
    → (next it).0 ≡ some m
    → (is_some (get s.table m) ≡ true)
      × (post_bind_locked s other original_box ≡ blocked)
      × (destroy_locked s other ≡ blocked)
unfolding post_bind_locked destroy_locked
Reach-next_bound {s} i it m other original_box r e n = (
  current-bound s.table s.iterators i it m (Reach-IsGuarded r) e n,
  write_locked-blocked s.iterators i it
      (returned (record s { table = mmtk_post_bind_mutator s.table other original_box })) e,
  write_locked-blocked s.iterators i it (destroyed s (mmtk_destroy_mutator s.table other)) e,
)
