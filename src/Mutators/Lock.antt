-- ===== src/Mutators/Lock.antt =====
-- mmtk/src/active_plan.rs and mmtk/src/api.rs: who holds the lock of `MUTATORS`. An iterator holds it
-- for reading until C closes the iterator; `mmtk_post_bind_mutator` and `mmtk_destroy_mutator` take it
-- for writing, the latter panicking where the mutator is unknown: an `extern "C"` function, which then
-- aborts the process, so that nobody finds the lock poisoned.
use mmtk_julia.Base.{ℕ, zero, suc, ◌≡◌, Option, none, some, List, [], ◌∷◌, Address}
use mmtk_julia.Mutators.Table.{Table, mmtk_post_bind_mutator, mmtk_destroy_mutator}
use mmtk_julia.Mutators.Iterator.{JuliaMutatorIterator, new, next}

-- The table with its lock, which the iterators that are open hold for reading.
pub record Shared : Type 0 where
  pub table : Table
  pub iterators : List JuliaMutatorIterator

-- A call waits for the lock, returns, or ends the process.
pub data Attempt : Type 0 where
  blocked : Attempt
  returned : Shared → Attempt
  aborted : Attempt

-- `MUTATORS.read().unwrap()`, kept by the iterator that is made.
unfoldable pub mmtk_new_mutator_iterator : Shared → Attempt
mmtk_new_mutator_iterator s = returned (record s { iterators = new s.table ∷ s.iterators })

-- `mmtk_get_next_mutator_tls` moves the iterator on.
unfoldable pub advance_at : List JuliaMutatorIterator → ℕ → List JuliaMutatorIterator
advance_at [] i = []
advance_at (it ∷ its) zero = (next it).1 ∷ its
advance_at (it ∷ its) (suc i) = it ∷ advance_at its i

-- The iterator is dropped, and its guard with it.
unfoldable pub drop_at : List JuliaMutatorIterator → ℕ → List JuliaMutatorIterator
drop_at [] i = []
drop_at (it ∷ its) zero = its
drop_at (it ∷ its) (suc i) = it ∷ drop_at its i

unfoldable pub mmtk_close_mutator_iterator : Shared → ℕ → Shared
unfolding drop_at
mmtk_close_mutator_iterator s i = record s { iterators = drop_at s.iterators i }

-- `MUTATORS.write().unwrap()`
abbrev pub write_locked : List JuliaMutatorIterator → Attempt → Attempt
write_locked (it ∷ its) body = blocked
write_locked [] body = body

unfoldable pub post_bind_locked : Shared → (mutator original_box : Address) → Attempt
post_bind_locked s mutator original_box =
    write_locked s.iterators
      (returned (record s { table = mmtk_post_bind_mutator s.table mutator original_box }))

abbrev pub destroyed : Shared → Option (Table × Address) → Attempt
destroyed s none = aborted
destroyed s (some (t, dropped)) = returned (record s { table = t })

unfoldable pub destroy_locked : Shared → Address → Attempt
destroy_locked s mutator =
    write_locked s.iterators (destroyed s (mmtk_destroy_mutator s.table mutator))

-- What the threads do, one call at a time; a call that is blocked does nothing.
pub data Step (s : Shared) : Shared → Type 0 where
  opens : {s' : Shared} → mmtk_new_mutator_iterator s ≡ returned s' → Step s s'
  advances : (i : ℕ) → Step s (record s { iterators = advance_at s.iterators i })
  closes : (i : ℕ) → Step s (mmtk_close_mutator_iterator s i)
  binds :
      (mutator original_box : Address) {s' : Shared}
      → post_bind_locked s mutator original_box ≡ returned s'
      → Step s s'
  destroys : (mutator : Address) {s' : Shared} → destroy_locked s mutator ≡ returned s' → Step s s'

abbrev pub initial : Shared
initial = record { table = []; iterators = [] }

pub data Reach : Shared → Type 0 where
  here : Reach initial
  next_step : {s s' : Shared} → Reach s → Step s s' → Reach s'
