-- ===== src/Mutators/Examples.antt =====
-- The theorems on the table of mutators at concrete tables.
use mmtk_julia.Base.{◌≡◌, refl, true, is_some, some, [], ◌∷◌}
use mmtk_julia.Mutators.Table.{
  get, insert, destroy_found, mmtk_post_bind_mutator, mmtk_destroy_mutator,
}
use mmtk_julia.Mutators.Iterator.{new, next}
use mmtk_julia.Mutators.Lock.{
  Shared, blocked, returned, aborted, mmtk_new_mutator_iterator, post_bind_locked, destroy_locked,
  opens, binds, initial, Reach, here, next_step,
}
use mmtk_julia.Mutators.Guard.{Reach-next_bound}

-- A mutator is bound, and an iterator opened.
abbrev bound : Shared
bound = record { table = (64, 1064) ∷ []; iterators = [] }

abbrev opened : Shared
opened = record bound { iterators = new bound.table ∷ [] }

first_bind : post_bind_locked initial 64 1064 ≡ returned bound
unfolding post_bind_locked mmtk_post_bind_mutator insert
first_bind = refl

first_open : mmtk_new_mutator_iterator bound ≡ returned opened
unfolding mmtk_new_mutator_iterator
first_open = refl

opened-Reach : Reach opened
opened-Reach = next_step (next_step here (binds 64 1064 first_bind)) (opens first_open)

first_next : (next (new bound.table)).0 ≡ some 64
unfolding next
first_next = refl

Reach-next_bound_example :
    (is_some (get bound.table 64) ≡ true)
    × (post_bind_locked opened 128 1128 ≡ blocked)
    × (destroy_locked opened 128 ≡ blocked)
Reach-next_bound_example =
    Reach-next_bound 0 (new bound.table) 64 128 1128 opened-Reach refl first_next

-- To destroy an unknown mutator ends the process.
unknown_mutator : destroy_locked bound 32 ≡ aborted
unfolding destroy_locked mmtk_destroy_mutator destroy_found get
unknown_mutator = refl
