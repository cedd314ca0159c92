-- ===== src/Mutators/Table.antt =====
-- mmtk/src/api.rs: `mmtk_post_bind_mutator` and `mmtk_destroy_mutator` on the table `MUTATORS`, a hash
-- map from a mutator's address to the box that it was bound with. The hash map of the standard
-- library is an association list here; the order of its keys is some order.
use mmtk_julia.Base.{
  ◌≡◌, ◌≢◌, refl, sym, ap, ◌∙◌, Option, none, some, List, [], ◌∷◌, arith, Address, ◌==◌,
  if◌then◌else◌,
}
use native.Mathlib.Decide.{ℕ_discrete}

abbrev pub Table : Type 0
Table = List (Address × Address)

unfoldable pub get : Table → Address → Option Address
get [] key = none
get ((k, v) ∷ rest) key = let other = get rest key in if k == key then some v else other

unfoldable pub insert : Table → Address → Address → Table
insert [] key value = (key, value) ∷ []
insert ((k, v) ∷ rest) key value =
    let other = insert rest key value in if k == key then (k, value) ∷ rest else (k, v) ∷ other

unfoldable pub remove : Table → Address → Table
remove [] key = []
remove ((k, v) ∷ rest) key =
    let other = remove rest key in if k == key then rest else (k, v) ∷ other

abbrev pub keys : Table → List Address
keys [] = []
keys ((k, _) ∷ rest) = k ∷ keys rest

unfoldable pub mmtk_post_bind_mutator : Table → (mutator original_box : Address) → Table
mmtk_post_bind_mutator t mutator original_box = insert t mutator original_box

-- The table afterwards, and the box that is dropped; `none` for the panic on an unknown mutator.
unfoldable pub destroy_found : Table → Address → Option Address → Option (Table × Address)
destroy_found t mutator none = none
destroy_found t mutator (some orig_mutator) = some (remove t mutator, orig_mutator)

unfoldable pub mmtk_destroy_mutator : Table → Address → Option (Table × Address)
mmtk_destroy_mutator t mutator = destroy_found t mutator (get t mutator)

-- No key stands in the table twice.
abbrev pub Absent : Address → Table → Type 0
Absent key [] = Unit
Absent key ((k, _) ∷ rest) = (k ≢ key) × Absent key rest

abbrev pub IsTable : Table → Type 0
IsTable [] = Unit
IsTable ((k, _) ∷ rest) = Absent k rest × IsTable rest

hit : {A : Type 0} (k key : Address) (x y : A) → k ≡ key → (if k == key then x else y) ≡ x
hit k key x y e = grind arith

miss : {A : Type 0} (k key : Address) (x y : A) → k ≢ key → (if k == key then x else y) ≡ y
miss k key x y e = grind arith

get-Absent : (t : Table) (key : Address) → Absent key t → get t key ≡ none
unfolding get
get-Absent [] key h = refl
get-Absent ((k, v) ∷ rest) key (ne, h) =
    miss k key (some v) (get rest key) ne ∙ get-Absent rest key h

-- A property of both branches, each under the outcome of its test.
if_split :
    {A : Type 0} (P : A → Type 0) (k key : Address) (x y : A)
    → (k ≡ key → P x)
    → (k ≢ key → P y)
    → P (if k == key then x else y)
if_split P k key x y f g = elim (ℕ_discrete k key) [
  | yes e ↦ rw (hit k key x y e) (f e)
  | no ne ↦ rw (miss k key x y ne) (g ne)
]

insert-Absent :
    (t : Table) (k key value : Address) → k ≢ key → Absent k t → Absent k (insert t key value)
unfolding insert
insert-Absent [] k key value ne h = (λ e. ne (sym e), tt)
insert-Absent ((j, v) ∷ rest) k key value ne (h, hs) =
    if_split (Absent k) j key ((j, value) ∷ rest) ((j, v) ∷ insert rest key value) (λ _. (h, hs))
      (λ _. (h, insert-Absent rest k key value ne hs))

remove-Absent : (t : Table) (k key : Address) → Absent k t → Absent k (remove t key)
unfolding remove
remove-Absent [] k key h = tt
remove-Absent ((j, v) ∷ rest) k key (h, hs) =
    if_split (Absent k) j key rest ((j, v) ∷ remove rest key) (λ _. hs)
      (λ _. (h, remove-Absent rest k key hs))

insert-IsTable : (t : Table) (key value : Address) → IsTable t → IsTable (insert t key value)
unfolding insert
insert-IsTable [] key value h = (tt, tt)
insert-IsTable ((k, v) ∷ rest) key value (h, hs) =
    if_split IsTable k key ((k, value) ∷ rest) ((k, v) ∷ insert rest key value) (λ _. (h, hs))
      (λ ne. (insert-Absent rest k key value ne h, insert-IsTable rest key value hs))

remove-IsTable : (t : Table) (key : Address) → IsTable t → IsTable (remove t key)
unfolding remove
remove-IsTable [] key h = tt
remove-IsTable ((k, v) ∷ rest) key (h, hs) =
    if_split IsTable k key rest ((k, v) ∷ remove rest key) (λ _. hs)
      (λ _. (remove-Absent rest k key h, remove-IsTable rest key hs))

get-insert : (t : Table) (key value : Address) → get (insert t key value) key ≡ some value
unfolding get insert
get-insert [] key value = hit key key (some value) none refl
get-insert ((k, v) ∷ rest) key value =
    if_split (λ u. get u key ≡ some value) k key ((k, value) ∷ rest)
      ((k, v) ∷ insert rest key value) (λ e. hit k key (some value) (get rest key) e)
      (λ ne. miss k key (some v) (get (insert rest key value) key) ne ∙ get-insert rest key value)

get-insert_other :
    (t : Table) (key value other : Address)
    → key ≢ other
    → get (insert t key value) other ≡ get t other
unfolding get insert
get-insert_other [] key value other ne = miss key other (some value) none ne
get-insert_other ((k, v) ∷ rest) key value other ne =
    if_split (λ u. get u other ≡ get ((k, v) ∷ rest) other) k key ((k, value) ∷ rest)
      ((k, v) ∷ insert rest key value)
      (λ e.
        miss k other (some value) (get rest other) (λ f. ne (sym e ∙ f))
        ∙ sym (miss k other (some v) (get rest other) (λ f. ne (sym e ∙ f))))
      (λ _. ap (λ o. if k == other then some v else o) (get-insert_other rest key value other ne))

get-remove : (t : Table) (key : Address) → IsTable t → get (remove t key) key ≡ none
unfolding get remove
get-remove [] key h = refl
get-remove ((k, v) ∷ rest) key (h, hs) =
    if_split (λ u. get u key ≡ none) k key rest ((k, v) ∷ remove rest key)
      (λ e. get-Absent rest key (rw (sym e) h))
      (λ ne. miss k key (some v) (get (remove rest key) key) ne ∙ get-remove rest key hs)

get-remove_other :
    (t : Table) (key other : Address) → key ≢ other → get (remove t key) other ≡ get t other
unfolding get remove
get-remove_other [] key other ne = refl
get-remove_other ((k, v) ∷ rest) key other ne =
    if_split (λ u. get u other ≡ get ((k, v) ∷ rest) other) k key rest ((k, v) ∷ remove rest key)
      (λ e. sym (miss k other (some v) (get rest other) (λ f. ne (sym e ∙ f))))
      (λ _. ap (λ o. if k == other then some v else o) (get-remove_other rest key other ne))

-- Binding a mutator keeps the keys distinct, makes the box be found under the mutator, and changes
-- what is found under no other.
pub mmtk_post_bind_mutator_lem :
    (t : Table) (mutator original_box : Address)
    → IsTable t
    → IsTable (mmtk_post_bind_mutator t mutator original_box)
      × (get (mmtk_post_bind_mutator t mutator original_box) mutator ≡ some original_box)
      × ((other : Address)
          → mutator ≢ other
          → get (mmtk_post_bind_mutator t mutator original_box) other ≡ get t other)
unfolding mmtk_post_bind_mutator
mmtk_post_bind_mutator_lem t mutator original_box ok = (
  insert-IsTable t mutator original_box ok,
  get-insert t mutator original_box,
  λ other ne. get-insert_other t mutator original_box other ne,
)

-- Destroying a mutator that was bound drops its box, keeps the keys distinct, leaves nothing under
-- the mutator, and changes what is found under no other.
pub mmtk_destroy_mutator_lem :
    (t : Table) (mutator box : Address)
    → IsTable t
    → get t mutator ≡ some box
    → (mmtk_destroy_mutator t mutator ≡ some (remove t mutator, box))
      × IsTable (remove t mutator)
      × (get (remove t mutator) mutator ≡ none)
      × ((other : Address) → mutator ≢ other → get (remove t mutator) other ≡ get t other)
unfolding mmtk_destroy_mutator destroy_found
mmtk_destroy_mutator_lem t mutator box ok e = (
  ap (destroy_found t mutator) e,
  remove-IsTable t mutator ok,
  get-remove t mutator ok,
  λ other ne. get-remove_other t mutator other ne,
)
