-- ===== src/Mutators/Iterator.antt =====
-- mmtk/src/active_plan.rs: `JuliaMutatorIterator`, `number_of_mutators`, `is_mutator` and the
-- iterator that C uses. A mutator is its address; `tls` reads its thread pointer.
use mmtk_julia.Base.{
  ℕ, zero, suc, ◌+◌, ◌≤◌, ◌≡◌, refl, sym, ap, ap₂, ◌∙◌, Bool, false, ◌||◌, Option, none, some, List,
  [], ◌∷◌, ◌++◌, map, arith, Address, ◌==◌, length, length-append, append_assoc, get_elem?,
}
use mmtk_julia.Mutators.Table.{Table, keys}

pub record JuliaMutatorIterator : Type 0 where
  pub vec : List Address
  pub cursor : ℕ

abbrev pub new : Table → JuliaMutatorIterator
new guard = record { vec = keys guard; cursor = 0 }

unfoldable pub next : JuliaMutatorIterator → Option Address × JuliaMutatorIterator
next it =
    let mutator_idx = it.cursor in
    (get_elem? it.vec mutator_idx, record it { cursor = suc it.cursor })

abbrev pub count_step : Option Address → Option ℕ → Option ℕ
count_step none rest = some 0
count_step (some m) none = none
count_step (some m) (some n) = some (suc n)

-- `count` of the standard library, which calls `next` until it gives `none`.
unfoldable pub count : ℕ → JuliaMutatorIterator → Option ℕ
unfolding next
count zero it = none
count (suc fuel) it = let rest = count fuel ((next it).1) in count_step ((next it).0) rest

module _ (tls : Address → Address) where
  unfoldable pub is_mutator : Table → Address → Bool
  is_mutator [] t = false
  is_mutator ((k, _) ∷ rest) t = (tls k == t) || is_mutator rest t

  abbrev pub tls_or_zero : Option Address → Address
  tls_or_zero none = 0
  tls_or_zero (some m) = tls m

  unfoldable pub mmtk_get_next_mutator_tls : JuliaMutatorIterator → Address × JuliaMutatorIterator
  mmtk_get_next_mutator_tls it = (tls_or_zero ((next it).0), (next it).1)

  -- C's loop over the iterator: `n` calls.
  unfoldable pub calls : ℕ → JuliaMutatorIterator → List Address
  calls zero it = []
  calls (suc n) it = let (t, it2) = mmtk_get_next_mutator_tls it in t ∷ calls n it2

pub get_elem?-beyond : (xs : List Address) (i : ℕ) → length xs ≤ i → get_elem? xs i ≡ none
get_elem?-beyond [] i beyond = refl
get_elem?-beyond (x ∷ xs) zero beyond = absurd (omega arith)
get_elem?-beyond (x ∷ xs) (suc i) beyond = get_elem?-beyond xs i (omega arith)

pub get_elem?-middle :
    (xs : List Address) (x : Address) (ys : List Address)
    → get_elem? (xs ++ x ∷ ys) (length xs) ≡ some x
get_elem?-middle [] x ys = refl
get_elem?-middle (y ∷ xs) x ys = get_elem?-middle xs x ys

abbrev pub zeros : ℕ → List Address
zeros zero = []
zeros (suc n) = 0 ∷ zeros n

module _ (tls : Address → Address) where
  calls-beyond :
      (n : ℕ) (vec : List Address) (cursor : ℕ)
      → length vec ≤ cursor
      → calls tls n (record { vec = vec; cursor = cursor }) ≡ zeros n
  unfolding calls mmtk_get_next_mutator_tls next
  calls-beyond zero vec cursor beyond = refl
  calls-beyond (suc n) vec cursor beyond =
      ap₂ (λ t ts. t ∷ ts) (ap (tls_or_zero tls) (get_elem?-beyond vec cursor beyond))
        (calls-beyond n vec (suc cursor) (omega arith))

  calls-rest :
      (n cursor : ℕ) (before rest vec : List Address) (extra : ℕ)
      → vec ≡ before ++ rest
      → cursor ≡ length before
      → n ≡ length rest + extra
      → calls tls n (record { vec = vec; cursor = cursor }) ≡ map tls rest ++ zeros extra
  unfolding calls mmtk_get_next_mutator_tls next
  calls-rest n cursor before [] vec extra e f g =
      calls-beyond n vec cursor (omega (arith, f, ap length e, length-append before []))
      ∙ ap zeros (let same : n ≡ extra = omega arith in same)
  calls-rest zero cursor before (m ∷ rest) vec extra e f g = absurd (omega arith)
  calls-rest (suc n) cursor before (m ∷ rest) vec extra e f g =
      ap₂ (λ t ts. t ∷ ts)
        (ap (tls_or_zero tls) (ap₂ (λ v c. get_elem? v c) e f ∙ get_elem?-middle before m rest))
        (calls-rest n (suc cursor) (before ++ m ∷ []) rest vec extra
          (e ∙ sym (append_assoc before (m ∷ []) rest))
          (omega (arith, length-append before (m ∷ []))) (omega arith))

-- A fresh iterator gives the thread pointer of every mutator in the table, once each, and from then
-- on zero, however often it is called.
pub calls-keys :
    (tls : Address → Address) (t : Table) (extra : ℕ)
    → calls tls (length (keys t) + extra) (new t) ≡ map tls (keys t) ++ zeros extra
calls-keys tls t extra =
    calls-rest tls (length (keys t) + extra) 0 [] (keys t) (keys t) extra refl refl refl

-- `vm_trace_object`: an object of no space of mmtk-core's is queued, and does not move.
unfoldable pub vm_trace_object : (queue : List Address) → Address → Address × List Address
vm_trace_object queue object = (object, queue ++ object ∷ [])
