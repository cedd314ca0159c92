-- ===== src/Finalizer/ArrayList/Contents.antt =====
-- The entries of a list under `set` and `push`.
use mmtk_julia.Base.{
  ℕ, zero, suc, ◌+◌, ◌-◌, ◌^◌, ◌≤◌, ◌<◌, ◌≡◌, ◌⊎◌, inr, refl, ap, ap₂, ◌∙◌, [], ◌∷◌, ◌++◌, arith,
  Address, values,
}
use mmtk_julia.Finalizer.ArrayList.Defs.{ArrayListT, update, contents, grow, push, GrowKeeps}

module _ {ℓ} {A : Type ℓ} where
  pub values-ext :
      (f g : ℕ → A) (i n : ℕ)
      → ((k : ℕ) → i ≤ k → k < i + n → f k ≡ g k)
      → values f i n ≡ values g i n
  values-ext f g i zero same = refl
  values-ext f g i (suc n) same =
      ap₂ ◌∷◌ (same i (omega arith) (omega arith))
        (values-ext f g (suc i) n λ k low high. same k (omega arith) (omega arith))

  pub values-last : (f : ℕ → A) (i n : ℕ) → values f i (suc n) ≡ values f i n ++ f (i + n) ∷ []
  values-last f i zero = ap (λ k. f k ∷ []) (omega arith)
  values-last f i (suc n) =
      ap (λ l. f i ∷ l)
        (values-last f (suc i) n ∙ ap (λ k. values f (suc i) n ++ f k ∷ []) (omega arith))

  pub values-split :
      (f : ℕ → A) (i m n k : ℕ) → m + n ≡ k → values f i k ≡ values f i m ++ values f (i + m) n
  values-split f i zero n k e =
      ap₂ (values f) (let z : i ≡ i + 0 = omega arith in z) (let z : k ≡ n = omega arith in z)
  values-split f i (suc m) n zero e = absurd (omega arith)
  values-split f i (suc m) n (suc k) e =
      ap (λ l. f i ∷ l)
        (values-split f (suc i) m n k (omega arith)
          ∙ ap (λ j. values f (suc i) m ++ values f j n) (omega arith))

pub values-update_outside :
    (f : ℕ → Address) (i n k : ℕ) (v : Address)
    → (k < i) ⊎ (i + n ≤ k)
    → values (update f k v) i n ≡ values f i n
values-update_outside f i n k v out = values-ext (update f k v) f i n λ j low high. ground arith

pub get-grow :
    (arraylist_grow : ArrayListT → ℕ → ArrayListT)
    → GrowKeeps arraylist_grow
    → (l : ArrayListT) (i : ℕ) → i < l.len
    → (grow arraylist_grow l 1).items i ≡ l.items i
unfolding grow
get-grow arraylist_grow keeps l i low = ground (arith, keeps l 1 i)

pub len-grow :
    (arraylist_grow : ArrayListT → ℕ → ArrayListT) (l : ArrayListT)
    → l.len + 1 < 2 ^ 64
    → (grow arraylist_grow l 1).len ≡ suc l.len
unfolding grow
len-grow arraylist_grow l fits = omega arith

pub len-push :
    (arraylist_grow : ArrayListT → ℕ → ArrayListT) (l : ArrayListT) (v : Address)
    → l.len + 1 < 2 ^ 64
    → (push arraylist_grow l v).len ≡ suc l.len
unfolding push
len-push arraylist_grow l v fits = len-grow arraylist_grow l fits

-- A push adds its value behind the entries.
pub contents-push :
    (arraylist_grow : ArrayListT → ℕ → ArrayListT)
    → GrowKeeps arraylist_grow
    → (l : ArrayListT) (v : Address) → l.len + 1 < 2 ^ 64
    → contents (push arraylist_grow l v) ≡ contents l ++ v ∷ []
unfolding push
contents-push arraylist_grow keeps l v fits =
    let g = grow arraylist_grow l 1 in
    let e : g.len ≡ suc l.len = len-grow arraylist_grow l fits in
    rw e (
      values-last (update g.items (suc l.len - 1) v) 0 l.len
      ∙ ap₂ (λ xs x. xs ++ x ∷ [])
          (values-update_outside g.items 0 l.len (suc l.len - 1) v (inr (omega arith))
            ∙ values-ext g.items l.items 0 l.len
                λ k low high. get-grow arraylist_grow keeps l k (omega arith))
          (ground arith))
