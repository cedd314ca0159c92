-- ===== src/Finalizer/Sweep/Compact.antt =====
-- What a round of the sweep makes of the lists.
use mmtk_julia.Base.{
  ℕ, zero, suc, ◌+◌, ◌^◌, ◌≤◌, ◌<◌, ◌≡◌, refl, ap, ap₂, ◌∙◌, Bool, [], ◌∷◌, ◌++◌, append_assoc,
  arith, Address, ltb, if◌then◌else◌, values,
}
use mmtk_julia.Finalizer.ArrayList.{
  ArrayListT, contents, GrowKeeps, push, contents-push, len-push, values-ext, values-last,
}
use mmtk_julia.Finalizer.Sweep.Defs.{compact, push_pair}
use mmtk_julia.Finalizer.Sweep.Fate.{Fate, chosen}

-- The list of one round's survivors, whether or not it is moved down.
abbrev pub moved : ArrayListT → ℕ → ℕ → ArrayListT
moved list i j = if ltb j i then compact list i j else list

pub moved-above :
    (l : ArrayListT) (i j k : ℕ) → j ≤ i → i + 2 ≤ k → (moved l i j).items k ≡ l.items k
moved-above l i j k h above = ground arith

moved-below : (l : ArrayListT) (i j k : ℕ) → k < j → (moved l i j).items k ≡ l.items k
moved-below l i j k low = ground arith

moved-pair :
    (l : ArrayListT) (i j : ℕ)
    → j ≤ i
    → ((moved l i j).items j ≡ l.items i) × ((moved l i j).items (suc j) ≡ l.items (i + 1))
moved-pair l i j h = (ground arith, ground arith)

values-two :
    (f : ℕ → Address) (j : ℕ) → values f 0 (suc (suc j)) ≡ values f 0 j ++ f j ∷ f (suc j) ∷ []
values-two f j =
    values-last f 0 (suc j)
    ∙ ap₂ (λ xs x. xs ++ x ∷ []) (values-last f 0 j) (ap f (omega arith))
    ∙ append_assoc (values f 0 j) (f (0 + j) ∷ []) (f (suc j) ∷ [])
    ∙ ap (λ x. values f 0 j ++ f x ∷ f (suc j) ∷ []) (omega arith)

pub values-moved :
    (l : ArrayListT) (i j : ℕ)
    → j ≤ i
    → values (moved l i j).items 0 (j + 2) ≡ values l.items 0 j ++ l.items i ∷ l.items (i + 1) ∷ []
values-moved l i j h =
    let f = (moved l i j).items in
    let e : j + 2 ≡ suc (suc j) = omega arith in
    rw e (
      values-two f j
      ∙ ap₂ ◌++◌ (values-ext f l.items 0 j λ k low high. moved-below l i j k (omega arith))
          (ap₂ (λ x y. x ∷ y ∷ []) (moved-pair l i j h).0 (moved-pair l i j h).1))

pub chosen-ext :
    (live : Address → Bool) (want : Fate) (has : Bool) (f g : ℕ → Address) (i n : ℕ)
    → ((k : ℕ) → i ≤ k → f k ≡ g k)
    → chosen live want has f i n ≡ chosen live want has g i n
chosen-ext live want has f g i zero same = refl
chosen-ext live want has f g i (suc n) same = ground (
  arith,
  same i (omega arith),
  same (i + 1) (omega arith),
  chosen-ext live want has f g (i + 2) n (λ k low. same k (omega arith)),
)

pub contents-push_pair :
    (grow : ArrayListT → ℕ → ArrayListT)
    → GrowKeeps grow
    → (l : ArrayListT) (v w : Address) → l.len + 2 < 2 ^ 64
    → contents (push_pair grow l v w) ≡ contents l ++ v ∷ w ∷ []
contents-push_pair grow keeps l v w fits =
    contents-push grow keeps (push grow l v) w (omega (arith, len-push grow l v (omega arith)))
    ∙ ap (λ xs. xs ++ w ∷ []) (contents-push grow keeps l v (omega arith))
    ∙ append_assoc (contents l) (v ∷ []) (w ∷ [])

pub len-push_pair :
    (grow : ArrayListT → ℕ → ArrayListT) (l : ArrayListT) (v w : Address)
    → l.len + 2 < 2 ^ 64
    → (push_pair grow l v w).len ≡ l.len + 2
len-push_pair grow l v w fits = omega (
  arith,
  len-push grow (push grow l v) w (omega (arith, len-push grow l v (omega arith))),
  len-push grow l v (omega arith),
)
