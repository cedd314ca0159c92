-- ===== src/Bitfield/Raw.antt =====
-- The `raw` operations of `__BindgenBitfieldUnit` on memory do what the safe ones do on the bytes
-- that stand there.
use mmtk_julia.Base.{
  ℕ, zero, suc, ◌+◌, ◌*◌, ◌/◌, ◌^◌, ◌<◌, ◌≤◌, ◌≡◌, ◌≢◌, ◌⊎◌, refl, sym, ap, ap₂, ◌∙◌, Bool, some,
  ◌∷◌, arith, get_elem?, values, Address, Bytes, add_word, ==_of_ne, ==_self,
}
use mmtk_julia.Bitfield.Storage.{
  BindgenBitfieldUnit, get_bit, set_byte, set_bit, value_bit, get, set, raw_get_bit, raw_set_bit,
  raw_get, raw_set,
}

-- The `n` bytes at `this`.
abbrev pub bytes_at : Bytes → Address → ℕ → BindgenBitfieldUnit
bytes_at m this n = values (λ k. m (add_word this k)) 0 n

get_elem-values :
    (f : ℕ → ℕ) (i n k p : ℕ) → k < n → p ≡ k + i → get_elem? (values f i n) k ≡ some (f p)
get_elem-values f i zero k p h e = absurd (omega arith)
get_elem-values f i (suc n) zero p h e = ap some (ap f (let e' : i ≡ p = omega arith in e'))
get_elem-values f i (suc n) (suc k) p h e =
    get_elem-values f (suc i) n k p (omega arith) (omega arith)

values_same :
    (f g : ℕ → ℕ) (i n : ℕ)
    → ((k : ℕ) → i ≤ k → k < i + n → f k ≡ g k)
    → values f i n ≡ values g i n
values_same f g i zero same = refl
values_same f g i (suc n) same =
    ap₂ ◌∷◌ (same i (omega arith) (omega arith))
      (values_same f g (suc i) n (λ k lo hi. same k (omega arith) (omega arith)))

-- A byte of the list is set where the memory is.
set_byte-values :
    (f g : ℕ → ℕ) (i n k p b : ℕ)
    → k < n
    → p ≡ k + i
    → g p ≡ b
    → ((j : ℕ) → i ≤ j → j < i + n → j ≢ p → g j ≡ f j)
    → set_byte (values f i n) k b ≡ some (values g i n)
set_byte-values f g i zero k p b h e here other = absurd (omega arith)
set_byte-values f g i (suc n) zero p b h e here other = ap some (
    ap₂ ◌∷◌ (sym here ∙ ap g (let e' : p ≡ i = omega arith in e')) (
      values_same f g (suc i) n
        (λ j lo hi. sym (other j (omega arith) (omega arith) (λ q. omega arith)))))
set_byte-values f g i (suc n) (suc k) p b h e here other =
    rw
      (set_byte-values f g (suc i) n k p b (omega arith) (omega arith) here
        (λ j lo hi ne. other j (omega arith) (omega arith) ne))
      (ap (λ v. some (v ∷ values g (suc i) n))
        (sym (other i (omega arith) (omega arith) (λ q. omega arith))))

get_bit-bytes_at :
    (m : Bytes) (this : Address) (n j : ℕ)
    → j < 8 * n
    → get_bit (bytes_at m this n) j ≡ some (raw_get_bit m this j)
get_bit-bytes_at m this n j h =
    rw (get_elem-values (λ k. m (add_word this k)) 0 n (j / 8) (j / 8) (omega arith) (omega arith))

set_bit-bytes_at :
    (m : Bytes) (this : Address) (n j : ℕ) (v : Bool)
    → this + n ≤ 2 ^ 64
    → j < 8 * n
    → set_bit (bytes_at m this n) j v ≡ some (bytes_at (raw_set_bit m this j v) this n)
set_bit-bytes_at m this n j v top h =
    rw (get_elem-values (λ k. m (add_word this k)) 0 n (j / 8) (j / 8) (omega arith) (omega arith))
      (set_byte-values (λ k. m (add_word this k)) (λ k. raw_set_bit m this j v (add_word this k)) 0
        n (j / 8) (j / 8) _ (omega arith) (omega arith) (rw (==_self (add_word this (j / 8))))
        (λ k lo hi ne.
          rw (==_of_ne (add_word this k) (add_word this (j / 8)) (λ e. ne (omega arith)))))

raw_get-bytes_at :
    (m : Bytes) (this : Address) (n off w : ℕ)
    → off + w ≤ 8 * n
    → get (bytes_at m this n) off w ≡ some (raw_get m this off w)
unfolding get raw_get
raw_get-bytes_at m this n off zero h = refl
raw_get-bytes_at m this n off (suc w) h = rw (
  raw_get-bytes_at m this n off w (omega arith),
  get_bit-bytes_at m this n (w + off) (omega arith),
)

raw_set-bytes_at :
    (m : Bytes) (this : Address) (n off w val : ℕ)
    → this + n ≤ 2 ^ 64
    → off + w ≤ 8 * n
    → set (bytes_at m this n) off w val ≡ some (bytes_at (raw_set m this off w val) this n)
unfolding set raw_set
raw_set-bytes_at m this n off zero val top h = refl
raw_set-bytes_at m this n off (suc w) val top h =
    rw (raw_set-bytes_at m this n off w val top (omega arith)) (
      set_bit-bytes_at (raw_set m this off w val) this n (w + off) (value_bit val w) top
        (omega arith))

raw_set-outside :
    (m : Bytes) (this : Address) (n off w val : ℕ)
    → this + n ≤ 2 ^ 64
    → off + w ≤ 8 * n
    → (a : Address) → (a < this) ⊎ (this + n ≤ a)
    → raw_set m this off w val a ≡ m a
unfolding raw_set
raw_set-outside m this n off zero val top h a out = refl
raw_set-outside m this n off (suc w) val top h a out =
    rw (==_of_ne a (add_word this ((w + off) / 8)) (λ e. ground arith))
      (raw_set-outside m this n off w val top (omega arith) a out)

-- Over the `n` bytes at `this`, within the address space: where the field fits, `raw_get` reads what
-- `get` reads from them, and `raw_set` leaves there what `set` makes of them, and changes no other
-- byte.
pub raw-bytes_at :
    (m : Bytes) (this : Address) (n off w val : ℕ)
    → this + n ≤ 2 ^ 64
    → off + w ≤ 8 * n
    → (get (bytes_at m this n) off w ≡ some (raw_get m this off w))
      × (set (bytes_at m this n) off w val ≡ some (bytes_at (raw_set m this off w val) this n))
      × ((a : Address) → (a < this) ⊎ (this + n ≤ a) → raw_set m this off w val a ≡ m a)
raw-bytes_at m this n off w val top h = (
  raw_get-bytes_at m this n off w h,
  raw_set-bytes_at m this n off w val top h,
  raw_set-outside m this n off w val top h,
)
