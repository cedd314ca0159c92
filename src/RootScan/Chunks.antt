-- ===== src/RootScan/Chunks.antt =====
-- Packets of roots: `chunks(CAPACITY_PER_PACKET)` in mmtk/src/scanning.rs.
use mmtk_julia.Base.{
  ℕ, zero, suc, ◌<◌, ◌≤◌, ◌≡◌, refl, ap, ◌∙◌, List, [], ◌∷◌, ◌++◌, arith, length, take, drop,
  take-append-drop, length-take, length-drop,
}

abbrev pub capacity_per_packet : ℕ
capacity_per_packet = 4096

-- `slice::chunks` of the standard library: pieces of `n` elements, the last of which may be shorter.
-- Each takes at least one element, so the length of the list is enough fuel.
abbrev pub chunks_of {ℓ} : {A : Type ℓ} → ℕ → ℕ → List A → List (List A)
chunks_of zero n xs = []
chunks_of (suc fuel) n [] = []
chunks_of (suc fuel) n (x ∷ xs) = take n (x ∷ xs) ∷ chunks_of fuel n (drop n (x ∷ xs))

abbrev pub chunks {ℓ} : {A : Type ℓ} → ℕ → List A → List (List A)
chunks n xs = chunks_of (length xs) n xs

abbrev pub concat {ℓ} : {A : Type ℓ} → List (List A) → List A
concat [] = []
concat (xs ∷ xss) = xs ++ concat xss

-- Every packet has a root and at most `n` of them.
abbrev pub ArePackets {ℓ} : {A : Type ℓ} → ℕ → List (List A) → Type 0
ArePackets n [] = Unit
ArePackets n (p ∷ ps) = (0 < length p) × (length p ≤ n) × ArePackets n ps

module _ {ℓ} {A : Type ℓ} (n : ℕ) (some_room : 0 < n) where
  chunks_of-concat : (fuel : ℕ) (xs : List A) → length xs ≤ fuel → concat (chunks_of fuel n xs) ≡ xs
  chunks_of-concat zero [] enough = refl
  chunks_of-concat zero (x ∷ xs) enough = absurd (omega arith)
  chunks_of-concat (suc fuel) [] enough = refl
  chunks_of-concat (suc fuel) (x ∷ xs) enough =
      let left : length (drop n (x ∷ xs)) ≤ fuel = omega (arith, length-drop n (x ∷ xs)) in
      ap (λ ys. take n (x ∷ xs) ++ ys) (chunks_of-concat fuel (drop n (x ∷ xs)) left)
      ∙ take-append-drop n (x ∷ xs)

  chunks_of-ArePackets : (fuel : ℕ) (xs : List A) → ArePackets n (chunks_of fuel n xs)
  chunks_of-ArePackets zero xs = tt
  chunks_of-ArePackets (suc fuel) [] = tt
  chunks_of-ArePackets (suc fuel) (x ∷ xs) =
      let l = length-take n (x ∷ xs) in
      (omega (arith, l), omega (arith, l), chunks_of-ArePackets fuel (drop n (x ∷ xs)))

  pub chunks-concat : (xs : List A) → concat (chunks n xs) ≡ xs
  chunks-concat xs = chunks_of-concat (length xs) xs (omega arith)

  pub chunks-ArePackets : (xs : List A) → ArePackets n (chunks n xs)
  chunks-ArePackets xs = chunks_of-ArePackets (length xs) xs
