-- ===== src/Sharing/Quorums.antt =====
-- The players for whom the weights of `CombineShares` in signer/tsed25519/ed25519.go are right: int64
-- holds them for every choice of players from a cluster of up to 8.
use horcrux.Prelude.{
  ℕ, zero, suc, ◌+◌, ◌≤◌, ◌<◌, ◌≡◌, refl, arith, subst, sym, to_int64, ◌-ℤ◌, List, [], ◌∷◌, Bool,
  true, ◌&&◌, ◌==◌, Bool-cases, inl, inr,
}
use horcrux.Sharing.{calc_omega, mod_inverse}
use horcrux.Sharing.Recovery.{weights, recovers}

-- Identifiers in ascending order, above `low` and up to `high`.
abbrev pub Between : (low high : ℕ) → List ℕ → Type 0
Between low high [] = Unit
Between low high (x ∷ xs) = (low < x) × (x ≤ high) × Between x high xs

-- a test at every such list, with `left` identifiers above `low`
all_above : (left low : ℕ) → (List ℕ → Bool) → Bool
all_above zero low p = p []
all_above (suc left) low p =
    all_above left (suc low) p && all_above left (suc low) (λ ys. p (suc low ∷ ys))

all_above_sound :
    (left low high : ℕ) (p : List ℕ → Bool) (xs : List ℕ)
    → high ≡ left + low
    → all_above left low p ≡ true
    → Between low high xs
    → p xs ≡ true
unfolding all_above
all_above_sound zero low high p [] e h b = h
all_above_sound zero low high p (x ∷ xs) e h b = absurd (omega arith)
all_above_sound (suc left) low high p [] e h b =
    all_above_sound left (suc low) high p [] (omega arith) (ground arith) tt
all_above_sound (suc left) low high p (x ∷ xs) e h b = elim (Bool-cases (x == suc low)) [
  | inl t ↦
      let q : x ≡ suc low = ground arith in
      subst (λ y. p (y ∷ xs) ≡ true) (sym q)
        (all_above_sound left (suc low) high (λ ys. p (suc low ∷ ys)) xs (omega arith)
          (ground arith) (subst (λ y. Between y high xs) q b.2))
  | inr t ↦
      all_above_sound left (suc low) high p (x ∷ xs) (omega arith) (ground arith)
        (ground arith, b.1, b.2)
]

all_totals : ℕ → Bool
unfolding all_above recovers
all_totals zero = true
all_totals (suc n) = all_above (suc n) 0 (recovers (suc n)) && all_totals n

all_totals_sound :
    (n k : ℕ) → all_totals n ≡ true → k < n → all_above (suc k) 0 (recovers (suc k)) ≡ true
unfolding all_totals
all_totals_sound zero k h l = absurd (omega arith)
all_totals_sound (suc n) k h l = elim (Bool-cases (k == n)) [
  | inl e ↦
      let q : n ≡ k = ground arith in
      subst (λ y. all_above (suc y) 0 (recovers (suc y)) ≡ true) q (ground arith)
  | inr e ↦ all_totals_sound n k (ground arith) (ground arith)
]

all_totals_8 : all_totals 8 ≡ true
unfolding all_totals weights calc_omega mod_inverse to_int64 ◌-ℤ◌
all_totals_8 = refl

pub Between-recovers :
    (total : ℕ) (xs : List ℕ) → total ≤ 8 → Between 0 total xs → recovers total xs ≡ true
unfolding recovers
Between-recovers zero [] h b = refl
Between-recovers zero (x ∷ xs) h b = absurd (omega arith)
Between-recovers (suc n) xs h b =
    all_above_sound (suc n) 0 (suc n) (recovers (suc n)) xs (omega arith)
      (all_totals_sound 8 n all_totals_8 (omega arith)) b
