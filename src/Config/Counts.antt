-- ===== src/Config/Counts.antt =====
-- How often a shard ID of signer/config.go occurs, and what sums of such counts say.
use horcrux.Prelude.{
  ℕ, zero, suc, ◌+◌, ◌≤◌, ◌<◌, ◌==◌, leb, ℤ, pos, negsuc, int_Eq, ◌=?◌, Bool, true, ◌&&◌, not, List,
  [], ◌∷◌, length, ltb_ℤ, if◌then◌else◌, ◌≡◌, refl, arith, inl, inr, Bool-cases,
}

unfoldable pub count : ℤ → List ℤ → ℕ
count k [] = 0
count k (x ∷ xs) = let rest = count k xs in if k =? x then suc rest else rest

abbrev pub in_range : (n : ℕ) → ℤ → Bool
in_range n x = not (ltb_ℤ x (pos 1)) && not (ltb_ℤ (pos n) x)

abbrev pub AllInRange : (n : ℕ) → List ℤ → Type 0
AllInRange n [] = Unit
AllInRange n (x ∷ xs) = (in_range n x ≡ true) × AllInRange n xs

abbrev pub AreDistinct : List ℤ → Type 0
AreDistinct xs = (k : ℤ) → count k xs ≤ 1

-- f 1 + … + f n
abbrev pub sum_to : (ℕ → ℕ) → ℕ → ℕ
sum_to f zero = 0
sum_to f (suc n) = sum_to f n + f (suc n)

abbrev pub counts : List ℤ → ℕ → ℕ
counts xs k = count (pos k) xs

sum_to-count :
    (x : ℤ) (xs : List ℤ) (n : ℕ)
    → sum_to (counts (x ∷ xs)) n ≡ sum_to (counts xs) n + (if in_range n x then 1 else 0)
unfolding count
sum_to-count (pos x) xs zero = ground arith
sum_to-count (negsuc x) xs zero = ground arith
sum_to-count (pos x) xs (suc n) = ground (arith, sum_to-count (pos x) xs n)
sum_to-count (negsuc x) xs (suc n) = ground (arith, sum_to-count (negsuc x) xs n)

sum_to-zero : (n : ℕ) → sum_to (counts []) n ≡ 0
unfolding count
sum_to-zero zero = refl
sum_to-zero (suc n) = omega (arith, sum_to-zero n)

-- Where all are from 1 to n, the counts of 1 to n add up to the length.
pub sum_to-length : (n : ℕ) (xs : List ℤ) → AllInRange n xs → sum_to (counts xs) n ≡ length xs
sum_to-length n [] h = sum_to-zero n
sum_to-length n (x ∷ xs) h = ground (arith, sum_to-count x xs n, sum_to-length n xs h.1)

module _ (f : ℕ → ℕ) (single : (k : ℕ) → f k ≤ 1) where
  sum_to-le : (n : ℕ) → sum_to f n ≤ n
  sum_to-le zero = omega arith
  sum_to-le (suc n) = omega (arith, sum_to-le n, single (suc n))

  -- n times at most 1 add up to n where each of them is 1.
  pub sum_to-full : (n k : ℕ) → sum_to f n ≡ n → 1 ≤ k → k ≤ n → f k ≡ 1
  sum_to-full zero k h low high = absurd (omega arith)
  sum_to-full (suc n) k h low high = elim (Bool-cases (k == suc n)) [
    | inl e ↦ ground (arith, sum_to-le n, single (suc n))
    | inr e ↦ sum_to-full n k (omega (arith, sum_to-le n, single (suc n))) low (ground arith)
  ]

  -- Two sums of that kind that exceed n together are both 1 at one number.
  pub sum_to-meet :
      (g : ℕ → ℕ) (alone : (k : ℕ) → g k ≤ 1) (n : ℕ)
      → n < sum_to f n + sum_to g n
      → (k : ℕ) × (1 ≤ k) × (k ≤ n) × (f k ≡ 1) × (g k ≡ 1)
  sum_to-meet g alone zero h = absurd (omega arith)
  sum_to-meet g alone (suc n) h = elim (Bool-cases (leb 2 (f (suc n) + g (suc n)))) [
    | inl both ↦ (
      suc n,
      omega arith,
      omega arith,
      ground (arith, single (suc n), alone (suc n)),
      ground (arith, single (suc n), alone (suc n)),
    )
    | inr lone ↦
        let (k, low, high, p, q) = sum_to-meet g alone n (ground arith) in
        (k, low, omega arith, p, q)
  ]
