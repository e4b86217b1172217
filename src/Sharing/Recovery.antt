-- ===== src/Sharing/Recovery.antt =====
-- `CombineShares` of signer/tsed25519/ed25519.go gives back the constant of a polynomial whose values are
-- the shares.
use horcrux.Prelude.{
  ℕ, ℤ, pos, zero, suc, ◌+◌, ◌*◌, ◌/◌, ◌%◌, ◌^◌, ◌<◌, ◌≡◌, refl, sym, ap, ◌∙◌, arith, List, [], ◌∷◌,
  map, Bool, true, ◌&&◌, ◌==◌, length, residue, ◌*ℤ◌,
}
use native.Mathlib.Nat.{mod-mod, mul_assoc, mul_comm, mul-one, pow-suc}
use horcrux.Outcome.{ok}
use horcrux.Sharing.{
  order_l, bytes_to_big, to_bytes, calc_omega, factorial, weigh, combine_shares, mod_inverse,
}
use horcrux.Sharing.Modular.{mul-mod-mod, mul_congr, add_congr, residue-mul}
use horcrux.Sharing.Moments.{Points, eval, mass, scale, weighted, cancels, weighted-constant}

-- A number below 256 to the `size` comes back from its bytes.
pub bytes_to_big-to_bytes : (size n : ℕ) → n < 256 ^ size → bytes_to_big (to_bytes size n) ≡ n
unfolding bytes_to_big to_bytes
bytes_to_big-to_bytes zero n h = omega arith
bytes_to_big-to_bytes (suc size) n h =
    omega (arith, bytes_to_big-to_bytes size (n / 256) (omega (arith, pow-suc 256 size)))

-- The shares of a polynomial at the places `xs`.
abbrev pub SharesOf : List ℕ → List ℕ → List (List ℕ) → Type 0
SharesOf cs [] [] = Unit
SharesOf cs [] (s ∷ ss) = ⊥
SharesOf cs (x ∷ xs) [] = ⊥
SharesOf cs (x ∷ xs) (s ∷ ss) = (bytes_to_big s % order_l ≡ eval x cs % order_l) × SharesOf cs xs ss

unfoldable pub weights : List ℕ → ℕ → List ℕ → Points
weights all delta [] = []
weights all delta (x ∷ xs) =
    (residue order_l (calc_omega (pos x) (map pos all) delta), x) ∷ weights all delta xs

-- The weights that `CombineShares` gives these players read off a constant, and its last factor undoes the
-- factorial.
unfoldable pub recovers : ℕ → List ℕ → Bool
recovers total [] = true
recovers total (x ∷ xs) =
    let ps = weights (x ∷ xs) (factorial total) (x ∷ xs) in
    (mass ps % order_l == factorial total % order_l)
    && cancels order_l (length xs) (scale ps)
    && (factorial total * mod_inverse (factorial total) order_l % order_l == 1)

order_l_pos : 0 < order_l
order_l_pos = omega arith

weigh-weighted :
    (all : List ℕ) (delta : ℕ) (cs xs : List ℕ) (ss : List (List ℕ))
    → SharesOf cs xs ss
    → (r : ℕ) × (weigh (map pos all) delta (map pos xs) ss ≡ ok r)
      × (r % order_l ≡ weighted (weights all delta xs) cs % order_l)
unfolding weigh weights
weigh-weighted all delta cs [] [] h = (0, refl, refl)
weigh-weighted all delta cs [] (s ∷ ss) h = absurd h
weigh-weighted all delta cs (x ∷ xs) [] h = absurd h
weigh-weighted all delta cs (x ∷ xs) (s ∷ ss) h =
    let (r, e, f) = weigh-weighted all delta cs xs ss h.1 in
    let w : ℤ = calc_omega (pos x) (map pos all) delta in
    (
      residue order_l (pos (bytes_to_big s) *ℤ w) + r,
      rw e refl,
      add_congr (residue order_l (pos (bytes_to_big s) *ℤ w)) (residue order_l w * eval x cs) r
          (weighted (weights all delta xs) cs) order_l
          (ap (λ t. t % order_l) (residue-mul order_l (bytes_to_big s) w order_l_pos)
            ∙ mod-mod (bytes_to_big s * residue order_l w) order_l
            ∙ mul_congr (bytes_to_big s) (eval x cs) (residue order_l w) order_l h.0
            ∙ ap (λ t. t % order_l) (mul_comm (eval x cs) (residue order_l w)))
          f,
    )

-- The shares of a polynomial of a lower degree than there are players combine to its constant.
pub combine_shares-constant :
    (total c : ℕ) (cs xs : List ℕ) (ss : List (List ℕ))
    → recovers total xs ≡ true
    → length cs < length xs
    → SharesOf (c ∷ cs) xs ss
    → combine_shares total (map pos xs) ss ≡ ok (to_bytes 32 (c % order_l))
unfolding combine_shares recovers
combine_shares-constant total c cs [] ss h l s = absurd (omega arith)
combine_shares-constant total c cs (x ∷ xs) ss h l s =
    let ps : Points = weights (x ∷ xs) (factorial total) (x ∷ xs) in
    let inverse : ℕ = mod_inverse (factorial total) order_l in
    let (r, e, f) = weigh-weighted (x ∷ xs) (factorial total) (c ∷ cs) (x ∷ xs) ss s in
    let sums : mass ps % order_l ≡ factorial total % order_l = ground arith in
    let zeros : cancels order_l (length xs) (scale ps) ≡ true = ground arith in
    let undone : factorial total * inverse % order_l ≡ 1 = ground arith in
    rw e (
      ap (λ t. ok (to_bytes 32 t))
        (mul_congr r (c * factorial total) inverse order_l (
            f
            ∙ weighted-constant order_l (length xs) (factorial total) ps c cs sums zeros
                (omega arith))
          ∙ ap (λ t. t % order_l) (mul_assoc c (factorial total) inverse)
          ∙ sym (mul-mod-mod c (factorial total * inverse) order_l)
          ∙ ap (λ t. c * t % order_l) undone
          ∙ ap (λ t. t % order_l) (mul-one c)))
