-- ===== src/SoftSigner/Linear.antt =====
-- Sums and multiples of polynomials, whose values the shares of a signature are
-- (signer/threshold_signer_soft.go).
use horcrux.Prelude.{
  ℕ, pos, zero, suc, ◌+◌, ◌*◌, ◌%◌, ◌≤◌, ◌<◌, ◌≡◌, refl, sym, ap, ◌∙◌, arith, List, [], ◌∷◌, map,
  true, length,
}
use native.Mathlib.Nat.{mul-add, mul_left_comm}
use horcrux.Outcome.{ok}
use horcrux.Sharing.{order_l, to_bytes, combine_shares}
use horcrux.Sharing.Moments.{eval}
use horcrux.Sharing.Recovery.{SharesOf, combine_shares-constant, recovers}

abbrev pub add_poly : List ℕ → List ℕ → List ℕ
add_poly [] ds = ds
add_poly (c ∷ cs) [] = c ∷ cs
add_poly (c ∷ cs) (d ∷ ds) = (c + d) ∷ add_poly cs ds

abbrev pub mul_poly : ℕ → List ℕ → List ℕ
mul_poly k [] = []
mul_poly k (c ∷ cs) = (k * c) ∷ mul_poly k cs

regroup : (c d x a b : ℕ) → (c + x * a) + (d + x * b) ≡ c + d + x * (a + b)
regroup c d x a b = omega (arith, mul-add x a b)

pub eval-add_poly : (x : ℕ) (cs ds : List ℕ) → eval x (add_poly cs ds) ≡ eval x cs + eval x ds
eval-add_poly x [] ds = omega arith
eval-add_poly x (c ∷ cs) [] = omega arith
eval-add_poly x (c ∷ cs) (d ∷ ds) =
    ap (λ t. c + d + x * t) (eval-add_poly x cs ds) ∙ sym (regroup c d x (eval x cs) (eval x ds))

pub eval-mul_poly : (x k : ℕ) (cs : List ℕ) → eval x (mul_poly k cs) ≡ k * eval x cs
eval-mul_poly x k [] = omega arith
eval-mul_poly x k (c ∷ cs) =
    ap (λ t. k * c + x * t) (eval-mul_poly x k cs)
    ∙ ap (λ t. k * c + t) (mul_left_comm x k (eval x cs))
    ∙ sym (mul-add k c (x * eval x cs))

pub length-mul_poly : (k : ℕ) (cs : List ℕ) → length (mul_poly k cs) ≡ length cs
length-mul_poly k [] = refl
length-mul_poly k (c ∷ cs) = ap suc (length-mul_poly k cs)

pub length-add_poly-le :
    (n : ℕ) (cs ds : List ℕ) → length cs ≤ n → length ds ≤ n → length (add_poly cs ds) ≤ n
length-add_poly-le n [] ds h k = k
length-add_poly-le n (c ∷ cs) [] h k = h
length-add_poly-le zero (c ∷ cs) (d ∷ ds) h k = absurd (omega arith)
length-add_poly-le (suc n) (c ∷ cs) (d ∷ ds) h k =
    omega (arith, length-add_poly-le n cs ds (omega arith) (omega arith))

eval-zero : (c : ℕ) (cs : List ℕ) → eval 0 (c ∷ cs) ≡ c
eval-zero c cs = omega arith

none_shares : (xs : List ℕ) (ss : List (List ℕ)) → SharesOf [] xs ss → SharesOf (0 ∷ []) xs ss
none_shares [] [] h = h
none_shares [] (s ∷ ss) h = h
none_shares (x ∷ xs) [] h = h
none_shares (x ∷ xs) (s ∷ ss) h =
    (h.0 ∙ ap (λ t. t % order_l) {x = eval x []} (omega arith), none_shares xs ss h.1)

-- The shares of a polynomial combine to its value at zero.
pub combine_shares-eval :
    (total : ℕ) (cs xs : List ℕ) (ss : List (List ℕ))
    → recovers total xs ≡ true
    → length cs ≤ length xs
    → 0 < length xs
    → SharesOf cs xs ss
    → combine_shares total (map pos xs) ss ≡ ok (to_bytes 32 (eval 0 cs % order_l))
combine_shares-eval total [] xs ss h l p s =
    combine_shares-constant total 0 [] xs ss h p (none_shares xs ss s)
combine_shares-eval total (c ∷ cs) xs ss h l p s =
    combine_shares-constant total c cs xs ss h (omega arith) s
    ∙ ap (λ t. ok (to_bytes 32 (t % order_l))) (sym (eval-zero c cs))
