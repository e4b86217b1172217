-- ===== src/Sharing/Dealt.antt =====
-- Shares that `DealShares` of signer/tsed25519/ed25519.go deals.
use horcrux.Prelude.{
  ℕ, pos, zero, suc, ◌+◌, ◌-◌, ◌*◌, ◌%◌, ◌^◌, ◌≤◌, ◌<◌, ◌≡◌, ap, ◌∙◌, arith, List, [], ◌∷◌, map,
  ltb, length, take, get_or, length-take, Bool-cases, inl, inr, subst,
}
use native.Mathlib.Nat.{mod-lt}
use horcrux.Outcome.{ok}
use horcrux.Sharing.{
  order_l, bytes_to_big, to_bytes, horner, deal_from, deal_shares, combine_shares,
}
use horcrux.Sharing.Moments.{eval, horner-eval}
use horcrux.Sharing.Recovery.{SharesOf, bytes_to_big-to_bytes, combine_shares-constant}
use horcrux.Sharing.Quorums.{Between, Between-recovers}

-- The shares of some players, by their identifiers from 1.
abbrev pub shares_at : List (List ℕ) → List ℕ → List (List ℕ)
shares_at shares [] = []
shares_at shares (x ∷ xs) = get_or shares (x - 1) [] ∷ shares_at shares xs

-- The polynomial of a deal: the secret, and the random coefficients.
abbrev pub dealt : (random secret : List ℕ) → ℕ → List ℕ
dealt random secret t = bytes_to_big secret ∷ take (t - 1) random

pub horner-lt : (x c : ℕ) (cs : List ℕ) → c < 256 ^ 32 → horner order_l x (c ∷ cs) < 256 ^ 32
horner-lt x c [] h = h
horner-lt x c (d ∷ cs) h =
    omega (arith, mod-lt (horner order_l x (d ∷ cs) * x + c) {m = order_l} (omega arith))

pub get_or-deal_from :
    (i left k : ℕ) (cs : List ℕ)
    → k < left
    → get_or (deal_from i left cs) k [] ≡ to_bytes 32 (horner order_l (i + k + 1) cs)
get_or-deal_from i zero k cs h = absurd (omega arith)
get_or-deal_from i (suc left) zero cs h = ap (λ x. to_bytes 32 (horner order_l x cs)) (omega arith)
get_or-deal_from i (suc left) (suc k) cs h =
    get_or-deal_from (i + 1) left k cs (omega arith)
    ∙ ap (λ x. to_bytes 32 (horner order_l x cs)) (omega arith)

share-eval :
    (total x c : ℕ) (cs : List ℕ)
    → c < 256 ^ 32
    → 0 < x
    → x ≤ total
    → bytes_to_big (get_or (deal_from 0 total (c ∷ cs)) (x - 1) []) % order_l
      ≡ eval x (c ∷ cs) % order_l
share-eval total x c cs h p q =
    ap (λ s. bytes_to_big s % order_l) (get_or-deal_from 0 total (x - 1) (c ∷ cs) (omega arith))
    ∙ ap (λ n. n % order_l)
        (bytes_to_big-to_bytes 32 (horner order_l (0 + (x - 1) + 1) (c ∷ cs)) (horner-lt _ c cs h))
    ∙ horner-eval order_l (0 + (x - 1) + 1) (c ∷ cs)
    ∙ ap (λ y. eval y (c ∷ cs) % order_l) (omega arith)

shares_at-SharesOf :
    (total low c : ℕ) (cs xs : List ℕ)
    → c < 256 ^ 32
    → Between low total xs
    → SharesOf (c ∷ cs) xs (shares_at (deal_from 0 total (c ∷ cs)) xs)
shares_at-SharesOf total low c cs [] h b = tt
shares_at-SharesOf total low c cs (x ∷ xs) h b =
    (share-eval total x c cs h (omega arith) b.1, shares_at-SharesOf total x c cs xs h b.2)

-- What `DealShares` returns are the values of a polynomial with the secret as its constant, and as many
-- coefficients as the threshold.
pub deal_shares-SharesOf :
    (random secret : List ℕ) (threshold total : ℕ) (shares : List (List ℕ)) (xs : List ℕ)
    → deal_shares random secret threshold total ≡ ok shares
    → bytes_to_big secret < 256 ^ 32
    → Between 0 total xs
    → SharesOf (dealt random secret threshold) xs (shares_at shares xs)
      × (length (dealt random secret threshold) ≡ threshold)
unfolding deal_shares
deal_shares-SharesOf random secret zero total shares xs h s b = absurd (ground arith)
deal_shares-SharesOf random secret (suc t) total shares xs h s b =
    elim (Bool-cases (ltb (length random) t)) [
      | inl e ↦ absurd (ground arith)
      | inr e ↦
          let same : deal_from 0 total (bytes_to_big secret ∷ take t random) ≡ shares =
            ground arith in
          let n : suc t - 1 ≡ t = omega arith in
          rw n (
            subst (λ ss. SharesOf (bytes_to_big secret ∷ take t random) xs (shares_at ss xs)) same
                (shares_at-SharesOf total 0 (bytes_to_big secret) (take t random) xs s b),
            ground (arith, length-take t random),
          )
    ]

-- In a cluster of at most 8, the shares that were dealt to any players, at least as many as the
-- threshold, in the order of their identifiers, combine to the secret modulo the order of the group.
pub combine_shares-deal_shares :
    (random secret : List ℕ) (threshold total : ℕ) (shares : List (List ℕ)) (xs : List ℕ)
    → total ≤ 8
    → bytes_to_big secret < 256 ^ 32
    → deal_shares random secret threshold total ≡ ok shares
    → Between 0 total xs
    → threshold ≤ length xs
    → combine_shares total (map pos xs) (shares_at shares xs)
      ≡ ok (to_bytes 32 (bytes_to_big secret % order_l))
combine_shares-deal_shares random secret threshold total shares xs n s h b l =
    let (p, e) = deal_shares-SharesOf random secret threshold total shares xs h s b in
    combine_shares-constant total (bytes_to_big secret) (take (threshold - 1) random) xs
      (shares_at shares xs) (Between-recovers total xs n b) (omega arith) p
