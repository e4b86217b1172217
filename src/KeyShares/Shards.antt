-- ===== src/KeyShares/Shards.antt =====
-- What the shards of `CreateCosignerEd25519Shards` in signer/cosigner_key_shares.go combine to.
use horcrux.Prelude.{
  ℕ, pos, suc, ◌+◌, ◌-◌, ◌%◌, ◌^◌, ◌≤◌, ◌<◌, ◌≡◌, refl, ap, sym, ◌∙◌, arith, List, [], ◌∷◌, map,
  ltb, if◌then◌else◌, length, take, get_or, Bool-cases, inl, inr, eqb_ℤ,
}
use horcrux.Outcome.{ok, Outcome-cases, returned, failed, panicked}
use horcrux.Sharing.{order_l, bytes_to_big, to_bytes, deal_shares, combine_shares}
use horcrux.Sharing.Quorums.{Between}
use horcrux.Sharing.Dealt.{shares_at, combine_shares-deal_shares}
use horcrux.KeyShares.{
  CosignerEd25519Key, expand_secret, create_cosigner_ed25519_shards, number_shards,
}
use horcrux.KeyShares.Bounds.{AllBytes, expand_secret_bounds}

-- the shard of the key with an identifier
abbrev pub shard_with_id : List CosignerEd25519Key → ℕ → List ℕ
shard_with_id [] x = []
shard_with_id (k ∷ ks) x =
    let rest = shard_with_id ks x in if eqb_ℤ k.id (pos x) then k.private_shard else rest

abbrev pub shards_with_ids : List CosignerEd25519Key → List ℕ → List (List ℕ)
shards_with_ids ks [] = []
shards_with_ids ks (x ∷ xs) = shard_with_id ks x ∷ shards_with_ids ks xs

shard_with_id-number_shards :
    (pub_key : List ℕ) (i x : ℕ) (ss : List (List ℕ))
    → i < x
    → shard_with_id (number_shards pub_key i ss) x ≡ get_or ss (x - i - 1) []
shard_with_id-number_shards pub_key i x [] h = refl
shard_with_id-number_shards pub_key i x (s ∷ ss) h =
    elim (Bool-cases (eqb_ℤ (pos (i + 1)) (pos x))) [
      | inl e ↦ let z : x - i - 1 ≡ 0 = ground arith in rw (e, z) refl
      | inr e ↦
          let z : x - i - 1 ≡ suc (x - (i + 1) - 1) = ground arith in
          rw (e, z) (shard_with_id-number_shards pub_key (i + 1) x ss (ground arith))
    ]

shards_with_ids-number_shards :
    (pub_key : List ℕ) (low high : ℕ) (ss : List (List ℕ)) (xs : List ℕ)
    → Between low high xs
    → shards_with_ids (number_shards pub_key 0 ss) xs ≡ shares_at ss xs
shards_with_ids-number_shards pub_key low high ss [] b = refl
shards_with_ids-number_shards pub_key low high ss (x ∷ xs) b =
    rw
      (
        shard_with_id-number_shards pub_key 0 x ss (omega arith),
        shards_with_ids-number_shards pub_key x high ss xs b.2,
      )
      (ap (λ k. get_or ss k [] ∷ shares_at ss xs) (omega arith))

-- The keys of at most 8 cosigners: the shards with any identifiers, at least as many as the threshold and
-- in ascending order, combine to the expanded secret of the key that was split, modulo the order.
pub create_cosigner_ed25519_shards-combine :
    (sha512 : List ℕ → List ℕ) (random priv_key pub_key : List ℕ) (threshold shards : ℕ)
    (keys : List CosignerEd25519Key) (xs : List ℕ)
    → length (sha512 (take 32 priv_key)) ≡ 64
    → AllBytes (sha512 (take 32 priv_key))
    → shards ≤ 8
    → create_cosigner_ed25519_shards sha512 random priv_key pub_key threshold shards ≡ ok keys
    → Between 0 shards xs
    → threshold ≤ length xs
    → combine_shares shards (map pos xs) (shards_with_ids keys xs)
      ≡ ok (to_bytes 32 (bytes_to_big (expand_secret sha512 (take 32 priv_key)) % order_l))
unfolding create_cosigner_ed25519_shards
create_cosigner_ed25519_shards-combine sha512 random priv_key pub_key t n keys xs len bytes small h
      b l =
    let secret : List ℕ = expand_secret sha512 (take 32 priv_key) in
    elim (Bool-cases (ltb (length priv_key) 32)) [
      | inl e ↦ absurd (ground arith)
      | inr e ↦ elim (Outcome-cases (deal_shares random secret t n)) [
        | failed x d ↦ absurd (ground arith)
        | panicked m d ↦ absurd (ground arith)
        | returned ss d ↦
            let same : number_shards pub_key 0 ss ≡ keys = ground arith in
            let bounds : (2 ^ 254 ≤ bytes_to_big secret)
                × (bytes_to_big secret < 2 ^ 255)
                × (bytes_to_big secret % 8 ≡ 0) =
              expand_secret_bounds sha512 (take 32 priv_key) len bytes in
            ap (λ ks. combine_shares n (map pos xs) (shards_with_ids ks xs)) (sym same)
            ∙ ap (λ v. combine_shares n (map pos xs) v)
                (shards_with_ids-number_shards pub_key 0 n ss xs b)
            ∙ combine_shares-deal_shares random secret t n ss xs small (omega (arith, bounds)) d b l
      ]
    ]
