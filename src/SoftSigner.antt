-- ===== src/SoftSigner.antt =====
-- `ThresholdSignerSoft` of signer/threshold_signer_soft.go, with `SignWithShare`, `AddElements` and
-- `ScalarMultiplyBase` of signer/tsed25519/ed25519.go. The curve arithmetic of signer/edwards25519, a copy
-- of another project's, and SHA-512 are the record Curve.
pub mod Linear
pub mod Deals
pub mod Combined
use horcrux.Prelude.{
  ℕ, ℤ, ◌+◌, String, Bytes, contents, list_eq, List, [], ◌∷◌, ◌++◌, map, Bool, true, false, not,
  some, if◌then◌else◌, ltb, leb, ◌==◌, length, take, drop, replicate,
}
use horcrux.Outcome.{Outcome, ok, err, panic, message, wrapped, ◌>>=◌, ◌>>◌}
use horcrux.Cosigner.{Nonce, Nonces, PartialSignature, ThresholdSigner}
use horcrux.Sharing.{add_scalars, deal_shares, combine_shares}

pub record Curve : Type 1 where
  pub Element : Type 0
  pub zero_element : Element  -- `GeMixedAdd` of the two zeros
  pub from_bytes : List ℕ → Element
  pub to_element_bytes : Element → List ℕ
  pub ge_add : Element → Element → Element
  pub scalar_mult_base : List ℕ → Element  -- of a reduced scalar
  pub sc_reduce : List ℕ → List ℕ
  pub sc_mul_add : (a b c : List ℕ) → List ℕ
  pub sc_minimal : List ℕ → Bool
  pub sha512 : List ℕ → List ℕ

pub record ThresholdSignerSoft : Type 0 where
  pub private_key_shard : List ℕ
  pub pub_key : List ℕ
  pub threshold : ℕ
  pub total : ℕ

-- `fmt.Errorf` with `%w` around the error of a call
abbrev pub wrapping : {A : Type 0} → String → Outcome A → Outcome A
wrapping text (ok a) = ok a
wrapping text (err x) = err (wrapped text x)
wrapping text (panic m) = panic m

-- `copy` into an array of `size` zero bytes
abbrev pub fixed : ℕ → List ℕ → List ℕ
fixed size bs = take size (bs ++ replicate size 0)

module _ (e : Curve) where
  open e use {
    Element, zero_element, from_bytes, to_element_bytes, ge_add, scalar_mult_base, sc_reduce,
    sc_mul_add, sc_minimal, sha512,
  }

  unfoldable pub scalar_multiply_base : List ℕ → List ℕ
  scalar_multiply_base scalar = to_element_bytes (scalar_mult_base (sc_reduce (fixed 64 scalar)))

  -- the loop of `AddElements`, which skips empty elements
  abbrev pub add_to : Element → List (List ℕ) → Element
  add_to out [] = out
  add_to out (p ∷ ps) =
      add_to (if length p == 0 then out else ge_add (from_bytes (fixed 32 p)) out) ps

  unfoldable pub add_elements : List (List ℕ) → List ℕ
  add_elements elements = to_element_bytes (add_to zero_element elements)

  -- the digest that `SignWithShare` multiplies the share with
  abbrev pub challenge : (ephemeral_public public_key payload : List ℕ) → List ℕ
  challenge ephemeral_public public_key payload =
      sc_reduce (sha512 (ephemeral_public ++ public_key ++ payload))

  unfoldable pub sign_with_share :
      (payload share ephemeral_share public_key ephemeral_public : List ℕ) → Outcome (List ℕ)
  sign_with_share payload share ephemeral_share public_key ephemeral_public =
      if ltb (length share) 32
      then panic "slice bounds out of range"
      else if ltb (length ephemeral_share) 32
      then panic "slice bounds out of range"
      else ok (
          sc_mul_add (challenge ephemeral_public public_key payload) (take 32 share)
            (take 32 ephemeral_share))

  unfoldable pub sum_nonces : List Nonce → Outcome (List ℕ × List ℕ)
  sum_nonces nonces =
      let nonce_share = add_scalars (map (λ (n : Nonce). contents n.share) nonces) in
      let nonce_pub = add_elements (map (λ (n : Nonce). contents n.pub_key) nonces) in
      if not (length nonce_share == 32)
      then err (message "ephemeral share is out of bounds")
      else if not (sc_minimal nonce_share)
      then err (message "ephemeral share is out of bounds")
      else ok (nonce_share, nonce_pub)

  -- `Sign`: the sum of the public nonces with the share of the signature behind it
  unfoldable pub soft_sign : ThresholdSignerSoft → List Nonce → Bytes → Outcome Bytes
  soft_sign s nonces payload = do
    (nonce_share, nonce_pub) ← wrapping "failed to combine nonces" (sum_nonces nonces)
    sig ← sign_with_share (contents payload) s.private_key_shard nonce_share s.pub_key nonce_pub
    ok (some (nonce_pub ++ sig))

  -- `GenerateNonces`, with the 32 bytes and the coefficients that it draws
  unfoldable pub soft_generate_nonces :
      (secret random : List ℕ) (threshold total : ℕ) → Outcome Nonces
  soft_generate_nonces secret random threshold total = do
    shares ← deal_shares random secret threshold total
    ok (record { pub_key = some (scalar_multiply_base secret); shares = map (λ s. some s) shares })

-- The loop of `CombineSignatures` behind the first signature: the identifiers and the shares.
abbrev pub split_signatures :
    (eph_pub : List ℕ) → List PartialSignature → Outcome (List ℤ × List (List ℕ))
split_signatures eph_pub [] = ok ([], [])
split_signatures eph_pub (sig ∷ sigs) =
    let rest = split_signatures eph_pub sigs in
    if leb (length (contents sig.signature)) 32
    then err (message "partial signature too short")
    else if not (list_eq (take 32 (contents sig.signature)) eph_pub)
    then err (message "ephemeral public keys do not match")
    else do (ids, shares) ← rest; ok (sig.id ∷ ids, drop 32 (contents sig.signature) ∷ shares)

unfoldable pub combined :
    ThresholdSignerSoft → (eph_pub : List ℕ) → List PartialSignature → Outcome Bytes
combined s eph_pub sigs = do
  (ids, shares) ← split_signatures eph_pub sigs
  sig ← combine_shares s.total ids shares
  ok (some (eph_pub ++ sig))

-- `CombineSignatures`: the first signature gives the public nonce that the others must have.
unfoldable pub soft_combine_signatures : ThresholdSignerSoft → List PartialSignature → Outcome Bytes
soft_combine_signatures s [] = combined s [] []
soft_combine_signatures s (sig ∷ sigs) =
    if leb (length (contents sig.signature)) 32
    then err (message "partial signature too short")
    else combined s (take 32 (contents sig.signature)) (sig ∷ sigs)

-- The signer that a local cosigner holds; the check of a signature is CometBFT's.
abbrev pub soft_threshold_signer :
    Curve → (verify : Bytes → Bytes → Bool) → ThresholdSignerSoft → ThresholdSigner
unfolding soft_sign soft_combine_signatures
soft_threshold_signer e verify s = record {
  sign = soft_sign e s;
  combine_signatures = soft_combine_signatures s;
  verify_signature = verify;
}
