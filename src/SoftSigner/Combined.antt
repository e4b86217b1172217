-- ===== src/SoftSigner/Combined.antt =====
-- The signature that `CombineSignatures` of signer/threshold_signer_soft.go makes of the shares which
-- `Sign` of the cosigners gives.
use horcrux.Prelude.{
  ℕ, pos, ◌+◌, ◌*◌, ◌%◌, ◌≤◌, ◌<◌, ◌≡◌, refl, sym, ap, ◌∙◌, arith, Bytes, contents, List, [], ◌∷◌,
  ◌++◌, map, some, length, take_all, take-append, drop-append, list_eq_iff, length-append,
}
use native.Mathlib.Nat.{mod-lt, mod-mod}
use horcrux.Outcome.{Outcome, ok, ◌>>=◌}
use horcrux.Cosigner.{Nonce, PartialSignature}
use horcrux.Sharing.{order_l, bytes_to_big, to_bytes, sum_scalars, add_scalars}
use horcrux.Sharing.Modular.{add_congr, mul-mod-mod}
use horcrux.Sharing.Moments.{eval}
use horcrux.Sharing.Recovery.{SharesOf, bytes_to_big-to_bytes}
use horcrux.Sharing.Quorums.{Between, Between-recovers}
use horcrux.Sharing.Dealt.{dealt}
use horcrux.SoftSigner.{
  Curve, ThresholdSignerSoft, add_elements, challenge, sign_with_share, sum_nonces, soft_sign,
  split_signatures, combined, soft_combine_signatures,
}
use horcrux.SoftSigner.Linear.{
  add_poly, mul_poly, eval-add_poly, eval-mul_poly, length-mul_poly, length-add_poly-le,
  combine_shares-eval,
}
use horcrux.SoftSigner.Deals.{
  CurveLaws, Deal, IsDealt, AllDealt, share_of, nonces_of, pub_keys, secrets, sum_poly,
  nonces_of-pub_keys, share_of-eval, sum_scalars-eval, length-sum_poly-le, eval_zero-sum_poly,
  length-to_bytes, length-dealt-le, length-share_of,
}

-- A cluster that signs a payload: the deal of the key, and the deals of the nonces.
module _ (e : Curve) (threshold total : ℕ) (key : Deal) (ds : List Deal) (payload : Bytes) where
  open e use {sc_mul_add, sc_minimal, to_element_bytes}

  abbrev pub signer_of : ℕ → ThresholdSignerSoft
  signer_of x = record {
    private_key_shard = share_of key x;
    pub_key = key.pub_key;
    threshold = threshold;
    total = total;
  }

  -- each of these players signs with its shares
  abbrev pub sign_each : List ℕ → Outcome (List PartialSignature)
  sign_each [] = ok []
  sign_each (x ∷ xs) = do
    sig ← soft_sign e (signer_of x) (nonces_of ds x) payload
    sigs ← sign_each xs
    ok (record { id = pos x; signature = sig } ∷ sigs)

  abbrev pub public_nonce : List ℕ
  public_nonce = add_elements e (pub_keys ds)

  abbrev pub hash : List ℕ
  hash = challenge e public_nonce key.pub_key (contents payload)

  -- What the key itself signs with the sum of the nonces (RFC 8032): R, and r + h a modulo the order.
  abbrev pub signature : List ℕ
  signature =
      public_nonce
      ++ to_bytes 32 ((bytes_to_big hash * bytes_to_big key.secret + secrets ds) % order_l)

  abbrev nonce_at : ℕ → List ℕ
  nonce_at x = add_scalars (map (λ (n : Nonce). contents n.share) (nonces_of ds x))

  abbrev share_sig : ℕ → List ℕ
  share_sig x = sc_mul_add hash (share_of key x) (nonce_at x)

  abbrev parts_of : List ℕ → List PartialSignature
  parts_of [] = []
  parts_of (x ∷ xs) =
      record { id = pos x; signature = some (public_nonce ++ share_sig x) } ∷ parts_of xs

  abbrev share_sigs : List ℕ → List (List ℕ)
  share_sigs [] = []
  share_sigs (x ∷ xs) = share_sig x ∷ share_sigs xs

  abbrev sig_poly : List ℕ
  sig_poly =
      add_poly (mul_poly (bytes_to_big hash) (dealt key.random key.secret threshold))
        (sum_poly threshold ds)

  nonce_at-lt :
      (x : ℕ)
      → bytes_to_big (nonce_at x)
        ≡ sum_scalars (map (λ (n : Nonce). contents n.share) (nonces_of ds x)) % order_l
  unfolding add_scalars
  nonce_at-lt x =
      let sum : ℕ = sum_scalars (map (λ (n : Nonce). contents n.share) (nonces_of ds x)) in
      bytes_to_big-to_bytes 32 (sum % order_l)
        (omega (arith, mod-lt sum {m = order_l} (omega arith)))

  length-nonce_at : (x : ℕ) → length (nonce_at x) ≡ 32
  unfolding add_scalars
  length-nonce_at x = length-to_bytes 32 _

  module _ (laws : CurveLaws e) (is_key : IsDealt threshold total key)
      (dealt_all : AllDealt threshold total ds) where
    sum_nonces-ok : (x : ℕ) → sum_nonces e (nonces_of ds x) ≡ ok (nonce_at x, public_nonce)
    unfolding sum_nonces
    sum_nonces-ok x =
        let sum : ℕ = sum_scalars (map (λ (n : Nonce). contents n.share) (nonces_of ds x)) in
        let small : bytes_to_big (nonce_at x) < order_l =
          omega (arith, nonce_at-lt x, mod-lt sum {m = order_l} (omega arith)) in
        rw
          (
            nonces_of-pub_keys ds x,
            length-nonce_at x,
            laws.minimal (nonce_at x) (length-nonce_at x) small,
          )
          refl

    sign_with_share-ok :
        (x : ℕ)
        → 0 < x
        → x ≤ total
        → sign_with_share e
            (contents payload)
            (share_of key x)
            (nonce_at x)
            key.pub_key
            public_nonce
          ≡ ok (share_sig x)
    unfolding sign_with_share
    sign_with_share-ok x p q =
        let l : length (share_of key x) ≡ 32 = length-share_of threshold total x key is_key p q in
        rw
          (
            l,
            length-nonce_at x,
            take_all (share_of key x) 32 l,
            take_all (nonce_at x) 32 (length-nonce_at x),
          )
          refl

    sign-ok :
        (x : ℕ)
        → 0 < x
        → x ≤ total
        → soft_sign e (signer_of x) (nonces_of ds x) payload
          ≡ ok (some (public_nonce ++ share_sig x))
    unfolding soft_sign
    sign-ok x p q = rw (sum_nonces-ok x, sign_with_share-ok x p q) refl

    share_sig-eval :
        (x : ℕ)
        → 0 < x
        → x ≤ total
        → bytes_to_big (share_sig x) % order_l ≡ eval x sig_poly % order_l
    share_sig-eval x p q =
        let a : List ℕ = dealt key.random key.secret threshold in
        let b : List ℕ = sum_poly threshold ds in
        let h : ℕ = bytes_to_big hash in
        laws.mul_add hash (share_of key x) (nonce_at x) (laws.length_reduced _)
          (length-share_of threshold total x key is_key p q) (length-nonce_at x)
        ∙ add_congr (h * bytes_to_big (share_of key x)) (h * eval x a) (bytes_to_big (nonce_at x))
            (eval x b) order_l
            (sym (mul-mod-mod h (bytes_to_big (share_of key x)) order_l)
              ∙ ap (λ t. h * t % order_l) (share_of-eval threshold total x key is_key p q).0
              ∙ mul-mod-mod h (eval x a) order_l)
            (ap (λ t. t % order_l) (nonce_at-lt x)
              ∙ mod-mod (sum_scalars (map (λ (n : Nonce). contents n.share) (nonces_of ds x)))
                  order_l
              ∙ sum_scalars-eval threshold total x ds dealt_all p q)
        ∙ ap (λ t. (t + eval x b) % order_l) (sym (eval-mul_poly x h a))
        ∙ ap (λ t. t % order_l) (sym (eval-add_poly x (mul_poly h a) b))

    sign_each-ok : (low : ℕ) (xs : List ℕ) → Between low total xs → sign_each xs ≡ ok (parts_of xs)
    sign_each-ok low [] b = refl
    sign_each-ok low (x ∷ xs) b = rw (sign-ok x (omega arith) b.1, sign_each-ok x xs b.2) refl

    share_sigs-SharesOf :
        (low : ℕ) (xs : List ℕ) → Between low total xs → SharesOf sig_poly xs (share_sigs xs)
    share_sigs-SharesOf low [] b = tt
    share_sigs-SharesOf low (x ∷ xs) b =
        (share_sig-eval x (omega arith) b.1, share_sigs-SharesOf x xs b.2)

    length-public_nonce : length public_nonce ≡ 32
    unfolding add_elements
    length-public_nonce = laws.length_element _

    length-part : (x : ℕ) → length (public_nonce ++ share_sig x) ≡ 64
    length-part x =
        length-append public_nonce (share_sig x)
        ∙ omega (arith, length-public_nonce, laws.length_mul_add hash (share_of key x) (nonce_at x))

    split-ok :
        (xs : List ℕ) → split_signatures public_nonce (parts_of xs) ≡ ok (map pos xs, share_sigs xs)
    split-ok [] = refl
    split-ok (x ∷ xs) =
        rw
          (
            length-part x,
            take-append public_nonce (share_sig x) 32 length-public_nonce,
            drop-append public_nonce (share_sig x) 32 length-public_nonce,
            (list_eq_iff public_nonce public_nonce).1 refl,
            split-ok xs,
          )
          refl

    sig_poly-le : length sig_poly ≤ threshold
    sig_poly-le =
        length-add_poly-le threshold
          (mul_poly (bytes_to_big hash) (dealt key.random key.secret threshold))
          (sum_poly threshold ds)
          (omega (
            arith,
            length-mul_poly (bytes_to_big hash) (dealt key.random key.secret threshold),
            length-dealt-le threshold total key is_key,
          ))
          (length-sum_poly-le threshold total ds dealt_all)

    sig_poly-zero : eval 0 sig_poly ≡ bytes_to_big hash * bytes_to_big key.secret + secrets ds
    sig_poly-zero =
        let a : List ℕ = dealt key.random key.secret threshold in
        eval-add_poly 0 (mul_poly (bytes_to_big hash) a) (sum_poly threshold ds)
        ∙ ap (λ t. t + eval 0 (sum_poly threshold ds)) (eval-mul_poly 0 (bytes_to_big hash) a)
        ∙ ap (λ t. bytes_to_big hash * t + eval 0 (sum_poly threshold ds))
            {y = bytes_to_big key.secret} (omega arith)
        ∙ ap (λ t. bytes_to_big hash * bytes_to_big key.secret + t)
            (eval_zero-sum_poly threshold ds)

    combined-ok :
        (leader : ℕ) (xs : List ℕ)
        → total ≤ 8
        → Between 0 total xs
        → threshold ≤ length xs
        → 0 < length xs
        → combined (signer_of leader) public_nonce (parts_of xs) ≡ ok (some signature)
    unfolding combined
    combined-ok leader xs n b l p =
        rw
          (
            split-ok xs,
            combine_shares-eval total sig_poly xs (share_sigs xs) (Between-recovers total xs n b)
                (omega (arith, sig_poly-le)) p (share_sigs-SharesOf 0 xs b),
          )
          (ap (λ t. ok (some (public_nonce ++ to_bytes 32 (t % order_l)))) sig_poly-zero)

    combine-ok :
        (leader x : ℕ) (xs : List ℕ)
        → total ≤ 8
        → Between 0 total (x ∷ xs)
        → threshold ≤ length (x ∷ xs)
        → soft_combine_signatures (signer_of leader) (parts_of (x ∷ xs)) ≡ ok (some signature)
    unfolding soft_combine_signatures
    combine-ok leader x xs n b l =
        rw (length-part x, take-append public_nonce (share_sig x) 32 length-public_nonce)
          (combined-ok leader (x ∷ xs) n b l (omega arith))

-- In a cluster of at most 8, where the key and the nonces of some dealers were dealt: any players, at
-- least as many as the threshold, all sign, and their signatures combine, with whoever leads, to the
-- Ed25519 signature of the key that was dealt under the sum of the nonces.
pub sign_each-combine :
    (e : Curve) (threshold total : ℕ) (key : Deal) (ds : List Deal) (payload : Bytes) (leader x : ℕ)
    (xs : List ℕ)
    → CurveLaws e
    → IsDealt threshold total key
    → AllDealt threshold total ds
    → total ≤ 8
    → Between 0 total (x ∷ xs)
    → threshold ≤ length (x ∷ xs)
    → (sign_each e threshold total key ds payload (x ∷ xs)
        >>= soft_combine_signatures (signer_of e threshold total key ds payload leader))
      ≡ ok (some (signature e threshold total key ds payload))
sign_each-combine e t n key ds payload leader x xs laws k a small b l =
    rw (sign_each-ok e t n key ds payload laws k a 0 (x ∷ xs) b)
      (combine-ok e t n key ds payload laws k a leader x xs small b l)
