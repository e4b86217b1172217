-- ===== src/Validator/Extend/Answers.antt =====
-- What `Sign` of signer/threshold_validator.go keeps of an existing signature.
use horcrux.Prelude.{
  ℕ, ℤ, Bytes, String, Bool, true, false, ◌≡◌, sym, ap, subst, inl, inr, arith, List, [], ◌∷◌, none,
  eqb_ℤ, Bool-cases,
}
use horcrux.Outcome.{Outcome, ok, err, panic, Outcome-cases, returned, failed, panicked}
use horcrux.Hrs.{HrstKey}
use horcrux.Payload.{Codec, Time, verify_sign_payload}
use horcrux.Cosigner.{PartialSignature}
use horcrux.NonceCache.{CosignerNonceCache}
use horcrux.Validator.{Block}
use horcrux.Validator.Existing.{Found}
use horcrux.Validator.Sign.{Cluster}
use horcrux.Validator.Extend.{
  Drawn, vote_extension_nonces, combine_shares, sign_extension_with, restamp_vote,
  sign_vote_extension, extend_existing, answer_existing,
}

-- an extension's signature verifies, and without an extension there is none
abbrev pub ExtensionVerified : Cluster → Bool → Bytes → Bytes → Type 0
ExtensionVerified w true payload signature = w.signer.verify_signature payload signature ≡ true
ExtensionVerified w false payload signature = signature ≡ none

-- The answer `g` has the signature and the timestamp of the existing `f`, and the extension of the
-- request.
pub record IsAnswer (w : Cluster) (c : Codec) (chain_id : String) (block : Block) (f g : Found)
    : Type 0 where
  pub hrst : HrstKey
  pub has_ext : Bool
  pub payload :
      verify_sign_payload c chain_id block.sign_bytes block.vote_extension_sign_bytes
      ≡ ok (hrst, has_ext)
  pub same_signature : g.signature ≡ f.signature
  pub same_time : g.timestamp ≡ f.timestamp
  pub extension :
      ExtensionVerified w has_ext block.vote_extension_sign_bytes g.vote_extension_signature

module _ (w : Cluster) where
  combine_shares-verified :
      (payload : Bytes) (shares : Outcome (List PartialSignature)) (s : Bytes)
      → combine_shares w payload shares ≡ ok s
      → w.signer.verify_signature payload s ≡ true
  unfolding combine_shares
  combine_shares-verified payload (err e) s h = absurd (ground arith)
  combine_shares-verified payload (panic t) s h = absurd (ground arith)
  combine_shares-verified payload (ok parts) s h =
      elim (Outcome-cases (w.signer.combine_signatures parts)) [
        | failed e k ↦ absurd (ground arith)
        | panicked t k ↦ absurd (ground arith)
        | returned s' k ↦
            let q : s' ≡ s = ground arith in
            subst (λ b. w.signer.verify_signature payload b ≡ true) q (ground arith)
      ]

  sign_extension_with-verified :
      (chain_id : String) (block : Block) (stamp : Time) (vote_bytes : List ℕ) (drawn : Drawn)
      (s : Bytes)
      → sign_extension_with w chain_id block stamp vote_bytes drawn ≡ ok s
      → w.signer.verify_signature block.vote_extension_sign_bytes s ≡ true
  unfolding sign_extension_with
  sign_extension_with-verified chain_id block stamp vote_bytes (ids, []) s h = absurd (ground arith)
  sign_extension_with-verified chain_id block stamp vote_bytes (ids, v ∷ []) s h =
      absurd (ground arith)
  sign_extension_with-verified chain_id block stamp vote_bytes (ids, v ∷ e ∷ more) s h =
      combine_shares-verified block.vote_extension_sign_bytes _ s h

  sign_vote_extension-verified :
      (c : Codec) (chain_id : String) (block : Block) (stamp : Time) (cache : CosignerNonceCache)
      (s : Bytes)
      → (sign_vote_extension w c chain_id block stamp cache).0 ≡ ok s
      → w.signer.verify_signature block.vote_extension_sign_bytes s ≡ true
  unfolding sign_vote_extension
  sign_vote_extension-verified c chain_id block stamp cache s h =
      elim (Outcome-cases (restamp_vote w c block.sign_bytes stamp)) [
        | failed e k ↦ absurd (ground arith)
        | panicked t k ↦ absurd (ground arith)
        | returned vote_bytes k ↦ elim (Outcome-cases (vote_extension_nonces w cache).0) [
          | failed e g ↦ absurd (ground arith)
          | panicked t g ↦ absurd (ground arith)
          | returned drawn g ↦
              sign_extension_with-verified chain_id block stamp vote_bytes drawn s (ground arith)
        ]
      ]

  extend_existing-verified :
      (c : Codec) (chain_id : String) (block : Block) (f g : Found) (height : ℤ)
      (cache : CosignerNonceCache)
      → (extend_existing w c chain_id block f height cache).0 ≡ ok g
      → (g.signature ≡ f.signature)
        × (g.timestamp ≡ f.timestamp)
        × (w.signer.verify_signature block.vote_extension_sign_bytes g.vote_extension_signature
            ≡ true)
  unfolding extend_existing
  extend_existing-verified c chain_id block f g height cache h =
      elim (Bool-cases (eqb_ℤ block.height height)) [
        | inr other ↦ absurd (ground arith)
        | inl same ↦
            elim (Outcome-cases (sign_vote_extension w c chain_id block f.timestamp cache).0) [
              | failed e k ↦ absurd (ground arith)
              | panicked t k ↦ absurd (ground arith)
              | returned s k ↦
                  let q : record f { vote_extension_signature = s } ≡ g = ground arith in
                  (
                    ap (λ (x : Found). x.signature) (sym q),
                    ap (λ (x : Found). x.timestamp) (sym q),
                    subst
                        (λ (x : Found).
                          w.signer.verify_signature block.vote_extension_sign_bytes
                            x.vote_extension_signature
                          ≡ true)
                        q (sign_vote_extension-verified c chain_id block f.timestamp cache s k),
                  )
            ]
      ]

  -- Where `Sign` answers with an existing signature, the answer has that signature with the timestamp that
  -- it was made over; if the payload has an extension the extension's signature verifies for it, and
  -- else there is none.
  pub answer_existing-IsAnswer :
      (c : Codec) (chain_id : String) (block : Block) (f g : Found) (height : ℤ)
      (cache cache' : CosignerNonceCache)
      → answer_existing w c chain_id block f height cache ≡ (ok g, cache')
      → IsAnswer w c chain_id block f g
  unfolding answer_existing
  answer_existing-IsAnswer c chain_id block f g height cache cache' h =
      elim (Outcome-cases
        (verify_sign_payload c chain_id block.sign_bytes block.vote_extension_sign_bytes)) [
          | failed e k ↦ absurd (ground arith)
          | panicked t k ↦ absurd (ground arith)
          | returned (hrst, false) k ↦
              let q : record f { vote_extension_signature = none } ≡ g = ground arith in
              record {
                hrst = hrst;
                has_ext = false;
                payload = k;
                same_signature = ap (λ (x : Found). x.signature) (sym q);
                same_time = ap (λ (x : Found). x.timestamp) (sym q);
                extension = ap (λ (x : Found). x.vote_extension_signature) (sym q);
              }
          | returned (hrst, true) k ↦
              elim (Bool-cases (
                w.signer.verify_signature block.vote_extension_sign_bytes
                  f.vote_extension_signature)) [
                    | inl v ↦
                        let q : f ≡ g = ground arith in
                        record {
                          hrst = hrst;
                          has_ext = true;
                          payload = k;
                          same_signature = ap (λ (x : Found). x.signature) (sym q);
                          same_time = ap (λ (x : Found). x.timestamp) (sym q);
                          extension =
                              subst
                                (λ (x : Found).
                                  w.signer.verify_signature block.vote_extension_sign_bytes
                                    x.vote_extension_signature
                                  ≡ true)
                                q v;
                        }
                    | inr v ↦
                        let (a, b, x) =
                          extend_existing-verified c chain_id block f g height cache
                            (ground arith) in
                        record {
                          hrst = hrst;
                          has_ext = true;
                          payload = k;
                          same_signature = a;
                          same_time = b;
                          extension = x;
                        }
                  ]
        ]
