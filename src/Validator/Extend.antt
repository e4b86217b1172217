-- ===== src/Validator/Extend.antt =====
-- `signVoteExtension` and `voteExtensionNonces` of signer/threshold_validator.go, and how `Sign` answers
-- with an existing signature.
pub mod Answers
use horcrux.Prelude.{
  ℕ, ℤ, ◌-◌, ◌==◌, Bytes, contents, is_empty, String, Bool, true, false, not, List, [], ◌∷◌, Option,
  none, some, if◌then◌else◌, eqb_ℤ, ltb, leb, length, take, get_elem?,
}
use horcrux.Outcome.{
  Error, Outcome, ok, err, panic, message, wrapped, unmarshal_error, height_regression,
}
use horcrux.Payload.{Codec, Time, unix_nano, verify_sign_payload}
use horcrux.Cosigner.{CosignerUuidNonces, for_id, CosignerSetNoncesAndSignRequest, PartialSignature}
use horcrux.Cosigner.Offer.{both}
use horcrux.NonceCache.{CosignerNonceCache, get_nonces}
use horcrux.Validator.{Block}
use horcrux.Validator.Existing.{Found}
use horcrux.Validator.Sign.{Cluster, cosigners_for_block}

-- The cosigners, and the rounds of nonces that they have made.
abbrev pub Drawn : Type 0
Drawn = List ℤ × List CosignerUuidNonces

module _ (w : Cluster) where
  -- two rounds from the cache, or none; the cache does not panic
  unfoldable pub draw_two : CosignerNonceCache → Option Drawn × CosignerNonceCache
  draw_two cache =
      let (a, cache') = get_nonces (cosigners_for_block w) cache in
      elim a [
        | err _ ↦ (none, cache')
        | panic _ ↦ (none, cache')
        | ok vote ↦
            let (b, cache'') = get_nonces (cosigners_for_block w) cache' in
            (
              elim b [
                | err _ ↦ none
                | panic _ ↦ none
                | ok ext ↦ some (cosigners_for_block w, vote ∷ ext ∷ [])
              ],
              cache'',
            )
      ]

  -- `voteExtensionNonces`
  unfoldable pub vote_extension_nonces : CosignerNonceCache → Outcome Drawn × CosignerNonceCache
  vote_extension_nonces cache =
      let (drawn, cache') = draw_two cache in
      if w.threshold == 0
      then (panic "index out of range", cache)
      else if ltb (length w.fastest) (w.threshold - 1)
      then (w.fallback 2, cache)
      else elim drawn [ some d ↦ (ok d, cache') | none ↦ (w.fallback 2, cache') ]

  -- the request that one cosigner gets
  unfoldable pub extension_request :
      String
      → Block
      → Time
      → List ℕ
      → (vote ext : CosignerUuidNonces) → ℤ
      → CosignerSetNoncesAndSignRequest
  extension_request chain_id block stamp vote_bytes vote ext id = record {
    chain_id = chain_id;
    hrst = record {
      height = block.height;
      round = block.round;
      step = block.step;
      timestamp = unix_nano stamp;
    };
    nonces = some (for_id vote id);
    sign_bytes = some vote_bytes;
    vote_extension_nonces = some (for_id ext id);
    vote_extension_sign_bytes = block.vote_extension_sign_bytes;
  }

  -- the share of one cosigner
  unfoldable pub extension_share : CosignerSetNoncesAndSignRequest → ℤ → Outcome PartialSignature
  extension_share req id = elim (w.call id req) [
    | err e ↦ err (wrapped "cosigner signing vote extension" e)
    | panic t ↦ panic t
    | ok res ↦
        if is_empty res.vote_extension_signature
        then err (message "cosigner returned no vote extension signature")
        else ok (record { id = id; signature = res.vote_extension_signature })
  ]

  -- the goroutines of the errgroup
  unfoldable pub extension_shares :
      (ℤ → CosignerSetNoncesAndSignRequest) → List ℤ → Outcome (List PartialSignature)
  extension_shares req [] = ok []
  extension_shares req (id ∷ ids) = both (extension_share (req id) id) (extension_shares req ids)

  -- the shares combined, and verified
  unfoldable pub combine_shares : Bytes → Outcome (List PartialSignature) → Outcome Bytes
  combine_shares payload shares = elim shares [
    | err e ↦ err e
    | panic t ↦ panic t
    | ok parts ↦ elim (w.signer.combine_signatures parts) [
      | err e ↦ err (wrapped "combining vote extension signatures" e)
      | panic t ↦ panic t
      | ok signature ↦
          if w.signer.verify_signature payload signature
          then ok signature
          else err (message "combined signature for vote extension is not valid")
    ]
  ]

  -- the part of `signVoteExtension` that has the nonces
  unfoldable pub sign_extension_with : String → Block → Time → List ℕ → Drawn → Outcome Bytes
  sign_extension_with chain_id block stamp vote_bytes drawn = elim drawn.1 [
    | [] ↦ err (message "got 0 nonce rounds for vote extension, need 2")
    | vote ∷ more ↦ elim more [
      | [] ↦ err (message "got 1 nonce rounds for vote extension, need 2")
      | ext ∷ _ ↦
          combine_shares block.vote_extension_sign_bytes
            (extension_shares (extension_request chain_id block stamp vote_bytes vote ext) drawn.0)
    ]
  ]

  -- the sign bytes of the vote with the timestamp of the existing signature
  unfoldable pub restamp_vote : Codec → Bytes → Time → Outcome (List ℕ)
  restamp_vote c sign_bytes stamp = elim (c.unmarshal_vote (contents sign_bytes)) [
    | none ↦ err (unmarshal_error "signBytes" "vote")
    | some vote ↦ elim (c.marshal_vote (c.with_vote_timestamp vote stamp)) [
      | none ↦ err (wrapped "marshalling cached vote" (message "protoio"))
      | some bytes ↦ ok bytes
    ]
  ]

  -- `signVoteExtension`
  unfoldable pub sign_vote_extension :
      Codec → String → Block → Time → CosignerNonceCache → Outcome Bytes × CosignerNonceCache
  sign_vote_extension c chain_id block stamp cache = elim (restamp_vote c block.sign_bytes stamp) [
    | err e ↦ (err e, cache)
    | panic t ↦ (panic t, cache)
    | ok vote_bytes ↦
        let (r, cache') = vote_extension_nonces cache in
        (
          elim r [
            | err e ↦ err (wrapped "getting vote extension nonces" e)
            | panic t ↦ panic t
            | ok drawn ↦ sign_extension_with chain_id block stamp vote_bytes drawn
          ],
          cache',
        )
  ]

  -- an existing signature whose extension is not the requested one; `latest_height` is the height
  -- that was signed last
  unfoldable pub extend_existing :
      Codec
      → String
      → Block
      → Found
      → (latest_height : ℤ) → CosignerNonceCache
      → Outcome Found × CosignerNonceCache
  extend_existing c chain_id block f latest_height cache =
      let (r, cache') = sign_vote_extension c chain_id block f.timestamp cache in
      if not (eqb_ℤ block.height latest_height)
      then (err (height_regression block.height latest_height), cache)
      else (
        elim r [
          | err e ↦ err e
          | panic t ↦ panic t
          | ok ext_sig ↦ ok (record f { vote_extension_signature = ext_sig })
        ],
        cache',
      )

  -- the branch of `Sign` for an existing signature
  unfoldable pub answer_existing :
      Codec
      → String
      → Block
      → Found
      → (latest_height : ℤ) → CosignerNonceCache
      → Outcome Found × CosignerNonceCache
  answer_existing c chain_id block f latest_height cache =
      elim (verify_sign_payload c chain_id block.sign_bytes block.vote_extension_sign_bytes) [
        | err e ↦ (err (wrapped "failed to verify payload" e), cache)
        | panic t ↦ (panic t, cache)
        | ok (_, has_ext) ↦ elim has_ext [
          | false ↦ (ok (record f { vote_extension_signature = none }), cache)
          | true ↦
              elim (w.signer.verify_signature block.vote_extension_sign_bytes
                f.vote_extension_signature) [
                  | true ↦ (ok f, cache)
                  | false ↦ extend_existing c chain_id block f latest_height cache
                ]
        ]
      ]
