-- ===== src/Validator/Sign/Finish.antt =====
-- How `Sign` of signer/threshold_validator.go combines the shares, saves and fails.
use Prim.Native.String
use horcrux.Prelude.{
  ℕ, pos, suc, ◌-◌, ◌%◌, Bytes, is_empty, clone, String, Bool, true, false, ◌||◌, ◌==◌, List, [],
  ◌∷◌, none, if◌then◌else◌, ltb, length, drop, replicate,
}
use horcrux.Outcome.{Outcome, ok, err, panic, message, wrapped}
use horcrux.Act.{Act, pure, ◌>>=◌}
use horcrux.Payload.{Codec, verify_sign_payload}
use horcrux.SignState.{SignStateConsensus}
use horcrux.SignState.Disk.{StateCodec}
use horcrux.Cosigner.{PartialSignature}
use horcrux.NonceCache.{CosignerNonceCache}
use horcrux.Validator.{Block, ThresholdValidator, must_load_chain_state, save_signed}
use horcrux.Validator.Existing.{Found, is_same_hrs}
use horcrux.Validator.Sign.{Cluster, Chosen, Held, choose_nonces, fail_block, failing}
use horcrux.Validator.Sign.Shares.{Round, sign_with_all}

module _ (w : Cluster) where
  -- the shares that are not empty, as copies, with the identifiers of their slots
  unfoldable pub partial_signatures : ℕ → List Bytes → List PartialSignature
  partial_signatures i [] = []
  partial_signatures i (share ∷ shares) =
      let rest = partial_signatures (suc i) shares in
      if is_empty share then rest else record { id = pos (suc i); signature = clone share } ∷ rest

  -- combined and verified
  unfoldable pub combine :
      Block → (few fails invalid : String) → (payload : Bytes) → List Bytes → Act Held Bytes
  combine block few fails invalid payload shares s =
      let parts = partial_signatures 0 shares in
      if ltb (length parts) w.threshold
      then failing block (message few) s
      else elim (w.signer.combine_signatures parts) [
        | err e ↦ failing block (wrapped fails e) s
        | panic t ↦ (panic t, s)
        | ok signature ↦
            if w.signer.verify_signature payload signature
            then (ok signature, s)
            else failing block (message invalid) s
      ]

  -- the signature of the block
  abbrev pub combine_vote : Block → List Bytes → Act Held Bytes
  combine_vote block shares =
      combine block "not enough cosigners" "error combining signatures"
        "combined signature is not valid" block.sign_bytes shares

  -- that of its extension
  unfoldable pub combine_extension : Block → Bool → List Bytes → Act Held Bytes
  combine_extension block false shares = pure none
  combine_extension block true shares =
      combine block "not enough cosigners for vote extension"
        "error combining vote extension signatures"
        "combined signature for vote extension is not valid" block.vote_extension_sign_bytes shares

  -- what the shares of a round combine to
  unfoldable pub combine_round : Block → Bool → Round → Act Held Found
  combine_round block has_ext r = do
    sig ← combine_vote block r.shares
    ext_sig ← combine_extension block has_ext r.ext_shares
    pure (record {
      signature = sig;
      vote_extension_signature = ext_sig;
      timestamp = block.timestamp;
    })

  -- the goroutines of a block, from empty slots
  abbrev pub collect_shares :
      String → Block → Chosen → CosignerNonceCache → Outcome (Unit {0}) × Round
  collect_shares chain_id block chosen cache =
      sign_with_all w chain_id block chosen chosen.cosigners (record {
        shares = replicate (w.total % 256) none;
        ext_shares = replicate (w.total % 256) none;
        spares = drop (w.threshold - 1) w.fastest;
        cache = cache;
      })

  -- all shares of a block, and what they combine to; an error of a cosigner stays as its text
  unfoldable pub sign_chosen : String → Block → Bool → Chosen → Act Held Found
  sign_chosen chain_id block has_ext chosen s =
      let (done, r) = collect_shares chain_id block chosen s.1 in
      elim done [
        | panic t ↦ (panic t, (s.0, r.cache))
        | err e ↦
            failing block (message (String.◌++◌ "error from cosigner(s): " (w.text_of e)))
              (s.0, r.cache)
        | ok _ ↦ combine_round block has_ext r (s.0, r.cache)
      ]

  -- from the check of the payload to the combined signatures
  unfoldable pub sign_block : Codec → String → Block → Act Held Found
  sign_block codec chain_id block s =
      if w.threshold == 0 || ltb (length w.fastest) (w.threshold - 1)
      then (panic "slice bounds out of range", s)
      else elim (verify_sign_payload codec chain_id block.sign_bytes
          block.vote_extension_sign_bytes) [
            | panic t ↦ (panic t, s)
            | err e ↦ failing block (wrapped "failed to verify payload" e) s
            | ok (_, has_ext) ↦
                (choose_nonces w block has_ext >>= sign_chosen chain_id block has_ext) s
          ]

-- what is saved of a block that is signed
abbrev pub signed_state_of : Block → Found → SignStateConsensus
signed_state_of block f = record {
  height = block.height;
  round = block.round;
  step = block.step;
  signature = f.signature;
  vote_extension_signature = f.vote_extension_signature;
  sign_bytes = block.sign_bytes;
}

-- the save that ends `Sign`: an error is forgiven if it is for the same height, round and step
unfoldable pub finish_block : StateCodec → Block → Found → Act ThresholdValidator Found
finish_block state_codec block f = do
  css ← must_load_chain_state
  λ pv.
      let (r, pv') = save_signed state_codec (signed_state_of block f) css pv in
      elim r [
        | ok _ ↦ (ok f, pv')
        | panic t ↦ (panic t, pv')
        | err e ↦
            if is_same_hrs e
            then (ok f, pv')
            else fail_block block (wrapped "error saving last sign state" e) pv'
      ]

-- the save behind the combined signatures
abbrev pub finished_by :
    StateCodec
    → Block
    → Outcome Found × Held
    → (Outcome Found × ThresholdValidator) × CosignerNonceCache
finished_by state_codec block (ok f, s) = (finish_block state_codec block f s.0, s.1)
finished_by state_codec block (err e, s) = ((err e, s.0), s.1)
finished_by state_codec block (panic t, s) = ((panic t, s.0), s.1)

-- The part of `Sign` behind the go-ahead: its result, and the sign states and nonce cache that it leaves.
unfoldable pub sign_begun :
    Cluster
    → Codec
    → StateCodec
    → String
    → Block
    → CosignerNonceCache
    → ThresholdValidator
    → (Outcome Found × ThresholdValidator) × CosignerNonceCache
sign_begun w codec state_codec chain_id block cache pv =
    finished_by state_codec block (sign_block w codec chain_id block (pv, cache))
