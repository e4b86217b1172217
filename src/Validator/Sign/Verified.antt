-- ===== src/Validator/Sign/Verified.antt =====
-- What a signature that `Sign` of signer/threshold_validator.go returns has gone through.
use Prim.Native.String
use horcrux.Prelude.{
  ◌≤◌, ◌-◌, ◌==◌, ◌||◌, Bytes, String, Bool, true, false, ◌≡◌, refl, ap, ◌∙◌, inl, inr, arith, List,
  none, ltb, length, Bool-cases, Option-cases, subst,
}
use horcrux.Outcome.{Error, ok, message, wrapped, Outcome-cases, returned, failed, panicked}
use horcrux.Hrs.{HrstKey}
use horcrux.Payload.{Codec, verify_sign_payload}
use horcrux.SignState.Disk.{StateCodec}
use horcrux.Cosigner.{PartialSignature}
use horcrux.NonceCache.{CosignerNonceCache}
use horcrux.Validator.{
  Block, ThresholdValidator, must_load_chain_state, save_signed, notify_block_sign_error,
}
use horcrux.Validator.Existing.{Found, is_same_hrs}
use horcrux.Validator.Sign.{Cluster, Chosen, Held, choose_nonces, fail_block, failing}
use horcrux.Validator.Sign.Shares.{Round}
use horcrux.Validator.Sign.Finish.{
  partial_signatures, combine, combine_vote, combine_extension, combine_round, collect_shares,
  sign_chosen, sign_block, signed_state_of, finish_block, sign_begun,
}

-- The signature combines at least as many shares as the threshold, and verifies for the payload.
pub record Combined (w : Cluster) (payload signature : Bytes) : Type 0 where
  pub parts : List PartialSignature
  pub enough : w.threshold ≤ length parts
  pub made : w.signer.combine_signatures parts ≡ ok signature
  pub verified : w.signer.verify_signature payload signature ≡ true

-- the extension is signed where there is one, and nothing else is
abbrev pub ExtensionSigned : Cluster → Bool → Bytes → Bytes → Type 0
ExtensionSigned w true payload signature = Combined w payload signature
ExtensionSigned w false payload signature = signature ≡ none

pub record IsVerified (w : Cluster) (codec : Codec) (chain_id : String) (block : Block) (f : Found)
    : Type 0 where
  pub hrst : HrstKey
  pub has_ext : Bool
  pub payload :
      verify_sign_payload codec chain_id block.sign_bytes block.vote_extension_sign_bytes
      ≡ ok (hrst, has_ext)
  pub signature : Combined w block.sign_bytes f.signature
  pub extension :
      ExtensionSigned w has_ext block.vote_extension_sign_bytes f.vote_extension_signature
  pub same_time : f.timestamp ≡ block.timestamp

failing-ok :
    {A : Type 0} (block : Block) (e : Error) (s : Held) (a : A) → (failing block e s).0 ≡ ok a → ⊥
unfolding failing fail_block notify_block_sign_error must_load_chain_state
failing-ok block e s a h = elim (Option-cases s.0.chain_state) [
  | inl k ↦ ground arith
  | inr (css, k) ↦ ground arith
]

module _ (w : Cluster) where
  combine-Combined :
      (block : Block) (few fails invalid : String) (payload : Bytes) (shares : List Bytes)
      (signature : Bytes) (s : Held)
      → (combine w block few fails invalid payload shares s).0 ≡ ok signature
      → Combined w payload signature
  unfolding combine
  combine-Combined block few fails invalid payload shares signature s h =
      let parts = partial_signatures w 0 shares in
      elim (Bool-cases (ltb (length parts) w.threshold)) [
        | inl short ↦ absurd (failing-ok block (message few) s signature (ground arith))
        | inr enough ↦ elim (Outcome-cases (w.signer.combine_signatures parts)) [
          | failed e k ↦ absurd (failing-ok block (wrapped fails e) s signature (ground arith))
          | panicked m k ↦ absurd (ground arith)
          | returned made k ↦ elim (Bool-cases (w.signer.verify_signature payload made)) [
            | inr bad ↦ absurd (failing-ok block (message invalid) s signature (ground arith))
            | inl good ↦
                let q : made ≡ signature = ground arith in
                record {
                  parts = parts;
                  enough = ground arith;
                  made = k ∙ ap ok q;
                  verified = ground arith;
                }
          ]
        ]
      ]

  combine_extension-ExtensionSigned :
      (block : Block) (has_ext : Bool) (shares : List Bytes) (signature : Bytes) (s : Held)
      → (combine_extension w block has_ext shares s).0 ≡ ok signature
      → ExtensionSigned w has_ext block.vote_extension_sign_bytes signature
  unfolding combine_extension
  combine_extension-ExtensionSigned block true shares signature s h =
      combine-Combined block "not enough cosigners for vote extension"
        "error combining vote extension signatures"
        "combined signature for vote extension is not valid" block.vote_extension_sign_bytes shares
        signature s h
  combine_extension-ExtensionSigned block false shares signature s h = ground arith

  -- both signatures, with the block's time
  abbrev pub BothSigned : Block → Bool → Found → Type 0
  BothSigned block has_ext f =
      Combined w block.sign_bytes f.signature
      × ExtensionSigned w has_ext block.vote_extension_sign_bytes f.vote_extension_signature
      × (f.timestamp ≡ block.timestamp)

  combine_round-BothSigned :
      (block : Block) (has_ext : Bool) (r : Round) (f : Found) (s : Held)
      → (combine_round w block has_ext r s).0 ≡ ok f
      → BothSigned block has_ext f
  unfolding combine_round
  combine_round-BothSigned block has_ext r f s h =
      let first = combine_vote w block r.shares s in
      let second = combine_extension w block has_ext r.ext_shares first.1 in
      elim (Outcome-cases first.0) [
        | failed e k ↦ absurd (ground arith)
        | panicked m k ↦ absurd (ground arith)
        | returned sig k ↦ elim (Outcome-cases second.0) [
          | failed e g ↦ absurd (ground arith)
          | panicked m g ↦ absurd (ground arith)
          | returned ext_sig g ↦
              let q : record {
                signature = sig;
                vote_extension_signature = ext_sig;
                timestamp = block.timestamp;
              }
                  ≡ f =
                ground arith in
              subst (λ x. BothSigned block has_ext x) q
                (
                  combine-Combined block "not enough cosigners" "error combining signatures"
                      "combined signature is not valid" block.sign_bytes r.shares sig s k,
                  combine_extension-ExtensionSigned block has_ext r.ext_shares ext_sig first.1 g,
                  refl,
                )
        ]
      ]

  sign_chosen-BothSigned :
      (chain_id : String) (block : Block) (has_ext : Bool) (chosen : Chosen) (f : Found) (s : Held)
      → (sign_chosen w chain_id block has_ext chosen s).0 ≡ ok f
      → BothSigned block has_ext f
  unfolding sign_chosen
  sign_chosen-BothSigned chain_id block has_ext chosen f s h =
      let round = collect_shares w chain_id block chosen s.1 in
      elim (Outcome-cases round.0) [
        | failed e k ↦ absurd (
            failing-ok block (message (String.◌++◌ "error from cosigner(s): " (w.text_of e)))
              (s.0, round.1.cache) f (ground arith))
        | panicked m k ↦ absurd (ground arith)
        | returned _ k ↦
            combine_round-BothSigned block has_ext round.1 f (s.0, round.1.cache) (ground arith)
      ]

  sign_block-IsVerified :
      (codec : Codec) (chain_id : String) (block : Block) (f : Found) (s : Held)
      → (sign_block w codec chain_id block s).0 ≡ ok f
      → IsVerified w codec chain_id block f
  unfolding sign_block
  sign_block-IsVerified codec chain_id block f s h =
      elim (Bool-cases (w.threshold == 0 || ltb (length w.fastest) (w.threshold - 1))) [
        | inl out ↦ absurd (ground arith)
        | inr fits ↦
            elim (Outcome-cases (
              verify_sign_payload codec chain_id block.sign_bytes
                block.vote_extension_sign_bytes)) [
                  | failed e k ↦
                      absurd
                        (failing-ok block (wrapped "failed to verify payload" e) s f (ground arith))
                  | panicked m k ↦ absurd (ground arith)
                  | returned (hrst, has_ext) k ↦
                      elim (Outcome-cases (choose_nonces w block has_ext s).0) [
                        | failed e g ↦ absurd (ground arith)
                        | panicked m g ↦ absurd (ground arith)
                        | returned chosen g ↦
                            let (sig, ext, time) =
                              sign_chosen-BothSigned chain_id block has_ext chosen f
                                (choose_nonces w block has_ext s).1 (ground arith) in
                            record {
                              hrst = hrst;
                              has_ext = has_ext;
                              payload = k;
                              signature = sig;
                              extension = ext;
                              same_time = time;
                            }
                      ]
                ]
      ]

fail_block-ok :
    (block : Block) (e : Error) (pv : ThresholdValidator) (f : Found)
    → (fail_block block e pv).0 ≡ ok f
    → ⊥
unfolding fail_block notify_block_sign_error must_load_chain_state
fail_block-ok block e pv f h = elim (Option-cases pv.chain_state) [
  | inl k ↦ ground arith
  | inr (css, k) ↦ ground arith
]

finish_block-same :
    (state_codec : StateCodec) (block : Block) (f g : Found) (pv pv' : ThresholdValidator)
    → finish_block state_codec block f pv ≡ (ok g, pv')
    → f ≡ g
unfolding finish_block must_load_chain_state
finish_block-same state_codec block f g pv pv' h = elim (Option-cases pv.chain_state) [
  | inl e ↦ absurd (ground arith)
  | inr (css, e) ↦
      elim (Outcome-cases (save_signed state_codec (signed_state_of block f) css pv).0) [
        | returned _ k ↦ ground arith
        | panicked m k ↦ absurd (ground arith)
        | failed x k ↦ elim (Bool-cases (is_same_hrs x)) [
          | inl same ↦ ground arith
          | inr other ↦ absurd (
              fail_block-ok block (wrapped "error saving last sign state" x)
                (save_signed state_codec (signed_state_of block f) css pv).1 g (ground arith))
        ]
      ]
]

-- A block that `Sign` signs anew, behind the go-ahead, is returned with the block's time and a signature
-- that combines at least as many shares as the threshold and verifies for the payload; where the
-- payload has an extension the same holds of its signature, and elsewhere there is none.
pub sign_begun-IsVerified :
    (w : Cluster) (codec : Codec) (state_codec : StateCodec) (chain_id : String) (block : Block)
    (cache cache' : CosignerNonceCache) (pv pv' : ThresholdValidator) (f : Found)
    → sign_begun w codec state_codec chain_id block cache pv ≡ ((ok f, pv'), cache')
    → IsVerified w codec chain_id block f
unfolding sign_begun
sign_begun-IsVerified w codec state_codec chain_id block cache cache' pv pv' f h =
    let r = sign_block w codec chain_id block (pv, cache) in
    elim (Outcome-cases r.0) [
      | returned g k ↦
          let q = finish_block-same state_codec block g f r.1.0 pv' (ground arith) in
          sign_block-IsVerified w codec chain_id block f (pv, cache) (k ∙ ap ok q)
      | failed e k ↦ absurd (ground arith)
      | panicked m k ↦ absurd (ground arith)
    ]
