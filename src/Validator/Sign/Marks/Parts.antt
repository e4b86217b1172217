-- ===== src/Validator/Sign/Marks/Parts.antt =====
-- The early returns of `Sign` in signer/threshold_validator.go, part by part: each marks the block.
use Prim.Native.String
use horcrux.Prelude.{
  ℤ, ◌-◌, ◌==◌, ◌||◌, Bytes, String, Bool, true, false, List, ◌≡◌, refl, sym, subst, inl, inr,
  arith, none, some, if◌then◌else◌, ltb, length, get_elem?, Bool-cases, Option-cases,
}
use horcrux.Outcome.{
  Error, Outcome, ok, err, panic, message, wrapped, Outcome-cases, returned, failed, panicked,
}
use horcrux.Act.{Act, continue}
use horcrux.Payload.{Codec, verify_sign_payload}
use horcrux.Cosigner.{CosignerUuidNonces}
use horcrux.NonceCache.{CosignerNonceCache, get_nonces}
use horcrux.Validator.{
  Block, block_hrs_key, ChainSignState, ThresholdValidator, must_load_chain_state,
  notify_block_sign_error,
}
use horcrux.Validator.Sign.{
  Cluster, Chosen, Held, fail_block, failing, chosen_of, choose_fallback, choose_extension,
  cosigners_for_block, chosen_from_cache, choose_nonces,
}
use horcrux.Validator.Sign.Shares.{Round}
use horcrux.Validator.Sign.Finish.{
  partial_signatures, combine, combine_vote, combine_extension, combine_round, collect_shares,
  sign_chosen, sign_block,
}

-- marking on a loaded chain
pub fail_block-marks :
    (A : Type 0) (block : Block) (e : Error) (css : ChainSignState) (pv : ThresholdValidator)
    → pv.chain_state ≡ some css
    → fail_block {A = A} block e pv
      ≡ (err e, (notify_block_sign_error (block_hrs_key block) block.sign_bytes pv).1)
unfolding fail_block notify_block_sign_error must_load_chain_state
fail_block-marks A block e css pv h = ground arith

-- The sign states of a loaded chain behind a part of `Sign`: those of before where it goes on, and with the
-- block marked as failed where it returns an error.
unfoldable pub Marked : {A : Type 0} → Block → ThresholdValidator → Outcome A × Held → Type 0
Marked block pv (ok a, s) = s.0 ≡ pv
Marked block pv (err e, s) =
    s.0 ≡ (notify_block_sign_error (block_hrs_key block) block.sign_bytes pv).1
Marked block pv (panic t, s) = Unit

module _ (block : Block) (css : ChainSignState) (pv : ThresholdValidator)
    (loaded : pv.chain_state ≡ some css) where
  failing-Marked :
      (A : Type 0) (e : Error) (cache : CosignerNonceCache)
      → Marked block pv (failing {A = A} block e (pv, cache))
  unfolding failing Marked
  failing-Marked A e cache =
      subst (λ (x : Outcome A × ThresholdValidator). Marked block pv (x.0, (x.1, cache)))
        (sym (fail_block-marks A block e css pv loaded)) refl

  pure-Marked :
      {A : Type 0} (a : A) (cache : CosignerNonceCache) → Marked block pv (ok a, (pv, cache))
  unfolding Marked
  pure-Marked a cache = refl

  panic-Marked : (A : Type 0) (t : String) (s : Held) → Marked {A = A} block pv (panic t, s)
  unfolding Marked
  panic-Marked A t s = tt

  continue-Marked :
      {A B : Type 0} (x : Outcome A × Held) (f : A → Act Held B)
      → Marked block pv x
      → ((a : A) (cache : CosignerNonceCache) → Marked block pv (f a (pv, cache)))
      → Marked block pv (continue x.0 f x.1)
  unfolding Marked
  continue-Marked (ok a, (pv', cache)) f h k =
      subst (λ v. Marked block pv (f a (v, cache))) (sym h) (k a cache)
  continue-Marked (err e, s) f h k = h
  continue-Marked (panic t, s) f h k = tt

  same-Marked :
      {A : Type 0} {x y : Outcome A × Held} → Marked block pv y → x ≡ y → Marked block pv x
  same-Marked h e = subst (λ z. Marked block pv z) (sym e) h

  chosen_of-Marked :
      (has_ext : Bool) (cosigners : List ℤ) (nonces : List CosignerUuidNonces)
      (cache : CosignerNonceCache)
      → Marked block pv (chosen_of has_ext cosigners nonces, (pv, cache))
  unfolding chosen_of
  chosen_of-Marked false cosigners nonces cache = elim (Option-cases (get_elem? nonces 0)) [
    | inl k ↦ same-Marked (panic-Marked _ "index out of range" (pv, cache)) (rw (k, chosen_of) refl)
    | inr (n, k) ↦
        same-Marked
          (pure-Marked {A = Chosen}
            (record { cosigners = cosigners; nonces = n; ext_nonces = none; may_replace = false })
            cache)
          (rw (k, chosen_of) refl)
  ]
  chosen_of-Marked true cosigners nonces cache = elim (Option-cases (get_elem? nonces 0)) [
    | inl k ↦ same-Marked (panic-Marked _ "index out of range" (pv, cache)) (rw (k, chosen_of) refl)
    | inr (n, k) ↦ elim (Option-cases (get_elem? nonces 1)) [
      | inl g ↦
          same-Marked (panic-Marked _ "index out of range" (pv, cache)) (rw (k, g, chosen_of) refl)
      | inr (x, g) ↦
          same-Marked
            (pure-Marked {A = Chosen}
              (record {
                cosigners = cosigners;
                nonces = n;
                ext_nonces = some x;
                may_replace = false;
              })
              cache)
            (rw (k, g, chosen_of) refl)
    ]
  ]

  module _ (w : Cluster) where
    choose_fallback-Marked :
        (has_ext : Bool) (cache : CosignerNonceCache)
        → Marked block pv (choose_fallback w block has_ext (pv, cache))
    unfolding choose_fallback
    choose_fallback-Marked has_ext cache =
        elim (Outcome-cases (w.fallback (if has_ext then 2 else 1))) [
          | failed e k ↦
              same-Marked (failing-Marked _ (wrapped "failed to get nonces" e) cache)
                (rw (k, choose_fallback) refl)
          | panicked t k ↦ same-Marked (panic-Marked _ t (pv, cache)) (rw (k, choose_fallback) refl)
          | returned (cosigners, nonces) k ↦
              same-Marked (chosen_of-Marked has_ext cosigners nonces cache)
                (rw (k, choose_fallback) refl)
        ]

    choose_extension-Marked :
        (has_ext : Bool) (cosigners : List ℤ) (cache : CosignerNonceCache)
        → Marked block pv (choose_extension w block has_ext cosigners (pv, cache))
    unfolding choose_extension
    choose_extension-Marked false cosigners cache = pure-Marked none cache
    choose_extension-Marked true cosigners cache =
        let r = get_nonces cosigners cache in
        elim (Outcome-cases r.0) [
          | returned n k ↦ same-Marked (pure-Marked (some n) r.1) (rw (k, choose_extension) refl)
          | panicked t k ↦ same-Marked (panic-Marked _ t (pv, r.1)) (rw (k, choose_extension) refl)
          | failed x k ↦ elim (Outcome-cases (w.extension_nonces cosigners)) [
            | returned n g ↦
                same-Marked (pure-Marked (some n) r.1) (rw (k, g, choose_extension) refl)
            | panicked t g ↦
                same-Marked (panic-Marked _ t (pv, r.1)) (rw (k, g, choose_extension) refl)
            | failed e g ↦
                same-Marked
                  (failing-Marked _ (wrapped "failed to get nonces for vote extensions" e) r.1)
                  (rw (k, g, choose_extension) refl)
          ]
        ]

    choose_nonces-Marked :
        (has_ext : Bool) (cache : CosignerNonceCache)
        → Marked block pv (choose_nonces w block has_ext (pv, cache))
    unfolding choose_nonces
    choose_nonces-Marked has_ext cache =
        let cosigners = cosigners_for_block w in
        let r = get_nonces cosigners cache in
        elim (Outcome-cases r.0) [
          | panicked t k ↦ same-Marked (panic-Marked _ t (pv, r.1)) (rw (k, choose_nonces) refl)
          | failed x k ↦
              same-Marked (choose_fallback-Marked has_ext r.1) (rw (k, choose_nonces) refl)
          | returned n k ↦
              same-Marked
                (continue-Marked (choose_extension w block has_ext cosigners (pv, r.1))
                  (chosen_from_cache w cosigners n) (choose_extension-Marked has_ext cosigners r.1)
                  (λ ext c. pure-Marked _ c))
                (rw (k, choose_nonces) refl)
        ]

    combine-Marked :
        (few fails invalid : String) (payload : Bytes) (shares : List Bytes)
        (cache : CosignerNonceCache)
        → Marked block pv (combine w block few fails invalid payload shares (pv, cache))
    unfolding combine
    combine-Marked few fails invalid payload shares cache =
        let parts = partial_signatures w 0 shares in
        elim (Bool-cases (ltb (length parts) w.threshold)) [
          | inl k ↦ same-Marked (failing-Marked _ (message few) cache) (rw (k, combine) refl)
          | inr k ↦ elim (Outcome-cases (w.signer.combine_signatures parts)) [
            | failed e g ↦
                same-Marked (failing-Marked _ (wrapped fails e) cache) (rw (k, g, combine) refl)
            | panicked t g ↦ same-Marked (panic-Marked _ t (pv, cache)) (rw (k, g, combine) refl)
            | returned signature g ↦
                elim (Bool-cases (w.signer.verify_signature payload signature)) [
                  | inl v ↦ same-Marked (pure-Marked signature cache) (rw (k, g, v, combine) refl)
                  | inr v ↦
                      same-Marked (failing-Marked _ (message invalid) cache)
                        (rw (k, g, v, combine) refl)
                ]
          ]
        ]

    combine_extension-Marked :
        (has_ext : Bool) (shares : List Bytes) (cache : CosignerNonceCache)
        → Marked block pv (combine_extension w block has_ext shares (pv, cache))
    unfolding combine_extension
    combine_extension-Marked false shares cache = pure-Marked none cache
    combine_extension-Marked true shares cache =
        combine-Marked "not enough cosigners for vote extension"
          "error combining vote extension signatures"
          "combined signature for vote extension is not valid" block.vote_extension_sign_bytes
          shares cache

    combine_round-Marked :
        (has_ext : Bool) (r : Round) (cache : CosignerNonceCache)
        → Marked block pv (combine_round w block has_ext r (pv, cache))
    unfolding combine_round
    combine_round-Marked has_ext r cache =
        continue-Marked (combine_vote w block r.shares (pv, cache)) _
          (combine-Marked "not enough cosigners" "error combining signatures"
            "combined signature is not valid" block.sign_bytes r.shares cache)
          (λ sig c.
            continue-Marked (combine_extension w block has_ext r.ext_shares (pv, c)) _
              (combine_extension-Marked has_ext r.ext_shares c) (λ ext_sig c'. pure-Marked _ c'))

    sign_chosen-Marked :
        (chain_id : String) (has_ext : Bool) (chosen : Chosen) (cache : CosignerNonceCache)
        → Marked block pv (sign_chosen w chain_id block has_ext chosen (pv, cache))
    unfolding sign_chosen
    sign_chosen-Marked chain_id has_ext chosen cache =
        let round = collect_shares w chain_id block chosen cache in
        elim (Outcome-cases round.0) [
          | panicked t k ↦
              same-Marked (panic-Marked _ t (pv, round.1.cache)) (rw (k, sign_chosen) refl)
          | failed e k ↦
              same-Marked
                (failing-Marked _ (message (String.◌++◌ "error from cosigner(s): " (w.text_of e)))
                  round.1.cache)
                (rw (k, sign_chosen) refl)
          | returned _ k ↦
              same-Marked (combine_round-Marked has_ext round.1 round.1.cache)
                (rw (k, sign_chosen) refl)
        ]

    pub sign_block-Marked :
        (codec : Codec) (chain_id : String) (cache : CosignerNonceCache)
        → Marked block pv (sign_block w codec chain_id block (pv, cache))
    unfolding sign_block
    sign_block-Marked codec chain_id cache =
        let ext_bytes = block.vote_extension_sign_bytes in
        elim (Bool-cases (w.threshold == 0 || ltb (length w.fastest) (w.threshold - 1))) [
          | inl k ↦
              same-Marked (panic-Marked _ "slice bounds out of range" (pv, cache))
                (rw (k, sign_block) refl)
          | inr k ↦
              elim (Outcome-cases (verify_sign_payload codec chain_id block.sign_bytes ext_bytes)) [
                | panicked t g ↦
                    same-Marked (panic-Marked _ t (pv, cache)) (rw (k, g, sign_block) refl)
                | failed e g ↦
                    same-Marked (failing-Marked _ (wrapped "failed to verify payload" e) cache)
                      (rw (k, g, sign_block) refl)
                | returned (hrst, has_ext) g ↦
                    same-Marked
                      (continue-Marked (choose_nonces w block has_ext (pv, cache))
                        (sign_chosen w chain_id block has_ext) (choose_nonces-Marked has_ext cache)
                        (λ chosen c. sign_chosen-Marked chain_id has_ext chosen c))
                      (rw (k, g, sign_block) refl)
              ]
        ]
