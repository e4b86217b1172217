-- ===== src/Validator/Sign/Marks.antt =====
-- What `Sign` of signer/threshold_validator.go leaves where it fails behind the go-ahead.
pub mod Parts
use Prim.Native.String
use horcrux.Prelude.{
  ℤ, ◌-◌, ◌==◌, ◌||◌, Bytes, String, Bool, true, false, List, ◌≡◌, refl, sym, subst, inl, inr,
  arith, none, some, if◌then◌else◌, ltb, length, get_elem?, Bool-cases, Option-cases,
}
use horcrux.Outcome.{
  Error, Outcome, ok, err, panic, message, wrapped, Outcome-cases, returned, failed, panicked,
}
use horcrux.Act.{Act, continue}
use horcrux.Payload.{Codec, verify_sign_payload}
use horcrux.SignState.Disk.{StateCodec, save}
use horcrux.Cosigner.{CosignerUuidNonces}
use horcrux.NonceCache.{CosignerNonceCache, get_nonces}
use horcrux.Validator.{
  Block, block_hrs_key, ChainSignState, ThresholdValidator, must_load_chain_state, save_signed,
  notify_block_sign_error,
}
use horcrux.Validator.Existing.{Found, is_same_hrs}
use horcrux.Validator.Sign.{
  Cluster, Chosen, Held, fail_block, failing, chosen_of, choose_fallback, choose_extension,
  cosigners_for_block, chosen_from_cache, choose_nonces,
}
use horcrux.Validator.Sign.Shares.{Round}
use horcrux.Validator.Sign.Finish.{
  partial_signatures, combine, combine_vote, combine_extension, combine_round, collect_shares,
  sign_chosen, sign_block, signed_state_of, finish_block, finished_by, sign_begun,
}
use horcrux.Validator.Sign.Marks.Parts.{Marked, fail_block-marks, sign_block-Marked}

-- a save that is refused changes nothing
save_signed-err :
    (state_codec : StateCodec) (block : Block) (f : Found) (css : ChainSignState)
    (pv : ThresholdValidator) (e : Error)
    → (save_signed state_codec (signed_state_of block f) css pv).0 ≡ err e
    → (save_signed state_codec (signed_state_of block f) css pv).1 ≡ pv
unfolding save_signed
save_signed-err state_codec block f css pv e h =
    elim (Outcome-cases
      (save state_codec true (signed_state_of block f) css.last_sign_state pv.disk)) [
        | returned x k ↦ absurd (ground arith)
        | panicked m k ↦ absurd (ground arith)
        | failed x k ↦ ground arith
      ]

finish_block-marks :
    (state_codec : StateCodec) (block : Block) (f : Found) (css : ChainSignState)
    (pv pv' : ThresholdValidator) (e : Error)
    → pv.chain_state ≡ some css
    → finish_block state_codec block f pv ≡ (err e, pv')
    → pv' ≡ (notify_block_sign_error (block_hrs_key block) block.sign_bytes pv).1
unfolding finish_block must_load_chain_state
finish_block-marks state_codec block f css pv pv' e c h =
    let r = save_signed state_codec (signed_state_of block f) css pv in
    elim (Outcome-cases r.0) [
      | returned _ k ↦ absurd (ground arith)
      | panicked m k ↦ absurd (ground arith)
      | failed x k ↦
          let same : r.1 ≡ pv = save_signed-err state_codec block f css pv x k in
          elim (Bool-cases (is_same_hrs x)) [
            | inl forgiven ↦ absurd (ground arith)
            | inr other ↦ ground (
              arith,
              fail_block-marks Found block (wrapped "error saving last sign state" x) css pv c,
            )
          ]
    ]

-- the end of `Sign`
begun-marks :
    (state_codec : StateCodec) (block : Block) (css : ChainSignState) (pv pv' : ThresholdValidator)
    (cache' : CosignerNonceCache) (e : Error)
    → pv.chain_state ≡ some css
    → (r : Outcome Found × Held) → Marked block pv r
    → finished_by state_codec block r ≡ ((err e, pv'), cache')
    → pv' ≡ (notify_block_sign_error (block_hrs_key block) block.sign_bytes pv).1
unfolding Marked
begun-marks state_codec block css pv pv' cache' e c (ok g, s) m h =
    finish_block-marks state_codec block g css pv pv' e c (ground arith)
begun-marks state_codec block css pv pv' cache' e c (err x, s) m h = ground arith
begun-marks state_codec block css pv pv' cache' e c (panic t, s) m h = absurd (ground arith)

-- Wherever the sign of a block on a loaded chain ends with an error behind the go-ahead, the sign states
-- are those of before with the block marked as failed: on a payload that is not valid, without nonces for
-- the vote or the extension, on an error of the cosigners, with too few shares of either, where they do
-- not combine or the result does not verify, and on a save that is refused above or below.
pub sign_begun-marks :
    (w : Cluster) (codec : Codec) (state_codec : StateCodec) (chain_id : String) (block : Block)
    (cache cache' : CosignerNonceCache) (css : ChainSignState) (pv pv' : ThresholdValidator)
    (e : Error)
    → pv.chain_state ≡ some css
    → sign_begun w codec state_codec chain_id block cache pv ≡ ((err e, pv'), cache')
    → pv' ≡ (notify_block_sign_error (block_hrs_key block) block.sign_bytes pv).1
unfolding sign_begun
sign_begun-marks w codec state_codec chain_id block cache cache' css pv pv' e c h =
    begun-marks state_codec block css pv pv' cache' e c
      (sign_block w codec chain_id block (pv, cache))
      (sign_block-Marked block css pv c w codec chain_id cache) h
