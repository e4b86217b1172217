-- ===== src/Scenarios/Signed.antt =====
-- Runs of the leading cosigner's sign, and of the nonces that cosigners make, at concrete inputs.
use horcrux.Prelude.{
  ℕ, ℤ, pos, Bool, true, false, ◌≡◌, ◌≤◌, ◌==◌, refl, arith, ◌⊎◌, List, [], ◌∷◌, Option, none, some,
  Bytes, if◌then◌else◌, eqb_ℤ, leb, length, take,
}
use horcrux.Outcome.{Error, Outcome, ok, err, message}
use horcrux.SignState.{empty_state}
use horcrux.Cosigner.{
  Uuid, CosignerNonce, CosignerUuidNonces, CosignerSignResponse, Nonces, NoncesWithExpiration,
}
use horcrux.Cosigner.NonceStore.{NonceMap}
use horcrux.Cosigner.Offer.{get_nonces, AnswersFor, get_nonces-AnswersFor}
use horcrux.NonceCache.{CosignerNoncesRel, CachedNonce, CosignerNonceCache}
use horcrux.Validator.{
  Block, block_hrs_key, ChainSignState, ThresholdValidator, notify_block_sign_error,
}
use horcrux.Validator.Existing.{Found, save_last_signed_state_initiated}
use horcrux.Validator.Fallback.{nothing_yet, Arrival, wait_for_all, get_nonces_fallback}
use horcrux.Validator.Fallback.Threshold.{answered, get_nonces_fallback_lem}
use horcrux.Validator.Sign.{Cluster}
use horcrux.Validator.Sign.Finish.{sign_begun}
use horcrux.Validator.Sign.Verified.{IsVerified, sign_begun-IsVerified}
use horcrux.Validator.Sign.Marks.{sign_begun-marks}
use horcrux.Validator.Extend.{answer_existing}
use horcrux.Validator.Lead.{Signing, sign_as_leader, Reused, sign_as_leader-IsVerified}
use horcrux.Scenarios.{plain_codec, plain_state_codec, plain_signer, two_of_three, empty_disk}

abbrev arrivals : List Arrival
arrivals =
    record { peer = pos 3; answer = some [] }
    ∷ record { peer = pos 2; answer = none }
    ∷ record { peer = pos 1; answer = some [] }
    ∷ record { peer = pos 4; answer = some [] }
    ∷ []

get_nonces_fallback_lem_example :
    (get_nonces_fallback 2 arrivals ≡ (
      if leb 2 (length (answered arrivals))
      then ok (wait_for_all 2 arrivals nothing_yet)
      else err (message "timed out waiting for ephemeral shares")))
    × ((wait_for_all 2 arrivals nothing_yet).cosigners ≡ take 2 (answered arrivals))
    × ((wait_for_all 2 arrivals nothing_yet).closes ≤ 1)
get_nonces_fallback_lem_example = get_nonces_fallback_lem 2 arrivals (ground arith)

-- Cosigner 1 of 3 makes nonces for two UUIDs.
abbrev made : NoncesWithExpiration
made = record {
  expiration = pos 100;
  nonces =
      record {
        pub_key = some (7 ∷ []);
        shares = some (1 ∷ []) ∷ some (2 ∷ []) ∷ some (3 ∷ []) ∷ [];
      }
      ∷ record { pub_key = none; shares = [] }
      ∷ record { pub_key = none; shares = [] }
      ∷ [];
}

abbrev sent : ℤ → ℕ → CosignerNonce
sent peer n = record {
  source_id = pos 1;
  destination_id = peer;
  pub_key = some (7 ∷ []);
  share = some (n ∷ []);
  signature = some [];
}

abbrev offers : List CosignerUuidNonces
offers =
    record { uuid = 51; nonces = sent (pos 2) 2 ∷ sent (pos 3) 3 ∷ [] }
    ∷ record { uuid = 52; nonces = sent (pos 2) 2 ∷ sent (pos 3) 3 ∷ [] }
    ∷ []

abbrev offered : Outcome (List CosignerUuidNonces) × NonceMap
offered = get_nonces two_of_three.security 3 (pos 1) (λ u. ok made) (51 ∷ 52 ∷ []) []

offered_lem : offered ≡ (ok offers, offered.1)
unfolding get_nonces horcrux.Cosigner.Offer.both horcrux.Cosigner.Offer.offer
    horcrux.Cosigner.NonceStore.generate_nonces_if_necessary horcrux.Prelude.lookup
    horcrux.Cosigner.Offer.offer_all horcrux.Cosigner.Offer.peers_from
    horcrux.Cosigner.Offer.get_nonce horcrux.Prelude.insert
offered_lem = refl

-- A prevote at height 10, which two of three cosigners sign with nonces of the cache.
abbrev prevote : Block
prevote = record {
  height = pos 10;
  round = pos 0;
  step = pos 2;
  sign_bytes = some (2 ∷ 10 ∷ 0 ∷ 4 ∷ 1000 ∷ []);
  vote_extension_sign_bytes = none;
  timestamp = pos 1000;
}

abbrev cached : CosignerNonceCache
cached = record {
  cache =
      record {
        uuid = 21;
        expiration = pos 100;
        nonces =
            record { cosigner = pos 1; nonces = sent (pos 2) 2 ∷ [] }
            ∷ record { cosigner = pos 2; nonces = [] }
            ∷ [];
      }
      ∷ [];
  last_reconcile_nonces = 1;
  empty = 0;
  threshold = 2;
}

abbrev cluster : (ℤ → Outcome CosignerSignResponse) → Cluster
cluster call = record {
  my_id = pos 1;
  threshold = 2;
  total = 3;
  fastest = pos 2 ∷ pos 3 ∷ [];
  call = λ id req. call id;
  fallback = λ count. err (message "timeout");
  extension_nonces = λ cosigners. err (message "timeout");
  text_of = λ e. "no metadata at HRS";
  is_unexpected_state = λ e. false;
  is_unreachable = λ e. false;
  signer = plain_signer;
}

abbrev share_of : ℤ → Outcome CosignerSignResponse
share_of id = ok (record { signature = some (5 ∷ []); vote_extension_signature = none })

abbrev no_share : ℤ → Outcome CosignerSignResponse
no_share id = err (message "no metadata at HRS")

abbrev chain : ChainSignState
chain = record {
  last_sign_state = empty_state "state.json";
  last_sign_state_initiated = empty_state "/dev/null";
}

abbrev leader : ThresholdValidator
leader = record { chain_state = some chain; disk = empty_disk }

abbrev run :
    (ℤ → Outcome CosignerSignResponse) → (Outcome Found × ThresholdValidator) × CosignerNonceCache
run call = sign_begun (cluster call) plain_codec plain_state_codec "chain-1" prevote cached leader

abbrev signed : Found
signed = record { signature = some (2 ∷ []); vote_extension_signature = none; timestamp = pos 1000 }

run_signed : run share_of ≡ ((ok signed, (run share_of).0.1), (run share_of).1)
unfolding sign_begun horcrux.Validator.Sign.Finish.sign_block horcrux.Payload.verify_sign_payload
    horcrux.Validator.Sign.choose_nonces horcrux.NonceCache.get_nonces horcrux.NonceCache.find_entry
    horcrux.NonceCache.collect horcrux.Validator.Sign.choose_extension
    horcrux.Validator.Sign.Finish.sign_chosen horcrux.Validator.Sign.Shares.sign_with_all
    horcrux.Cosigner.NonceStore.join horcrux.Validator.Sign.Shares.sign_with_cosigner
    horcrux.Validator.Sign.Shares.store_share horcrux.Validator.Sign.Finish.combine_round
    horcrux.Validator.Sign.Finish.combine horcrux.Validator.Sign.Finish.partial_signatures
    horcrux.Validator.Sign.Finish.combine_extension horcrux.Validator.Sign.Finish.finish_block
    horcrux.Validator.must_load_chain_state horcrux.Validator.save_signed
    horcrux.SignState.Disk.save horcrux.SignState.block_double_sign
    horcrux.SignState.error_if_less_or_equal horcrux.Hrs.greater_than horcrux.Hrs.eq_hrs
    horcrux.SignState.Disk.persist empty_state
run_signed = refl

sign_begun-IsVerified_example : IsVerified (cluster share_of) plain_codec "chain-1" prevote signed
sign_begun-IsVerified_example =
    sign_begun-IsVerified (cluster share_of) plain_codec plain_state_codec "chain-1" prevote cached
      (run share_of).1 leader (run share_of).0.1 signed run_signed

abbrev refusal : Error
refusal = message "error from cosigner(s): no metadata at HRS"

run_failed : run no_share ≡ ((err refusal, (run no_share).0.1), (run no_share).1)
unfolding sign_begun horcrux.Validator.Sign.Finish.sign_block horcrux.Payload.verify_sign_payload
    horcrux.Validator.Sign.choose_nonces horcrux.NonceCache.get_nonces horcrux.NonceCache.find_entry
    horcrux.NonceCache.collect horcrux.Validator.Sign.choose_extension
    horcrux.Validator.Sign.Finish.sign_chosen horcrux.Validator.Sign.Shares.sign_with_all
    horcrux.Cosigner.NonceStore.join horcrux.Validator.Sign.Shares.sign_with_cosigner
    horcrux.Validator.Sign.failing horcrux.Validator.Sign.fail_block notify_block_sign_error
    horcrux.Validator.must_load_chain_state
run_failed = refl

sign_begun-marks_example :
    (run no_share).0.1
    ≡ (notify_block_sign_error (block_hrs_key prevote) prevote.sign_bytes leader).1
sign_begun-marks_example =
    sign_begun-marks (cluster no_share) plain_codec plain_state_codec "chain-1" prevote cached
      (run no_share).1 chain leader (run no_share).0.1 refusal refl run_failed

abbrev led : Signing
led =
    sign_as_leader (cluster share_of) plain_codec plain_state_codec "chain-1" prevote [] cached
      leader

led_signed : led ≡ ((ok signed, led.0.1), led.1)
unfolding sign_as_leader sign_begun save_last_signed_state_initiated
    horcrux.SignState.new_sign_state_consensus horcrux.Validator.Sign.Finish.sign_block
    horcrux.Payload.verify_sign_payload horcrux.Validator.Sign.choose_nonces
    horcrux.NonceCache.get_nonces horcrux.NonceCache.find_entry horcrux.NonceCache.collect
    horcrux.Validator.Sign.choose_extension horcrux.Validator.Sign.Finish.sign_chosen
    horcrux.Validator.Sign.Shares.sign_with_all horcrux.Cosigner.NonceStore.join
    horcrux.Validator.Sign.Shares.sign_with_cosigner horcrux.Validator.Sign.Shares.store_share
    horcrux.Validator.Sign.Finish.combine_round horcrux.Validator.Sign.Finish.combine
    horcrux.Validator.Sign.Finish.partial_signatures horcrux.Validator.Sign.Finish.combine_extension
    horcrux.Validator.Sign.Finish.finish_block horcrux.Validator.must_load_chain_state
    horcrux.Validator.save_signed horcrux.SignState.Disk.save horcrux.SignState.block_double_sign
    horcrux.SignState.error_if_less_or_equal horcrux.Hrs.greater_than horcrux.Hrs.eq_hrs
    horcrux.SignState.Disk.persist empty_state
led_signed = refl

sign_as_leader-IsVerified_example :
    IsVerified (cluster share_of) plain_codec "chain-1" prevote signed
    ⊎ Reused (cluster share_of) plain_codec plain_state_codec "chain-1" prevote [] leader signed
sign_as_leader-IsVerified_example =
    sign_as_leader-IsVerified (cluster share_of) plain_codec plain_state_codec "chain-1" prevote []
      cached led.1 leader led.0.1 signed led_signed

-- A precommit with an extension that is signed already, and the existing signatures.
abbrev precommit : Block
precommit = record {
  height = pos 10;
  round = pos 0;
  step = pos 3;
  sign_bytes = some (3 ∷ 10 ∷ 0 ∷ 4 ∷ 1000 ∷ []);
  vote_extension_sign_bytes = some (10 ∷ 0 ∷ 99 ∷ []);
  timestamp = pos 1000;
}

abbrev existing : Found
existing = record {
  signature = some (2 ∷ []);
  vote_extension_signature = some (2 ∷ []);
  timestamp = pos 993;
}

existing_answer :
    answer_existing (cluster share_of) plain_codec "chain-1" precommit existing (pos 10) cached
    ≡ (ok existing, cached)
unfolding answer_existing horcrux.Payload.verify_sign_payload horcrux.Payload.verify_vote_extension
    horcrux.Prelude.to_int64
existing_answer = refl
