-- ===== src/Scenarios/Shares.antt =====
-- Runs of the local cosigner at concrete inputs, and of two requests at the same time.
use horcrux.Prelude.{
  ℕ, ℤ, pos, Bool, true, false, ◌≡◌, ◌≤◌, ◌==◌, refl, arith, inl, inr, ◌⊎◌, List, [], ◌∷◌, Option,
  none, some, Bytes, if◌then◌else◌, lookup, nat_Eq, length,
}
use horcrux.Outcome.{ok}
use horcrux.Hrs.{HrsKey, HrstKey}
use horcrux.Payload.Laws.{Compatible}
use horcrux.SignState.{SignState, SignStateConsensus, empty_state, advance, locked_copy}
use horcrux.SignState.Disk.{signal}
use horcrux.Cosigner.{CosignerSignRequest, CosignerSignResponse, Nonce, NoncesWithExpiration}
use horcrux.Cosigner.NonceStore.{combined_nonces, usable_nonces}
use horcrux.Cosigner.Local.{LocalCosigner, sign}
use horcrux.Payload.{verify_sign_payload}
use horcrux.Hrs.{greater_than}
use horcrux.SignState.{latest_hrs}
use horcrux.Cosigner.Local.{signed_state}
use horcrux.Cosigner.Local.Succeeds.{sign-ok}
use horcrux.Scenarios.{two_nonces}
use horcrux.SignState.Disk.{signal}
use horcrux.Cosigner.Local.Once.{SignedOver, sign-OverNonces, sign_once}
use horcrux.Cosigner.Interleave.{
  Request, admitted, conflicted, released, System, update, saved, Step, admit, save, collide,
  forgive, Reach, start, later, initial,
}
use horcrux.Cosigner.Interleave.Safety.{no_double_sign, empty_state-IsLoaded}
use horcrux.Cosigner.Interleave.Sequential.{GivenOut, sign-GivenOut}
use horcrux.Scenarios.{plain_codec-CodecLaws, two_of_three, ready_cosigner}

-- A precommit for a block at height 10, with its time.
abbrev precommit : ℕ → Bytes
precommit t = some (3 ∷ 10 ∷ 0 ∷ 4 ∷ t ∷ [])

abbrev extension : Bytes
extension = some (10 ∷ 0 ∷ 99 ∷ [])

abbrev key : HrsKey
key = record { height = pos 10; round = pos 0; step = pos 3 }

abbrev stamped_key : ℕ → HrstKey
stamped_key t = record { height = pos 10; round = pos 0; step = pos 3; timestamp = pos t }

abbrev share_of : ℕ → SignStateConsensus
share_of t = record {
  height = pos 10;
  round = pos 0;
  step = pos 3;
  signature = some (2 ∷ []);
  vote_extension_signature = none;
  sign_bytes = precommit t;
}

abbrev blank : SignState
blank = empty_state "state.json"

abbrev moved : System → ℕ → Request → System
moved t i r = record t { requests = update t.requests i r }

abbrev t₀ : System
t₀ = initial two_of_three blank

abbrev t₁ : System
t₁ = moved t₀ 0 (admitted (stamped_key 1000) (precommit 1000))

abbrev t₂ : System
t₂ = moved t₁ 1 (admitted (stamped_key 1007) (precommit 1007))

abbrev t₃ : System
t₃ =
    saved (moved t₂ 0 (released key (precommit 1000))) (advance blank (share_of 1000))
      (share_of 1000)

abbrev t₄ : System
t₄ = moved t₃ 1 (conflicted (stamped_key 1007) (precommit 1007))

abbrev t₅ : System
t₅ = moved t₄ 1 (released key (precommit 1007))

-- Two requests pass the check at the same time, the first is saved, the second collides with it and
-- is forgiven.
step₁ : Step two_of_three t₀ t₁
unfolding horcrux.Payload.verify_sign_payload horcrux.Payload.verify_vote_payload
    horcrux.Payload.vote_to_step horcrux.Prelude.to_int64
    horcrux.SignState.Gate.error_if_conflict_or_regression horcrux.SignState.check_hrs empty_state
    horcrux.SignState.block_double_sign horcrux.SignState.error_if_less_or_equal horcrux.Hrs.eq_hrs
    horcrux.Hrs.greater_than advance signal
    horcrux.SignState.Differ.check_vote_only_differ_by_timestamp
    horcrux.SignState.Differ.compare_votes horcrux.SignState.Differ.only_differ_by_timestamp
    horcrux.Prelude.bytes_equal
step₁ = admit 0 "chain-1" (precommit 1000) none (stamped_key 1000) false refl refl refl

step₂ : Step two_of_three t₁ t₂
unfolding horcrux.Payload.verify_sign_payload horcrux.Payload.verify_vote_payload
    horcrux.Payload.vote_to_step horcrux.Prelude.to_int64
    horcrux.SignState.Gate.error_if_conflict_or_regression horcrux.SignState.check_hrs empty_state
    horcrux.SignState.block_double_sign horcrux.SignState.error_if_less_or_equal horcrux.Hrs.eq_hrs
    horcrux.Hrs.greater_than advance signal
    horcrux.SignState.Differ.check_vote_only_differ_by_timestamp
    horcrux.SignState.Differ.compare_votes horcrux.SignState.Differ.only_differ_by_timestamp
    horcrux.Prelude.bytes_equal
step₂ = admit 1 "chain-1" (precommit 1007) none (stamped_key 1007) false refl refl refl

step₃ : Step two_of_three t₂ t₃
unfolding horcrux.Payload.verify_sign_payload horcrux.Payload.verify_vote_payload
    horcrux.Payload.vote_to_step horcrux.Prelude.to_int64
    horcrux.SignState.Gate.error_if_conflict_or_regression horcrux.SignState.check_hrs empty_state
    horcrux.SignState.block_double_sign horcrux.SignState.error_if_less_or_equal horcrux.Hrs.eq_hrs
    horcrux.Hrs.greater_than advance signal
    horcrux.SignState.Differ.check_vote_only_differ_by_timestamp
    horcrux.SignState.Differ.compare_votes horcrux.SignState.Differ.only_differ_by_timestamp
    horcrux.Prelude.bytes_equal
step₃ =
    save 0 (stamped_key 1000) (share_of 1000) (advance blank (share_of 1000))
      (locked_copy (advance blank (share_of 1000))) refl refl refl

step₄ : Step two_of_three t₃ t₄
unfolding horcrux.Payload.verify_sign_payload horcrux.Payload.verify_vote_payload
    horcrux.Payload.vote_to_step horcrux.Prelude.to_int64
    horcrux.SignState.Gate.error_if_conflict_or_regression horcrux.SignState.check_hrs empty_state
    horcrux.SignState.block_double_sign horcrux.SignState.error_if_less_or_equal horcrux.Hrs.eq_hrs
    horcrux.Hrs.greater_than advance signal
    horcrux.SignState.Differ.check_vote_only_differ_by_timestamp
    horcrux.SignState.Differ.compare_votes horcrux.SignState.Differ.only_differ_by_timestamp
    horcrux.Prelude.bytes_equal
step₄ = collide 1 (stamped_key 1007) (share_of 1007) key refl refl refl

step₅ : Step two_of_three t₄ t₅
unfolding horcrux.Payload.verify_sign_payload horcrux.Payload.verify_vote_payload
    horcrux.Payload.vote_to_step horcrux.Prelude.to_int64
    horcrux.SignState.Gate.error_if_conflict_or_regression horcrux.SignState.check_hrs empty_state
    horcrux.SignState.block_double_sign horcrux.SignState.error_if_less_or_equal horcrux.Hrs.eq_hrs
    horcrux.Hrs.greater_than advance signal
    horcrux.SignState.Differ.check_vote_only_differ_by_timestamp
    horcrux.SignState.Differ.compare_votes horcrux.SignState.Differ.only_differ_by_timestamp
    horcrux.Prelude.bytes_equal
step₅ = forgive 1 (stamped_key 1007) (precommit 1007) refl (ground arith)

two_shares : Reach two_of_three blank t₅
two_shares = later (later (later (later (later start step₁) step₂) step₃) step₄) step₅

no_double_sign_example : Compatible two_of_three.codec (pos 3) (precommit 1000) (precommit 1007)
no_double_sign_example =
    no_double_sign two_of_three plain_codec-CodecLaws
      (empty_state-IsLoaded two_of_three "state.json") two_shares 0 1 key (precommit 1000)
      (precommit 1007) refl (ground arith)

-- A request for a precommit with an extension, and what comes of it.
abbrev request : CosignerSignRequest
request = record {
  chain_id = "chain-1";
  sign_bytes = precommit 1000;
  uuid = 11;
  vote_extension_sign_bytes = extension;
  vote_ext_uuid = 12;
}

abbrev response : CosignerSignResponse
response = record {
  signature = some (2 ∷ 3 ∷ 10 ∷ 0 ∷ 4 ∷ 1000 ∷ []);
  vote_extension_signature = some (2 ∷ 10 ∷ 0 ∷ 99 ∷ []);
}

abbrev after : LocalCosigner
after = (sign two_of_three request ready_cosigner).1

request_signed : sign two_of_three request ready_cosigner ≡ (ok response, after)
unfolding sign horcrux.Cosigner.Local.get_chain_state horcrux.Payload.verify_sign_payload
    horcrux.Payload.verify_vote_extension horcrux.Cosigner.Local.check_uuids
    horcrux.Cosigner.Local.admit horcrux.SignState.Gate.error_if_conflict_or_regression
    horcrux.SignState.check_hrs empty_state horcrux.Cosigner.Local.sign_admitted
    horcrux.Cosigner.Local.sign_fresh horcrux.Cosigner.Local.take_nonces combined_nonces lookup
    usable_nonces horcrux.Cosigner.NonceStore.usable_nonce horcrux.Cosigner.Local.take_ext_nonces
    horcrux.Prelude.delete horcrux.Cosigner.Local.after_save horcrux.Cosigner.Local.save_share
    horcrux.Cosigner.Local.save_signed horcrux.Cosigner.Local.sign_ext
    horcrux.Cosigner.Local.sign_with horcrux.Cosigner.NonceStore.enough_nonces horcrux.Hrs.eq_hrs
    horcrux.Hrs.greater_than horcrux.Payload.verify_vote_payload horcrux.Payload.vote_to_step
    horcrux.Prelude.to_int64 horcrux.SignState.Disk.persist horcrux.SignState.Disk.save
    horcrux.SignState.block_double_sign horcrux.SignState.error_if_less_or_equal
request_signed = refl

sign-GivenOut_example : GivenOut two_of_three 0 request t₀ after.chain_state
sign-GivenOut_example =
    sign-GivenOut two_of_three 0 request t₀ ready_cosigner after response refl refl request_signed

sign-OverNonces_example :
    (state : SignState) × (hrst : HrstKey) × (has_ext : Bool) × (ready_cosigner.chain_state
      ≡ some state)
    × (verify_sign_payload two_of_three.codec "chain-1" (precommit 1000) extension
        ≡ ok (hrst, has_ext))
    × SignedOver two_of_three state hrst has_ext request ready_cosigner response
sign-OverNonces_example =
    sign-OverNonces two_of_three request ready_cosigner after response request_signed

abbrev request_again : CosignerSignRequest
request_again = record request { sign_bytes = precommit 2000 }

sign_once_example : ¬ (sign two_of_three request_again after ≡ (ok response, after))
sign_once_example =
    sign_once two_of_three request request_again ready_cosigner after after response response refl
      refl request_signed

abbrev taken : List Nonce
taken =
    record { share = some (5 ∷ []); pub_key = some (7 ∷ []) }
    ∷ record { share = some (6 ∷ []); pub_key = some (8 ∷ []) }
    ∷ []

-- A request without an extension.
abbrev plain_request : CosignerSignRequest
plain_request = record request { vote_extension_sign_bytes = none }

plain_payload :
    verify_sign_payload two_of_three.codec "chain-1" (precommit 1000) none
    ≡ ok (stamped_key 1000, false)
unfolding verify_sign_payload horcrux.Payload.verify_vote_payload horcrux.Payload.vote_to_step
    horcrux.Prelude.to_int64
plain_payload = refl

above_blank : greater_than key (latest_hrs blank) ≡ true
unfolding greater_than empty_state
above_blank = refl

stored_nonces : lookup 11 ready_cosigner.nonces ≡ some two_nonces
unfolding lookup
stored_nonces = refl

usable : usable_nonces (pos 1) two_nonces.nonces ≡ ok taken
unfolding usable_nonces horcrux.Cosigner.NonceStore.usable_nonce
usable = refl

sign-ok_example :
    (l' : LocalCosigner) × (sign two_of_three plain_request ready_cosigner
      ≡ (ok (record { signature = response.signature; vote_extension_signature = none }), l'))
    × (l'.chain_state
        ≡ some (
            signal (
              advance blank (
                signed_state two_of_three
                  (stamped_key 1000)
                  (precommit 1000)
                  response.signature
                  none))))
sign-ok_example =
    sign-ok two_of_three plain_request ready_cosigner blank (stamped_key 1000) two_nonces taken
      response.signature refl plain_payload above_blank stored_nonces usable (ground arith) refl
