-- ===== src/Scenarios/Filed.antt =====
-- Runs of signer/file.go and signer/single_signer_validator.go.
use horcrux.Prelude.{
  ℕ, pos, String, string_Eq, lookup, Bytes, bytes_equal, list_eq, contents, [], ◌∷◌, none, some,
  true, false, ◌≡◌, ◌⊎◌, refl, to_int32,
}
use horcrux.Outcome.{Outcome, ok, err, panic, message}
use horcrux.ChainId.{validate_chain_id}
use horcrux.Payload.{verify_sign_payload, verify_vote_payload, vote_to_step}
use horcrux.Validator.{Block}
use horcrux.FileSigner.{
  FilePvLastSignState, FilePv, FileKey, FileSigned, check_file_hrs, save_signed_file, sign_new,
  reuse_last, check_votes_only_differ_by_timestamp, sign_file,
}
use horcrux.FileSigner.Once.{IsNew, IsReused, sign_file_lem}
use horcrux.SingleSigner.{
  holds, read_file, at_path, load_file_pv, SingleSigner, load_existing, load_chain_state,
  load_chain_state_if_necessary, sign_loaded, sign_single, restarted,
}
use horcrux.SingleSigner.Restarted.{sign_single-restarted}
use horcrux.Scenarios.{plain_codec}

-- the prevote for a block at a height
abbrev prevote_bytes : (height block time : ℕ) → Bytes
prevote_bytes h b t = some (2 ∷ h ∷ 0 ∷ b ∷ t ∷ [])

abbrev prevote : (height block time : ℕ) → Block
prevote h b t = record {
  height = pos h;
  round = pos 0;
  step = pos 2;
  sign_bytes = prevote_bytes h b t;
  vote_extension_sign_bytes = none;
  timestamp = pos t;
}

-- a signature is the payload behind a byte
abbrev plain_key : FileKey
plain_key = record { key_sign = λ b. ok (some (7 ∷ contents b)); is_written = λ lss. true }

abbrev state_at : (height block time : ℕ) → FilePvLastSignState
state_at h b t = record {
  height = pos h;
  round = pos 0;
  step = pos 2;
  signature = some (7 ∷ contents (prevote_bytes h b t));
  sign_bytes = prevote_bytes h b t;
  file_path = "state.json";
}

abbrev validator_at : (height block time : ℕ) → FilePv
validator_at h b t = record { last_sign_state = state_at h b t; on_disk = some (state_at h b t) }

abbrev answer : (height block time : ℕ) → FileSigned
answer h b t = record {
  signature = some (7 ∷ contents (prevote_bytes h b t));
  vote_extension_signature = none;
  timestamp = pos t;
}

next_height :
    sign_file plain_codec plain_key
      (pos 9000)
      "chain-1"
      (prevote 11 4 2000)
      (validator_at 10 4 1000)
    ≡ (ok (answer 11 4 2000), validator_at 11 4 2000)
unfolding sign_file check_file_hrs sign_new save_signed_file verify_sign_payload verify_vote_payload
    vote_to_step to_int32
next_height = refl

-- the same vote at a later time gets the signature and the time of before
same_height :
    sign_file plain_codec plain_key
      (pos 9000)
      "chain-1"
      (prevote 10 4 2000)
      (validator_at 10 4 1000)
    ≡ (ok (answer 10 4 1000), validator_at 10 4 1000)
unfolding sign_file check_file_hrs reuse_last verify_sign_payload verify_vote_payload
    check_votes_only_differ_by_timestamp bytes_equal list_eq vote_to_step to_int32
same_height = refl

-- a vote for another block is refused
other_block :
    sign_file plain_codec plain_key
      (pos 9000)
      "chain-1"
      (prevote 10 5 2000)
      (validator_at 10 4 1000)
    ≡ (err (message "conflicting data"), validator_at 10 4 1000)
unfolding sign_file check_file_hrs reuse_last verify_sign_payload verify_vote_payload
    check_votes_only_differ_by_timestamp bytes_equal list_eq vote_to_step to_int32
other_block = refl

sign_file_lem_example :
    IsNew plain_key
      (prevote 11 4 2000)
      (answer 11 4 2000)
      (validator_at 10 4 1000)
      (validator_at 11 4 2000)
    ⊎ IsReused plain_codec
        (pos 9000)
        (prevote 11 4 2000)
        (answer 11 4 2000)
        (validator_at 10 4 1000)
        (validator_at 11 4 2000)
sign_file_lem_example =
    sign_file_lem plain_codec (pos 9000) plain_key "chain-1" (prevote 11 4 2000) (answer 11 4 2000)
      (validator_at 10 4 1000) (validator_at 11 4 2000) next_height

-- The validator of a chain whose state file is at height 10.
abbrev state_path : String → String
state_path chain_id = "state.json"

abbrev stopped_at_10 : SingleSigner
stopped_at_10 = record {
  chain_state = [];
  key_files = λ c. holds plain_key;
  state_files = λ c. holds (state_at 10 4 1000);
}

abbrev signed_11 : Outcome FileSigned × SingleSigner
signed_11 =
    sign_single state_path plain_codec (pos 9000) "chain-1" (prevote 11 4 2000) stopped_at_10

single_run : signed_11 ≡ (ok (answer 11 4 2000), signed_11.1)
unfolding sign_single load_chain_state_if_necessary validate_chain_id lookup load_chain_state
    load_existing load_file_pv read_file sign_loaded sign_file check_file_hrs sign_new
    save_signed_file verify_sign_payload verify_vote_payload vote_to_step to_int32
single_run = refl

sign_single-restarted_example :
    (k : FileKey) × (before : FilePv) × (after : FilePv) × ((load_chain_state_if_necessary
        state_path "chain-1" stopped_at_10).0
      ≡ ok (k, before))
    × (lookup "chain-1" signed_11.1.chain_state ≡ some (k, after))
    × ((IsNew k (prevote 11 4 2000) (answer 11 4 2000) before after
          × ((load_chain_state_if_necessary state_path "chain-1" (restarted signed_11.1)).0
              ≡ ok (
                plain_key,
                record {
                  last_sign_state = at_path "state.json" after.last_sign_state;
                  on_disk = some after.last_sign_state;
                },
              )))
        ⊎ IsReused plain_codec (pos 9000) (prevote 11 4 2000) (answer 11 4 2000) before after)
sign_single-restarted_example =
    sign_single-restarted state_path "chain-1" plain_codec (pos 9000) (prevote 11 4 2000)
      (answer 11 4 2000) stopped_at_10 signed_11.1 plain_key refl single_run

-- a key whose state cannot be written
abbrev full_disk_key : FileKey
full_disk_key = record { key_sign = plain_key.key_sign; is_written = λ lss. false }

abbrev unsaved : FilePv
unsaved = record { last_sign_state = state_at 11 4 2000; on_disk = some (state_at 10 4 1000) }

-- The write fails and the sign panics, but the next request has the signature that is not on disk.
unsaved_run :
    sign_file plain_codec full_disk_key
      (pos 9000)
      "chain-1"
      (prevote 11 4 2000)
      (validator_at 10 4 1000)
    ≡ (panic "write", unsaved)
unfolding sign_file check_file_hrs sign_new save_signed_file verify_sign_payload verify_vote_payload
    vote_to_step to_int32
unsaved_run = refl

unsaved_answer :
    sign_file plain_codec full_disk_key (pos 9001) "chain-1" (prevote 11 4 2000) unsaved
    ≡ (ok (answer 11 4 2000), unsaved)
unfolding sign_file check_file_hrs reuse_last verify_sign_payload verify_vote_payload
    check_votes_only_differ_by_timestamp bytes_equal list_eq vote_to_step to_int32
unsaved_answer = refl
