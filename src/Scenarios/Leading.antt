-- ===== src/Scenarios/Leading.antt =====
-- Runs of the leading cosigner at concrete inputs, of the wire forms and of a condition variable.
use horcrux.Prelude.{
  ℕ, ℤ, pos, negsuc, Bool, true, false, ◌≡◌, ◌⊎◌, refl, arith, inl, inr, List, [], ◌∷◌, Option,
  none, some, Bytes, is_nil, if◌then◌else◌, eqb_ℤ, ltb,
}
use horcrux.Outcome.{Outcome, ok}
use horcrux.Hrs.{HrsKey, greater_than}
use horcrux.Payload.{zero_time}
use horcrux.SignState.{
  SignState, SignStateConsensus, consensus_key, latest_hrs, empty_state, advance,
}
use horcrux.Cosigner.{CosignerNonce}
use horcrux.Validator.{
  Block, block_hrs_key, block_to_proto, block_from_proto, ChainSignState, ThresholdValidator,
  notify_block_sign_error,
}
use horcrux.Validator.Existing.{Found, save_last_signed_state_initiated}
use horcrux.Validator.Reuse.{Reuses, InViews}
use horcrux.Validator.Progress.{
  save_last_signed_state_initiated-go_ahead, save_last_signed_state_initiated-Reuses,
  notify_block_sign_error-go_ahead,
}
use horcrux.Scenarios.{plain_codec, plain_state_codec, empty_disk}

-- A prevote at height 10, with its time.
abbrev prevote : ℕ → Block
prevote t = record {
  height = pos 10;
  round = pos 0;
  step = pos 2;
  sign_bytes = some (2 ∷ 10 ∷ 0 ∷ 4 ∷ t ∷ []);
  vote_extension_sign_bytes = none;
  timestamp = pos t;
}

abbrev key : HrsKey
key = record { height = pos 10; round = pos 0; step = pos 2 }

abbrev vote_signed : SignStateConsensus
vote_signed = record {
  height = pos 10;
  round = pos 0;
  step = pos 2;
  signature = some (9 ∷ []);
  vote_extension_signature = none;
  sign_bytes = (prevote 1000).sign_bytes;
}

-- A chain on which nothing is begun, and one on which the prevote is begun and signed.
abbrev idle_chain : ChainSignState
idle_chain = record {
  last_sign_state = empty_state "state.json";
  last_sign_state_initiated = empty_state "/dev/null";
}

abbrev signed_chain : ChainSignState
signed_chain = record {
  last_sign_state = advance (empty_state "state.json") vote_signed;
  last_sign_state_initiated = advance (empty_state "/dev/null") vote_signed;
}

abbrev validator_of : ChainSignState → ThresholdValidator
validator_of css = record { chain_state = some css; disk = empty_disk }

abbrev begun : Outcome Found × ThresholdValidator
begun =
    save_last_signed_state_initiated plain_codec plain_state_codec "chain-1" (prevote 1000) []
      (validator_of idle_chain)

abbrev nothing_found : Found
nothing_found = record { signature = none; vote_extension_signature = none; timestamp = zero_time }

begun_lem : begun ≡ (ok nothing_found, begun.1)
unfolding save_last_signed_state_initiated horcrux.Validator.must_load_chain_state
    horcrux.SignState.Disk.save horcrux.SignState.block_double_sign
    horcrux.SignState.error_if_less_or_equal greater_than horcrux.SignState.new_sign_state_consensus
    empty_state horcrux.Hrs.eq_hrs
begun_lem = refl

save_last_signed_state_initiated-go_ahead_example :
    (css : ChainSignState) × (some idle_chain ≡ some css)
    × (((greater_than key (latest_hrs css.last_sign_state_initiated) ≡ true)
          × (css' : ChainSignState) × (begun.1.chain_state ≡ some css')
          × (latest_hrs css'.last_sign_state_initiated ≡ key))
        ⊎ ((x : SignStateConsensus) × InViews key x (css ∷ [])
            × (consensus_key x ≡ key)
            × (is_nil x.signature ≡ true)))
save_last_signed_state_initiated-go_ahead_example =
    save_last_signed_state_initiated-go_ahead plain_codec plain_state_codec "chain-1" (prevote 1000)
      [] (validator_of idle_chain) begun.1 nothing_found begun_lem refl

-- The same prevote with another time is answered with the signature and the time of the first.
abbrev first_vote : Found
first_vote = record {
  signature = some (9 ∷ []);
  vote_extension_signature = none;
  timestamp = pos 1000;
}

answered :
    save_last_signed_state_initiated plain_codec plain_state_codec "chain-1"
      (prevote 1007)
      []
      (validator_of signed_chain)
    ≡ (ok first_vote, validator_of signed_chain)
unfolding save_last_signed_state_initiated horcrux.Validator.must_load_chain_state
    horcrux.SignState.Disk.save horcrux.SignState.block_double_sign
    horcrux.SignState.error_if_less_or_equal greater_than horcrux.SignState.new_sign_state_consensus
    empty_state horcrux.Hrs.eq_hrs horcrux.Validator.Existing.after_refused_save
    horcrux.Validator.Existing.get_existing_block_signature horcrux.SignState.get_from_cache
    horcrux.Prelude.lookup horcrux.Prelude.delete_where horcrux.Prelude.insert
    horcrux.SignState.is_stale horcrux.Prelude.to_int64 horcrux.Prelude.◌-ℤ◌
    horcrux.SignState.Differ.check_vote_only_differ_by_timestamp
    horcrux.SignState.Differ.compare_votes horcrux.SignState.Differ.only_differ_by_timestamp advance
    horcrux.Validator.Existing.compare_block_signature_against_hrs
    horcrux.Validator.Existing.compare_block_signature_against_ssc
    horcrux.Validator.Existing.reuse_signature horcrux.Validator.Existing.sign_bytes_timestamp
answered = ground arith

save_last_signed_state_initiated-Reuses_example :
    (css : ChainSignState) × (some signed_chain ≡ some css)
    × (x : SignStateConsensus) × InViews key x (css ∷ [])
    × Reuses plain_codec (prevote 1007) x first_vote
save_last_signed_state_initiated-Reuses_example =
    save_last_signed_state_initiated-Reuses plain_codec plain_state_codec "chain-1" (prevote 1007)
      [] (validator_of signed_chain) (validator_of signed_chain) first_vote answered refl

notify_block_sign_error-go_ahead_example :
    (f : Found) × ((save_last_signed_state_initiated plain_codec plain_state_codec "chain-1"
        (prevote 1000)
        []
        (notify_block_sign_error key (prevote 1000).sign_bytes (validator_of signed_chain)).1).0
      ≡ ok f)
    × (is_nil f.signature ≡ true)
unfolding horcrux.Validator.Existing.sign_bytes_timestamp
notify_block_sign_error-go_ahead_example =
    notify_block_sign_error-go_ahead plain_codec plain_state_codec "chain-1" (prevote 1000) []
      signed_chain (validator_of signed_chain) (pos 1000) refl refl

abbrev made : CosignerNonce
made = record {
  source_id = pos 1;
  destination_id = pos 2;
  pub_key = some [];
  share = some [];
  signature = some [];
}
