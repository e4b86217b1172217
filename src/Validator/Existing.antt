-- ===== src/Validator/Existing.antt =====
-- `SaveLastSignedStateInitiated` of signer/threshold_validator.go: whether a block is signed, answered
-- from an existing signature, or refused.
use horcrux.Prelude.{
  ℤ, Bytes, is_nil, contents, bytes_equal, String, Bool, true, false, ◌||◌, ◌&&◌, List, [], ◌∷◌,
  none, some, if◌then◌else◌, eqb_ℤ, lookup,
}
use horcrux.Outcome.{
  Error, Outcome, ok, err, panic, message, wrapped, unmarshal_error, same_hrs, beyond_block,
  same_block, still_waiting_for_block,
}
use horcrux.Act.{Act, ◌>>=◌}
use horcrux.Hrs.{HrsKey, greater_than, eq_hrs, hrs_Eq}
use horcrux.Payload.{Codec, Time, step_propose, zero_time}
use horcrux.SignState.{
  SignStateConsensus, consensus_key, latest_hrs, get_from_cache, new_sign_state_consensus,
}
use horcrux.SignState.Differ.{only_differ_by_timestamp}
use horcrux.SignState.Disk.{StateCodec, save}
use horcrux.Validator.{
  Block, block_hrs_key, ChainSignState, ThresholdValidator, must_load_chain_state,
}

-- The signatures and the timestamp of a result. Beside an error the code returns a timestamp that no
-- caller reads; it is not modelled.
pub record Found : Type 0 where
  pub signature : Bytes
  pub vote_extension_signature : Bytes
  pub timestamp : Time

-- "good to sign": the zero values
abbrev pub go_ahead : Found
go_ahead = record { signature = none; vote_extension_signature = none; timestamp = zero_time }

abbrev pub is_same_hrs : Error → Bool
is_same_hrs (same_hrs k) = true
is_same_hrs _ = false

abbrev pub is_same_block : Error → Bool
is_same_block (same_block c k) = true
is_same_block _ = false

abbrev pub is_still_waiting : Error → Bool
is_still_waiting (still_waiting_for_block c k) = true
is_still_waiting _ = false

-- `newBeyondBlockError`: it names the block that progress was started on
abbrev pub new_beyond_block_error : String → HrsKey → HrsKey → Error
new_beyond_block_error chain_id initiated hrs = beyond_block chain_id initiated hrs

-- `compareBlockSignatureAgainstHRS`, which always returns an error; `initiated` is the latest block
-- that was begun
unfoldable pub compare_block_signature_against_hrs : String → HrsKey → Block → HrsKey → Error
compare_block_signature_against_hrs chain_id initiated block hrs =
    if greater_than hrs (block_hrs_key block)
    then new_beyond_block_error chain_id initiated (block_hrs_key block)
    else if eq_hrs hrs (block_hrs_key block)
    then same_block chain_id (block_hrs_key block)
    else still_waiting_for_block chain_id (block_hrs_key block)

module _ (c : Codec) where
  -- `signBytesTimestamp`
  unfoldable pub sign_bytes_timestamp : ℤ → Bytes → Outcome Time
  sign_bytes_timestamp step sign_bytes =
      if eqb_ℤ step step_propose
      then elim (c.unmarshal_proposal (contents sign_bytes)) [
        | none ↦ err (unmarshal_error "signBytes" "proposal")
        | some p ↦ ok (c.proposal_timestamp p)
      ]
      else elim (c.unmarshal_vote (contents sign_bytes)) [
        | none ↦ err (unmarshal_error "signBytes" "vote")
        | some v ↦ ok (c.vote_timestamp v)
      ]

  -- the part of `compareBlockSignatureAgainstSSC` behind the comparison of the keys
  unfoldable pub reuse_signature : Block → SignStateConsensus → Outcome Found
  reuse_signature block x = elim (sign_bytes_timestamp x.step x.sign_bytes) [
    | err e ↦ err e
    | panic t ↦ panic t
    | ok stamp ↦
        let found : Found = record {
          signature = x.signature;
          vote_extension_signature = x.vote_extension_signature;
          timestamp = stamp;
        } in
        if eqb_ℤ block.step step_propose || bytes_equal block.sign_bytes x.sign_bytes
        then ok found
        else elim (only_differ_by_timestamp c x.step x.sign_bytes block.sign_bytes) [
          | err e ↦ err e
          | panic t ↦ panic t
          | ok _ ↦ ok found
        ]
  ]

  -- `compareBlockSignatureAgainstSSC`
  unfoldable pub compare_block_signature_against_ssc :
      String → HrsKey → Block → SignStateConsensus → Outcome Found
  compare_block_signature_against_ssc chain_id initiated block x =
      let e = compare_block_signature_against_hrs chain_id initiated block (consensus_key x) in
      if is_same_block e then reuse_signature block x else err e

  -- `getExistingBlockSignature`
  unfoldable pub get_existing_block_signature : String → Block → ChainSignState → Outcome Found
  get_existing_block_signature chain_id block css =
      let initiated = latest_hrs css.last_sign_state_initiated in
      let (latest, existing) = get_from_cache css.last_sign_state (block_hrs_key block) in
      elim existing [
        | some x ↦ compare_block_signature_against_ssc chain_id initiated block x
        | none ↦ err (compare_block_signature_against_hrs chain_id initiated block latest)
      ]

  -- The wait for a block that the cluster is signing. `views` are the states of the chain as each
  -- return of `WaitWithTimeout` finds them, one for each attempt.
  unfoldable pub wait_for_block : String → Block → List ChainSignState → Outcome Found
  wait_for_block chain_id block [] =
      err (message "exceeded max attempts waiting for block to be signed")
  wait_for_block chain_id block (css ∷ views) =
      elim (lookup (block_hrs_key block) css.last_sign_state.cache) [
        | none ↦ wait_for_block chain_id block views
        | some x ↦
            elim (compare_block_signature_against_ssc chain_id
              (latest_hrs css.last_sign_state_initiated) block x) [
                | ok f ↦ ok f
                | panic t ↦ panic t
                | err e ↦ elim (is_still_waiting e) [
                  | true ↦ wait_for_block chain_id block views
                  | false ↦ err (
                      wrapped "same block error in loop, but we are not still waiting for signature"
                        e)
                ]
              ]
      ]

  -- what follows a save that was refused with the error `e`
  unfoldable pub after_refused_save :
      String → Block → ChainSignState → List ChainSignState → Error → Outcome Found
  after_refused_save chain_id block css views e =
      elim (get_existing_block_signature chain_id block css) [
        | panic t ↦ panic t
        | ok f ↦ if is_same_hrs e && is_nil f.signature then ok go_ahead else ok f
        | err same ↦ elim (is_same_hrs e) [
          | false ↦ err (
              new_beyond_block_error chain_id (latest_hrs css.last_sign_state_initiated)
                (block_hrs_key block))
          | true ↦ elim (is_still_waiting same) [
            | true ↦ wait_for_block chain_id block views
            | false ↦
                err (wrapped "same block error, but we are not still waiting for signature" same)
          ]
        ]
      ]

  -- `SaveLastSignedStateInitiated`, for as many views as `maxWaitForSameBlockAttempts`
  unfoldable pub save_last_signed_state_initiated :
      StateCodec → String → Block → List ChainSignState → Act ThresholdValidator Found
  save_last_signed_state_initiated codec chain_id block views = do
    css ← must_load_chain_state
    λ pv.
        elim (save codec true (new_sign_state_consensus block.height block.round block.step)
          css.last_sign_state_initiated pv.disk) [
            | ok saved ↦ (
              ok go_ahead,
              record pv {
                chain_state = some (record css { last_sign_state_initiated = saved.0 });
                disk = saved.1;
              },
            )
            | err e ↦ (after_refused_save chain_id block css views e, pv)
            | panic t ↦ (panic t, pv)
          ]
