-- ===== src/FileSigner.antt =====
-- `FilePV` of signer/file.go, the signer of a validator with one key: its last signed state, `Sign` and
-- `saveSigned`.
pub mod Once
use horcrux.Prelude.{
  ℤ, pos, Bytes, bytes_equal, contents, is_nil, String, Bool, true, false, ◌||◌, not, Option, none,
  some, if◌then◌else◌, eqb_ℤ, ltb_ℤ, to_int32, ◌=?◌, string_Eq,
}
use horcrux.Outcome.{
  Error, Outcome, ok, err, panic, message, height_regression, round_regression, step_regression,
}
use horcrux.Act.{Act, fail, lift, gets, pure, ◌>>=◌, ◌>>◌}
use horcrux.Payload.{Codec, Time, verify_sign_payload, step_propose, step_prevote, step_precommit}
use horcrux.Validator.{Block}

pub record FilePvLastSignState : Type 0 where
  pub height : ℤ
  pub round : ℤ
  pub step : ℤ
  pub signature : Bytes
  pub sign_bytes : Bytes
  pub file_path : String

-- The validator and the state that its file holds.
pub record FilePv : Type 0 where
  pub last_sign_state : FilePvLastSignState
  pub on_disk : Option FilePvLastSignState

-- The private key, and whether CometBFT's atomic write of a state succeeds.
pub record FileKey : Type 0 where
  pub key_sign : Bytes → Outcome Bytes
  pub is_written : FilePvLastSignState → Bool

-- what `Sign` returns
pub record FileSigned : Type 0 where
  pub signature : Bytes
  pub vote_extension_signature : Bytes
  pub timestamp : Time

-- `CheckHRS`
unfoldable pub check_file_hrs : FilePvLastSignState → (height round step : ℤ) → Outcome Bool
check_file_hrs lss height round step =
    if ltb_ℤ height lss.height
    then err (height_regression height lss.height)
    else if not (eqb_ℤ lss.height height)
    then ok false
    else if ltb_ℤ round lss.round
    then err (round_regression height round lss.round)
    else if not (eqb_ℤ lss.round round)
    then ok false
    else if ltb_ℤ step lss.step
    then err (step_regression height round step lss.step)
    else if not (eqb_ℤ lss.step step)
    then ok false
    else if is_nil lss.sign_bytes
    then err (message "no SignBytes found")
    else if is_nil lss.signature
    then panic "pv: Signature is nil but SignBytes is not!"
    else ok true

-- `saveSigned`: the state in memory is written before `Save`, which panics where it fails.
unfoldable pub save_signed_file : FileKey → FilePvLastSignState → Act FilePv (Unit {0})
save_signed_file key lss pv =
    if lss.file_path =? ""
    then (
      panic "cannot save FilePVLastSignState: filePath not set",
      record { last_sign_state = lss; on_disk = pv.on_disk },
    )
    else if key.is_written lss
    then (ok tt, record { last_sign_state = lss; on_disk = some lss })
    else (panic "write", record { last_sign_state = lss; on_disk = pv.on_disk })

module _ (c : Codec) where
  open c use {
    unmarshal_vote, unmarshal_proposal, vote_timestamp, with_vote_timestamp, vote_equal,
    proposal_timestamp, with_proposal_timestamp, proposal_equal,
  }

  -- `checkVotesOnlyDifferByTimestamp`, with the time `now` at which it runs
  unfoldable pub check_votes_only_differ_by_timestamp :
      Time → (last new : Bytes) → Outcome (Time × Bool)
  check_votes_only_differ_by_timestamp now last new = elim (unmarshal_vote (contents last)) [
    | none ↦ panic "LastSignBytes cannot be unmarshalled into vote"
    | some l ↦ elim (unmarshal_vote (contents new)) [
      | none ↦ panic "signBytes cannot be unmarshalled into vote"
      | some n ↦
          ok (vote_timestamp l, vote_equal (with_vote_timestamp n now) (with_vote_timestamp l now))
    ]
  ]

  unfoldable pub check_proposals_only_differ_by_timestamp :
      Time → (last new : Bytes) → Outcome (Time × Bool)
  check_proposals_only_differ_by_timestamp now last new =
      elim (unmarshal_proposal (contents last)) [
        | none ↦ panic "LastSignBytes cannot be unmarshalled into proposal"
        | some l ↦ elim (unmarshal_proposal (contents new)) [
          | none ↦ panic "signBytes cannot be unmarshalled into proposal"
          | some n ↦ ok (
            proposal_timestamp l,
            proposal_equal (with_proposal_timestamp n now) (with_proposal_timestamp l now),
          )
        ]
      ]

  abbrev pub reuse_if : Bytes → Bytes → Time × Bool → Outcome FileSigned
  reuse_if signature ext_sig (t, true) =
      ok (record { signature = signature; vote_extension_signature = ext_sig; timestamp = t })
  reuse_if signature ext_sig (t, false) = err (message "conflicting data")

  -- the answer at the height, round and step that were signed last
  unfoldable pub reuse_last : Time → FilePvLastSignState → Block → Bytes → Outcome FileSigned
  unfolding check_votes_only_differ_by_timestamp check_proposals_only_differ_by_timestamp
  reuse_last now lss block ext_sig =
      if bytes_equal block.sign_bytes lss.sign_bytes
      then ok (record {
        signature = lss.signature;
        vote_extension_signature = none;
        timestamp = block.timestamp;
      })
      else if eqb_ℤ block.step step_propose
      then elim (check_proposals_only_differ_by_timestamp now lss.sign_bytes block.sign_bytes) [
        | ok r ↦ reuse_if lss.signature none r
        | err e ↦ err e
        | panic m ↦ panic m
      ]
      else if eqb_ℤ block.step step_prevote || eqb_ℤ block.step step_precommit
      then elim (check_votes_only_differ_by_timestamp now lss.sign_bytes block.sign_bytes) [
        | ok r ↦ reuse_if lss.signature ext_sig r
        | err e ↦ err e
        | panic m ↦ panic m
      ]
      else err (message "conflicting data")

  -- a new signature, which is saved before it is returned
  unfoldable pub sign_new : FileKey → Block → Bytes → Act FilePv FileSigned
  unfolding save_signed_file
  sign_new key block ext_sig = do
    sig ← lift (key.key_sign block.sign_bytes)
    lss ← gets (λ pv. pv.last_sign_state)
    save_signed_file key (record {
      height = block.height;
      round = to_int32 block.round;
      step = block.step;
      signature = sig;
      sign_bytes = block.sign_bytes;
      file_path = lss.file_path;
    })
    pure (record {
      signature = sig;
      vote_extension_signature = ext_sig;
      timestamp = block.timestamp;
    })

  abbrev pub extension_signature : FileKey → Bool → Bytes → Outcome Bytes
  extension_signature key true ext_bytes = key.key_sign ext_bytes
  extension_signature key false ext_bytes = ok none

  -- `Sign`, without the timestamp beside an error
  unfoldable pub sign_file : FileKey → Time → String → Block → Act FilePv FileSigned
  unfolding reuse_last sign_new
  sign_file key now chain_id block = do
    lss ← gets (λ pv. pv.last_sign_state)
    same_hrs ← lift (check_file_hrs lss block.height (to_int32 block.round) block.step)
    verified ←
        lift (verify_sign_payload c chain_id block.sign_bytes block.vote_extension_sign_bytes)
    ext_sig ← lift (extension_signature key verified.1 block.vote_extension_sign_bytes)
    if same_hrs then lift (reuse_last now lss block ext_sig) else sign_new key block ext_sig
