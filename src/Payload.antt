-- ===== src/Payload.antt =====
-- The payloads that are signed: CometBFT's canonical messages, which are a parameter, and
-- `verifySignPayload` of signer/cosigner.go with the step helpers of signer/sign_state.go.
pub mod Laws
pub mod Checks
use horcrux.Prelude.{
  ℕ, List, contents, ℤ, pos, negsuc, Bytes, is_empty, is_nil, String, Bool, true, false, ◌&&◌, ◌||◌,
  not, Option, none, some, if◌then◌else◌, eqb_ℤ, to_int64, ◌=?◌, string_Eq,
}
use horcrux.Outcome.{Outcome, ok, err, panic, message, wrapped, unmarshal_error, ◌>>=◌, ◌>>◌}
use horcrux.Hrs.{HrstKey, HrsKey, hrs_key}

-- `cometproto.SignedMsgType`: the source compares with these constants only.
pub data MsgType : Type 0 where
  prevote_type precommit_type proposal_type other_type : MsgType

-- A `time.Time` is an instant in nanoseconds from the Unix epoch.
abbrev pub Time : Type 0
Time = ℤ

-- `UnixNano` wraps outside the years 1678 to 2262.
abbrev pub unix_nano : Time → ℤ
unix_nano t = to_int64 t

-- `time.Time{}`: 1 January of the year 1
abbrev pub zero_time : Time
zero_time = negsuc 62135596799999999999

-- CometBFT's canonical messages and `protoio`'s delimited encoding. A nil `BlockID` is `none`; of another
-- the source reads the hash alone.
pub record Codec : Type 1 where
  pub Vote : Type 0
  pub Proposal : Type 0
  pub VoteExt : Type 0
  pub unmarshal_vote : List ℕ → Option Vote
  pub unmarshal_proposal : List ℕ → Option Proposal
  pub unmarshal_vote_ext : List ℕ → Option VoteExt
  pub marshal_vote : Vote → Option (List ℕ)
  pub vote_type : Vote → MsgType
  pub vote_height : Vote → ℤ
  pub vote_round : Vote → ℤ
  pub vote_block_id : Vote → Option Bytes
  pub vote_timestamp : Vote → Time
  pub with_vote_timestamp : Vote → Time → Vote
  pub vote_equal : Vote → Vote → Bool
  pub proposal_height : Proposal → ℤ
  pub proposal_round : Proposal → ℤ
  pub proposal_timestamp : Proposal → Time
  pub with_proposal_timestamp : Proposal → Time → Proposal
  pub proposal_equal : Proposal → Proposal → Bool
  pub ext_chain_id : VoteExt → String
  pub ext_height : VoteExt → ℤ
  pub ext_round : VoteExt → ℤ

abbrev pub step_propose : ℤ
step_propose = pos 1

abbrev pub step_prevote : ℤ
step_prevote = pos 2

abbrev pub step_precommit : ℤ
step_precommit = pos 3

-- `signType`
unfoldable pub sign_type : ℤ → String
sign_type step =
    if eqb_ℤ step step_propose
    then "proposal"
    else if eqb_ℤ step step_prevote
    then "prevote"
    else if eqb_ℤ step step_precommit
    then "precommit"
    else "unknown"

-- `VoteToStep` and `CanonicalVoteToStep`, which differ in the type of their argument alone
unfoldable pub vote_to_step : MsgType → Outcome ℤ
vote_to_step prevote_type = ok step_prevote
vote_to_step precommit_type = ok step_precommit
vote_to_step _ = panic "Unknown vote type"

unfoldable pub step_to_type : ℤ → Outcome MsgType
step_to_type step =
    if eqb_ℤ step step_propose
    then ok proposal_type
    else if eqb_ℤ step step_prevote
    then ok prevote_type
    else if eqb_ℤ step step_precommit
    then ok precommit_type
    else panic "Unknown step"

abbrev is_vote_type : MsgType → Bool
is_vote_type prevote_type = true
is_vote_type precommit_type = true
is_vote_type _ = false

abbrev pub has_block : Option Bytes → Bool
has_block none = false
has_block (some h) = true

module _ (c : Codec) where
  open c use {
    Vote, unmarshal_vote, unmarshal_proposal, unmarshal_vote_ext, vote_type, vote_height,
    vote_round, vote_block_id, vote_timestamp, proposal_height, proposal_round, proposal_timestamp,
    ext_chain_id, ext_height, ext_round,
  }

  -- the checks of a vote extension against its vote
  unfoldable pub verify_vote_extension : String → HrstKey → Bytes → Outcome Bool
  verify_vote_extension chain_id key ext_bytes = elim (unmarshal_vote_ext (contents ext_bytes)) [
    | none ↦ err (wrapped "failed to unmarshal vote extension" (message "protoio"))
    | some ext ↦
        if not (ext_chain_id ext =? chain_id)
        then err (message "vote extension chain ID does not match chain ID")
        else if not (eqb_ℤ (ext_height ext) key.height)
        then err (message "vote extension height does not match block height")
        else if not (eqb_ℤ (ext_round ext) key.round)
        then err (message "vote extension round does not match block round")
        else ok true
  ]

  -- the branch of `verifySignPayload` for a vote
  unfoldable pub verify_vote_payload : String → Vote → Bytes → Outcome (HrstKey × Bool)
  unfolding vote_to_step
  verify_vote_payload chain_id vote ext_bytes = do
    step ← vote_to_step (vote_type vote)
    let key : HrstKey = record {
      height = vote_height vote;
      round = vote_round vote;
      step = step;
      timestamp = unix_nano (vote_timestamp vote);
    }
    if eqb_ℤ step step_precommit && not (is_empty ext_bytes) && has_block (vote_block_id vote)
        then (do has_ext ← verify_vote_extension chain_id key ext_bytes; ok (key, has_ext))
        else ok (key, false)

  -- the branch for a proposal
  unfoldable pub verify_proposal_payload : Bytes → Outcome (HrstKey × Bool)
  verify_proposal_payload sign_bytes = elim (unmarshal_proposal (contents sign_bytes)) [
    | none ↦
        err (wrapped "failed to unmarshal sign bytes into vote or proposal" (message "protoio"))
    | some p ↦ ok (
      record {
        height = proposal_height p;
        round = proposal_round p;
        step = step_propose;
        timestamp = unix_nano (proposal_timestamp p);
      },
      false,
    )
  ]

  -- `verifySignPayload`: the height, round and step that sign bytes are for, and whether an
  -- extension is to be signed with them
  unfoldable pub verify_sign_payload : String → Bytes → Bytes → Outcome (HrstKey × Bool)
  unfolding verify_vote_payload verify_proposal_payload
  verify_sign_payload chain_id sign_bytes ext_bytes = elim (unmarshal_vote (contents sign_bytes)) [
    | none ↦ verify_proposal_payload sign_bytes
    | some vote ↦
        if is_vote_type (vote_type vote)
        then verify_vote_payload chain_id vote ext_bytes
        else verify_proposal_payload sign_bytes
  ]
