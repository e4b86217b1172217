-- ===== src/RemoteSigner.antt =====
-- `ReconnRemoteSigner` of signer/remote_signer.go: how a request of a chain node is answered, or its
-- connection dropped, with the messages of signer/sign_state.go by which a refusal is recognised.
pub mod Answers
pub mod Signed
pub mod Loop
use Prim.Native.String
use horcrux.Prelude.{
  ℤ, pos, Bytes, String, Bool, true, false, ◌||◌, List, [], ◌∷◌, Option, none, some, if◌then◌else◌,
}
use horcrux.Outcome.{
  Error, Outcome, ok, err, panic, ◌>>=◌, height_regression, round_regression, step_regression,
  same_hrs, already_signed_vote, diff_block_ids, conflicting_data, beyond_block, message, wrapped,
}
use horcrux.ChainId.{codes, validate_chain_id}
use horcrux.ErrorText.{Text, error_text, within}
use horcrux.Payload.{Time, MsgType, prevote_type, precommit_type, step_propose, vote_to_step}
use horcrux.Refusal.{sign_refusal}
use horcrux.Validator.{Block}
use horcrux.Validator.Existing.{Found}

-- `cometproto.Vote` and `cometproto.Proposal`, which a type holds the other fields of, that the source
-- passes on: of a vote its block ID, validator and extension.
pub record Vote (Rest : Type 0) : Type 0 where
  pub type : MsgType
  pub height : ℤ
  pub round : ℤ  -- int32
  pub timestamp : Time
  pub signature : Bytes
  pub extension_signature : Bytes
  pub rest : Rest

pub record Proposal (Rest : Type 0) : Type 0 where
  pub height : ℤ
  pub round : ℤ  -- int32
  pub timestamp : Time
  pub signature : Bytes
  pub rest : Rest

-- What the remote signer calls: CometBFT's messages, and the methods of a `PrivValidator`, at the moment
-- of the request. A sign either ends in time or not.
pub data Run : Type 0 where
  finished : Outcome Found → Run
  expired : Run
  stopped : Run

pub record Privval : Type 1 where
  pub VoteRest : Type 0
  pub ProposalRest : Type 0
  pub PublicKey : Type 0
  -- none where CometBFT panics, as on a malformed block ID
  pub vote_sign_bytes : String → Vote VoteRest → Option Bytes
  pub vote_extension_sign_bytes : String → Vote VoteRest → Option Bytes
  pub proposal_sign_bytes : String → Proposal ProposalRest → Option Bytes
  pub pub_key_to_proto : Bytes → Outcome PublicKey
  pub sign : String → Block → Run
  pub get_pub_key : String → Outcome Bytes
  -- the text of protobuf's errors
  pub cause : Text

-- `RemoteSignerError`: its code is always 0
pub record RemoteSignerError : Type 0 where
  pub code : ℤ
  pub description : Text

-- `Message`: a nil pointer is `none`, and so is the zero value beside an error
module _ (p : Privval) where
  pub data Request : Type 0 where
    sign_vote_request : Option (String × Option (Vote p.VoteRest)) → Request
    sign_proposal_request : Option (String × Option (Proposal p.ProposalRest)) → Request
    pub_key_request : Option String → Request
    ping_request : Request
    unknown_request : Request

  pub data Response : Type 0 where
    signed_vote_response : Option (Vote p.VoteRest) → Option RemoteSignerError → Response
    signed_proposal_response :
        Option (Proposal p.ProposalRest) → Option RemoteSignerError → Response
    pub_key_response : Option p.PublicKey → Option RemoteSignerError → Response
    ping_response : Response
    no_response : Response

-- `signWithTimeout`: a panic of the sign path is an error
unfoldable pub sign_with_timeout : Run → Outcome Found
sign_with_timeout (finished (ok f)) = ok f
sign_with_timeout (finished (err e)) = err e
sign_with_timeout (finished (panic m)) = err (message (String.◌++◌ "panic in sign path: " m))
sign_with_timeout expired =
    err (wrapped "sign request abandoned (timeout 3.5s)" (message "context deadline exceeded"))
sign_with_timeout stopped =
    err (wrapped "sign request abandoned (timeout 3.5s)" (message "context canceled"))

-- the test of a vote's type in `handleSignVoteRequest`
abbrev pub is_vote_type : MsgType → Bool
is_vote_type prevote_type = true
is_vote_type precommit_type = true
is_vote_type _ = false

module _ (p : Privval) where
  open p use {VoteRest, ProposalRest, cause}

  -- `getRemoteSignerError`
  unfoldable pub get_remote_signer_error : Error → Option RemoteSignerError
  get_remote_signer_error e = some (record { code = pos 0; description = error_text cause e })

  abbrev marshaled : Option Bytes → Outcome Bytes
  marshaled none = panic "malformed message"
  marshaled (some bz) = ok bz

  unfoldable pub vote_block : String → Vote VoteRest → (step : ℤ) → Outcome Block
  vote_block chain_id vote step = do
    sign_bytes ← marshaled (p.vote_sign_bytes chain_id vote)
    ext_bytes ← marshaled (p.vote_extension_sign_bytes chain_id vote)
    ok (record {
      height = vote.height;
      round = vote.round;
      step = step;
      sign_bytes = sign_bytes;
      vote_extension_sign_bytes = ext_bytes;
      timestamp = vote.timestamp;
    })

  -- `VoteToBlock`
  unfoldable pub vote_to_block : String → Vote VoteRest → Outcome Block
  vote_to_block chain_id vote = elim (vote_to_step vote.type) [
    | err e ↦ err e
    | panic t ↦ panic t
    | ok step ↦ vote_block chain_id vote step
  ]

  -- `ProposalToBlock`
  unfoldable pub proposal_to_block : String → Proposal ProposalRest → Outcome Block
  proposal_to_block chain_id proposal = do
    sign_bytes ← marshaled (p.proposal_sign_bytes chain_id proposal)
    ok (record {
      height = proposal.height;
      round = proposal.round;
      step = step_propose;
      sign_bytes = sign_bytes;
      vote_extension_sign_bytes = none;
      timestamp = proposal.timestamp;
    })

  abbrev pub refuse_vote : Error → Response p
  refuse_vote e = signed_vote_response none (get_remote_signer_error e)

  -- the end of `handleSignVoteRequest`
  unfoldable pub answer_vote : Vote VoteRest → Outcome Found → Outcome (Response p × Bool)
  answer_vote vote (ok f) = ok (
    signed_vote_response
        (some (record vote {
          timestamp = f.timestamp;
          signature = f.signature;
          extension_signature = f.vote_extension_signature;
        }))
        none,
    false,
  )
  answer_vote vote (err e) =
      ok (if sign_refusal cause e then (refuse_vote e, false) else (no_response, true))
  answer_vote vote (panic t) = panic t

  -- `handleSignVoteRequest`; the second component says to drop the connection
  unfoldable pub handle_sign_vote_request :
      String → Option (Vote VoteRest) → Outcome (Response p × Bool)
  handle_sign_vote_request chain_id asked = elim (validate_chain_id chain_id) [
    | err e ↦ ok (refuse_vote e, false)
    | panic t ↦ panic t
    | ok _ ↦ elim asked [
      | none ↦ ok (refuse_vote (message "vote is required"), false)
      | some vote ↦ elim (is_vote_type vote.type) [
        | false ↦ ok (refuse_vote (message "unexpected vote type"), false)
        | true ↦ elim (vote_to_block chain_id vote) [
          | err e ↦ err e
          | panic t ↦ panic t
          | ok block ↦ answer_vote vote (sign_with_timeout (p.sign chain_id block))
        ]
      ]
    ]
  ]

  abbrev pub refuse_proposal : Error → Response p
  refuse_proposal e = signed_proposal_response none (get_remote_signer_error e)

  -- the end of `handleSignProposalRequest`
  unfoldable pub answer_proposal :
      Proposal ProposalRest → Outcome Found → Outcome (Response p × Bool)
  answer_proposal proposal (ok f) = ok (
    signed_proposal_response
        (some (record proposal { timestamp = f.timestamp; signature = f.signature })) none,
    false,
  )
  answer_proposal proposal (err e) =
      ok (if sign_refusal cause e then (refuse_proposal e, false) else (no_response, true))
  answer_proposal proposal (panic t) = panic t

  -- `handleSignProposalRequest`
  unfoldable pub handle_sign_proposal_request :
      String → Option (Proposal ProposalRest) → Outcome (Response p × Bool)
  handle_sign_proposal_request chain_id asked = elim (validate_chain_id chain_id) [
    | err e ↦ ok (refuse_proposal e, false)
    | panic t ↦ panic t
    | ok _ ↦ elim asked [
      | none ↦ ok (refuse_proposal (message "proposal is required"), false)
      | some proposal ↦ elim (proposal_to_block chain_id proposal) [
        | err e ↦ err e
        | panic t ↦ panic t
        | ok block ↦ answer_proposal proposal (sign_with_timeout (p.sign chain_id block))
      ]
    ]
  ]

  abbrev pub refuse_pub_key : Error → Response p
  refuse_pub_key e = pub_key_response none (get_remote_signer_error e)

  -- `handlePubKeyRequest`
  unfoldable pub handle_pub_key_request : String → Outcome (Response p)
  handle_pub_key_request chain_id = elim (validate_chain_id chain_id) [
    | err e ↦ ok (refuse_pub_key e)
    | panic t ↦ panic t
    | ok _ ↦ elim (p.get_pub_key chain_id) [
      | err e ↦ ok (refuse_pub_key e)
      | panic t ↦ panic t
      | ok key ↦ elim (p.pub_key_to_proto key) [
        | err e ↦ ok (refuse_pub_key e)
        | panic t ↦ panic t
        | ok public ↦ ok (pub_key_response (some public) none)
      ]
    ]
  ]

  abbrev nil_pointer : String
  nil_pointer = "invalid memory address or nil pointer dereference"

  abbrev pub keep : Outcome (Response p) → Outcome (Response p × Bool)
  keep (ok r) = ok (r, false)
  keep (err e) = err e
  keep (panic t) = panic t

  -- `handleRequest`
  unfoldable pub handle_request : Request p → Outcome (Response p × Bool)
  handle_request (sign_vote_request none) = panic nil_pointer
  handle_request (sign_vote_request (some (chain_id, vote))) =
      handle_sign_vote_request chain_id vote
  handle_request (sign_proposal_request none) = panic nil_pointer
  handle_request (sign_proposal_request (some (chain_id, proposal))) =
      handle_sign_proposal_request chain_id proposal
  handle_request (pub_key_request none) = panic nil_pointer
  handle_request (pub_key_request (some chain_id)) = keep (handle_pub_key_request chain_id)
  handle_request ping_request = ok (ping_response, false)
  handle_request unknown_request = ok (no_response, false)

  -- `handleRequestSafely`: the response, whether to drop the connection, and whether it panicked. The
  -- handlers return no Go error.
  unfoldable pub recovered : Outcome (Response p × Bool) → Response p × Bool × Bool
  recovered (ok (res, drop_req)) = (res, drop_req, false)
  recovered (err e) = (no_response, false, false)
  recovered (panic t) = (no_response, false, true)

  unfoldable pub handle_request_safely : Request p → Response p × Bool × Bool
  handle_request_safely req = recovered (handle_request req)
