-- ===== src/Scenarios/Answered.antt =====
-- Runs of the remote signer, signer/remote_signer.go, at concrete requests.
use horcrux.Prelude.{
  ℤ, pos, String, true, false, [], ◌∷◌, ◌++◌, none, some, ◌≡◌, refl, eqb_ℤ, if◌then◌else◌,
}
use horcrux.Outcome.{ok, err, height_regression, message}
use horcrux.ChainId.{codes, validate_chain_id}
use horcrux.ErrorText.{error_text, within}
use horcrux.Payload.{prevote_type, vote_to_step}
use horcrux.Validator.{Block}
use horcrux.Validator.Existing.{Found}
use horcrux.RemoteSigner.{
  Privval, Vote, Run, finished, expired, Request, sign_vote_request, signed_vote_response,
  sign_with_timeout, vote_to_block, vote_block, answer_vote, handle_sign_vote_request,
  handle_request, recovered, handle_request_safely,
}
use horcrux.Refusal.{is_refusal_type, within_any, sign_refusal}
use horcrux.Refusal.Texts.{sign_refusal-message}
use horcrux.RemoteSigner.Answers.{asked_block, abandons, crashes, handle_request_safely-drops}
use horcrux.RemoteSigner.Loop.{
  Loop, started, from_top, dialed, start_watch, read_msg, handle, write_msg, tops, dials, watches,
  reads, handles, writes, elects, Steps, here, more,
}
use horcrux.RemoteSigner.Loop.Answered.{AllSigned, Steps-AllSigned}

abbrev signatures : Found
signatures = record {
  signature = some (1 ∷ 2 ∷ []);
  vote_extension_signature = none;
  timestamp = pos 500;
}

-- signs at height 11, takes too long above and refuses below
abbrev sign_at : String → Block → Run
sign_at chain_id block =
    if eqb_ℤ block.height (pos 11)
    then finished (ok signatures)
    else if eqb_ℤ block.height (pos 12)
    then expired
    else finished (err (height_regression block.height (pos 11)))

abbrev privval : Privval
privval = record {
  VoteRest = Unit;
  ProposalRest = Unit;
  PublicKey = Unit;
  vote_sign_bytes = λ chain_id vote. some (some (7 ∷ []));
  vote_extension_sign_bytes = λ chain_id vote. some none;
  proposal_sign_bytes = λ chain_id proposal. some (some (8 ∷ []));
  pub_key_to_proto = λ key. ok tt;
  sign = sign_at;
  get_pub_key = λ chain_id. ok (some (9 ∷ []));
  cause = [];
}

abbrev prevote_at : ℤ → Vote Unit
prevote_at height = record {
  type = prevote_type;
  height = height;
  round = pos 0;
  timestamp = pos 400;
  signature = none;
  extension_signature = none;
  rest = tt;
}

abbrev request_at : ℤ → Request privval
request_at height = sign_vote_request (some ("gno-1", some (prevote_at height)))

signs_11 : handle_request_safely privval (request_at (pos 11)) ≡ (
  signed_vote_response
      (some (record (prevote_at (pos 11)) { timestamp = pos 500; signature = some (1 ∷ 2 ∷ []) }))
      none,
  false,
  false,
)
unfolding handle_request_safely recovered handle_request handle_sign_vote_request validate_chain_id
    vote_to_block vote_block vote_to_step answer_vote sign_with_timeout
signs_11 = refl

drops_12 : (handle_request_safely privval (request_at (pos 12))).1 ≡ true
unfolding handle_request_safely recovered handle_request handle_sign_vote_request validate_chain_id
    vote_to_block vote_block vote_to_step answer_vote sign_with_timeout sign_refusal is_refusal_type
    within_any error_text within
drops_12 = refl

answers_9 : (handle_request_safely privval (request_at (pos 9))).1 ≡ false
unfolding handle_request_safely recovered handle_request handle_sign_vote_request validate_chain_id
    vote_to_block vote_block vote_to_step answer_vote sign_with_timeout sign_refusal is_refusal_type
answers_9 = refl

handle_request_safely-drops_example :
    ((handle_request_safely privval (request_at (pos 12))).1
      ≡ abandons privval (asked_block privval (request_at (pos 12))))
    × ((handle_request_safely privval (request_at (pos 12))).2
        ≡ crashes privval (request_at (pos 12)))
handle_request_safely-drops_example = handle_request_safely-drops privval (request_at (pos 12))

abbrev refusal_of_peer : String
refusal_of_peer = "error from cosigner(s): rpc error: height regression. Got 9, last height 10"

peer_text :
    codes refusal_of_peer
    ≡ codes "error from cosigner(s): rpc error: "
      ++ (error_text [] (height_regression (pos 9) (pos 10)) ++ [])
unfolding error_text
peer_text = refl

is_refusal : sign_refusal [] (height_regression (pos 9) (pos 10)) ≡ true
unfolding sign_refusal is_refusal_type
is_refusal = refl

sign_refusal-message_example : sign_refusal [] (message refusal_of_peer) ≡ true
sign_refusal-message_example =
    sign_refusal-message [] (height_regression (pos 9) (pos 10)) refusal_of_peer
      (codes "error from cosigner(s): rpc error: ") [] peer_text is_refusal

-- The leader dials, reads a request and answers it.
abbrev connected_leader : Loop privval
connected_leader =
    start_watch privval true
      (dialed privval true true (from_top privval true (started privval true)))

abbrev signed_vote : Vote Unit
signed_vote = record (prevote_at (pos 11)) { timestamp = pos 500; signature = some (1 ∷ 2 ∷ []) }

abbrev answered_leader : Loop privval
answered_leader =
    write_msg privval true true (request_at (pos 11)) (signed_vote_response (some signed_vote) none)
      (handle privval true (request_at (pos 11))
        (read_msg privval true (some (request_at (pos 11))) connected_leader))

leading_run : Steps privval true (started privval true) answered_leader
unfolding from_top dialed start_watch read_msg handle write_msg handle_request_safely recovered
    handle_request handle_sign_vote_request validate_chain_id vote_to_block vote_block vote_to_step
    answer_vote sign_with_timeout
leading_run =
    more
      (more
        (more (more (more (more here (tops refl)) (dials true refl)) (watches refl))
          (reads (request_at (pos 11)) refl refl))
        (handles (request_at (pos 11)) refl))
      (writes (request_at (pos 11)) (signed_vote_response (some signed_vote) none) refl refl)

Steps-AllSigned_example : AllSigned privval answered_leader.answers
Steps-AllSigned_example = Steps-AllSigned privval true true answered_leader leading_run

-- A leader whose dial has failed dials again when it leads no more.
abbrev deposed : Loop privval
deposed = record (from_top privval true (started privval true)) { leads = false }

follower_dials : Steps privval true (started privval true) (dialed privval true true deposed)
unfolding from_top dialed
follower_dials =
    more (more (more (more here (tops refl)) (dials false refl)) (elects false)) (dials true refl)

follower_connected : ((dialed privval true true deposed).conn ≡ some true) × (deposed.leads ≡ false)
unfolding from_top dialed
follower_connected = (refl, refl)
