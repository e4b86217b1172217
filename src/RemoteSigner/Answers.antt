-- ===== src/RemoteSigner/Answers.antt =====
-- What a chain node of signer/remote_signer.go gets for its requests: an answer, or a dropped
-- connection.
use horcrux.Prelude.{
  Bytes, ◌&&◌, ◌≢◌, ap, ℤ, String, Bool, ◌⊎◌, ◌∙◌, true, false, Option, none, some, ◌≡◌, refl,
  arith, inl, inr, not,
}
use horcrux.Outcome.{Outcome, ok, err, panic, Outcome-cases, returned, failed, panicked}
use horcrux.ChainId.{validate_chain_id}
use horcrux.Payload.{
  MsgType, step_prevote, step_precommit, prevote_type, precommit_type, proposal_type, other_type,
  vote_to_step,
}
use horcrux.Validator.{Block}
use horcrux.Validator.Existing.{Found}
use horcrux.RemoteSigner.{
  Privval, Vote, Proposal, Run, finished, expired, stopped, Request, sign_vote_request,
  sign_proposal_request, pub_key_request, ping_request, unknown_request, Response,
  sign_with_timeout, is_vote_type, recovered, keep, vote_block, vote_to_block, proposal_to_block,
  answer_vote, answer_proposal, handle_sign_vote_request, handle_sign_proposal_request,
  handle_pub_key_request, handle_request, handle_request_safely,
}
use horcrux.Refusal.{sign_refusal}

-- a vote's type is accepted exactly where it has a step
pub vote_type_cases :
    (t : MsgType)
    → ((is_vote_type t ≡ true) × ((step : ℤ) × (vote_to_step t ≡ ok step)))
      ⊎ ((is_vote_type t ≡ false) × (vote_to_step t ≡ panic "Unknown vote type"))
unfolding vote_to_step
vote_type_cases prevote_type = inl (refl, (step_prevote, refl))
vote_type_cases precommit_type = inl (refl, (step_precommit, refl))
vote_type_cases proposal_type = inr (refl, refl)
vote_type_cases other_type = inr (refl, refl)

module _ (p : Privval) where
  open p use {VoteRest, ProposalRest, cause}

  -- The block that a request asks to sign for a chain, where the request is valid.
  abbrev asked_vote : String → Vote VoteRest → Option (String × Block)
  asked_vote chain_id vote = elim (vote_to_block p chain_id vote) [
    | ok block ↦ some (chain_id, block)
    | _ ↦ none
  ]

  abbrev asked_proposal : String → Proposal ProposalRest → Option (String × Block)
  asked_proposal chain_id proposal = elim (proposal_to_block p chain_id proposal) [
    | ok block ↦ some (chain_id, block)
    | _ ↦ none
  ]

  abbrev when_valid : String → Option (String × Block) → Option (String × Block)
  when_valid chain_id asked = elim (validate_chain_id chain_id) [ ok _ ↦ asked | _ ↦ none ]

  unfoldable pub asked_block : Request p → Option (String × Block)
  asked_block (sign_vote_request (some (chain_id, some vote))) =
      when_valid chain_id (asked_vote chain_id vote)
  asked_block (sign_proposal_request (some (chain_id, some proposal))) =
      when_valid chain_id (asked_proposal chain_id proposal)
  asked_block _ = none

  -- whether a sign ended in an error that is no refusal
  unfoldable pub is_abandoned : Outcome Found → Bool
  is_abandoned (err e) = not (sign_refusal cause e)
  is_abandoned _ = false

  unfoldable pub abandons : Option (String × Block) → Bool
  abandons none = false
  abandons (some (chain_id, block)) = is_abandoned (sign_with_timeout (p.sign chain_id block))

  -- the flag to drop the connection, of a handler that may have panicked
  abbrev drop_flag : Outcome (Response p × Bool) → Bool
  drop_flag (ok (r, drop_req)) = drop_req
  drop_flag _ = false

  abbrev is_panic {ℓ} : {A : Type ℓ} → Outcome A → Bool
  is_panic (panic t) = true
  is_panic _ = false

  abbrev is_valid : String → Bool
  is_valid chain_id = elim (validate_chain_id chain_id) [ ok _ ↦ true | _ ↦ false ]

  abbrev lacks_key : Outcome Bytes → Bool
  lacks_key (ok key) = is_panic (p.pub_key_to_proto key)
  lacks_key r = is_panic r

  -- The requests whose handling panics: those that are nil, a vote or proposal whose bytes CometBFT cannot
  -- make, and a public key that the validator or CometBFT panics for. A panic while signing is none.
  unfoldable pub crashes : Request p → Bool
  crashes (sign_vote_request none) = true
  crashes (sign_vote_request (some (chain_id, none))) = false
  crashes (sign_vote_request (some (chain_id, some vote))) =
      is_valid chain_id && is_vote_type vote.type && is_panic (vote_to_block p chain_id vote)
  crashes (sign_proposal_request none) = true
  crashes (sign_proposal_request (some (chain_id, none))) = false
  crashes (sign_proposal_request (some (chain_id, some proposal))) =
      is_valid chain_id && is_panic (proposal_to_block p chain_id proposal)
  crashes (pub_key_request none) = true
  crashes (pub_key_request (some chain_id)) =
      is_valid chain_id && lacks_key (p.get_pub_key chain_id)
  crashes _ = false

  -- both flags of a handler that may have panicked
  abbrev flags : Outcome (Response p × Bool) → Bool × Bool
  flags o = (drop_flag o, is_panic o)

  recovered-flags :
      (o : Outcome (Response p × Bool)) → ((recovered p o).1, (recovered p o).2) ≡ flags o
  unfolding recovered
  recovered-flags (ok a) = refl
  recovered-flags (err e) = refl
  recovered-flags (panic m) = refl

  validate_chain_id-no_panic : (s m : String) → validate_chain_id s ≢ panic m
  unfolding validate_chain_id
  validate_chain_id-no_panic s m h = ground arith

  answer_vote-flags :
      (vote : Vote VoteRest) (run : Run)
      → let r = sign_with_timeout run in flags (answer_vote p vote r) ≡ (is_abandoned r, false)
  unfolding answer_vote is_abandoned sign_with_timeout
  answer_vote-flags vote (finished (ok f)) = refl
  answer_vote-flags vote (finished (err e)) = ground arith
  answer_vote-flags vote (finished (panic m)) = ground arith
  answer_vote-flags vote expired = ground arith
  answer_vote-flags vote stopped = ground arith

  answer_proposal-flags :
      (proposal : Proposal ProposalRest) (run : Run)
      → let r = sign_with_timeout run in
        flags (answer_proposal p proposal r) ≡ (is_abandoned r, false)
  unfolding answer_proposal is_abandoned sign_with_timeout
  answer_proposal-flags proposal (finished (ok f)) = refl
  answer_proposal-flags proposal (finished (err e)) = ground arith
  answer_proposal-flags proposal (finished (panic m)) = ground arith
  answer_proposal-flags proposal expired = ground arith
  answer_proposal-flags proposal stopped = ground arith

  handle_sign_vote_request-flags :
      (chain_id : String) (vote : Option (Vote VoteRest))
      → let req : Request p = sign_vote_request (some (chain_id, vote)) in
        flags (handle_sign_vote_request p chain_id vote) ≡ (abandons (asked_block req), crashes req)
  unfolding handle_sign_vote_request asked_block abandons crashes vote_to_block
  handle_sign_vote_request-flags chain_id none = elim (Outcome-cases (validate_chain_id chain_id)) [
    | failed x e ↦ ground arith
    | panicked m e ↦ absurd (validate_chain_id-no_panic chain_id m e)
    | returned u e ↦ ground arith
  ]
  handle_sign_vote_request-flags chain_id (some vote) =
      elim (Outcome-cases (validate_chain_id chain_id)) [
        | failed x e ↦ ground arith
        | panicked m e ↦ absurd (validate_chain_id-no_panic chain_id m e)
        | returned u e ↦ elim (vote_type_cases vote.type) [
          | inr (ty, q) ↦ ground arith
          | inl (ty, (step, q)) ↦ elim (Outcome-cases (vote_block p chain_id vote step)) [
            | failed x k ↦ ground arith
            | panicked m k ↦ ground arith
            | returned block k ↦ ground (arith, answer_vote-flags vote (p.sign chain_id block))
          ]
        ]
      ]

  handle_sign_proposal_request-flags :
      (chain_id : String) (proposal : Option (Proposal ProposalRest))
      → let req : Request p = sign_proposal_request (some (chain_id, proposal)) in
        flags (handle_sign_proposal_request p chain_id proposal)
        ≡ (abandons (asked_block req), crashes req)
  unfolding handle_sign_proposal_request asked_block abandons crashes
  handle_sign_proposal_request-flags chain_id none =
      elim (Outcome-cases (validate_chain_id chain_id)) [
        | failed x e ↦ ground arith
        | panicked m e ↦ absurd (validate_chain_id-no_panic chain_id m e)
        | returned u e ↦ ground arith
      ]
  handle_sign_proposal_request-flags chain_id (some proposal) =
      elim (Outcome-cases (validate_chain_id chain_id)) [
        | failed x e ↦ ground arith
        | panicked m e ↦ absurd (validate_chain_id-no_panic chain_id m e)
        | returned u e ↦ elim (Outcome-cases (proposal_to_block p chain_id proposal)) [
          | failed x k ↦ ground arith
          | panicked m k ↦ ground arith
          | returned block k ↦
              ground (arith, answer_proposal-flags proposal (p.sign chain_id block))
        ]
      ]

  handle_pub_key_request-flags :
      (chain_id : String)
      → flags (keep p (handle_pub_key_request p chain_id))
        ≡ (false, crashes (pub_key_request (some chain_id)))
  unfolding handle_pub_key_request crashes
  handle_pub_key_request-flags chain_id = elim (Outcome-cases (validate_chain_id chain_id)) [
    | failed x e ↦ ground arith
    | panicked m e ↦ absurd (validate_chain_id-no_panic chain_id m e)
    | returned u e ↦ elim (Outcome-cases (p.get_pub_key chain_id)) [
      | failed x k ↦ ground arith
      | panicked m k ↦ ground arith
      | returned key k ↦ elim (Outcome-cases (p.pub_key_to_proto key)) [
        | failed x g ↦ ground arith
        | panicked m g ↦ ground arith
        | returned public g ↦ ground arith
      ]
    ]
  ]

  handle_request-flags :
      (req : Request p) → flags (handle_request p req) ≡ (abandons (asked_block req), crashes req)
  unfolding handle_request asked_block abandons crashes
  handle_request-flags (sign_vote_request none) = refl
  handle_request-flags (sign_vote_request (some (chain_id, vote))) =
      handle_sign_vote_request-flags chain_id vote
  handle_request-flags (sign_proposal_request none) = refl
  handle_request-flags (sign_proposal_request (some (chain_id, proposal))) =
      handle_sign_proposal_request-flags chain_id proposal
  handle_request-flags (pub_key_request none) = refl
  handle_request-flags (pub_key_request (some chain_id)) = handle_pub_key_request-flags chain_id
  handle_request-flags ping_request = refl
  handle_request-flags unknown_request = refl

  -- Of the two flags for which the loop drops the connection in place of an answer, the first is set for
  -- exactly the valid requests whose sign ended in an error that is no refusal: it ran out of time, was
  -- stopped, panicked or failed in passing. The second is set for exactly the requests whose handling
  -- panics outside the sign: a nil one, a vote or proposal whose bytes cannot be made, and a key that
  -- cannot be read or converted without a panic.
  pub handle_request_safely-drops :
      (req : Request p)
      → ((handle_request_safely p req).1 ≡ abandons (asked_block req))
        × ((handle_request_safely p req).2 ≡ crashes req)
  unfolding handle_request_safely
  handle_request_safely-drops req =
      let e = recovered-flags (handle_request p req) ∙ handle_request-flags req in
      (ap (λ x. x.0) e, ap (λ x. x.1) e)
