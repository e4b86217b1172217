-- ===== src/RemoteSigner/Signed.antt =====
-- Where the signed votes come from that a chain node of signer/remote_signer.go gets.
use horcrux.Prelude.{ℤ, String, ◌⊎◌, ◌≢◌, Option, none, some, ◌≡◌, refl, arith, inl, inr}
use horcrux.Outcome.{Error, ok, err, panic, Outcome-cases, returned, failed, panicked}
use horcrux.ChainId.{validate_chain_id}
use horcrux.Payload.{vote_to_step}
use horcrux.Validator.{Block}
use horcrux.Validator.Existing.{Found}
use horcrux.RemoteSigner.{
  Privval, Vote, Proposal, Run, finished, expired, stopped, Request, sign_vote_request,
  sign_proposal_request, pub_key_request, ping_request, unknown_request, signed_vote_response,
  sign_with_timeout, recovered, keep, vote_block, vote_to_block, proposal_to_block, answer_vote,
  answer_proposal, handle_sign_vote_request, handle_sign_proposal_request, handle_pub_key_request,
  handle_request, handle_request_safely,
}
use horcrux.RemoteSigner.Answers.{vote_type_cases}

module _ (p : Privval) where
  open p use {VoteRest, ProposalRest}

  -- the validator signed the block of the vote that the request holds, and the signed vote is that vote
  abbrev pub IsSigned : Request p → Vote VoteRest → Type 0
  IsSigned req signed =
      (chain_id : String) × (vote : Vote VoteRest) × (step : ℤ) × (block : Block) × (f : Found)
      × (req ≡ sign_vote_request (some (chain_id, some vote)))
      × (validate_chain_id chain_id ≡ ok tt)
      × (vote_to_step vote.type ≡ ok step)
      × (vote_block p chain_id vote step ≡ ok block)
      × (p.sign chain_id block ≡ finished (ok f))
      × (signed ≡ (record vote {
        timestamp = f.timestamp;
        signature = f.signature;
        extension_signature = f.vote_extension_signature;
      }))

  -- a sign returns signatures or an error
  timed_cases :
      (r : Run)
      → ((f : Found) × (r ≡ finished (ok f))) ⊎ ((e : Error) × (sign_with_timeout r ≡ err e))
  unfolding sign_with_timeout
  timed_cases (finished (ok f)) = inl (f, refl)
  timed_cases (finished (err e)) = inr (e, refl)
  timed_cases (finished (panic m)) = inr (_, refl)
  timed_cases expired = inr (_, refl)
  timed_cases stopped = inr (_, refl)

  handle_sign_vote_request-IsSigned :
      (chain_id : String) (vote : Option (Vote VoteRest)) (signed : Vote VoteRest)
      → (recovered p (handle_sign_vote_request p chain_id vote)).0
        ≡ signed_vote_response (some signed) none
      → IsSigned (sign_vote_request (some (chain_id, vote))) signed
  unfolding handle_sign_vote_request vote_to_block recovered answer_vote sign_with_timeout
  handle_sign_vote_request-IsSigned chain_id none signed h =
      elim (Outcome-cases (validate_chain_id chain_id)) [
        | failed x e ↦ absurd (ground arith)
        | panicked m e ↦ absurd (ground arith)
        | returned u e ↦ absurd (ground arith)
      ]
  handle_sign_vote_request-IsSigned chain_id (some vote) signed h =
      elim (Outcome-cases (validate_chain_id chain_id)) [
        | failed x e ↦ absurd (ground arith)
        | panicked m e ↦ absurd (ground arith)
        | returned u e ↦ elim (vote_type_cases vote.type) [
          | inr (ty, q) ↦ absurd (ground arith)
          | inl (ty, (step, q)) ↦ elim (Outcome-cases (vote_block p chain_id vote step)) [
            | failed x k ↦ absurd (ground arith)
            | panicked m k ↦ absurd (ground arith)
            | returned block k ↦ elim (timed_cases (p.sign chain_id block)) [
              | inl (f, g) ↦ (chain_id, vote, step, block, f, refl, e, q, k, g, ground arith)
              | inr (x, g) ↦ absurd (ground arith)
            ]
          ]
        ]
      ]

  -- no other request is answered by a vote
  handle_sign_proposal_request-no_vote :
      (chain_id : String) (proposal : Option (Proposal ProposalRest)) (signed : Vote VoteRest)
      → (recovered p (handle_sign_proposal_request p chain_id proposal)).0
        ≢ signed_vote_response (some signed) none
  unfolding handle_sign_proposal_request recovered answer_proposal sign_with_timeout
  handle_sign_proposal_request-no_vote chain_id none signed h =
      elim (Outcome-cases (validate_chain_id chain_id)) [
        | failed x e ↦ ground arith
        | panicked m e ↦ ground arith
        | returned u e ↦ ground arith
      ]
  handle_sign_proposal_request-no_vote chain_id (some proposal) signed h =
      elim (Outcome-cases (validate_chain_id chain_id)) [
        | failed x e ↦ ground arith
        | panicked m e ↦ ground arith
        | returned u e ↦ elim (Outcome-cases (proposal_to_block p chain_id proposal)) [
          | failed x k ↦ ground arith
          | panicked m k ↦ ground arith
          | returned block k ↦ elim (timed_cases (p.sign chain_id block)) [
            | inl (f, g) ↦ ground arith
            | inr (x, g) ↦ ground arith
          ]
        ]
      ]

  handle_pub_key_request-no_vote :
      (chain_id : String) (signed : Vote VoteRest)
      → (recovered p (keep p (handle_pub_key_request p chain_id))).0
        ≢ signed_vote_response (some signed) none
  unfolding handle_pub_key_request recovered
  handle_pub_key_request-no_vote chain_id signed h =
      elim (Outcome-cases (validate_chain_id chain_id)) [
        | failed x e ↦ ground arith
        | panicked m e ↦ ground arith
        | returned u e ↦ elim (Outcome-cases (p.get_pub_key chain_id)) [
          | failed x q ↦ ground arith
          | panicked m q ↦ ground arith
          | returned key q ↦ elim (Outcome-cases (p.pub_key_to_proto key)) [
            | failed x w ↦ ground arith
            | panicked m w ↦ ground arith
            | returned public w ↦ ground arith
          ]
        ]
      ]

  -- The signed vote that a request is answered with is the vote of the request, of a valid chain and type,
  -- with the signatures and the time that the validator gave for its block, and nothing else changed.
  pub handle_request_safely-IsSigned :
      (req : Request p) (signed : Vote VoteRest)
      → (handle_request_safely p req).0 ≡ signed_vote_response (some signed) none
      → IsSigned req signed
  unfolding handle_request handle_request_safely recovered
  handle_request_safely-IsSigned (sign_vote_request none) signed h = absurd (ground arith)
  handle_request_safely-IsSigned (sign_vote_request (some (chain_id, vote))) signed h =
      handle_sign_vote_request-IsSigned chain_id vote signed h
  handle_request_safely-IsSigned (sign_proposal_request none) signed h = absurd (ground arith)
  handle_request_safely-IsSigned (sign_proposal_request (some (chain_id, proposal))) signed h =
      absurd (handle_sign_proposal_request-no_vote chain_id proposal signed h)
  handle_request_safely-IsSigned (pub_key_request none) signed h = absurd (ground arith)
  handle_request_safely-IsSigned (pub_key_request (some chain_id)) signed h =
      absurd (handle_pub_key_request-no_vote chain_id signed h)
  handle_request_safely-IsSigned ping_request signed h = absurd (ground arith)
  handle_request_safely-IsSigned unknown_request signed h = absurd (ground arith)
