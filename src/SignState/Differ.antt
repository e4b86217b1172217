-- ===== src/SignState/Differ.antt =====
-- The timestamp comparisons of signer/sign_state.go.
use horcrux.Prelude.{
  ℤ, Bytes, bytes_equal, contents, true, false, not, ◌||◌, Option, none, some, if◌then◌else◌, eqb_ℤ,
}
use horcrux.Outcome.{
  Outcome, ok, err, panic, unmarshal_error, already_signed_vote, diff_block_ids, conflicting_data,
}
use horcrux.Payload.{Codec, step_propose, step_prevote, step_precommit}

-- `GetHash` of a nil block ID is nil
abbrev get_hash : Option Bytes → Bytes
get_hash none = none
get_hash (some h) = h

-- the tests of `checkVoteOnlyDifferByTimestamp` that choose its error
unfoldable pub vote_conflict : Option Bytes → Option Bytes → Bytes → Bytes → Outcome (Unit {0})
vote_conflict (some h) none last new = err (already_signed_vote true)
vote_conflict none (some h) last new = err (already_signed_vote false)
vote_conflict last_id new_id last new =
    if not (bytes_equal (get_hash last_id) (get_hash new_id))
    then err (diff_block_ids (get_hash last_id) (get_hash new_id))
    else err (conflicting_data last new)

module _ (c : Codec) where
  open c use {
    Vote, Proposal, unmarshal_vote, unmarshal_proposal, vote_timestamp, with_vote_timestamp,
    vote_equal, vote_block_id, proposal_timestamp, with_proposal_timestamp, proposal_equal,
  }

  unfoldable pub compare_votes : Vote → Vote → Bytes → Bytes → Outcome (Unit {0})
  unfolding vote_conflict
  compare_votes last_vote new_vote last new =
      if vote_equal (with_vote_timestamp new_vote (vote_timestamp last_vote)) last_vote
      then ok tt
      else vote_conflict (vote_block_id last_vote) (vote_block_id new_vote) last new

  unfoldable pub check_vote_only_differ_by_timestamp : Bytes → Bytes → Outcome (Unit {0})
  unfolding compare_votes
  check_vote_only_differ_by_timestamp last new = elim (unmarshal_vote (contents last)) [
    | none ↦ err (unmarshal_error "lastSignBytes" "vote")
    | some last_vote ↦ elim (unmarshal_vote (contents new)) [
      | none ↦ err (unmarshal_error "newSignBytes" "vote")
      | some new_vote ↦ compare_votes last_vote new_vote last new
    ]
  ]

  unfoldable pub check_proposal_only_differ_by_timestamp : Bytes → Bytes → Outcome (Unit {0})
  check_proposal_only_differ_by_timestamp last new = elim (unmarshal_proposal (contents last)) [
    | none ↦ err (unmarshal_error "lastSignBytes" "proposal")
    | some last_proposal ↦ elim (unmarshal_proposal (contents new)) [
      | none ↦ err (unmarshal_error "newSignBytes" "proposal")
      | some new_proposal ↦
          if proposal_equal
            (with_proposal_timestamp new_proposal (proposal_timestamp last_proposal)) last_proposal
          then ok tt
          else err (conflicting_data last new)
    ]
  ]

  -- `onlyDifferByTimestamp`
  unfoldable pub only_differ_by_timestamp : ℤ → Bytes → Bytes → Outcome (Unit {0})
  unfolding check_vote_only_differ_by_timestamp check_proposal_only_differ_by_timestamp
  only_differ_by_timestamp step last new =
      if eqb_ℤ step step_propose
      then check_proposal_only_differ_by_timestamp last new
      else if eqb_ℤ step step_prevote || eqb_ℤ step step_precommit
      then check_vote_only_differ_by_timestamp last new
      else panic "unexpected sign step"
