-- ===== src/Payload/Checks.antt =====
-- What `verifySignPayload` accepts.
use horcrux.Prelude.{
  Bool, Bytes, String, ◌≡◌, true, false, some, arith, inl, inr, eqb_ℤ_iff, contents, is_empty,
  Option-cases, eq_of_=?, string_Eq,
}
use horcrux.Outcome.{ok}
use horcrux.Hrs.{HrstKey}
use horcrux.Payload.{
  Codec, step_precommit, verify_sign_payload, verify_vote_extension, has_block, verify_vote_payload,
}

-- The extension of `ext_bytes` belongs to the vote with key `key` on chain `chain_id`.
pub record BelongsTo (c : Codec) (chain_id : String) (key : HrstKey) (ext_bytes : Bytes)
    : Type 0 where
  pub ext : c.VoteExt
  pub decoded : c.unmarshal_vote_ext (contents ext_bytes) ≡ some ext
  pub same_chain : c.ext_chain_id ext ≡ chain_id
  pub same_height : c.ext_height ext ≡ key.height
  pub same_round : c.ext_round ext ≡ key.round

verify_vote_extension-BelongsTo :
    (c : Codec) (chain_id : String) (key : HrstKey) (ext_bytes : Bytes) (b : Bool)
    → verify_vote_extension c chain_id key ext_bytes ≡ ok b
    → BelongsTo c chain_id key ext_bytes
unfolding verify_vote_extension
verify_vote_extension-BelongsTo c chain_id key ext_bytes b h =
    elim (Option-cases (c.unmarshal_vote_ext (contents ext_bytes))) [
      | inl e ↦ absurd (ground arith)
      | inr (ext, e) ↦ record {
        ext = ext;
        decoded = e;
        same_chain = eq_of_=? (c.ext_chain_id ext) chain_id (ground arith);
        same_height = (eqb_ℤ_iff _ _).0 (ground arith);
        same_round = (eqb_ℤ_iff _ _).0 (ground arith);
      }
    ]

-- A vote extension is only ever signed beside a precommit for a block, and only if it names the
-- chain, the height and the round of that precommit.
pub record IsExtended (c : Codec) (chain_id : String) (key : HrstKey) (sign_bytes ext_bytes : Bytes)
    : Type 0 where
  pub is_precommit : key.step ≡ step_precommit
  pub vote : c.Vote
  pub decoded_vote : c.unmarshal_vote (contents sign_bytes) ≡ some vote
  pub for_block : has_block (c.vote_block_id vote) ≡ true
  pub has_bytes : is_empty ext_bytes ≡ false
  pub belongs : BelongsTo c chain_id key ext_bytes

verify_vote_payload-IsExtended :
    (c : Codec) (chain_id : String) (sign_bytes ext_bytes : Bytes) (vote : c.Vote) (key : HrstKey)
    → c.unmarshal_vote (contents sign_bytes) ≡ some vote
    → verify_vote_payload c chain_id vote ext_bytes ≡ ok (key, true)
    → IsExtended c chain_id key sign_bytes ext_bytes
unfolding verify_vote_payload
verify_vote_payload-IsExtended c chain_id sign_bytes ext_bytes vote key e h = record {
  is_precommit = ground arith;
  vote = vote;
  decoded_vote = e;
  for_block = ground arith;
  has_bytes = ground arith;
  belongs = verify_vote_extension-BelongsTo c chain_id key ext_bytes true (ground arith);
}

-- Whenever the payload check reports an extension, the payload decodes to a vote for a block with the
-- step of a precommit, and the extension is not empty and decodes to one that names the chain, and the
-- height and round of the vote.
pub verify_sign_payload-IsExtended :
    (c : Codec) (chain_id : String) (sign_bytes ext_bytes : Bytes) (key : HrstKey)
    → verify_sign_payload c chain_id sign_bytes ext_bytes ≡ ok (key, true)
    → IsExtended c chain_id key sign_bytes ext_bytes
unfolding verify_sign_payload
verify_sign_payload-IsExtended c chain_id sign_bytes ext_bytes key h =
    elim (Option-cases (c.unmarshal_vote (contents sign_bytes))) [
      | inl e ↦ absurd (ground arith)
      | inr (vote, e) ↦
          verify_vote_payload-IsExtended c chain_id sign_bytes ext_bytes vote key e (ground arith)
    ]
