-- ===== src/FileSigner/Once.antt =====
-- What `Sign` of signer/file.go returns.
use horcrux.Prelude.{
  ℤ, Bytes, bytes_equal, contents, bytes_equal_iff, String, Bool, true, false, none, some, eqb_ℤ,
  eq_of_parts, ◌≡◌, ◌⊎◌, inl, inr, arith, to_int32, Bool-cases, Option-cases, if◌then◌else◌,
}
use horcrux.Act.{lift}
use horcrux.Outcome.{ok, Outcome-cases, returned, failed, panicked}
use horcrux.Hrs.{HrsKey}
use horcrux.Hrs.Order.{Before}
use horcrux.Payload.{Codec, Time, verify_sign_payload, step_propose}
use horcrux.Validator.{Block}
use horcrux.FileSigner.{
  FilePvLastSignState, FilePv, FileKey, FileSigned, check_file_hrs, save_signed_file,
  check_votes_only_differ_by_timestamp, check_proposals_only_differ_by_timestamp, reuse_if,
  reuse_last, sign_new, sign_file, extension_signature,
}

abbrev pub last_key : FilePvLastSignState → HrsKey
last_key lss = record { height = lss.height; round = lss.round; step = lss.step }

-- The key that `Sign` reads of a block: its round is an int32.
abbrev pub file_key : Block → HrsKey
file_key b = record { height = b.height; round = to_int32 b.round; step = b.step }

-- A new signature: for a later key, by the private key, and in memory and on disk with its payload.
pub record IsNew (key : FileKey) (block : Block) (f : FileSigned) (before after : FilePv)
    : Type 0 where
  pub later : Before (last_key before.last_sign_state) (file_key block)
  pub by_key : key.key_sign block.sign_bytes ≡ ok f.signature
  pub saved_key : last_key after.last_sign_state ≡ file_key block
  pub saved_bytes : after.last_sign_state.sign_bytes ≡ block.sign_bytes
  pub saved_signature : after.last_sign_state.signature ≡ f.signature
  pub stored : after.on_disk ≡ some after.last_sign_state
  pub own_time : f.timestamp ≡ block.timestamp

module _ (c : Codec) (now : Time) where
  open c use {
    Vote, Proposal, unmarshal_vote, unmarshal_proposal, vote_timestamp, with_vote_timestamp,
    vote_equal, proposal_timestamp, with_proposal_timestamp, proposal_equal,
  }

  -- The payload of the signature that is returned: the same bytes, or a message of the same kind that is
  -- equal but for the time, whose own time is returned.
  pub data Covers (last new : Bytes) (block_time time : Time) : Type 0 where
    same_bytes : contents new ≡ contents last → time ≡ block_time → Covers last new block_time time
    same_vote :
        (l n : Vote)
        → unmarshal_vote (contents last) ≡ some l
        → unmarshal_vote (contents new) ≡ some n
        → vote_equal (with_vote_timestamp n now) (with_vote_timestamp l now) ≡ true
        → time ≡ vote_timestamp l
        → Covers last new block_time time
    same_proposal :
        (l n : Proposal)
        → unmarshal_proposal (contents last) ≡ some l
        → unmarshal_proposal (contents new) ≡ some n
        → proposal_equal (with_proposal_timestamp n now) (with_proposal_timestamp l now) ≡ true
        → time ≡ proposal_timestamp l
        → Covers last new block_time time

  -- The last signature, for the same key, with nothing changed.
  pub record IsReused (block : Block) (f : FileSigned) (before after : FilePv) : Type 0 where
    pub same_key : last_key before.last_sign_state ≡ file_key block
    pub last_signature : f.signature ≡ before.last_sign_state.signature
    pub covers :
        Covers before.last_sign_state.sign_bytes block.sign_bytes block.timestamp f.timestamp
    pub unchanged : after ≡ before

  check_above :
      (lss : FilePvLastSignState) (h r s : ℤ)
      → check_file_hrs lss h r s ≡ ok false
      → Before (last_key lss) (record { height = h; round = r; step = s })
  unfolding check_file_hrs
  check_above lss h r s e = ground (arith, eq_of_parts lss.height h, eq_of_parts lss.round r)

  check_same :
      (lss : FilePvLastSignState) (h r s : ℤ)
      → check_file_hrs lss h r s ≡ ok true
      → (lss.height ≡ h) × (lss.round ≡ r) × (lss.step ≡ s)
  unfolding check_file_hrs
  check_same lss h r s e = (
    eq_of_parts _ _ (ground arith),
    eq_of_parts _ _ (ground arith),
    eq_of_parts _ _ (ground arith),
  )

  reuse_if-ok :
      (sig ext : Bytes) (t : Time) (b : Bool) (f : FileSigned)
      → reuse_if c sig ext (t, b) ≡ ok f
      → (b ≡ true) × (f.signature ≡ sig) × (f.timestamp ≡ t)
  reuse_if-ok sig ext t true f h = ground arith
  reuse_if-ok sig ext t false f h = absurd (ground arith)

  votes-Covers :
      (lss : FilePvLastSignState) (block : Block) (ext : Bytes) (f : FileSigned) (r : Time × Bool)
      → check_votes_only_differ_by_timestamp c now lss.sign_bytes block.sign_bytes ≡ ok r
      → reuse_if c lss.signature ext r ≡ ok f
      → (f.signature ≡ lss.signature)
        × Covers lss.sign_bytes block.sign_bytes block.timestamp f.timestamp
  unfolding check_votes_only_differ_by_timestamp
  votes-Covers lss block ext f (t, b) h k =
      elim (Option-cases (unmarshal_vote (contents lss.sign_bytes))) [
        | inl e ↦ absurd (ground arith)
        | inr (l, e) ↦ elim (Option-cases (unmarshal_vote (contents block.sign_bytes))) [
          | inl e' ↦ absurd (ground arith)
          | inr (n, e') ↦
              let p : (b ≡ true) × (f.signature ≡ lss.signature) × (f.timestamp ≡ t) =
                reuse_if-ok lss.signature ext t b f k in
              (p.1, same_vote l n e e' (ground arith) (ground arith))
        ]
      ]

  proposals-Covers :
      (lss : FilePvLastSignState) (block : Block) (ext : Bytes) (f : FileSigned) (r : Time × Bool)
      → check_proposals_only_differ_by_timestamp c now lss.sign_bytes block.sign_bytes ≡ ok r
      → reuse_if c lss.signature ext r ≡ ok f
      → (f.signature ≡ lss.signature)
        × Covers lss.sign_bytes block.sign_bytes block.timestamp f.timestamp
  unfolding check_proposals_only_differ_by_timestamp
  proposals-Covers lss block ext f (t, b) h k =
      elim (Option-cases (unmarshal_proposal (contents lss.sign_bytes))) [
        | inl e ↦ absurd (ground arith)
        | inr (l, e) ↦ elim (Option-cases (unmarshal_proposal (contents block.sign_bytes))) [
          | inl e' ↦ absurd (ground arith)
          | inr (n, e') ↦
              let p : (b ≡ true) × (f.signature ≡ lss.signature) × (f.timestamp ≡ t) =
                reuse_if-ok lss.signature ext t b f k in
              (p.1, same_proposal l n e e' (ground arith) (ground arith))
        ]
      ]

  reuse_last-Covers :
      (lss : FilePvLastSignState) (block : Block) (ext : Bytes) (f : FileSigned)
      → reuse_last c now lss block ext ≡ ok f
      → (f.signature ≡ lss.signature)
        × Covers lss.sign_bytes block.sign_bytes block.timestamp f.timestamp
  unfolding reuse_last
  reuse_last-Covers lss block ext f h =
      elim (Bool-cases (bytes_equal block.sign_bytes lss.sign_bytes)) [
        | inl e ↦ (ground arith, same_bytes ((bytes_equal_iff _ _).0 e) (ground arith))
        | inr e ↦ elim (Bool-cases (eqb_ℤ block.step step_propose)) [
          | inl s ↦
              elim (Outcome-cases
                (check_proposals_only_differ_by_timestamp c now lss.sign_bytes block.sign_bytes)) [
                  | returned r k ↦ proposals-Covers lss block none f r k (ground arith)
                  | failed x k ↦ absurd (ground arith)
                  | panicked m k ↦ absurd (ground arith)
                ]
          | inr s ↦
              elim (Outcome-cases
                (check_votes_only_differ_by_timestamp c now lss.sign_bytes block.sign_bytes)) [
                  | returned r k ↦ votes-Covers lss block ext f r k (ground arith)
                  | failed x k ↦ absurd (ground arith)
                  | panicked m k ↦ absurd (ground arith)
                ]
        ]
      ]

  sign_new-IsNew :
      (key : FileKey) (block : Block) (ext : Bytes) (f : FileSigned) (before after : FilePv)
      → Before (last_key before.last_sign_state) (file_key block)
      → sign_new c key block ext before ≡ (ok f, after)
      → IsNew key block f before after
  unfolding sign_new save_signed_file
  sign_new-IsNew key block ext f before after b h = record {
    later = b;
    by_key = ground arith;
    saved_key = ground arith;
    saved_bytes = ground arith;
    saved_signature = ground arith;
    stored = ground arith;
    own_time = ground arith;
  }

  -- A signature that `Sign` returns is either new, then it is for a later height, round and step than
  -- the last one, made by the key over the requested bytes, and the file holds it with its bytes; or it is
  -- the last signature, for the same height, round and step and the same bytes or a message that is equal
  -- but for its time, and nothing changes. The time is the request's, or that of the last message.
  pub sign_file_lem :
      (key : FileKey) (chain_id : String) (block : Block) (f : FileSigned) (before after : FilePv)
      → sign_file c key now chain_id block before ≡ (ok f, after)
      → IsNew key block f before after ⊎ IsReused block f before after
  unfolding sign_file
  sign_file_lem key chain_id block f before after h =
      elim (Outcome-cases
        (check_file_hrs before.last_sign_state block.height (to_int32 block.round) block.step)) [
          | failed x e ↦ absurd (ground arith)
          | panicked m e ↦ absurd (ground arith)
          | returned same e ↦
              elim (Outcome-cases
                (verify_sign_payload c chain_id block.sign_bytes block.vote_extension_sign_bytes)) [
                  | failed x v ↦ absurd (ground arith)
                  | panicked m v ↦ absurd (ground arith)
                  | returned (k, has_ext) v ↦
                      elim (Outcome-cases
                        (extension_signature c key has_ext block.vote_extension_sign_bytes)) [
                          | failed x w ↦ absurd (ground arith)
                          | panicked m w ↦ absurd (ground arith)
                          | returned ext w ↦ go same e ext (rw (e, v, w) at h)
                        ]
                ]
        ]
    where
      go :
          (same : Bool)
          → check_file_hrs before.last_sign_state block.height (to_int32 block.round) block.step
            ≡ ok same
          → (ext : Bytes)
          → (if same
                then lift (reuse_last c now before.last_sign_state block ext)
                else sign_new c key block ext)
              before
            ≡ (ok f, after)
          → IsNew key block f before after ⊎ IsReused block f before after
      go false e ext r = inl (
          sign_new-IsNew key block ext f before after (check_above before.last_sign_state _ _ _ e)
            r)
      go true e ext r =
          let s : (before.last_sign_state.height ≡ block.height)
              × (before.last_sign_state.round ≡ to_int32 block.round)
              × (before.last_sign_state.step ≡ block.step) =
            check_same before.last_sign_state _ _ _ e in
          let p : (f.signature ≡ before.last_sign_state.signature)
              × Covers before.last_sign_state.sign_bytes block.sign_bytes block.timestamp
                  f.timestamp =
            reuse_last-Covers before.last_sign_state block ext f (ground arith) in
          inr (record {
            same_key = ground arith;
            last_signature = p.0;
            covers = p.1;
            unchanged = ground arith;
          })
