-- ===== src/Validator/Lead.antt =====
-- `proxyIfNecessary` and `Sign` of signer/threshold_validator.go.
use horcrux.Prelude.{
  ℕ, ℤ, pos, negsuc, suc, zero, is_nil, String, Bool, true, false, ◌≡◌, ◌⊎◌, inl, inr, arith, List,
  ◌∷◌, Option, none, some, if◌then◌else◌, eqb_ℤ, Bool-cases,
}
use horcrux.Outcome.{
  Outcome, ok, err, panic, message, wrapped, Outcome-cases, returned, failed, panicked,
}
use horcrux.Act.{Act}
use horcrux.Payload.{Codec}
use horcrux.SignState.Disk.{StateCodec}
use horcrux.SignState.{SignStateConsensus}
use horcrux.NonceCache.{CosignerNonceCache}
use horcrux.Validator.{Block, block_hrs_key, ChainSignState, ThresholdValidator}
use horcrux.Validator.Existing.{Found, save_last_signed_state_initiated}
use horcrux.Validator.Reuse.{Reuses, InViews}
use horcrux.Validator.Progress.{save_last_signed_state_initiated-Reuses}
use horcrux.Validator.Sign.{Cluster}
use horcrux.Validator.Sign.Finish.{sign_begun}
use horcrux.Validator.Sign.Verified.{IsVerified, sign_begun-IsVerified}
use horcrux.Validator.Extend.{answer_existing}
use horcrux.Validator.Extend.Answers.{IsAnswer, answer_existing-IsAnswer}

-- What raft says of the leader: whether it is this cosigner, and the answers of `GetLeader`, the first
-- and those of the polls; -1 stands for none. `peers` are the cosigners that can be reached, and
-- `remote_sign` is the call of the leader among them.
pub record Raft : Type 0 where
  pub is_leader : Bool
  pub leader_at : ℕ → ℤ
  pub is_peer : ℤ → Bool
  pub remote_sign : ℤ → Block → Outcome Found

abbrev no_leader : ℤ
no_leader = negsuc 0

-- the loop that polls for a leader, for at most `n` more rounds
unfoldable pub poll_leader : Raft → (n : ℕ) → (i : ℕ) → ℤ
poll_leader raft zero i = raft.leader_at i
poll_leader raft (suc n) i =
    let later = poll_leader raft n (suc i) in
    if eqb_ℤ (raft.leader_at i) no_leader then later else raft.leader_at i

-- `proxyIfNecessary`: nothing for the leader, else what the call of the leader gives. An error of the
-- leader is passed on; the code replaces one kind of error by another of the same text.
unfoldable pub proxy_if_necessary : Raft → (my_id : ℤ) → Block → Option (Outcome Found)
proxy_if_necessary raft my_id block =
    let leader = poll_leader raft 500 0 in
    if raft.is_leader
    then none
    else if eqb_ℤ leader no_leader
    then some (err (message "timed out waiting for raft leader"))
    else if eqb_ℤ leader my_id
    then none
    else if raft.is_peer leader
    then some (raft.remote_sign leader block)
    else some (err (message "failed to find cosigner"))

-- the height that was signed last
abbrev latest_height : ThresholdValidator → ℤ
latest_height pv = elim pv.chain_state [ none ↦ pos 0 | some css ↦ css.last_sign_state.height ]

-- Results of `Sign`: the answer, and the sign states and nonce cache that it leaves.
abbrev pub Signing : Type 0
Signing = (Outcome Found × ThresholdValidator) × CosignerNonceCache

module _ (w : Cluster) (codec : Codec) (state_codec : StateCodec) where
  -- the part of `Sign` for the leader; `views` are what its waits find
  unfoldable pub sign_as_leader :
      String → Block → List ChainSignState → CosignerNonceCache → ThresholdValidator → Signing
  sign_as_leader chain_id block views cache pv =
      let (r, pv') = save_last_signed_state_initiated codec state_codec chain_id block views pv in
      elim r [
        | err e ↦ ((err (wrapped "error saving last sign state initiated" e), pv'), cache)
        | panic t ↦ ((panic t, pv'), cache)
        | ok f ↦ elim (is_nil f.signature) [
          | true ↦ sign_begun w codec state_codec chain_id block cache pv'
          | false ↦
              let (answer, cache') =
                answer_existing w codec chain_id block f (latest_height pv') cache in
              ((answer, pv'), cache')
        ]
      ]

  -- `Sign`; `load` is `LoadSignStateIfNecessary` for the chain
  unfoldable pub sign :
      Raft
      → (load : Act ThresholdValidator (Unit {0})) → String
      → Block
      → List ChainSignState
      → CosignerNonceCache
      → ThresholdValidator
      → Signing
  sign raft load chain_id block views cache pv =
      let (loaded, pv') = load pv in
      elim loaded [
        | err e ↦ ((err e, pv'), cache)
        | panic t ↦ ((panic t, pv'), cache)
        | ok _ ↦ elim (proxy_if_necessary raft w.my_id block) [
          | some r ↦ ((r, pv'), cache)
          | none ↦ sign_as_leader chain_id block views cache pv'
        ]
      ]

  -- An existing signature was found for the block, and is the answer.
  pub record Reused (chain_id : String) (block : Block) (views : List ChainSignState)
      (pv : ThresholdValidator) (g : Found) : Type 0 where
    pub css : ChainSignState
    pub loaded : pv.chain_state ≡ some css
    pub entry : SignStateConsensus
    pub found : Found
    pub seen : InViews (block_hrs_key block) entry (css ∷ views)
    pub reuses : Reuses codec block entry found
    pub answer : IsAnswer w codec chain_id block found g

  -- A signature that the leader returns was made for this request and verifies for it, or it is an existing
  -- one for the same height, round and step, with the timestamp that it was made over, whose payload is
  -- compatible or both are proposals, and the extension's signature verifies for the request.
  pub sign_as_leader-IsVerified :
      (chain_id : String) (block : Block) (views : List ChainSignState)
      (cache cache' : CosignerNonceCache) (pv pv' : ThresholdValidator) (g : Found)
      → sign_as_leader chain_id block views cache pv ≡ ((ok g, pv'), cache')
      → IsVerified w codec chain_id block g ⊎ Reused chain_id block views pv g
  unfolding sign_as_leader
  sign_as_leader-IsVerified chain_id block views cache cache' pv pv' g h =
      let r = save_last_signed_state_initiated codec state_codec chain_id block views pv in
      elim (Outcome-cases r.0) [
        | failed e k ↦ absurd (ground arith)
        | panicked t k ↦ absurd (ground arith)
        | returned f k ↦ elim (Bool-cases (is_nil f.signature)) [
          | inl go ↦ inl (
              sign_begun-IsVerified w codec state_codec chain_id block cache cache' r.1 pv' g
                (ground arith))
          | inr signed ↦
              let (css, e, x, seen, reuses) =
                save_last_signed_state_initiated-Reuses codec state_codec chain_id block views pv
                  r.1 f (ground arith) signed in
              let answer = answer_existing w codec chain_id block f (latest_height r.1) cache in
              inr (record {
                css = css;
                loaded = e;
                entry = x;
                found = f;
                seen = seen;
                reuses = reuses;
                answer =
                    answer_existing-IsAnswer w codec chain_id block f g (latest_height r.1) cache
                      answer.1 (ground arith);
              })
        ]
      ]
