-- ===== src/Cosigner/Interleave.antt =====
-- Sign requests of signer/local_cosigner.go that run at the same time. `sign` takes the locks of the
-- sign state four times at most, and other requests may run in between: each section under a lock
-- is one step here.
pub mod Invariant
pub mod Safety
pub mod Saved
pub mod Sequential
use horcrux.Prelude.{
  ℕ, ◌==◌, Bytes, String, Bool, true, ◌≡◌, List, [], ◌∷◌, Option, some, if◌then◌else◌,
}
use horcrux.Outcome.{Error, Outcome, ok, err, same_hrs}
use horcrux.Hrs.{HrsKey, HrstKey, hrs_key}
use horcrux.Payload.{verify_sign_payload}
use horcrux.SignState.{SignState, SignStateConsensus, consensus_key, latest_hrs, block_double_sign}
use horcrux.SignState.Gate.{error_if_conflict_or_regression}
use horcrux.SignState.Disk.{signal}
use horcrux.Cosigner.Local.{Setup, reuse, reuse_cached}

-- Where a request stands. `released` is a share of the vote or proposal given out.
pub data Request : Type 0 where
  waiting : Request
  admitted : HrstKey → Bytes → Request
  conflicted : HrstKey → Bytes → Request
  released : HrsKey → Bytes → Request

-- The sign state, the requests, and the payloads that the state has stood at, the latest in front.
-- The history is not stored by the program.
pub record System : Type 0 where
  pub state : SignState
  pub history : List (HrsKey × Bytes)
  pub requests : ℕ → Request

abbrev pub update {ℓ} : {A : Type ℓ} → (ℕ → A) → ℕ → A → ℕ → A
update f i a j = if i == j then a else f j

abbrev pub saved : System → SignState → SignStateConsensus → System
saved t s ssc = record t {
  state = signal s;
  history = (consensus_key ssc, ssc.sign_bytes) ∷ t.history;
}

module _ (setup : Setup) where
  pub data Step (t : System) : System → Type 0 where
    -- the request passes `errorIfConflictOrRegression`
    admit :
        (i : ℕ) (chain_id : String) (sign_bytes ext_bytes : Bytes) (hrst : HrstKey) (has_ext : Bool)
        → t.requests i ≡ waiting
        → verify_sign_payload setup.codec chain_id sign_bytes ext_bytes ≡ ok (hrst, has_ext)
        → error_if_conflict_or_regression setup.codec t.state hrst sign_bytes ≡ ok tt
        → Step t (record t { requests = update t.requests i (admitted hrst sign_bytes) })
    -- the request was refused there, and is answered from the cache
    answer :
        (i : ℕ) (chain_id : String) (sign_bytes ext_bytes : Bytes) (hrst : HrstKey) (e : Error)
        (share : Bytes)
        → t.requests i ≡ waiting
        → verify_sign_payload setup.codec chain_id sign_bytes ext_bytes ≡ ok (hrst, true)
        → reuse_cached setup e t.state hrst sign_bytes ≡ ok (reuse share)
        → Step t (record t { requests = update t.requests i (released (hrs_key hrst) sign_bytes) })
    -- the share is saved, and given out
    save :
        (i : ℕ) (hrst : HrstKey) (ssc : SignStateConsensus) (s copy : SignState)
        → t.requests i ≡ admitted hrst ssc.sign_bytes
        → consensus_key ssc ≡ hrs_key hrst
        → block_double_sign t.state ssc ≡ ok (s, copy)
        → Step t (
            saved
              (record t {
                requests = update t.requests i (released (consensus_key ssc) ssc.sign_bytes);
              })
              s
              ssc)
    -- another request was saved at the same height, round and step
    collide :
        (i : ℕ) (hrst : HrstKey) (ssc : SignStateConsensus) (k : HrsKey)
        → t.requests i ≡ admitted hrst ssc.sign_bytes
        → consensus_key ssc ≡ hrs_key hrst
        → block_double_sign t.state ssc ≡ err (same_hrs k)
        → Step t (record t { requests = update t.requests i (conflicted hrst ssc.sign_bytes) })
    -- and the second check finds the payloads compatible
    forgive :
        (i : ℕ) (hrst : HrstKey) (sign_bytes : Bytes)
        → t.requests i ≡ conflicted hrst sign_bytes
        → error_if_conflict_or_regression setup.codec t.state hrst sign_bytes ≡ ok tt
        → Step t (record t { requests = update t.requests i (released (hrs_key hrst) sign_bytes) })
    -- a sign state that the leader has replicated
    replicate :
        (ssc : SignStateConsensus) (s copy : SignState)
        → block_double_sign t.state ssc ≡ ok (s, copy)
        → Step t (saved t s ssc)

  -- A cosigner starts with the state that it has loaded, and no request.
  abbrev pub initial : SignState → System
  initial s = record {
    state = s;
    history = (latest_hrs s, s.sign_bytes) ∷ [];
    requests = λ _. waiting;
  }

  pub data Reach (s : SignState) : System → Type 0 where
    start : Reach s (initial s)
    later : {t u : System} → Reach s t → Step t u → Reach s u
