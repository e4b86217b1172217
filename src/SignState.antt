-- ===== src/SignState.antt =====
-- signer/sign_state.go: the high watermark of what was signed, and the cache of recent signatures.
pub mod Differ
pub mod Disk
pub mod Watermark
pub mod Gate
pub mod Cache
use horcrux.Prelude.{
  ℤ, pos, Bytes, is_nil, clone, bytes_equal, String, Bool, true, false, ◌&&◌, not, List, [], ◌∷◌,
  Option, none, some, if◌then◌else◌, ltb_ℤ, eqb_ℤ, to_int64, ◌-ℤ◌, lookup, insert, delete_where,
}
use horcrux.Outcome.{
  Outcome, ok, err, panic, height_regression, round_regression, step_regression, empty_sign_bytes,
  same_hrs, message, ◌>>=◌, ◌>>◌,
}
use horcrux.Hrs.{HrsKey, HrstKey, hrs_key, hrs_Eq, greater_than, eq_hrs}
use horcrux.Cond
use horcrux.Cond.{Cond}

pub record SignStateConsensus : Type 0 where
  pub height : ℤ
  pub round : ℤ
  pub step : ℤ
  pub signature : Bytes
  pub vote_extension_signature : Bytes
  pub sign_bytes : Bytes

abbrev pub consensus_key : SignStateConsensus → HrsKey
consensus_key ssc = record { height = ssc.height; round = ssc.round; step = ssc.step }

-- `NewSignStateConsensus`
unfoldable pub new_sign_state_consensus : ℤ → ℤ → ℤ → SignStateConsensus
new_sign_state_consensus height round step = record {
  height = height;
  round = round;
  step = step;
  signature = none;
  vote_extension_signature = none;
  sign_bytes = none;
}

abbrev pub SignCache : Type 0
SignCache = List (HrsKey × SignStateConsensus)

-- The mutex is not a field: an operation that holds it is one step.
pub record SignState : Type 0 where
  pub height : ℤ
  pub round : ℤ
  pub step : ℤ
  pub nonce_public : Bytes
  pub signature : Bytes
  pub sign_bytes : Bytes
  pub vote_extension_signature : Bytes
  pub file_path : String
  pub cache : SignCache
  pub cond : Option Cond

-- `LatestHRS` and `lockedHrsKey`
abbrev pub latest_hrs : SignState → HrsKey
latest_hrs s = record { height = s.height; round = s.round; step = s.step }

-- `CheckHRS`: whether the state is at the given height, round and step
unfoldable pub check_hrs : SignState → HrstKey → Outcome Bool
check_hrs s hrst =
    if ltb_ℤ hrst.height s.height
    then err (height_regression hrst.height s.height)
    else if not (eqb_ℤ s.height hrst.height)
    then ok false
    else if ltb_ℤ hrst.round s.round
    then err (round_regression hrst.height hrst.round s.round)
    else if not (eqb_ℤ s.round hrst.round)
    then ok false
    else if ltb_ℤ hrst.step s.step
    then err (step_regression hrst.height hrst.round hrst.step s.step)
    else if not (eqb_ℤ s.step hrst.step)
    then ok false
    else if is_nil s.sign_bytes
    then err empty_sign_bytes
    else if is_nil s.signature
    then panic "pv: Signature is nil but SignBytes is not!"
    else ok true

-- `lockedGetErrorIfLessOrEqual`
unfoldable pub error_if_less_or_equal : SignState → HrsKey → Outcome (Unit {0})
error_if_less_or_equal s hrs =
    if greater_than (latest_hrs s) hrs
    then err (message "regression not allowed")
    else if eq_hrs hrs (latest_hrs s)
    then err (same_hrs hrs)
    else ok tt

unfoldable pub get_from_cache : SignState → HrsKey → HrsKey × Option SignStateConsensus
get_from_cache s hrs = (latest_hrs s, lookup hrs s.cache)

abbrev pub blocks_to_cache : ℤ
blocks_to_cache = pos 3

-- whether the loop of `blockDoubleSign` deletes an entry; int64 subtraction wraps
unfoldable pub is_stale : ℤ → HrsKey → SignStateConsensus → Bool
is_stale height hrs _ = ltb_ℤ hrs.height (to_int64 (height -ℤ blocks_to_cache))

-- `lockedCopy`: no slice of the copy is nil, and it has no cache and no condition variable
unfoldable pub locked_copy : SignState → SignState
locked_copy s = record s {
  nonce_public = clone s.nonce_public;
  signature = clone s.signature;
  sign_bytes = clone s.sign_bytes;
  vote_extension_signature = clone s.vote_extension_signature;
  cache = [];
  cond = none;
}

-- the new watermark of `blockDoubleSign`
unfoldable pub advance : SignState → SignStateConsensus → SignState
advance s ssc = record s {
  height = ssc.height;
  round = ssc.round;
  step = ssc.step;
  signature = ssc.signature;
  sign_bytes = ssc.sign_bytes;
  vote_extension_signature = ssc.vote_extension_signature;
  cache = delete_where (is_stale ssc.height) (insert (consensus_key ssc) ssc s.cache);
}

-- `blockDoubleSign`: the new state, and the copy of it that is written to disk
unfoldable pub block_double_sign : SignState → SignStateConsensus → Outcome (SignState × SignState)
unfolding advance
block_double_sign s ssc = do
  error_if_less_or_equal s (consensus_key ssc)
  ok (advance s ssc, locked_copy (advance s ssc))

-- `FreshCache`
unfoldable pub fresh_cache : SignState → SignState
unfolding Cond.new
fresh_cache s = record s {
  cache =
      (
        latest_hrs s,
        record {
          height = s.height;
          round = s.round;
          step = s.step;
          signature = s.signature;
          vote_extension_signature = s.vote_extension_signature;
          sign_bytes = s.sign_bytes;
        },
      )
      ∷ [];
  cond = some Cond.new;
}

-- the empty state of `LoadOrCreateSignState`
unfoldable pub empty_state : String → SignState
empty_state path = record {
  height = pos 0;
  round = pos 0;
  step = pos 0;
  nonce_public = none;
  signature = none;
  sign_bytes = none;
  vote_extension_signature = none;
  file_path = path;
  cache = [];
  cond = some Cond.new;
}
