-- ===== src/SignState/Watermark.antt =====
-- The watermark of signer/sign_state.go only moves forward.
use horcrux.Prelude.{
  Bool, ◌≡◌, refl, true, false, arith, inl, inr, List, [], ◌∷◌, if◌then◌else◌, Bool-cases,
}
use horcrux.Outcome.{ok, err, panic, message, same_hrs}
use horcrux.Hrs.{HrsKey, greater_than, eq_hrs, eq_hrs_iff}
use horcrux.Hrs.Order.{greater_than_total, greater_than_asymm, greater_than_irrefl}
use horcrux.SignState.{
  SignState, SignStateConsensus, consensus_key, latest_hrs, error_if_less_or_equal,
  block_double_sign, advance, locked_copy,
}

-- a key is greater than the watermark, or equal to it, or less, as the save answers
error_if_less_or_equal_lem :
    (s : SignState) (k : HrsKey)
    → error_if_less_or_equal s k ≡ (
        if greater_than k (latest_hrs s)
        then ok tt
        else if eq_hrs k (latest_hrs s)
        then err (same_hrs k)
        else err (message "regression not allowed"))
unfolding error_if_less_or_equal
error_if_less_or_equal_lem s k = ground (
  arith,
  greater_than_total (latest_hrs s) k,
  greater_than_asymm (latest_hrs s) k,
  eq_hrs_iff k (latest_hrs s),
  greater_than_irrefl k,
)

-- The branches of `blockDoubleSign`, tested from above the watermark down.
pub block_double_sign_lem :
    (s : SignState) (ssc : SignStateConsensus)
    → let k = consensus_key ssc in
      block_double_sign s ssc ≡ (
        if greater_than k (latest_hrs s)
        then ok (advance s ssc, locked_copy (advance s ssc))
        else if eq_hrs k (latest_hrs s)
        then err (same_hrs k)
        else err (message "regression not allowed"))
unfolding block_double_sign
block_double_sign_lem s ssc = ground (arith, error_if_less_or_equal_lem s (consensus_key ssc))

-- One attempt to save, seen from outside: the state after it, and whether it went through.
unfoldable pub attempt : SignState → SignStateConsensus → SignState × Bool
attempt s ssc = elim (block_double_sign s ssc) [
  | ok saved ↦ (saved.0, true)
  | err _ ↦ (s, false)
  | panic _ ↦ (s, false)
]

attempt_lem :
    (s : SignState) (ssc : SignStateConsensus)
    → attempt s ssc ≡ (
        if greater_than (consensus_key ssc) (latest_hrs s)
        then (advance s ssc, true)
        else (s, false))
unfolding attempt
attempt_lem s ssc = ground (arith, block_double_sign_lem s ssc)

-- A list of attempts, whoever makes them: the final state, and those that went through in order.
unfoldable pub save_all : SignState → List SignStateConsensus → SignState × List SignStateConsensus
save_all s [] = (s, [])
save_all s (ssc ∷ rest) =
    let (s', done) = attempt s ssc in
    let (t, accepted) = save_all s' rest in (t, if done then ssc ∷ accepted else accepted)

-- Each key is greater than the one in front of it, the first than `k`.
abbrev pub Ascending : HrsKey → List SignStateConsensus → Type 0
Ascending k [] = Unit
Ascending k (x ∷ xs) = (greater_than (consensus_key x) k ≡ true) × Ascending (consensus_key x) xs

-- the key of the last, or `k` where there is none
abbrev pub last_key : HrsKey → List SignStateConsensus → HrsKey
last_key k [] = k
last_key k (x ∷ xs) = last_key (consensus_key x) xs

save_all-above :
    (s : SignState) (x : SignStateConsensus) (xs : List SignStateConsensus)
    → greater_than (consensus_key x) (latest_hrs s) ≡ true
    → save_all s (x ∷ xs) ≡ ((save_all (advance s x) xs).0, x ∷ (save_all (advance s x) xs).1)
unfolding save_all
save_all-above s x xs h = rw (attempt_lem, h)

save_all-refused :
    (s : SignState) (x : SignStateConsensus) (xs : List SignStateConsensus)
    → greater_than (consensus_key x) (latest_hrs s) ≡ false
    → save_all s (x ∷ xs) ≡ save_all s xs
unfolding save_all
save_all-refused s x xs h = rw (attempt_lem, h)

-- Whatever saves are attempted, those that go through are at strictly ascending heights, rounds and
-- steps above the watermark, which ends at the last of them.
pub save_all-Ascending :
    (s : SignState) (attempts : List SignStateConsensus)
    → let (t, accepted) = save_all s attempts in
      Ascending (latest_hrs s) accepted × (latest_hrs t ≡ last_key (latest_hrs s) accepted)
unfolding advance
save_all-Ascending s [] = unfold save_all in (tt, refl)
save_all-Ascending s (x ∷ xs) = elim (Bool-cases (greater_than (consensus_key x) (latest_hrs s))) [
  | inl h ↦
      rw (save_all-above s x xs h)
        (let (up, end) = save_all-Ascending (advance s x) xs in ((h, up), end))
  | inr h ↦ rw (save_all-refused s x xs h) (save_all-Ascending s xs)
]
