-- ===== src/SignState/Gate.antt =====
-- `errorIfConflictOrRegression` of signer/sign_state.go: what a share sign request has to pass.
use horcrux.Prelude.{
  ℤ, Bytes, ◌≡◌, sym, ap, true, false, arith, ◌↔◌, ◌⊎◌, inl, inr, not, if◌then◌else◌, Bool-cases,
  Option-cases, eqb_ℤ, is_nil, bytes_equal, bytes_equal_iff, contents, Option, eq_of_parts,
}
use horcrux.Outcome.{Outcome, ok, ◌>>=◌, Outcome-cases, returned, failed, panicked}
use horcrux.Hrs.{HrsKey, HrstKey, hrs_key, greater_than, HrsKey-ext}
use horcrux.Payload.{Codec, step_propose, step_prevote, step_precommit}
use horcrux.Payload.Laws.{Agree, Compatible, SameVote, SameProposal}
use horcrux.SignState.{SignState, latest_hrs, check_hrs}
use horcrux.SignState.Differ.{
  only_differ_by_timestamp, check_vote_only_differ_by_timestamp,
  check_proposal_only_differ_by_timestamp, vote_conflict,
}

unfoldable pub error_if_conflict_or_regression :
    Codec → SignState → HrstKey → Bytes → Outcome (Unit {0})
error_if_conflict_or_regression c s hrst sign_bytes = do
  same ← check_hrs s hrst
  if not same
      then ok tt
      else if bytes_equal sign_bytes s.sign_bytes
      then ok tt
      else only_differ_by_timestamp c s.step s.sign_bytes sign_bytes

check_hrs_above :
    (s : SignState) (k : HrstKey)
    → check_hrs s k ≡ ok false
    → greater_than (hrs_key k) (latest_hrs s) ≡ true
unfolding check_hrs greater_than
check_hrs_above s k h = ground arith

above-check_hrs :
    (s : SignState) (k : HrstKey)
    → greater_than (hrs_key k) (latest_hrs s) ≡ true
    → check_hrs s k ≡ ok false
unfolding check_hrs greater_than
above-check_hrs s k h = ground arith

check_hrs_same :
    (s : SignState) (k : HrstKey)
    → check_hrs s k ≡ ok true
    → (hrs_key k ≡ latest_hrs s) × (is_nil s.sign_bytes ≡ false) × (is_nil s.signature ≡ false)
unfolding check_hrs
check_hrs_same s k h = (
  HrsKey-ext (hrs_key k) (latest_hrs s) (eq_of_parts _ _ (ground arith))
      (eq_of_parts _ _ (ground arith)) (eq_of_parts _ _ (ground arith)),
  ground arith,
  ground arith,
)

same-check_hrs :
    (s : SignState) (k : HrstKey)
    → hrs_key k ≡ latest_hrs s
    → is_nil s.sign_bytes ≡ false
    → is_nil s.signature ≡ false
    → check_hrs s k ≡ ok true
unfolding check_hrs
same-check_hrs s k e a b = ground (
  arith,
  ap (λ (h : HrsKey). h.height) e,
  ap (λ (h : HrsKey). h.round) e,
  ap (λ (h : HrsKey). h.step) e,
)

-- the steps of a proposal, a prevote and a precommit
abbrev pub IsStep : ℤ → Type 0
IsStep step = (step ≡ step_propose) ⊎ (step ≡ step_prevote) ⊎ (step ≡ step_precommit)

-- The request is above the watermark, or at it with a payload that may replace the stored one.
abbrev pub Passes : Codec → SignState → HrstKey → Bytes → Type 0
Passes c s k sign_bytes =
    (greater_than (hrs_key k) (latest_hrs s) ≡ true)
    ⊎ ((hrs_key k ≡ latest_hrs s)
        × (is_nil s.sign_bytes ≡ false)
        × (is_nil s.signature ≡ false)
        × Compatible c s.step s.sign_bytes sign_bytes)

module _ (c : Codec) where
  vote_conflict-err :
      (a b : Option Bytes) (last new : Bytes) → vote_conflict a b last new ≡ ok tt → ⊥
  unfolding vote_conflict
  vote_conflict-err a b last new h = ground arith

  check_vote-SameVote :
      (last new : Bytes)
      → check_vote_only_differ_by_timestamp c last new ≡ ok tt
      → SameVote c last new
  unfolding check_vote_only_differ_by_timestamp
  check_vote-SameVote last new h = elim (Option-cases (c.unmarshal_vote (contents last))) [
    | inl e ↦ absurd (ground arith)
    | inr (u, e) ↦ elim (Option-cases (c.unmarshal_vote (contents new))) [
      | inl f ↦ absurd (ground arith)
      | inr (v, f) ↦ record {
        first = u;
        second = v;
        decoded_first = e;
        decoded_second = f;
        agree = ground arith;
      }
    ]
  ]

  check_proposal-SameProposal :
      (last new : Bytes)
      → check_proposal_only_differ_by_timestamp c last new ≡ ok tt
      → SameProposal c last new
  unfolding check_proposal_only_differ_by_timestamp
  check_proposal-SameProposal last new h =
      elim (Option-cases (c.unmarshal_proposal (contents last))) [
        | inl e ↦ absurd (ground arith)
        | inr (u, e) ↦ elim (Option-cases (c.unmarshal_proposal (contents new))) [
          | inl f ↦ absurd (ground arith)
          | inr (v, f) ↦ record {
            first = u;
            second = v;
            decoded_first = e;
            decoded_second = f;
            agree = ground arith;
          }
        ]
      ]

  pub only_differ-Agree :
      (step : ℤ) (last new : Bytes)
      → only_differ_by_timestamp c step last new ≡ ok tt
      → Agree c (eqb_ℤ step step_propose) last new
  unfolding only_differ_by_timestamp
  only_differ-Agree step last new h = elim (Bool-cases (eqb_ℤ step step_propose)) [
    | inl e ↦ rw e (check_proposal-SameProposal last new (ground arith))
    | inr e ↦ rw e (check_vote-SameVote last new (ground arith))
  ]

  Agree-only_differ :
      (step : ℤ) (last new : Bytes)
      → IsStep step
      → Agree c (eqb_ℤ step step_propose) last new
      → only_differ_by_timestamp c step last new ≡ ok tt
  unfolding only_differ_by_timestamp
  Agree-only_differ step last new is_step h = elim (Bool-cases (eqb_ℤ step step_propose)) [
    | inl e ↦
        (let k : Agree c true last new = rw e at h in
          ground (arith, k.decoded_first, k.decoded_second, k.agree))
    | inr e ↦
        (let k : Agree c false last new = rw e at h in
          ground (arith, k.decoded_first, k.decoded_second, k.agree))
  ]

  pub gate→Passes :
      (s : SignState) (k : HrstKey) (sign_bytes : Bytes)
      → error_if_conflict_or_regression c s k sign_bytes ≡ ok tt
      → Passes c s k sign_bytes
  unfolding error_if_conflict_or_regression
  gate→Passes s k sign_bytes h = elim (Outcome-cases (check_hrs s k)) [
    | returned true e ↦ inr (
      (check_hrs_same s k e).0,
      (check_hrs_same s k e).1,
      (check_hrs_same s k e).2,
      elim (Bool-cases (bytes_equal sign_bytes s.sign_bytes)) [
        | inl f ↦ inl (sym ((bytes_equal_iff _ _).0 f))
        | inr f ↦ inr (only_differ-Agree s.step s.sign_bytes sign_bytes (ground arith))
      ],
    )
    | returned false e ↦ inl (check_hrs_above s k e)
    | failed x e ↦ absurd (ground arith)
    | panicked m e ↦ absurd (ground arith)
  ]

  Passes→gate :
      (s : SignState) (k : HrstKey) (sign_bytes : Bytes)
      → IsStep s.step
      → Passes c s k sign_bytes
      → error_if_conflict_or_regression c s k sign_bytes ≡ ok tt
  unfolding error_if_conflict_or_regression
  Passes→gate s k sign_bytes is_step (inl above) = rw (above-check_hrs s k above)
  Passes→gate s k sign_bytes is_step (inr (e, a, b, inl same)) =
      ground (arith, same-check_hrs s k e a b, bytes_equal_iff sign_bytes s.sign_bytes)
  Passes→gate s k sign_bytes is_step (inr (e, a, b, inr agree)) = ground (
    arith,
    same-check_hrs s k e a b,
    Agree-only_differ s.step s.sign_bytes sign_bytes is_step agree,
  )

  -- A request passes exactly when it is above the watermark, or at it where a payload and a signature are
  -- stored and the payload is the stored one but for its timestamp; for a stored step that is a
  -- proposal's, a prevote's or a precommit's.
  pub gate_iff :
      (s : SignState) (k : HrstKey) (sign_bytes : Bytes)
      → IsStep s.step
      → (error_if_conflict_or_regression c s k sign_bytes ≡ ok tt) ↔ Passes c s k sign_bytes
  gate_iff s k sign_bytes is_step = (gate→Passes s k sign_bytes, Passes→gate s k sign_bytes is_step)

-- a request above the watermark passes
pub gate-above :
    (c : Codec) (s : SignState) (k : HrstKey) (sign_bytes : Bytes)
    → greater_than (hrs_key k) (latest_hrs s) ≡ true
    → error_if_conflict_or_regression c s k sign_bytes ≡ ok tt
unfolding error_if_conflict_or_regression
gate-above c s k sign_bytes above = rw (above-check_hrs s k above)
