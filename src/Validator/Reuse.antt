-- ===== src/Validator/Reuse.antt =====
-- When an entry of the signature cache answers a request, by the parts of
-- `SaveLastSignedStateInitiated` of signer/threshold_validator.go.
use horcrux.Prelude.{
  is_nil, bytes_equal, bytes_equal_iff, String, true, ◌&&◌, ◌≡◌, refl, sym, ap, subst, ◌⊎◌, inl,
  inr, arith, List, [], ◌∷◌, some, eqb_ℤ, eqb_ℤ_iff, lookup, Bool-cases, Option-cases,
}
use horcrux.Outcome.{Error, ok, Outcome-cases, returned, failed, panicked}
use horcrux.Hrs.{HrsKey, eq_hrs_iff, hrs_Eq}
use horcrux.Payload.{Codec, step_propose}
use horcrux.Payload.Laws.{Agree, Compatible}
use horcrux.SignState.{SignStateConsensus, consensus_key, latest_hrs, get_from_cache}
use horcrux.SignState.Gate.{only_differ-Agree}
use horcrux.Validator.{Block, block_hrs_key, ChainSignState}
use horcrux.Validator.Existing.{
  Found, go_ahead, is_same_hrs, is_same_block, is_still_waiting,
  compare_block_signature_against_hrs, sign_bytes_timestamp, reuse_signature,
  compare_block_signature_against_ssc, get_existing_block_signature, wait_for_block,
  after_refused_save,
}

-- The result `f` is the entry `x`, which is for the same height, round and step: its signatures, with
-- the timestamp that it was made over. The payload is compatible, or both are proposals.
pub record Reuses (c : Codec) (block : Block) (x : SignStateConsensus) (f : Found) : Type 0 where
  pub same_key : consensus_key x ≡ block_hrs_key block
  pub signature : f.signature ≡ x.signature
  pub extension : f.vote_extension_signature ≡ x.vote_extension_signature
  pub stamp : sign_bytes_timestamp c x.step x.sign_bytes ≡ ok f.timestamp
  pub payload : (block.step ≡ step_propose) ⊎ Compatible c block.step x.sign_bytes block.sign_bytes

-- One of the states holds the entry in the cache of what was signed.
abbrev pub InViews : HrsKey → SignStateConsensus → List ChainSignState → Type 0
InViews k x [] = ⊥
InViews k x (v ∷ vs) = (lookup k v.last_sign_state.cache ≡ some x) ⊎ InViews k x vs

compare-same :
    (chain_id : String) (initiated k : HrsKey) (block : Block)
    → is_same_block (compare_block_signature_against_hrs chain_id initiated block k) ≡ true
    → k ≡ block_hrs_key block
unfolding compare_block_signature_against_hrs
compare-same chain_id initiated k block h = (eq_hrs_iff k (block_hrs_key block)).0 (ground arith)

module _ (c : Codec) where
  reuse-payload :
      (block : Block) (x : SignStateConsensus) (f : Found)
      → consensus_key x ≡ block_hrs_key block
      → reuse_signature c block x ≡ ok f
      → (block.step ≡ step_propose) ⊎ Compatible c block.step x.sign_bytes block.sign_bytes
  unfolding reuse_signature
  reuse-payload block x f e h = elim (Outcome-cases (sign_bytes_timestamp c x.step x.sign_bytes)) [
    | failed y g ↦ absurd (ground arith)
    | panicked m g ↦ absurd (ground arith)
    | returned stamp g ↦ elim (Bool-cases (eqb_ℤ block.step step_propose)) [
      | inl p ↦ inl ((eqb_ℤ_iff _ _).0 p)
      | inr n ↦ elim (Bool-cases (bytes_equal block.sign_bytes x.sign_bytes)) [
        | inl b ↦ inr (inl (sym ((bytes_equal_iff _ _).0 b)))
        | inr b ↦ inr (
            inr (
              subst (λ s. Agree c (eqb_ℤ s step_propose) x.sign_bytes block.sign_bytes)
                (ap (λ (k : HrsKey). k.step) e)
                (only_differ-Agree c x.step x.sign_bytes block.sign_bytes (ground arith))))
      ]
    ]
  ]

  reuse-fields :
      (block : Block) (x : SignStateConsensus) (f : Found)
      → reuse_signature c block x ≡ ok f
      → (f.signature ≡ x.signature)
        × (f.vote_extension_signature ≡ x.vote_extension_signature)
        × (sign_bytes_timestamp c x.step x.sign_bytes ≡ ok f.timestamp)
  unfolding reuse_signature
  reuse-fields block x f h = ground arith

  compare-Reuses :
      (chain_id : String) (initiated : HrsKey) (block : Block) (x : SignStateConsensus) (f : Found)
      → compare_block_signature_against_ssc c chain_id initiated block x ≡ ok f
      → Reuses c block x f
  unfolding compare_block_signature_against_ssc
  compare-Reuses chain_id initiated block x f h =
      let e = compare-same chain_id initiated (consensus_key x) block (ground arith) in
      let r : reuse_signature c block x ≡ ok f = ground arith in
      let (a, b, s) = reuse-fields block x f r in
      record {
        same_key = e;
        signature = a;
        extension = b;
        stamp = s;
        payload = reuse-payload block x f e r;
      }

  existing-Reuses :
      (chain_id : String) (block : Block) (css : ChainSignState) (f : Found)
      → get_existing_block_signature c chain_id block css ≡ ok f
      → (x : SignStateConsensus) × (lookup (block_hrs_key block) css.last_sign_state.cache ≡ some x)
        × Reuses c block x f
  unfolding get_existing_block_signature get_from_cache
  existing-Reuses chain_id block css f h =
      elim (Option-cases (lookup (block_hrs_key block) css.last_sign_state.cache)) [
        | inl e ↦ absurd (ground arith)
        | inr (x, e) ↦ (
          x,
          e,
          compare-Reuses chain_id (latest_hrs css.last_sign_state_initiated) block x f
              (ground arith),
        )
      ]

  wait-Reuses :
      (chain_id : String) (block : Block) (views : List ChainSignState) (f : Found)
      → wait_for_block c chain_id block views ≡ ok f
      → (x : SignStateConsensus) × InViews (block_hrs_key block) x views × Reuses c block x f
  unfolding wait_for_block
  wait-Reuses chain_id block [] f h = absurd (ground arith)
  wait-Reuses chain_id block (css ∷ views) f h =
      let initiated = latest_hrs css.last_sign_state_initiated in
      elim (Option-cases (lookup (block_hrs_key block) css.last_sign_state.cache)) [
        | inl e ↦
            (let (x, m, r) = wait-Reuses chain_id block views f (ground arith) in (x, inr m, r))
        | inr (x, e) ↦
            elim (Outcome-cases
              (compare_block_signature_against_ssc c chain_id initiated block x)) [
                | returned g k ↦
                    (x, inl e, compare-Reuses chain_id initiated block x f (ground arith))
                | panicked m k ↦ absurd (ground arith)
                | failed y k ↦ elim (Bool-cases (is_still_waiting y)) [
                  | inl w ↦
                      (let (x', m, r) = wait-Reuses chain_id block views f (ground arith) in
                        (x', inr m, r))
                  | inr w ↦ absurd (ground arith)
                ]
              ]
      ]

  -- a refused save that is answered without an error is answered from an entry
  pub after_refused_save-InViews :
      (chain_id : String) (block : Block) (css : ChainSignState) (views : List ChainSignState)
      (e : Error) (f : Found)
      → after_refused_save c chain_id block css views e ≡ ok f
      → (x : SignStateConsensus) × (g : Found) × InViews (block_hrs_key block) x (css ∷ views)
        × Reuses c block x g
        × ((f ≡ g) ⊎ ((f ≡ go_ahead) × (is_nil x.signature ≡ true)))
  unfolding after_refused_save
  after_refused_save-InViews chain_id block css views e f h =
      elim (Outcome-cases (get_existing_block_signature c chain_id block css)) [
        | panicked m k ↦ absurd (ground arith)
        | returned g k ↦
            let (x, found, r) = existing-Reuses chain_id block css g k in
            elim (Bool-cases (is_same_hrs e && is_nil g.signature)) [
              | inl both ↦ (
                x,
                g,
                inl found,
                r,
                inr (ground arith, subst (λ b. is_nil b ≡ true) r.signature (ground arith)),
              )
              | inr other ↦ (x, g, inl found, r, inl (ground arith))
            ]
        | failed y k ↦ elim (Bool-cases (is_same_hrs e)) [
          | inr other ↦ absurd (ground arith)
          | inl same ↦ elim (Bool-cases (is_still_waiting y)) [
            | inr other ↦ absurd (ground arith)
            | inl w ↦
                (let (x, m, r) = wait-Reuses chain_id block views f (ground arith) in
                  (x, f, inr m, r, inl refl))
          ]
        ]
      ]
