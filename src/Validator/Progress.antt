-- ===== src/Validator/Progress.antt =====
-- What `SaveLastSignedStateInitiated` of signer/threshold_validator.go answers: an existing signature
-- only for the same block, and the go-ahead only once for each block, unless a sign has failed.
use horcrux.Prelude.{
  is_nil, bytes_equal_iff, String, true, false, ◌≡◌, refl, sym, ap, subst, ◌∙◌, ◌⊎◌, inl, inr,
  arith, List, [], ◌∷◌, ◌++◌, none, some, if◌then◌else◌, lookup-insert, Bool-cases, Option-cases,
}
use horcrux.Outcome.{Error, ok, err, same_hrs, message}
use horcrux.Hrs.{greater_than, eq_hrs, eq_hrs_iff, hrs_Eq}
use horcrux.Hrs.Order.{greater_than_irrefl}
use horcrux.Payload.{Codec, Time}
use horcrux.SignState.{
  SignState, SignStateConsensus, consensus_key, latest_hrs, get_from_cache,
  new_sign_state_consensus, advance, locked_copy,
}
use horcrux.SignState.Watermark.{block_double_sign_lem}
use horcrux.SignState.Disk.{StateCodec, save, persist, signal}
use horcrux.Validator.{
  Block, block_hrs_key, ChainSignState, ThresholdValidator, must_load_chain_state, mark_failed,
  failed_entry, notify_block_sign_error,
}
use horcrux.Validator.Existing.{
  Found, go_ahead, is_same_hrs, compare_block_signature_against_hrs, sign_bytes_timestamp,
  reuse_signature, compare_block_signature_against_ssc, get_existing_block_signature,
  after_refused_save, save_last_signed_state_initiated,
}
use horcrux.Validator.Reuse.{Reuses, InViews, after_refused_save-InViews}

-- the save of what is begun, above the latest block and at it or below
begin-above :
    (codec : StateCodec) (s : SignState) (ssc : SignStateConsensus) (pv : ThresholdValidator)
    → greater_than (consensus_key ssc) (latest_hrs s) ≡ true
    → save codec true ssc s pv.disk
      ≡ ok (
        signal (advance s ssc),
        record pv.disk { pending = pv.disk.pending ++ locked_copy (advance s ssc) ∷ [] },
      )
unfolding save persist
begin-above codec s ssc pv h = ground (arith, block_double_sign_lem s ssc)

abbrev refusal : SignState → SignStateConsensus → Error
refusal s ssc =
    if eq_hrs (consensus_key ssc) (latest_hrs s)
    then same_hrs (consensus_key ssc)
    else message "regression not allowed"

begin-refused :
    (codec : StateCodec) (s : SignState) (ssc : SignStateConsensus) (pv : ThresholdValidator)
    → greater_than (consensus_key ssc) (latest_hrs s) ≡ false
    → save codec true ssc s pv.disk ≡ err (refusal s ssc)
unfolding save
begin-refused codec s ssc pv h = ground (arith, block_double_sign_lem s ssc)

latest_hrs-begun :
    (s : SignState) (block : Block)
    → latest_hrs (signal (advance s (new_sign_state_consensus block.height block.round block.step)))
      ≡ block_hrs_key block
unfolding signal advance new_sign_state_consensus
latest_hrs-begun s block = refl

key-begun :
    (block : Block)
    → consensus_key (new_sign_state_consensus block.height block.round block.step)
      ≡ block_hrs_key block
unfolding new_sign_state_consensus
key-begun block = refl

module _ (c : Codec) (codec : StateCodec) where
  -- by its branches: the block is begun, or the save is refused
  initiated-cases :
      (chain_id : String) (block : Block) (views : List ChainSignState)
      (pv pv' : ThresholdValidator) (f : Found)
      → save_last_signed_state_initiated c codec chain_id block views pv ≡ (ok f, pv')
      → (css : ChainSignState) × (pv.chain_state ≡ some css)
        × (((greater_than (block_hrs_key block) (latest_hrs css.last_sign_state_initiated) ≡ true)
              × (f ≡ go_ahead)
              × (css' : ChainSignState) × (pv'.chain_state ≡ some css')
              × (latest_hrs css'.last_sign_state_initiated ≡ block_hrs_key block))
            ⊎ ((e : Error) × (after_refused_save c chain_id block css views e ≡ ok f) × (pv' ≡ pv)))
  unfolding save_last_signed_state_initiated must_load_chain_state
  initiated-cases chain_id block views pv pv' f h = elim (Option-cases pv.chain_state) [
    | inl e ↦ absurd (ground arith)
    | inr (css, e) ↦
        let s = css.last_sign_state_initiated in
        let ssc = new_sign_state_consensus block.height block.round block.step in
        elim (Bool-cases (greater_than (consensus_key ssc) (latest_hrs s))) [
          | inl up ↦
              let k = begin-above codec s ssc pv up in
              (
                css,
                e,
                inl (
                  subst (λ j. greater_than j (latest_hrs s) ≡ true) (key-begun block) up,
                  ground arith,
                  record css { last_sign_state_initiated = signal (advance s ssc) },
                  ground arith,
                  latest_hrs-begun s block,
                ),
              )
          | inr low ↦
              let k = begin-refused codec s ssc pv low in
              (css, e, inr (refusal s ssc, ground arith, ground arith))
        ]
  ]

  -- The go-ahead for a block is given when its height, round and step are above the latest block that
  -- was begun, which it then is itself, or where the cache of a state that was seen has an entry for the
  -- block without a signature: the mark of a sign that failed.
  pub save_last_signed_state_initiated-go_ahead :
      (chain_id : String) (block : Block) (views : List ChainSignState)
      (pv pv' : ThresholdValidator) (f : Found)
      → save_last_signed_state_initiated c codec chain_id block views pv ≡ (ok f, pv')
      → is_nil f.signature ≡ true
      → (css : ChainSignState) × (pv.chain_state ≡ some css)
        × (((greater_than (block_hrs_key block) (latest_hrs css.last_sign_state_initiated) ≡ true)
              × (css' : ChainSignState) × (pv'.chain_state ≡ some css')
              × (latest_hrs css'.last_sign_state_initiated ≡ block_hrs_key block))
            ⊎ ((x : SignStateConsensus) × InViews (block_hrs_key block) x (css ∷ views)
                × (consensus_key x ≡ block_hrs_key block)
                × (is_nil x.signature ≡ true)))
  save_last_signed_state_initiated-go_ahead chain_id block views pv pv' f h empty =
      let (css, e, cases) = initiated-cases chain_id block views pv pv' f h in
      (
        css,
        e,
        elim cases [
          | inl (up, _, css', after, begun) ↦ inl (up, css', after, begun)
          | inr (x, r, _) ↦
              let (y, g, seen, reuses, which) =
                after_refused_save-InViews c chain_id block css views x f r in
              inr (
                y,
                seen,
                reuses.same_key,
                elim which [
                  | inl same ↦
                      subst (λ b. is_nil b ≡ true)
                        (ap (λ (z : Found). z.signature) same ∙ reuses.signature) empty
                  | inr (_, nil) ↦ nil
                ],
              )
        ],
      )

  refused-Reuses :
      (chain_id : String) (block : Block) (css : ChainSignState) (views : List ChainSignState)
      (e : Error) (f : Found)
      → after_refused_save c chain_id block css views e ≡ ok f
      → is_nil f.signature ≡ false
      → (x : SignStateConsensus) × InViews (block_hrs_key block) x (css ∷ views)
        × Reuses c block x f
  refused-Reuses chain_id block css views e f h signed =
      let (y, g, seen, reuses, which) =
        after_refused_save-InViews c chain_id block css views e f h in
      elim which [
        | inl same ↦ (y, seen, subst (Reuses c block y) (sym same) reuses)
        | inr (nothing, _) ↦ absurd (ground arith)
      ]

  -- A signature that is returned in place of the go-ahead stands in the cache of a state that was seen,
  -- for the same height, round and step; it comes with the timestamp that it was made over, and its
  -- payload is compatible with the block's, or both are proposals.
  pub save_last_signed_state_initiated-Reuses :
      (chain_id : String) (block : Block) (views : List ChainSignState)
      (pv pv' : ThresholdValidator) (f : Found)
      → save_last_signed_state_initiated c codec chain_id block views pv ≡ (ok f, pv')
      → is_nil f.signature ≡ false
      → (css : ChainSignState) × (pv.chain_state ≡ some css)
        × (x : SignStateConsensus) × InViews (block_hrs_key block) x (css ∷ views)
        × Reuses c block x f
  save_last_signed_state_initiated-Reuses chain_id block views pv pv' f h signed =
      let (css, e, cases) = initiated-cases chain_id block views pv pv' f h in
      let (x, seen, reuses) : (x : SignStateConsensus) × InViews (block_hrs_key block) x
            (css ∷ views)
          × Reuses c block x f =
        elim cases [
          | inl (_, nothing, _, _, _) ↦ absurd (ground arith)
          | inr (x, r, _) ↦ refused-Reuses chain_id block css views x f r signed
        ] in
      (css, e, x, seen, reuses)

  -- a failed entry is for its own block
  failed-found :
      (chain_id : String) (block : Block) (css : ChainSignState) (stamp : Time)
      → sign_bytes_timestamp c block.step block.sign_bytes ≡ ok stamp
      → (f : Found) × (get_existing_block_signature c chain_id block
            (mark_failed (block_hrs_key block) block.sign_bytes css)
          ≡ ok f)
        × (is_nil f.signature ≡ true)
  unfolding get_existing_block_signature get_from_cache mark_failed signal
      compare_block_signature_against_ssc compare_block_signature_against_hrs reuse_signature
  failed-found chain_id block css stamp h = (
    record { signature = none; vote_extension_signature = none; timestamp = stamp },
    ground (
      arith,
      lookup-insert (block_hrs_key block) (block_hrs_key block)
          (failed_entry (block_hrs_key block) block.sign_bytes) css.last_sign_state.cache,
      eq_hrs_iff (block_hrs_key block) (block_hrs_key block),
      greater_than_irrefl (block_hrs_key block),
      bytes_equal_iff block.sign_bytes block.sign_bytes,
    ),
    refl,
  )

  -- After `notifyBlockSignError` for a block, a request for the same payload has the go-ahead again,
  -- however far other blocks were begun, if its sign bytes decode.
  pub notify_block_sign_error-go_ahead :
      (chain_id : String) (block : Block) (views : List ChainSignState) (css : ChainSignState)
      (pv : ThresholdValidator) (stamp : Time)
      → pv.chain_state ≡ some css
      → sign_bytes_timestamp c block.step block.sign_bytes ≡ ok stamp
      → let marked = (notify_block_sign_error (block_hrs_key block) block.sign_bytes pv).1 in
        (f : Found) × ((save_last_signed_state_initiated c codec chain_id block views marked).0
          ≡ ok f)
        × (is_nil f.signature ≡ true)
  unfolding save_last_signed_state_initiated must_load_chain_state notify_block_sign_error
      after_refused_save
  notify_block_sign_error-go_ahead chain_id block views css pv stamp e h =
      let marked = mark_failed (block_hrs_key block) block.sign_bytes css in
      let s = marked.last_sign_state_initiated in
      let ssc = new_sign_state_consensus block.height block.round block.step in
      let (f, found, empty) = failed-found chain_id block css stamp h in
      elim (Bool-cases (greater_than (consensus_key ssc) (latest_hrs s))) [
        | inl up ↦ (let k = begin-above codec s ssc pv up in (go_ahead, ground arith, refl))
        | inr low ↦
            let k = begin-refused codec s ssc pv low in
            elim (Bool-cases (is_same_hrs (refusal s ssc))) [
              | inl same ↦ (go_ahead, ground arith, refl)
              | inr other ↦ (f, ground arith, empty)
            ]
      ]
