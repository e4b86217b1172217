-- ===== src/Raft/Events.antt =====
-- The replication of signed states by signer/raft_events.go: what a follower has heard of, it does not
-- sign below.
use horcrux.Prelude.{
  String, string_Eq, ◌=?◌, true, false, [], ◌∷◌, ◌++◌, some, ◌≡◌, refl, ◌∙◌, arith, Bool-cases, inl,
  inr,
}
use horcrux.Outcome.{Error, Outcome, ok, err, same_hrs, message}
use horcrux.Hrs.{HrsKey, greater_than, eq_hrs}
use horcrux.Hrs.Order.{
  greater_than_trans, greater_than_total, greater_than_irrefl, greater_than_asymm,
}
use horcrux.ChainId.{validate_chain_id}
use horcrux.SignState.{
  SignState, SignStateConsensus, consensus_key, latest_hrs, advance, locked_copy, block_double_sign,
}
use horcrux.SignState.Watermark.{block_double_sign_lem}
use horcrux.SignState.Disk.{StateCodec, Disk, save, signal, persist}
use horcrux.Cosigner.Local.{Setup, LocalCosigner, save_signed}
use horcrux.Cosigner.Local.Requests
use horcrux.Validator
use horcrux.Validator.{ThresholdValidator, ChainSignState, must_load_chain_state}
use horcrux.Raft.{
  Node, RaftStore, ChainSignStateConsensus, handle_lss_event, load_both, save_both, ignoring,
}

-- The watermark has reached a key: the key is not above it.
abbrev pub Reached : HrsKey → SignState → Type 0
Reached k s = greater_than k (latest_hrs s) ≡ false

pub Reached-trans :
    (k : HrsKey) (s t : SignState) → Reached k s → Reached (latest_hrs s) t → Reached k t
Reached-trans k s t h p = ground (
  arith,
  greater_than_trans k (latest_hrs t) (latest_hrs s),
  greater_than_total (latest_hrs s) (latest_hrs t),
)

pub Reached-refl : (s : SignState) → Reached (latest_hrs s) s
Reached-refl s = greater_than_irrefl (latest_hrs s)

-- What a save leaves: a result that is no panic, and a watermark that has reached its key and has not moved back.
signal-latest_hrs : (s : SignState) → latest_hrs (signal s) ≡ latest_hrs s
unfolding signal
signal-latest_hrs s = refl

advance-latest_hrs :
    (s : SignState) (ssc : SignStateConsensus) → latest_hrs (advance s ssc) ≡ consensus_key ssc
unfolding advance
advance-latest_hrs s ssc = refl

data Saved (k : HrsKey) (s : SignState) (r : Outcome (SignState × Disk)) : Type 0 where
  moved :
      (t : SignState) (d : Disk)
      → r ≡ ok (t, d)
      → Reached k t
      → Reached (latest_hrs s) t
      → Saved k s r
  refused : (e : Error) → r ≡ err e → Reached k s → Saved k s r

save-Saved :
    (codec : StateCodec) (ssc : SignStateConsensus) (s : SignState) (d : Disk)
    → Saved (consensus_key ssc) s (save codec true ssc s d)
unfolding save persist
save-Saved codec ssc s d = elim (Bool-cases (greater_than (consensus_key ssc) (latest_hrs s))) [
  | inl g ↦
      let e : block_double_sign s ssc ≡ ok (advance s ssc, locked_copy (advance s ssc)) =
        block_double_sign_lem s ssc ∙ rw g refl in
      let l : latest_hrs (signal (advance s ssc)) ≡ consensus_key ssc =
        signal-latest_hrs (advance s ssc) ∙ advance-latest_hrs s ssc in
      moved (signal (advance s ssc))
        (record d { pending = d.pending ++ locked_copy (advance s ssc) ∷ [] }) (rw e refl)
        (rw l (greater_than_irrefl (consensus_key ssc)))
        (rw l (greater_than_asymm (consensus_key ssc) (latest_hrs s) g))
  | inr g ↦ elim (Bool-cases (eq_hrs (consensus_key ssc) (latest_hrs s))) [
    | inl q ↦ refused (same_hrs (consensus_key ssc)) (rw (block_double_sign_lem s ssc, g, q) refl) g
    | inr q ↦
        refused (message "regression not allowed") (rw (block_double_sign_lem s ssc, g, q) refl) g
  ]
]

-- A save of a node that has loaded its state returns, and leaves a state that has reached its key.
validator_save :
    (codec : StateCodec) (ssc : SignStateConsensus) (pv : ThresholdValidator) (css : ChainSignState)
    → pv.chain_state ≡ some css
    → (r : Outcome (Unit {0})) × (pv' : ThresholdValidator) × (css' : ChainSignState)
      × (Validator.save_last_signed_state codec ssc pv ≡ (r, pv'))
      × (ignoring r ≡ ok tt)
      × (pv'.chain_state ≡ some css')
      × Reached (consensus_key ssc) css'.last_sign_state
      × Reached (latest_hrs css.last_sign_state) css'.last_sign_state
unfolding Validator.save_last_signed_state Validator.save_signed Validator.must_load_chain_state
validator_save codec ssc pv css e = elim (save-Saved codec ssc css.last_sign_state pv.disk) [
  | moved t d p q r ↦ (
    ok tt,
    record pv { chain_state = some (record css { last_sign_state = t }); disk = d },
    record css { last_sign_state = t },
    ground arith,
    refl,
    refl,
    q,
    r,
  )
  | refused x p q ↦ (err x, pv, css, ground arith, refl, e, q, Reached-refl css.last_sign_state)
]

cosigner_save :
    (setup : Setup) (ssc : SignStateConsensus) (l : LocalCosigner) (c : SignState)
    → l.chain_state ≡ some c
    → (r : Outcome (Unit {0})) × (l' : LocalCosigner) × (c' : SignState)
      × (Requests.save_last_signed_state setup ssc l ≡ (r, l'))
      × (ignoring r ≡ ok tt)
      × (l'.chain_state ≡ some c')
      × Reached (consensus_key ssc) c'
      × Reached (latest_hrs c) c'
unfolding Requests.save_last_signed_state save_signed
cosigner_save setup ssc l c e = elim (save-Saved setup.state_codec ssc c l.disk) [
  | moved t d p q r ↦
      (ok tt, record l { chain_state = some t; disk = d }, t, ground arith, refl, refl, q, r)
  | refused x p q ↦ (err x, l, c, ground arith, refl, e, q, Reached-refl c)
]

-- The node has loaded these states of the chain.
pub record Holds (s : RaftStore) (css : ChainSignState) (c : SignState) : Type 0 where
  pub validator_holds : s.validator.chain_state ≡ some css
  pub cosigner_holds : s.cosigner.chain_state ≡ some c

module _ (node : Node) where
  open node use {setup, raft_codec, chain_id}

  -- A later state of the node: both watermarks have reached a key, and neither has moved back.
  pub record Later (k : HrsKey) (css : ChainSignState) (c : SignState) (s : RaftStore)
      : Type 0 where
    pub css' : ChainSignState
    pub c' : SignState
    pub held : Holds s css' c'
    pub validator_reached : Reached k css'.last_sign_state
    pub cosigner_reached : Reached k c'
    pub validator_kept : Reached (latest_hrs css.last_sign_state) css'.last_sign_state
    pub cosigner_kept : Reached (latest_hrs c) c'

  save_both-Later :
      (ssc : SignStateConsensus) (s : RaftStore) (css : ChainSignState) (c : SignState)
      → Holds s css c
      → (s' : RaftStore) × (save_both node ssc s ≡ (ok tt, s')) × Later (consensus_key ssc) css c s'
  unfolding save_both
  save_both-Later ssc s css c h =
      let (r, v, css', e, i, p, q, k) =
        validator_save setup.state_codec ssc s.validator css h.validator_holds in
      let (r', l, c', e', i', p', q', k') = cosigner_save setup ssc s.cosigner c h.cosigner_holds in
      (
        record s { validator = v; cosigner = l },
        ground arith,
        record {
          css' = css';
          c' = c';
          held = record { validator_holds = p; cosigner_holds = p' };
          validator_reached = q;
          cosigner_reached = q';
          validator_kept = k;
          cosigner_kept = k';
        },
      )

  load_both-loaded :
      (s : RaftStore) (css : ChainSignState)
      → validate_chain_id chain_id ≡ ok tt
      → s.validator.chain_state ≡ some css
      → load_both node s ≡ (ok tt, s)
  unfolding load_both Validator.load_sign_state_if_necessary
  load_both-loaded s css v h = ground arith

  -- the event of a signed state of the chain
  pub handle_lss_event-Later :
      (value : String) (lss : ChainSignStateConsensus) (s : RaftStore) (css : ChainSignState)
      (c : SignState)
      → validate_chain_id chain_id ≡ ok tt
      → raft_codec.unmarshal_lss value ≡ some lss
      → (lss.chain_id =? chain_id) ≡ true
      → Holds s css c
      → (s' : RaftStore) × (handle_lss_event node value s ≡ (ok tt, s'))
        × Later (consensus_key lss.consensus) css c s'
  unfolding handle_lss_event
  handle_lss_event-Later value lss s css c v d t h =
      let (s', e, l) = save_both-Later lss.consensus s css c h in
      (s', ground (arith, load_both-loaded s css v h.validator_holds), l)
