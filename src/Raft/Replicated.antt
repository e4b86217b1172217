-- ===== src/Raft/Replicated.antt =====
-- A log of signer/raft_store.go applied by a node that has loaded the states of the chain.
use horcrux.Prelude.{
  String, string_Eq, ◌=?◌, ◌&&◌, List, [], ◌∷◌, Option, none, some, ◌≡◌, refl, subst, arith, ℕ,
  if◌then◌else◌, Option-cases, Bool-cases, inl, inr, insert, delete,
}
use horcrux.Outcome.{ok}
use horcrux.Hrs.{HrsKey}
use horcrux.ChainId.{validate_chain_id}
use horcrux.SignState.{SignState, consensus_key, latest_hrs}
use horcrux.Validator.{ChainSignState}
use horcrux.Raft.{
  Node, RaftStore, ChainSignStateConsensus, raft_event_lss, handle_lss_event, apply_set,
  apply_delete, apply, apply_all,
}
use horcrux.Raft.Events.{Reached, Reached-trans, Reached-refl, Holds, handle_lss_event-Later}

abbrev pub ReachedBy : Option HrsKey → SignState → Type 0
ReachedBy none s = Unit
ReachedBy (some k) s = Reached k s

ReachedBy-trans :
    (o : Option HrsKey) (s t : SignState) → ReachedBy o s → Reached (latest_hrs s) t → ReachedBy o t
ReachedBy-trans none s t h p = tt
ReachedBy-trans (some k) s t h p = Reached-trans k s t h p

module _ (node : Node) where
  open node use {raft_codec, chain_id}

  -- the key of an event for the chain
  abbrev pub event_key : ChainSignStateConsensus → Option HrsKey
  event_key lss = if lss.chain_id =? chain_id then some (consensus_key lss.consensus) else none

  abbrev pub value_key : String → Option HrsKey
  value_key value = elim (raft_codec.unmarshal_lss value) [ none ↦ none | some lss ↦ event_key lss ]

  -- The key that an entry of the log says was signed on the chain.
  abbrev pub signed_key : List ℕ → Option HrsKey
  signed_key entry = elim (raft_codec.unmarshal_command entry) [
    | none ↦ none
    | some c ↦ if c.op =? "set" && c.key =? raft_event_lss then value_key c.value else none
  ]

  abbrev pub AllReached : List (List ℕ) → SignState → Type 0
  AllReached [] s = Unit
  AllReached (entry ∷ log) s = ReachedBy (signed_key entry) s × AllReached log s

  -- a later state of the node, which has reached a key if there is one
  record Stepped (o : Option HrsKey) (css : ChainSignState) (c : SignState) (s : RaftStore)
      : Type 0 where
    css' : ChainSignState
    c' : SignState
    held : Holds s css' c'
    validator_reached : ReachedBy o css'.last_sign_state
    cosigner_reached : ReachedBy o c'
    validator_kept : Reached (latest_hrs css.last_sign_state) css'.last_sign_state
    cosigner_kept : Reached (latest_hrs c) c'

  stay :
      (s s' : RaftStore) (css : ChainSignState) (c : SignState)
      → Holds s css c
      → s'.validator ≡ s.validator
      → s'.cosigner ≡ s.cosigner
      → Stepped none css c s'
  stay s s' css c h p q = record {
    css' = css;
    c' = c;
    held = record {
      validator_holds = rw p h.validator_holds;
      cosigner_holds = rw q h.cosigner_holds;
    };
    validator_reached = tt;
    cosigner_reached = tt;
    validator_kept = Reached-refl css.last_sign_state;
    cosigner_kept = Reached-refl c;
  }

  under :
      {o o' : Option HrsKey} {css : ChainSignState} {c : SignState} {s : RaftStore}
      → o ≡ o'
      → Stepped o css c s
      → Stepped o' css c s
  under {css = css} {c = c} {s = s} e t = subst (λ o. Stepped o css c s) e t

  module _ (is_chain : validate_chain_id chain_id ≡ ok tt) where
    event-Stepped :
        (value : String) (s : RaftStore) (css : ChainSignState) (c : SignState)
        → Holds s css c
        → (s' : RaftStore) × (handle_lss_event node value s ≡ (ok tt, s'))
          × Stepped (value_key value) css c s'
    unfolding handle_lss_event
    event-Stepped value s css c h = elim (Option-cases (raft_codec.unmarshal_lss value)) [
      | inl e ↦ (s, ground arith, under (ground arith) (stay s s css c h refl refl))
      | inr (lss, e) ↦ elim (Bool-cases (lss.chain_id =? chain_id)) [
        | inr f ↦ (s, ground arith, under (ground arith) (stay s s css c h refl refl))
        | inl f ↦
            let (s', g, l) = handle_lss_event-Later node value lss s css c is_chain e f h in
            (
              s',
              g,
              under {o = some (consensus_key lss.consensus)} (ground arith) (record {
                css' = l.css';
                c' = l.c';
                held = l.held;
                validator_reached = l.validator_reached;
                cosigner_reached = l.cosigner_reached;
                validator_kept = l.validator_kept;
                cosigner_kept = l.cosigner_kept;
              }),
            )
      ]
    ]

    apply-Stepped :
        (entry : List ℕ) (s : RaftStore) (css : ChainSignState) (c : SignState)
        → Holds s css c
        → (s' : RaftStore) × (apply node entry s ≡ (ok tt, s'))
          × Stepped (signed_key entry) css c s'
    unfolding apply apply_set apply_delete
    apply-Stepped entry s css c h = elim (Option-cases (raft_codec.unmarshal_command entry)) [
      | inl e ↦ (s, ground arith, under (ground arith) (stay s s css c h refl refl))
      | inr (k, e) ↦ elim (Bool-cases (k.op =? "set")) [
        | inr f ↦ elim (Bool-cases (k.op =? "delete")) [
          | inl g ↦ (
            record s { m = delete k.key s.m },
            ground arith,
            under (ground arith) (stay s (record s { m = delete k.key s.m }) css c h refl refl),
          )
          | inr g ↦ (s, ground arith, under (ground arith) (stay s s css c h refl refl))
        ]
        | inl f ↦ elim (Bool-cases (k.key =? raft_event_lss)) [
          | inr g ↦ (
            record s { m = insert k.key k.value s.m },
            ground arith,
            under (ground arith)
                (stay s (record s { m = insert k.key k.value s.m }) css c h refl refl),
          )
          | inl g ↦
              let (s', i, t) = event-Stepped k.value s css c h in
              (s', ground arith, under (ground arith) t)
        ]
      ]
    ]

    -- A node that has loaded the states of a chain applies every log without a panic. Then the watermarks of its
    -- validator and of its cosigner have reached every key that the log says was signed on the chain, and
    -- neither has moved back.
    pub apply_all-AllReached :
        (log : List (List ℕ)) (s : RaftStore) (css : ChainSignState) (c : SignState)
        → Holds s css c
        → (s' : RaftStore) × (css' : ChainSignState) × (c' : SignState) × (apply_all node log s
            ≡ (ok tt, s'))
          × Holds s' css' c'
          × AllReached log css'.last_sign_state
          × AllReached log c'
          × Reached (latest_hrs css.last_sign_state) css'.last_sign_state
          × Reached (latest_hrs c) c'
    unfolding apply_all
    apply_all-AllReached [] s css c h =
        (s, css, c, refl, h, tt, tt, Reached-refl css.last_sign_state, Reached-refl c)
    apply_all-AllReached (entry ∷ log) s css c h =
        let (t, e, p) = apply-Stepped entry s css c h in
        let (s', css', c', e', h', a, b, v, w) = apply_all-AllReached log t p.css' p.c' p.held in
        (
          s',
          css',
          c',
          ground arith,
          h',
          (
            ReachedBy-trans (signed_key entry) p.css'.last_sign_state css'.last_sign_state
                p.validator_reached v,
            a,
          ),
          (ReachedBy-trans (signed_key entry) p.c' c' p.cosigner_reached w, b),
          Reached-trans (latest_hrs css.last_sign_state) p.css'.last_sign_state css'.last_sign_state
              p.validator_kept v,
          Reached-trans (latest_hrs c) p.c' c' p.cosigner_kept w,
        )
