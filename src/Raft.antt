-- ===== src/Raft.antt =====
-- The replicated store of signer/raft_store.go and its events in signer/raft_events.go, on one cosigner.
-- The agreement on the log is hashicorp/raft's; JSON is the record RaftCodec.
pub mod Store
pub mod Events
pub mod Replicated
pub mod Membership
use horcrux.Prelude.{
  ℕ, ℤ, String, string_Eq, ◌=?◌, Bool, true, false, ◌&&◌, ◌||◌, not, List, [], ◌∷◌, ◌++◌, Option,
  none, some, if◌then◌else◌, insert, delete, lookup,
}
use horcrux.Outcome.{Error, Outcome, ok, err, panic, message, wrapped, ◌>>=◌, ◌>>◌}
use horcrux.Act.{Act}
use horcrux.SignState.{SignStateConsensus}
use horcrux.Cosigner.Local.{Setup, LocalCosigner}
use horcrux.Cosigner.Local.Requests
use horcrux.Validator
use horcrux.Validator.{ThresholdValidator}

-- `command`
pub record Command : Type 0 where
  pub op : String
  pub key : String
  pub value : String

-- `ChainSignStateConsensus`
pub record ChainSignStateConsensus : Type 0 where
  pub chain_id : String
  pub consensus : SignStateConsensus

abbrev pub Store : Type 0
Store = List (String × String)

pub record RaftCodec : Type 0 where
  pub marshal_command : Command → Option (List ℕ)
  pub unmarshal_command : List ℕ → Option Command
  pub marshal_lss : ChainSignStateConsensus → Option String
  pub unmarshal_lss : String → Option ChainSignStateConsensus
  pub marshal_store : Store → Option (List ℕ)
  pub unmarshal_store : List ℕ → Option Store

-- What a node is set up with, for the chain that is followed: its state files, and the error of
-- `NewThresholdSignerSoft`, if any.
pub record Node : Type 1 where
  pub setup : Setup
  pub raft_codec : RaftCodec
  pub chain_id : String
  pub priv_val_state_file : String
  pub cosigner_state_file : String
  pub signer_fails : Option Error

-- `RaftStore` with what its events change
pub record RaftStore : Type 0 where
  pub m : Store
  pub validator : ThresholdValidator
  pub cosigner : LocalCosigner

abbrev pub raft_event_lss : String
raft_event_lss = "LSS"

-- `shouldRetain`
abbrev pub should_retain : String → Bool
should_retain key = not (key =? raft_event_lss)

-- `Get`: a missing key reads as the empty text
unfoldable pub get : RaftStore → String → String
get s key = elim (lookup key s.m) [ none ↦ "" | some v ↦ v ]

-- an ignored error; a panic is not caught
abbrev pub ignoring : Outcome (Unit {0}) → Outcome (Unit {0})
ignoring (ok _) = ok tt
ignoring (err e) = ok tt
ignoring (panic t) = panic t

module _ (node : Node) where
  open node use {
    setup, raft_codec, chain_id, priv_val_state_file, cosigner_state_file, signer_fails,
  }

  -- `LoadSignStateIfNecessary` of the validator, which has the local cosigner load its own state after
  -- it has stored a new one.
  unfoldable pub load_both : Act RaftStore (Unit {0})
  load_both s =
      let (r, v) =
        Validator.load_sign_state_if_necessary setup.state_codec priv_val_state_file chain_id
          s.validator in
      elim r [
        | err e ↦ (err e, record s { validator = v })
        | panic t ↦ (panic t, record s { validator = v })
        | ok _ ↦ elim s.validator.chain_state [
          | some css ↦ (ok tt, record s { validator = v })
          | none ↦
              let (r', c) =
                Requests.load_sign_state_if_necessary setup cosigner_state_file signer_fails
                  chain_id s.cosigner in
              (r', record s { validator = v; cosigner = c })
        ]
      ]

  -- the two saves of `handleLSSEvent`
  unfoldable pub save_both : SignStateConsensus → Act RaftStore (Unit {0})
  save_both ssc s =
      let (r, v) = Validator.save_last_signed_state setup.state_codec ssc s.validator in
      elim (ignoring r) [
        | err e ↦ (err e, record s { validator = v })
        | panic t ↦ (panic t, record s { validator = v })
        | ok _ ↦
            let (r', c) = Requests.save_last_signed_state setup ssc s.cosigner in
            (ignoring r', record s { validator = v; cosigner = c })
      ]

  -- `handleLSSEvent`; an event for another chain leaves this one's states alone
  unfoldable pub handle_lss_event : String → Act RaftStore (Unit {0})
  handle_lss_event value s = elim (raft_codec.unmarshal_lss value) [
    | none ↦ (ok tt, s)
    | some lss ↦
        if not (lss.chain_id =? chain_id)
        then (ok tt, s)
        else (let (r, s') = load_both s in
            elim r [
              | panic t ↦ (panic t, s')
              | err e ↦ (ok tt, s')
              | ok _ ↦ save_both lss.consensus s'
            ])
  ]

  -- `applySet`, with `getEventHandler`
  unfoldable pub apply_set : String → String → Act RaftStore (Unit {0})
  apply_set key value s =
      let (r, s') = if key =? raft_event_lss then handle_lss_event value s else (ok tt, s) in
      elim r [
        | panic t ↦ (panic t, s')
        | err e ↦ (err e, s')
        | ok _ ↦
            if should_retain key
            then (ok tt, record s' { m = insert key value s'.m })
            else (ok tt, s')
      ]

  -- `applyDelete`
  unfoldable pub apply_delete : String → Act RaftStore (Unit {0})
  apply_delete key s = (ok tt, record s { m = delete key s.m })

  -- `Apply` of an entry of the log
  unfoldable pub apply : List ℕ → Act RaftStore (Unit {0})
  apply entry s = elim (raft_codec.unmarshal_command entry) [
    | none ↦ (ok tt, s)
    | some c ↦
        if c.op =? "set"
        then apply_set c.key c.value s
        else (if c.op =? "delete" then apply_delete c.key s else (ok tt, s))
  ]

  -- the entries that raft has committed, in their order
  unfoldable pub apply_all : List (List ℕ) → Act RaftStore (Unit {0})
  apply_all [] s = (ok tt, s)
  apply_all (entry ∷ log) s =
      let (r, s') = apply entry s in
      elim r [ ok _ ↦ apply_all log s' | err e ↦ (err e, s') | panic t ↦ (panic t, s') ]

  -- `Snapshot` with `Persist`
  unfoldable pub snapshot : RaftStore → Outcome (List ℕ)
  snapshot s = elim (raft_codec.marshal_store s.m) [
    | none ↦ err (message "Marshal")
    | some bytes ↦ ok bytes
  ]

  -- `Restore`
  unfoldable pub restore : List ℕ → Act RaftStore (Unit {0})
  restore bytes s = elim (raft_codec.unmarshal_store bytes) [
    | none ↦ (err (message "Decode"), s)
    | some o ↦ (ok tt, record s { m = o })
  ]

  -- `Set`, `Delete`, `Emit` and `ShareSigned`: the entry that is handed to raft, whose leadership and
  -- answer are given.
  unfoldable pub propose :
      (is_leader : Bool) → (raft_apply : List ℕ → Outcome (Unit {0})) → Command → Outcome (Unit {0})
  propose is_leader raft_apply c =
      if not is_leader then err (message "not leader") else elim (raft_codec.marshal_command c) [
        | none ↦ err (message "Marshal")
        | some b ↦ raft_apply b
      ]

  unfoldable pub share_signed :
      (is_leader : Bool)
      → (raft_apply : List ℕ → Outcome (Unit {0})) → ChainSignStateConsensus
      → Outcome (Unit {0})
  unfolding propose
  share_signed is_leader raft_apply lss = elim (raft_codec.marshal_lss lss) [
    | none ↦ err (message "Marshal")
    | some value ↦
        propose is_leader raft_apply (record { op = "set"; key = raft_event_lss; value = value })
  ]
