-- ===== src/SingleSigner.antt =====
-- signer/single_signer_validator.go: one `FilePV` for each chain, loaded by `LoadFilePV` of signer/file.go
-- when the chain is first asked for.
pub mod Restarted
use horcrux.Prelude.{
  ℤ, pos, Bytes, String, string_Eq, ◌=?◌, Bool, true, false, List, [], Option, none, some, lookup,
  insert, if◌then◌else◌,
}
use horcrux.Outcome.{Error, Outcome, ok, err, panic, message, wrapped, ◌>>=◌}
use horcrux.Act.{Act}
use horcrux.ChainId.{validate_chain_id}
use horcrux.Payload.{Codec, Time}
use horcrux.Validator.{Block}
use horcrux.FileSigner.{FilePvLastSignState, FilePv, FileKey, FileSigned, sign_file}

-- What is found at a path: `os.Stat` and `os.ReadFile` with the JSON of the file.
pub data Stat {ℓ} (A : Type ℓ) : Type ℓ where
  missing unreadable malformed : Stat A
  holds : A → Stat A

unfoldable pub read_file {ℓ} : {A : Type ℓ} → Stat A → Outcome A
read_file missing = err (message "ReadFile")
read_file unreadable = err (message "ReadFile")
read_file malformed = err (wrapped "error reading PrivValidator" (message "Unmarshal"))
read_file (holds a) = ok a

-- a `FilePVLastSignState{}` with its path
abbrev pub fresh_state : (path : String) → FilePvLastSignState
fresh_state path = record {
  height = pos 0;
  round = pos 0;
  step = pos 0;
  signature = none;
  sign_bytes = none;
  file_path = path;
}

abbrev pub at_path : String → FilePvLastSignState → FilePvLastSignState
at_path path lss = record lss { file_path = path }

abbrev pub state_on_disk : Stat FilePvLastSignState → Option FilePvLastSignState
state_on_disk (holds lss) = some lss
state_on_disk _ = none

-- `LoadFilePV`
unfoldable pub load_file_pv :
    (path : String)
    → Stat FileKey
    → Stat FilePvLastSignState
    → (load_state : Bool) → Outcome (FileKey × FilePv)
load_file_pv path key_file state_file load_state = do
  key ← read_file key_file
  if load_state
      then (do
        lss ← read_file state_file
        ok (key, record { last_sign_state = at_path path lss; on_disk = some lss }))
      else ok
          (key, record { last_sign_state = fresh_state path; on_disk = state_on_disk state_file })

-- The validator, with the key and state files of the chains. The lock of a chain is not a field: a sign is
-- one step.
pub record SingleSigner : Type 0 where
  pub chain_state : List (String × (FileKey × FilePv))
  pub key_files : String → Stat FileKey
  pub state_files : String → Stat FilePvLastSignState

-- `KeyFilePathSingleSigner` and `PrivValStateFile` differ from chain to chain
module _ (state_path : String → String) where
  -- `os.Stat` of the state file, which decides whether a state is loaded
  unfoldable pub load_existing :
      String → Stat FileKey → Stat FilePvLastSignState → Outcome (FileKey × FilePv)
  load_existing path key_file missing = load_file_pv path key_file missing false
  load_existing path key_file unreadable = panic "failed to load state file"
  load_existing path key_file malformed = load_file_pv path key_file malformed true
  load_existing path key_file (holds lss) = load_file_pv path key_file (holds lss) true

  -- `os.Stat` of the key file
  unfoldable pub load_chain_state :
      String → Stat FileKey → Stat FilePvLastSignState → Outcome (FileKey × FilePv)
  load_chain_state path missing state_file = err (message "failed to load key file")
  load_chain_state path unreadable state_file = err (message "failed to load key file")
  load_chain_state path malformed state_file = load_existing path malformed state_file
  load_chain_state path (holds key) state_file = load_existing path (holds key) state_file

  abbrev pub store_chain : String → Outcome (FileKey × FilePv) → Act SingleSigner (FileKey × FilePv)
  store_chain chain_id (ok loaded) s =
      (ok loaded, record s { chain_state = insert chain_id loaded s.chain_state })
  store_chain chain_id (err e) s = (err e, s)
  store_chain chain_id (panic t) s = (panic t, s)

  -- `loadChainStateIfNecessary`
  unfoldable pub load_chain_state_if_necessary : String → Act SingleSigner (FileKey × FilePv)
  load_chain_state_if_necessary chain_id s = elim (validate_chain_id chain_id) [
    | err e ↦ (err e, s)
    | panic t ↦ (panic t, s)
    | ok _ ↦ elim (lookup chain_id s.chain_state) [
      | some cached ↦ (ok cached, s)
      | none ↦
          store_chain chain_id
            (load_chain_state (state_path chain_id) (s.key_files chain_id) (s.state_files chain_id))
            s
    ]
  ]

  abbrev key_bytes : (FileKey → Bytes) → Outcome (FileKey × FilePv) → Outcome Bytes
  key_bytes pub_key (ok (key, pv)) = ok (pub_key key)
  key_bytes pub_key (err e) = err e
  key_bytes pub_key (panic t) = panic t

  -- `GetPubKey`; `pub_key` is the public key of a private key
  unfoldable pub get_pub_key_single : (pub_key : FileKey → Bytes) → String → Act SingleSigner Bytes
  get_pub_key_single pub_key chain_id s =
      let (loaded, s') = load_chain_state_if_necessary chain_id s in (key_bytes pub_key loaded, s')

  -- the file of a chain after a sign, as `on_disk` says
  abbrev pub file_after :
      String → FilePv → (String → Stat FilePvLastSignState) → String → Stat FilePvLastSignState
  file_after chain_id pv files c =
      if chain_id =? c then (elim pv.on_disk [ some lss ↦ holds lss | none ↦ files c ]) else files c

  abbrev pub keep_chain :
      String → FileKey → Outcome FileSigned × FilePv → Act SingleSigner FileSigned
  keep_chain chain_id key (r, pv) s = (
    r,
    record s {
      chain_state = insert chain_id (key, pv) s.chain_state;
      state_files = file_after chain_id pv s.state_files;
    },
  )

  module _ (c : Codec) where
    -- the part of `Sign` behind the loading
    unfoldable pub sign_loaded :
        Time → String → Block → Outcome (FileKey × FilePv) → Act SingleSigner FileSigned
    sign_loaded now chain_id block (err e) s = (err e, s)
    sign_loaded now chain_id block (panic t) s = (panic t, s)
    sign_loaded now chain_id block (ok (key, pv)) s =
        keep_chain chain_id key (sign_file c key now chain_id block pv) s

    -- `Sign`
    unfoldable pub sign_single : Time → String → Block → Act SingleSigner FileSigned
    sign_single now chain_id block s =
        let (loaded, s') = load_chain_state_if_necessary chain_id s in
        sign_loaded now chain_id block loaded s'

-- A new process has the files, and no chain is loaded.
abbrev pub restarted : SingleSigner → SingleSigner
restarted s = record s { chain_state = [] }
