-- ===== src/SignState/Disk.antt =====
-- The files of signer/sign_state.go: `Save`, `saveSignState`, `LoadSignState` and
-- `LoadOrCreateSignState`, with the disk writes that `Save` leaves to goroutines.
pub mod Restart
use mathlib.Core.Option
use horcrux.Prelude.{
  ◌≡◌, ℕ, List, [], ◌∷◌, ◌++◌, String, string_Eq, ◌=?◌, Bool, true, false, Option, none, some,
  if◌then◌else◌, not,
}
use horcrux.Outcome.{Outcome, ok, err, panic, message, wrapped, ◌>>=◌, ◌>>◌}
use horcrux.Cond
use horcrux.SignState.{SignState, SignStateConsensus, block_double_sign, fresh_cache, empty_state}

-- `cometjson` on the exported fields of a sign state
pub record StateCodec : Type 0 where
  pub marshal : SignState → Option (List ℕ)
  pub unmarshal : List ℕ → Option SignState

-- The files, the paths that cannot be written, and those whose `Stat` fails although they exist.
pub record FileSystem : Type 0 where
  pub files : String → Option (List ℕ)
  pub write_fails : String → Bool
  pub stat_fails : String → Bool

unfoldable pub write_file : String → List ℕ → FileSystem → FileSystem
write_file path bytes fs = record fs { files = λ p. if path =? p then some bytes else fs.files p }

-- The disk, and the copies of sign states that goroutines have still to write.
pub record Disk : Type 0 where
  pub fs : FileSystem
  pub pending : List SignState

abbrev pub dev_null : String
dev_null = "/dev/null"

-- `tempfile.WriteFileAtomic`, whose error `saveSignState` turns into a panic
unfoldable pub write_atomic : String → List ℕ → FileSystem → Outcome FileSystem
unfolding write_file
write_atomic path bytes fs =
    if fs.write_fails path then panic "WriteFileAtomic" else ok (write_file path bytes fs)

-- wakes those that wait for a signature
unfoldable pub signal : SignState → SignState
signal s = record s { cond = Option.map Cond.broadcast s.cond }

module _ (codec : StateCodec) where
  unfoldable pub save_sign_state : SignState → FileSystem → Outcome FileSystem
  unfolding write_atomic
  save_sign_state s fs = elim (codec.marshal s) [
    | none ↦ panic "MarshalIndent"
    | some bytes ↦
        if s.file_path =? dev_null
        then ok fs
        else if s.file_path =? ""
        then panic "cannot save SignState: filePath not set"
        else write_atomic s.file_path bytes fs
  ]

  -- where the copy goes: to a goroutine if there is a wait group, else to the file at once
  unfoldable pub persist : Bool → SignState → Disk → Outcome Disk
  persist true copy d = ok (record d { pending = d.pending ++ copy ∷ [] })
  persist false copy d = do fs ← save_sign_state copy d.fs; ok (record d { fs = fs })

  -- `Save`; `pending_disk_wg` says whether a wait group is given
  unfoldable pub save :
      (pending_disk_wg : Bool) → SignStateConsensus → SignState → Disk → Outcome (SignState × Disk)
  unfolding persist signal
  save pending_disk_wg ssc s d = do
    saved ← block_double_sign s ssc
    d' ← persist pending_disk_wg saved.1 d
    ok (signal saved.0, d')

  -- A goroutine of `Save` writes its copy. The runtime chooses which of them runs.
  pub data Write (d : Disk) (d' : Disk) : Type 0 where
    run :
        (front back : List SignState) (copy : SignState) (fs : FileSystem)
        → d.pending ≡ front ++ copy ∷ back
        → save_sign_state copy d.fs ≡ ok fs
        → d' ≡ record { fs = fs; pending = front ++ back }
        → Write d d'

  pub data Writes (d : Disk) : Disk → Type 0 where
    idle : Writes d d
    later : {e f : Disk} → Writes d e → Write e f → Writes d f

  unfoldable pub load_sign_state : String → FileSystem → Outcome SignState
  load_sign_state path fs = elim (fs.files path) [
    | none ↦ err (message "ReadFile")
    | some bytes ↦ elim (codec.unmarshal bytes) [
      | none ↦ err (message "Unmarshal")
      | some s ↦ ok (fresh_cache (record s { file_path = path }))
    ]
  ]

  unfoldable pub create_sign_state : String → FileSystem → Outcome (SignState × FileSystem)
  create_sign_state path fs = do
    fs' ← save_sign_state (empty_state path) fs
    ok (empty_state path, fs')

  -- `LoadOrCreateSignState`: only a file that does not exist is created
  unfoldable pub load_or_create_sign_state : String → FileSystem → Outcome (SignState × FileSystem)
  unfolding create_sign_state load_sign_state
  load_or_create_sign_state path fs =
      if fs.stat_fails path
      then err (wrapped "unexpected error checking file existence" (message "Stat"))
      else elim (fs.files path) [
        | none ↦ create_sign_state path fs
        | some _ ↦ do s ← load_sign_state path fs; ok (s, fs)
      ]
