-- ===== src/ChainFiles.antt =====
-- The paths of `RuntimeConfig` in signer/config.go: the files of a process and of its chains. `Join` of
-- path/filepath is a parameter.
pub mod Apart
use horcrux.Prelude.{
  ◌==◌, is_empty_list, String, Bool, true, false, List, [], ◌∷◌, ◌++◌, Option, none, some,
  if◌then◌else◌,
}
use horcrux.ChainId.{codes}
use horcrux.ErrorText.{Text}

-- what the paths read of a `RuntimeConfig`; no threshold mode is no cluster key file
pub record RuntimeConfig : Type 0 where
  pub home_dir : Text
  pub state_dir : Text
  pub priv_val_key_dir : Option Text
  pub conn_key_file : Text
  pub cluster_key_file : Text

-- `filepath.IsAbs` on Unix
unfoldable pub is_abs : Text → Bool
is_abs [] = false
is_abs (c ∷ cs) = c == b'/'

-- `KeyDirectory`
unfoldable pub key_directory : RuntimeConfig → Text
key_directory c = elim c.priv_val_key_dir [
  | none ↦ c.home_dir
  | some dir ↦ if is_empty_list dir then c.home_dir else dir
]

-- the files that there are for each chain
pub data ChainFile : Type 0 where
  single_signer_key cosigner_key priv_val_state cosigner_state : ChainFile

abbrev pub suffix : ChainFile → Text
suffix single_signer_key = codes "_priv_validator_key.json"
suffix cosigner_key = codes "_shard.json"
suffix priv_val_state = codes "_priv_validator_state.json"
suffix cosigner_state = codes "_share_sign_state.json"

abbrev pub file_name : ChainFile → (chain_id : String) → Text
file_name kind chain_id = codes chain_id ++ suffix kind

abbrev pub directory : RuntimeConfig → ChainFile → Text
directory c single_signer_key = key_directory c
directory c cosigner_key = key_directory c
directory c priv_val_state = c.state_dir
directory c cosigner_state = c.state_dir

module _ (join : (dir name : Text) → Text) where
  -- `KeyFilePathSingleSigner`, `KeyFilePathCosigner`, `PrivValStateFile` and `CosignerStateFile`
  unfoldable pub chain_file_path : RuntimeConfig → ChainFile → String → Text
  chain_file_path c kind chain_id = join (directory c kind) (file_name kind chain_id)

  -- `KeyFilePathCosignerRSA`
  unfoldable pub rsa_key_path : RuntimeConfig → Text
  rsa_key_path c = join (key_directory c) (codes "rsa_keys.json")

  -- `KeyFilePathCosignerECIES`
  unfoldable pub ecies_key_path : RuntimeConfig → Text
  ecies_key_path c = join (key_directory c) (codes "ecies_keys.json")

  abbrev resolved : RuntimeConfig → Text → Text
  resolved c file =
      if is_empty_list file then [] else if is_abs file then file else join (key_directory c) file

  -- `ConnKeyFilePath`
  unfoldable pub conn_key_file_path : RuntimeConfig → Text
  conn_key_file_path c = resolved c c.conn_key_file

  -- `ClusterKeyFilePath`
  unfoldable pub cluster_key_file_path : RuntimeConfig → Text
  cluster_key_file_path c = resolved c c.cluster_key_file
