-- ===== src/Scenarios/Located.antt =====
-- The paths of signer/config.go with a plain `Join`.
use horcrux.Prelude.{
  is_empty_list, ◌==◌, ◌||◌, Bool, true, false, [], ◌∷◌, ◌++◌, none, ◌≡◌, refl, arith,
  if◌then◌else◌,
}
use horcrux.Outcome.{ok}
use horcrux.ChainId.{codes, IsFileName, validate_chain_id}
use horcrux.ErrorText.{Text}
use horcrux.ChainFiles.{
  RuntimeConfig, cosigner_key, priv_val_state, chain_file_path, key_directory, is_abs,
  conn_key_file_path,
}
use horcrux.ChainFiles.Apart.{chain_file_path-eq}

abbrev join : (dir name : Text) → Text
join dir name = dir ++ (b'/' ∷ name)

has_slash : Text → Bool
has_slash [] = false
has_slash (c ∷ cs) = (c == b'/') || has_slash cs

-- the part behind the last slash
base : Text → Text
unfolding has_slash
base [] = []
base (c ∷ cs) =
    let rest = base cs in if has_slash cs then rest else (if c == b'/' then cs else c ∷ cs)

IsFileName-no_slash : (b : Bool) (cs : Text) → IsFileName b cs → has_slash cs ≡ false
unfolding has_slash
IsFileName-no_slash b [] h = refl
IsFileName-no_slash b (c ∷ cs) (p, q, r, h) = ground (arith, IsFileName-no_slash (c == b'.') cs h)

join-has_slash : (dir name : Text) → has_slash (join dir name) ≡ true
unfolding has_slash
join-has_slash [] name = refl
join-has_slash (d ∷ ds) name = ground (arith, join-has_slash ds name)

base-join :
    (dir name : Text)
    → is_empty_list name ≡ false
    → IsFileName true name
    → base (join dir name) ≡ name
unfolding base
base-join [] name filled h = ground (arith, IsFileName-no_slash true name h)
base-join (d ∷ ds) name filled h =
    ground (arith, join-has_slash ds name, base-join ds name filled h)

abbrev runtime : RuntimeConfig
runtime = record {
  home_dir = codes "/home/h";
  state_dir = codes "/home/h/state";
  priv_val_key_dir = none;
  conn_key_file = codes "conn.json";
  cluster_key_file = [];
}

state_path_run :
    chain_file_path join runtime priv_val_state "gno-1"
    ≡ codes "/home/h/state/gno-1_priv_validator_state.json"
unfolding chain_file_path
state_path_run = refl

conn_path_run : conn_key_file_path join runtime ≡ codes "/home/h/conn.json"
unfolding conn_key_file_path is_abs key_directory
conn_path_run = refl

gno_valid : validate_chain_id "gno-1" ≡ ok tt
unfolding validate_chain_id
gno_valid = refl

chain_file_path-eq_example : (cosigner_key ≡ cosigner_key) × (codes "gno-1" ≡ codes "gno-1")
chain_file_path-eq_example =
    chain_file_path-eq join base base-join runtime cosigner_key cosigner_key "gno-1" "gno-1"
      gno_valid gno_valid refl
