-- ===== src/Scenarios/Configured.antt =====
-- Configurations and connection keys, signer/config.go and signer/conn_key.go, at concrete inputs.
use horcrux.Prelude.{
  ℕ, zero, suc, ◌≤◌, ℤ, pos, String, string_Eq, int_Eq, ◌=?◌, true, List, [], ◌∷◌, none, some,
  length, replicate, ◌≡◌, refl, arith, insert, lookup, delete_where, list_eq, if◌then◌else◌,
}
use horcrux.Outcome.{ok, err, message}
use horcrux.ConnKey.{decode_hex, conn_pub_key_from_hex}
use horcrux.ConnKey.Encoded.{AreBytes}
use horcrux.Config.{
  Parsers, CosignerConfig, ThresholdModeConfig, Config, conn_pub_key, add_addresses,
  duplicate_cosigners, cosigners_from, cosigners_from_flag, peer_pub_keys, check_distinct_keys,
  validate_cosigner, validate_each, validate_cosigners, validate_chain_node, validate_chain_nodes,
  validate_cluster_keys, validate_threshold_mode_config,
}
use horcrux.Config.Counts.{count}
use horcrux.Config.Quorums.{shard_ids, IsQuorum, validate_threshold_mode_config-quorums}

abbrev parsers : Parsers
parsers = record {
  url_host = λ url. if url =? "" then none else some url;
  split_host_port = λ host. some host;
  is_duration = λ text. text =? "1s";
}

abbrev cosigner_at : ℤ → String → String → CosignerConfig
cosigner_at id addr key = record { shard_id = id; p2p_addr = addr; tls_pub_key = key }

abbrev three_cosigners : ThresholdModeConfig
three_cosigners = record {
  threshold = pos 2;
  cosigners =
      cosigner_at (pos 2) "b" "0202020202020202020202020202020202020202020202020202020202020202"
      ∷ cosigner_at (pos 1) "a" "0101010101010101010101010101010101010101010101010101010101010101"
      ∷ cosigner_at (pos 3) "c" "0A0a0a0a0a0a0a0a0a0a0a0a0a0a0a0a0a0a0a0a0a0a0a0a0a0a0a0a0a0a0a0a"
      ∷ [];
  cluster_key_file = "cluster.json";
  grpc_timeout = "1s";
  raft_timeout = "1s";
  leader_only_chain_node_connections = true;
}

abbrev valid_config : Config
valid_config = record {
  threshold_mode_config = some three_cosigners;
  chain_nodes = record { priv_val_addr = "node"; conn_pub_key_hex = "" } ∷ [];
}

valid_config_run : validate_threshold_mode_config parsers valid_config ≡ ok tt
unfolding validate_threshold_mode_config validate_chain_nodes validate_chain_node conn_pub_key
    validate_cosigners duplicate_cosigners add_addresses insert lookup delete_where validate_each
    validate_cosigner validate_cluster_keys peer_pub_keys conn_pub_key_from_hex decode_hex
    check_distinct_keys list_eq
valid_config_run = refl

-- two cosigners that share an ID, and a threshold of half the cosigners, are refused
shared_id_run :
    validate_cosigners parsers (cosigner_at (pos 1) "a" "" ∷ cosigner_at (pos 1) "b" "" ∷ [])
    ≡ err (message "found duplicate cosigner shard ID(s) in args")
unfolding validate_cosigners duplicate_cosigners add_addresses insert lookup delete_where
shared_id_run = refl

half_run :
    validate_threshold_mode_config parsers (record valid_config {
      threshold_mode_config = some (record three_cosigners { threshold = pos 1 });
    })
    ≡ err (message "threshold must be greater than number of shards / 2")
unfolding validate_threshold_mode_config validate_chain_nodes validate_chain_node conn_pub_key
half_run = refl

flag_run :
    cosigners_from_flag ("a" ∷ "b" ∷ [])
    ≡ ok (cosigner_at (pos 1) "a" "" ∷ cosigner_at (pos 2) "b" "" ∷ [])
unfolding cosigners_from_flag cosigners_from
flag_run = refl

validate_threshold_mode_config-quorums_example :
    (cfg : ThresholdModeConfig) × (valid_config.threshold_mode_config ≡ some cfg)
    × ((k : ℕ) → 1 ≤ k → k ≤ length cfg.cosigners → count (pos k) (shard_ids cfg.cosigners) ≡ 1)
    × ((xs ys : List ℤ)
        → IsQuorum cfg xs
        → IsQuorum cfg ys
        → (k : ℤ) × (1 ≤ count k xs) × (1 ≤ count k ys))
validate_threshold_mode_config-quorums_example =
    validate_threshold_mode_config-quorums parsers valid_config valid_config_run

abbrev key_of_7 : List ℕ
key_of_7 = replicate 32 7

replicate-AreBytes : (n : ℕ) → AreBytes (replicate n 7)
replicate-AreBytes zero = tt
replicate-AreBytes (suc n) = (omega arith, replicate-AreBytes n)
