-- ===== src/Config.antt =====
-- signer/config.go: the configuration of a cluster and of its chain nodes, and when it is valid. Go's
-- parsers of URLs, host ports and durations are parameters; YAML is not modelled, and the paths are in ChainFiles.
pub mod Counts
pub mod Quorums
pub mod Keys
use horcrux.Prelude.{
  ℕ, suc, ◌/◌, ◌==◌, ltb, ℤ, pos, String, string_Eq, int_Eq, ◌=?◌, Bool, true, false, ◌||◌, ◌&&◌,
  not, List, [], ◌∷◌, ◌++◌, map, Option, none, some, length, lookup, insert, delete_where, list_eq,
  ltb_ℤ, if◌then◌else◌,
}
use horcrux.Outcome.{Outcome, ok, err, panic, message, wrapped, ◌>>=◌, ◌>>◌}
use horcrux.ChainId.{codes}
use horcrux.ConnKey.{conn_pub_key_from_hex}

-- Go's parsers: the host of a URL, the host of a host and port, and whether a duration is one.
pub record Parsers : Type 0 where
  pub url_host : String → Option String
  pub split_host_port : String → Option String
  pub is_duration : String → Bool

pub record CosignerConfig : Type 0 where
  pub shard_id : ℤ
  pub p2p_addr : String
  pub tls_pub_key : String

pub record ThresholdModeConfig : Type 0 where
  pub threshold : ℤ
  pub cosigners : List CosignerConfig
  pub cluster_key_file : String
  pub grpc_timeout : String
  pub raft_timeout : String
  pub leader_only_chain_node_connections : Bool

pub record ChainNode : Type 0 where
  pub priv_val_addr : String
  pub conn_pub_key_hex : String

-- what the validation reads of a `Config`
pub record Config : Type 0 where
  pub threshold_mode_config : Option ThresholdModeConfig
  pub chain_nodes : List ChainNode

-- `ConnPubKey`: nil where the node is not authenticated
unfoldable pub conn_pub_key : ChainNode → Outcome (Option (List ℕ))
conn_pub_key cn =
    if cn.conn_pub_key_hex =? ""
    then ok none
    else elim (conn_pub_key_from_hex (codes cn.conn_pub_key_hex)) [
      | ok key ↦ ok (some key)
      | err e ↦ err (wrapped "chain node" e)
      | panic t ↦ panic t
    ]

abbrev pub addresses : Option (List String) → List String
addresses none = []
addresses (some l) = l

-- the first loop of `duplicateCosigners`
unfoldable pub add_addresses : List CosignerConfig → List (ℤ × List String) → List (ℤ × List String)
add_addresses [] id_addrs = id_addrs
add_addresses (c ∷ cs) id_addrs =
    add_addresses cs
      (insert c.shard_id (addresses (lookup c.shard_id id_addrs) ++ (c.p2p_addr ∷ [])) id_addrs)

abbrev pub is_single : ℤ → List String → Bool
is_single shard_id cosigners = length cosigners == 1

-- `duplicateCosigners`
unfoldable pub duplicate_cosigners : List CosignerConfig → List (ℤ × List String)
unfolding add_addresses
duplicate_cosigners cosigners = delete_where is_single (add_addresses cosigners [])

abbrev pub is_empty_map : List (ℤ × List String) → Bool
is_empty_map [] = true
is_empty_map (entry ∷ m) = false

-- `CosignersFromFlag`, from the shard ID `next`
unfoldable pub cosigners_from : (next : ℕ) → List String → List CosignerConfig
cosigners_from next [] = []
cosigners_from next (addr ∷ addrs) =
    record { shard_id = pos next; p2p_addr = addr; tls_pub_key = "" }
    ∷ cosigners_from (suc next) addrs

unfoldable pub cosigners_from_flag : List String → Outcome (List CosignerConfig)
unfolding cosigners_from
cosigners_from_flag addrs = ok (cosigners_from 1 addrs)

-- `ClusterTLSEnabled`
abbrev pub cluster_tls_enabled : ThresholdModeConfig → Bool
cluster_tls_enabled cfg = not (cfg.cluster_key_file =? "")

-- `ClusterPeerPubKeys`
unfoldable pub peer_pub_keys : List CosignerConfig → Outcome (List (List ℕ))
peer_pub_keys [] = ok []
peer_pub_keys (c ∷ cs) = elim (conn_pub_key_from_hex (codes c.tls_pub_key)) [
  | err e ↦ err (wrapped "cosigner shard tlsPubKey" e)
  | panic t ↦ panic t
  | ok key ↦ do keys ← peer_pub_keys cs; ok (key ∷ keys)
]

abbrev pub is_seen : List ℕ → List (List ℕ) → Bool
is_seen key [] = false
is_seen key (k ∷ seen) = list_eq k key || is_seen key seen

-- the loop over the keys in `ValidateThresholdModeConfig`
unfoldable pub check_distinct_keys : (keys seen : List (List ℕ)) → Outcome (Unit {0})
check_distinct_keys [] seen = ok tt
check_distinct_keys (key ∷ keys) seen =
    let rest = check_distinct_keys keys (key ∷ seen) in
    if is_seen key seen
    then err (message "cosigner shard reuses another cosigner's tlsPubKey")
    else rest

-- the end of `ValidateThresholdModeConfig`
unfoldable pub validate_cluster_keys : ThresholdModeConfig → Outcome (Unit {0})
validate_cluster_keys cfg =
    if cluster_tls_enabled cfg
    then elim (peer_pub_keys cfg.cosigners) [
      | err e ↦ err (wrapped "clusterKeyFile is set, so every cosigner needs a valid tlsPubKey" e)
      | panic t ↦ panic t
      | ok keys ↦ check_distinct_keys keys []
    ]
    else ok tt

module _ (std : Parsers) where
  -- one turn of the loop of `CosignersConfig.Validate`
  unfoldable pub validate_cosigner : (shards : ℕ) → CosignerConfig → Outcome (Unit {0})
  validate_cosigner shards c =
      if ltb_ℤ c.shard_id (pos 1) || ltb_ℤ (pos shards) c.shard_id
      then err (message "cosigner shard ID in args is out of range")
      else elim (std.url_host c.p2p_addr) [
        | none ↦ err (wrapped "failed to parse cosigner p2p address" (message "url"))
        | some url ↦ elim (std.split_host_port url) [
          | none ↦ err (wrapped "failed to parse cosigner host port" (message "net"))
          | some host ↦
              if host =? "0.0.0.0"
              then err (message "host cannot be 0.0.0.0, must be reachable from other cosigners")
              else ok tt
        ]
      ]

  unfoldable pub validate_each : (shards : ℕ) → List CosignerConfig → Outcome (Unit {0})
  validate_each shards [] = ok tt
  validate_each shards (c ∷ cs) = do validate_cosigner shards c; validate_each shards cs

  -- `CosignersConfig.Validate`; its last test compares a length with itself
  unfoldable pub validate_cosigners : List CosignerConfig → Outcome (Unit {0})
  validate_cosigners cosigners =
      if not (is_empty_map (duplicate_cosigners cosigners))
      then err (message "found duplicate cosigner shard ID(s) in args")
      else validate_each (length cosigners) cosigners

  -- `ChainNode.Validate`
  unfoldable pub validate_chain_node : ChainNode → Outcome (Unit {0})
  validate_chain_node cn = elim (std.url_host cn.priv_val_addr) [
    | none ↦ err (message "url")
    | some host ↦ do key ← conn_pub_key cn; ok tt
  ]

  -- `ChainNodes.Validate`, and `ValidateSingleSignerConfig`, which calls it
  unfoldable pub validate_chain_nodes : List ChainNode → Outcome (Unit {0})
  validate_chain_nodes [] = ok tt
  validate_chain_nodes (cn ∷ cns) = do validate_chain_node cn; validate_chain_nodes cns

  -- `ChainNodesFromFlag`
  unfoldable pub chain_nodes_from_flag : List String → Outcome (List ChainNode)
  chain_nodes_from_flag nodes =
      let out = map (λ n. record { priv_val_addr = n; conn_pub_key_hex = "" }) nodes in
      do validate_chain_nodes out; ok out

  -- `ValidateThresholdModeConfig`
  unfoldable pub validate_threshold_mode_config : Config → Outcome (Unit {0})
  validate_threshold_mode_config c = do
    validate_chain_nodes c.chain_nodes
    elim c.threshold_mode_config [
      | none ↦ err (message "cosigner config can't be empty")
      | some cfg ↦
          let num_shards = length cfg.cosigners in
          if not (ltb_ℤ (pos (num_shards / 2)) cfg.threshold)
          then err (message "threshold must be greater than number of shards / 2")
          else if ltb_ℤ (pos num_shards) cfg.threshold
          then err (message "number of shards must be greater or equal to threshold")
          else if not (std.is_duration cfg.raft_timeout)
          then err (message "invalid raftTimeout")
          else if not (std.is_duration cfg.grpc_timeout)
          then err (message "invalid grpcTimeout")
          else (do validate_cosigners cfg.cosigners; validate_cluster_keys cfg)
    ]
