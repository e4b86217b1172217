-- ===== src/Config/Keys.antt =====
-- The keys by which the cosigners of a valid configuration know each other, signer/config.go.
use horcrux.Prelude.{
  ℕ, true, false, List, [], ◌∷◌, some, length, list_eq, list_eq_iff, ◌≡◌, refl, arith, inl, inr,
  Bool-cases, Option-cases, subst, ap,
}
use horcrux.Outcome.{ok, Outcome-cases, returned, failed, panicked}
use horcrux.ChainId.{codes}
use horcrux.ConnKey.{decode_hex, conn_pub_key_from_hex}
use horcrux.Config.{
  Parsers, CosignerConfig, ThresholdModeConfig, Config, cluster_tls_enabled, peer_pub_keys, is_seen,
  check_distinct_keys, validate_cluster_keys, validate_threshold_mode_config,
}
use horcrux.Config.Quorums.{validate_threshold_mode_config-parts}

-- no key is a later one
abbrev pub AreUnequal : List (List ℕ) → Type 0
AreUnequal [] = Unit
AreUnequal (key ∷ keys) = (is_seen key keys ≡ false) × AreUnequal keys

-- the keys are the 32 bytes that the cosigners' texts stand for
abbrev pub AreKeysOf : List CosignerConfig → List (List ℕ) → Type 0
AreKeysOf [] [] = Unit
AreKeysOf (c ∷ cs) (key ∷ keys) =
    (conn_pub_key_from_hex (codes c.tls_pub_key) ≡ ok key) × (length key ≡ 32) × AreKeysOf cs keys
AreKeysOf _ _ = ⊥

conn_pub_key_from_hex-length :
    (t : List ℕ) (key : List ℕ) → conn_pub_key_from_hex t ≡ ok key → length key ≡ 32
unfolding conn_pub_key_from_hex
conn_pub_key_from_hex-length t key h = elim (Option-cases (decode_hex t)) [
  | inl e ↦ absurd (ground arith)
  | inr (bz, e) ↦ ground arith
]

peer_pub_keys-AreKeysOf :
    (cs : List CosignerConfig) (keys : List (List ℕ))
    → peer_pub_keys cs ≡ ok keys
    → AreKeysOf cs keys
unfolding peer_pub_keys
peer_pub_keys-AreKeysOf [] [] h = tt
peer_pub_keys-AreKeysOf [] (key ∷ keys) h = absurd (ground arith)
peer_pub_keys-AreKeysOf (c ∷ cs) keys h =
    elim (Outcome-cases (conn_pub_key_from_hex (codes c.tls_pub_key))) [
      | failed x e ↦ absurd (ground arith)
      | panicked m e ↦ absurd (ground arith)
      | returned key e ↦ elim (Outcome-cases (peer_pub_keys cs)) [
        | failed x q ↦ absurd (ground arith)
        | panicked m q ↦ absurd (ground arith)
        | returned rest q ↦
            subst (λ t. AreKeysOf (c ∷ cs) t) {x = key ∷ rest} (ground arith)
              (
                e,
                conn_pub_key_from_hex-length (codes c.tls_pub_key) key e,
                peer_pub_keys-AreKeysOf cs rest q,
              )
      ]
    ]

-- a key that was seen is not among the keys that are found to be new
check_distinct_keys-new :
    (key : List ℕ) (keys seen : List (List ℕ))
    → is_seen key seen ≡ true
    → check_distinct_keys keys seen ≡ ok tt
    → is_seen key keys ≡ false
unfolding check_distinct_keys
check_distinct_keys-new key [] seen s h = refl
check_distinct_keys-new key (k ∷ keys) seen s h = elim (Bool-cases (list_eq k key)) [
  | inl e ↦ absurd (ground (arith, ap (λ t. is_seen t seen) ((list_eq_iff k key).0 e)))
  | inr e ↦ ground (arith, check_distinct_keys-new key keys (k ∷ seen))
]

check_distinct_keys-AreUnequal :
    (keys seen : List (List ℕ)) → check_distinct_keys keys seen ≡ ok tt → AreUnequal keys
unfolding check_distinct_keys
check_distinct_keys-AreUnequal [] seen h = tt
check_distinct_keys-AreUnequal (k ∷ keys) seen h = (
  check_distinct_keys-new k keys (k ∷ seen) (ground (arith, list_eq_iff k k)) (ground arith),
  check_distinct_keys-AreUnequal keys (k ∷ seen) (ground arith),
)

validate_cluster_keys-lem :
    (cfg : ThresholdModeConfig)
    → validate_cluster_keys cfg ≡ ok tt
    → cluster_tls_enabled cfg ≡ true
    → (keys : List (List ℕ)) × AreKeysOf cfg.cosigners keys × AreUnequal keys
unfolding validate_cluster_keys
validate_cluster_keys-lem cfg h tls = elim (Outcome-cases (peer_pub_keys cfg.cosigners)) [
  | failed x e ↦ absurd (ground arith)
  | panicked m e ↦ absurd (ground arith)
  | returned keys e ↦ (
    keys,
    peer_pub_keys-AreKeysOf cfg.cosigners keys e,
    check_distinct_keys-AreUnequal keys [] (ground arith),
  )
]

-- In a valid configuration with a cluster key file each cosigner has a key of 32 bytes, and no two cosigners
-- have the same.
pub validate_threshold_mode_config-keys :
    (std : Parsers) (c : Config) (cfg : ThresholdModeConfig)
    → validate_threshold_mode_config std c ≡ ok tt
    → c.threshold_mode_config ≡ some cfg
    → cluster_tls_enabled cfg ≡ true
    → (keys : List (List ℕ)) × AreKeysOf cfg.cosigners keys × AreUnequal keys
validate_threshold_mode_config-keys std c cfg h e tls =
    let (cfg', e', low, high, cosigners, keys) = validate_threshold_mode_config-parts std c h in
    validate_cluster_keys-lem cfg
      (subst (λ x. validate_cluster_keys x ≡ ok tt) {x = cfg'} (ground arith) keys) tls
