-- ===== src/Config/Quorums.antt =====
-- The cosigners of a valid configuration, signer/config.go: their shard IDs, and the quorums that they
-- form.
use horcrux.Prelude.{
  ℕ, ◌+◌, ◌/◌, ◌≤◌, ℤ, pos, ◌≤ℤ◌, ◌<ℤ◌, String, int_Eq, ◌=?◌, true, List, [], ◌∷◌, ◌++◌, some,
  length, lookup, insert, lookup-insert, delete_where, ◌≡◌, refl, arith, inl, inr, Bool-cases,
  Option-cases, eqb_ℤ_iff, length-append, subst, sym,
}
use horcrux.Outcome.{ok}
use horcrux.Config.{
  Parsers, CosignerConfig, ThresholdModeConfig, Config, addresses, add_addresses, is_single,
  duplicate_cosigners, is_empty_map, validate_cosigner, validate_each, validate_cosigners,
  validate_cluster_keys, validate_threshold_mode_config,
}
use horcrux.Config.Counts.{
  count, counts, in_range, AllInRange, AreDistinct, sum_to, sum_to-length, sum_to-full, sum_to-meet,
}

abbrev pub shard_ids : List CosignerConfig → List ℤ
shard_ids [] = []
shard_ids (c ∷ cs) = c.shard_id ∷ shard_ids cs

length-shard_ids : (cs : List CosignerConfig) → length (shard_ids cs) ≡ length cs
length-shard_ids [] = refl
length-shard_ids (c ∷ cs) = omega (arith, length-shard_ids cs)

-- The map of addresses has as many for an ID as cosigners have it.
length-add_addresses :
    (k : ℤ) (cs : List CosignerConfig) (m : List (ℤ × List String))
    → length (addresses (lookup k (add_addresses cs m)))
      ≡ count k (shard_ids cs) + length (addresses (lookup k m))
unfolding add_addresses count
length-add_addresses k [] m = omega arith
length-add_addresses k (c ∷ cs) m = ground (
  arith,
  length-add_addresses k cs
      (insert c.shard_id (addresses (lookup c.shard_id m) ++ (c.p2p_addr ∷ [])) m),
  lookup-insert c.shard_id k (addresses (lookup c.shard_id m) ++ (c.p2p_addr ∷ [])) m,
  length-append (addresses (lookup c.shard_id m)) (c.p2p_addr ∷ []),
  eqb_ℤ_iff k c.shard_id,
  eqb_ℤ_iff c.shard_id k,
)

-- what is left of a map when the single addresses are deleted
delete_where-single :
    (k : ℤ) (m : List (ℤ × List String))
    → is_empty_map (delete_where is_single m) ≡ true
    → length (addresses (lookup k m)) ≤ 1
unfolding delete_where lookup
delete_where-single k [] h = omega arith
delete_where-single k ((j, v) ∷ m) h = ground (arith, delete_where-single k m)

duplicate_cosigners-AreDistinct :
    (cs : List CosignerConfig)
    → is_empty_map (duplicate_cosigners cs) ≡ true
    → AreDistinct (shard_ids cs)
unfolding duplicate_cosigners lookup
duplicate_cosigners-AreDistinct cs h k =
    omega (arith, length-add_addresses k cs [], delete_where-single k (add_addresses cs []) h)

-- an ID that occurs is in range, and the reverse of that
count-in_range :
    (n : ℕ) (k : ℤ) (xs : List ℤ) → AllInRange n xs → 1 ≤ count k xs → in_range n k ≡ true
unfolding count
count-in_range n k [] h one = absurd (omega arith)
count-in_range n k (x ∷ xs) h one = elim (Bool-cases (k =? x)) [
  | inl e ↦ subst (λ j. in_range n j ≡ true) (sym ((eqb_ℤ_iff k x).0 e)) h.0
  | inr e ↦ count-in_range n k xs h.1 (ground arith)
]

all-in_range :
    (n : ℕ) (xs : List ℤ) → ((k : ℤ) → 1 ≤ count k xs → in_range n k ≡ true) → AllInRange n xs
unfolding count
all-in_range n [] h = tt
all-in_range n (x ∷ xs) h =
    (h x (ground (arith, eqb_ℤ_iff x x)), all-in_range n xs (λ k one. h k (ground arith)))

-- cosigners of the configuration, each at most once, and at least as many as the threshold
abbrev pub IsQuorum : ThresholdModeConfig → List ℤ → Type 0
IsQuorum cfg xs =
    ((k : ℤ) → count k xs ≤ count k (shard_ids cfg.cosigners)) × (cfg.threshold ≤ℤ pos (length xs))

module _ (std : Parsers) where
  validate_each-AllInRange :
      (n : ℕ) (cs : List CosignerConfig)
      → validate_each std n cs ≡ ok tt
      → AllInRange n (shard_ids cs)
  unfolding validate_each validate_cosigner
  validate_each-AllInRange n [] h = tt
  validate_each-AllInRange n (c ∷ cs) h =
      (ground arith, validate_each-AllInRange n cs (ground arith))

  pub validate_cosigners-lem :
      (cs : List CosignerConfig)
      → validate_cosigners std cs ≡ ok tt
      → AreDistinct (shard_ids cs) × AllInRange (length cs) (shard_ids cs)
  unfolding validate_cosigners
  validate_cosigners-lem cs h = (
    duplicate_cosigners-AreDistinct cs (ground arith),
    validate_each-AllInRange (length cs) cs (ground arith),
  )

  -- the parts of a valid configuration
  pub validate_threshold_mode_config-parts :
      (c : Config)
      → validate_threshold_mode_config std c ≡ ok tt
      → (cfg : ThresholdModeConfig) × (c.threshold_mode_config ≡ some cfg)
        × (pos (length cfg.cosigners / 2) <ℤ cfg.threshold)
        × (cfg.threshold ≤ℤ pos (length cfg.cosigners))
        × (validate_cosigners std cfg.cosigners ≡ ok tt)
        × (validate_cluster_keys cfg ≡ ok tt)
  unfolding validate_threshold_mode_config
  validate_threshold_mode_config-parts c h = elim (Option-cases c.threshold_mode_config) [
    | inl e ↦ absurd (ground arith)
    | inr (cfg, e) ↦ (cfg, e, ground arith, ground arith, ground arith, ground arith)
  ]

  module _ (cfg : ThresholdModeConfig) (distinct : AreDistinct (shard_ids cfg.cosigners))
      (ranged : AllInRange (length cfg.cosigners) (shard_ids cfg.cosigners)) where
    quorum-sum :
        (xs : List ℤ) → IsQuorum cfg xs → sum_to (counts xs) (length cfg.cosigners) ≡ length xs
    quorum-sum xs p = sum_to-length (length cfg.cosigners) xs (
        all-in_range (length cfg.cosigners) xs (λ k one.
          count-in_range (length cfg.cosigners) k (shard_ids cfg.cosigners) ranged
            (omega (arith, p.0 k))))

    quorums_meet :
        pos (length cfg.cosigners / 2) <ℤ cfg.threshold
        → (xs ys : List ℤ) → IsQuorum cfg xs
        → IsQuorum cfg ys
        → (k : ℤ) × (1 ≤ count k xs) × (1 ≤ count k ys)
    quorums_meet low xs ys p q =
        let (k, from, to, a, b) =
          sum_to-meet (counts xs) (λ j. omega (arith, p.0 (pos j), distinct (pos j))) (counts ys)
            (λ j. omega (arith, q.0 (pos j), distinct (pos j))) (length cfg.cosigners)
            (omega (arith, quorum-sum xs p, quorum-sum ys q, p.1, q.1, low)) in
        (pos k, omega arith, omega arith)

  -- In a valid configuration of n cosigners each of the shard IDs 1 to n is that of exactly one of them,
  -- and any two quorums have a cosigner in common.
  pub validate_threshold_mode_config-quorums :
      (c : Config)
      → validate_threshold_mode_config std c ≡ ok tt
      → (cfg : ThresholdModeConfig) × (c.threshold_mode_config ≡ some cfg)
        × ((k : ℕ) → 1 ≤ k → k ≤ length cfg.cosigners → count (pos k) (shard_ids cfg.cosigners) ≡ 1)
        × ((xs ys : List ℤ)
            → IsQuorum cfg xs
            → IsQuorum cfg ys
            → (k : ℤ) × (1 ≤ count k xs) × (1 ≤ count k ys))
  validate_threshold_mode_config-quorums c h =
      let (cfg, e, low, high, cosigners, keys) = validate_threshold_mode_config-parts c h in
      let n : ℕ = length cfg.cosigners in
      let ids : List ℤ = shard_ids cfg.cosigners in
      let (distinct, ranged) = validate_cosigners-lem cfg.cosigners cosigners in
      (
        cfg,
        e,
        λ k from to.
            sum_to-full (counts ids) (λ j. distinct (pos j)) n k
              (omega (arith, sum_to-length n ids ranged, length-shard_ids cfg.cosigners)) from to,
        quorums_meet cfg distinct ranged low,
      )
