-- ===== src/SignState/Cache.antt =====
-- The cache of signer/sign_state.go after a save.
use horcrux.Prelude.{
  ℤ, pos, ◌≤ℤ◌, ◌-ℤ◌, -ℤ_parts, IsInt64, to_int64, to_int64-eq, ◌≡◌, ap, ◌∙◌, arith, [], ◌∷◌, some,
  none, ltb_ℤ, if◌then◌else◌, lookup, insert, delete_where, lookup-insert, ◌⊎◌,
}
use horcrux.Hrs.{HrsKey, eq_hrs, eq_hrs_iff, hrs_Eq}
use horcrux.SignState.{
  SignState, SignStateConsensus, SignCache, consensus_key, advance, is_stale, get_from_cache,
  blocks_to_cache,
}

lookup-delete_stale :
    (height : ℤ) (k : HrsKey) (m : SignCache)
    → lookup k (delete_where (is_stale height) m)
      ≡ (if ltb_ℤ k.height (to_int64 (height -ℤ blocks_to_cache)) then none else lookup k m)
unfolding lookup delete_where is_stale
lookup-delete_stale height k [] = ground arith
lookup-delete_stale height k ((j, v) ∷ m) =
    ground (arith, lookup-delete_stale height k m, eq_hrs_iff j k, ap (λ (h : HrsKey). h.height))

-- whatever the height, a cache entry after a save is the new one or was there before
pub lookup-advance :
    (s : SignState) (ssc x : SignStateConsensus) (k : HrsKey)
    → lookup k (advance s ssc).cache ≡ some x
    → ((consensus_key ssc ≡ k) × (x ≡ ssc)) ⊎ (lookup k s.cache ≡ some x)
unfolding advance
lookup-advance s ssc x k h = ground (
  arith,
  lookup-delete_stale ssc.height k (insert (consensus_key ssc) ssc s.cache),
  lookup-insert (consensus_key ssc) k ssc s.cache,
  eq_hrs_iff (consensus_key ssc) k,
)

-- no wrap at a height that a chain can have
to_int64-sub_cached :
    (h : ℤ) → IsInt64 h → pos 0 ≤ℤ h → to_int64 (h -ℤ blocks_to_cache) ≡ h -ℤ blocks_to_cache
to_int64-sub_cached h r p =
    to_int64-eq (h -ℤ blocks_to_cache) (unfold ◌-ℤ◌ in (ground arith, ground arith))

-- After a save at a height from 0 that is an int64 the cache serves the new signature for its key, has
-- dropped what is more than three heights below, and serves everything else as before; the watermark is
-- the new key.
pub get_from_cache-advance :
    (s : SignState) (ssc : SignStateConsensus) (k : HrsKey)
    → IsInt64 ssc.height
    → pos 0 ≤ℤ ssc.height
    → get_from_cache (advance s ssc) k ≡ (
      consensus_key ssc,
      if ltb_ℤ k.height (ssc.height -ℤ pos 3)
          then none
          else if eq_hrs (consensus_key ssc) k
          then some ssc
          else lookup k s.cache,
    )
unfolding get_from_cache advance
get_from_cache-advance s ssc k r p =
    rw (lookup-delete_stale, lookup-insert, to_int64-sub_cached ssc.height r p)

-- A signature that has just been saved is found again.
pub get_from_cache-advance_self :
    (s : SignState) (ssc : SignStateConsensus)
    → IsInt64 ssc.height
    → pos 0 ≤ℤ ssc.height
    → get_from_cache (advance s ssc) (consensus_key ssc) ≡ (consensus_key ssc, some ssc)
get_from_cache-advance_self s ssc r p =
    get_from_cache-advance s ssc (consensus_key ssc) r p
    ∙ ground
        (arith, eq_hrs_iff (consensus_key ssc) (consensus_key ssc), -ℤ_parts ssc.height (pos 3))
