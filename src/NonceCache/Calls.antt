-- ===== src/NonceCache/Calls.antt =====
-- Sequences of calls on the cache of signer/cosigner_nonce_cache.go.
use horcrux.Prelude.{ℕ, ℤ, ◌+◌, ◌-◌, ◌==◌, List, [], ◌∷◌, ◌++◌, if◌then◌else◌, leb}
use horcrux.Outcome.{ok, err, panic}
use horcrux.Cosigner.{Uuid}
use horcrux.NonceCache.{
  CachedNonce, CosignerNonceCache, size, prune_nonces, get_nonces, clear_nonces,
}
use horcrux.NonceCache.Load.{Surroundings, reconcile, pruned}

-- One call on the cache: `GetNonces`, `ClearNonces` or `reconcile`.
pub data Call : Type 0 where
  draw : (peers : List ℤ) → Call
  clear : (cosigner : ℤ) → Call
  renew : Surroundings → Call

-- the UUIDs that `reconcile` asks the cosigners for
unfoldable pub asked : Surroundings → CosignerNonceCache → List Uuid
asked w c =
    let p = pruned w.now c in
    let t = w.target (prune_nonces w.now c.cache).1 (size p) in
    if w.is_leader then (if leb t (size p) then [] else w.uuids (t - size p)) else []

-- What a sequence of calls leaves, the UUIDs handed out and the UUIDs asked for; a panic ends it.
pub record Served : Type 0 where
  pub handed : List Uuid
  pub made : List Uuid
  pub left : CosignerNonceCache

unfoldable pub serve : List Call → CosignerNonceCache → Served
serve [] c = record { handed = []; made = []; left = c }
serve (draw peers ∷ calls) c =
    let s = serve calls (get_nonces peers c).1 in
    elim (get_nonces peers c).0 [
      | ok n ↦ record s { handed = n.uuid ∷ s.handed }
      | err e ↦ s
      | panic m ↦ s
    ]
serve (clear id ∷ calls) c = serve calls (clear_nonces id c)
serve (renew w ∷ calls) c = elim (reconcile w c) [
  | ok after ↦ let s = serve calls after in record s { made = asked w c ++ s.made }
  | err e ↦ record { handed = []; made = []; left = c }
  | panic m ↦ record { handed = []; made = []; left = c }
]

-- how often a UUID stands in a list, and in a cache
unfoldable pub count : Uuid → List Uuid → ℕ
count u [] = 0
count u (x ∷ xs) = if x == u then count u xs + 1 else count u xs

unfoldable pub entries : Uuid → List CachedNonce → ℕ
entries u [] = 0
entries u (cn ∷ cs) = if cn.uuid == u then entries u cs + 1 else entries u cs
