-- ===== src/NonceCache/Prune.antt =====
-- `PruneNonces` of signer/cosigner_nonce_cache.go deletes a prefix; in a cache that is filled in
-- order of expiration this is all that has expired.
use horcrux.Prelude.{
  ℤ, suc, ◌+◌, ◌≤ℤ◌, true, false, ◌≡◌, refl, inl, inr, arith, List, [], ◌∷◌, if◌then◌else◌, ltb_ℤ,
  length, Bool-cases,
}
use horcrux.NonceCache.{CachedNonce, first_unexpired, prune_nonces}

-- the reference: what has not expired
abbrev pub unexpired : ℤ → List CachedNonce → List CachedNonce
unexpired now [] = []
unexpired now (cn ∷ cs) =
    if ltb_ℤ now cn.expiration then cn ∷ unexpired now cs else unexpired now cs

abbrev pub NoneBefore : ℤ → List CachedNonce → Type 0
NoneBefore t [] = Unit
NoneBefore t (cn ∷ cs) = (t ≤ℤ cn.expiration) × NoneBefore t cs

abbrev pub InOrder : List CachedNonce → Type 0
InOrder [] = Unit
InOrder (cn ∷ cs) = NoneBefore cn.expiration cs × InOrder cs

unexpired-all :
    (now t : ℤ) (cs : List CachedNonce)
    → ltb_ℤ now t ≡ true
    → NoneBefore t cs
    → unexpired now cs ≡ cs
unexpired-all now t [] h b = refl
unexpired-all now t (cn ∷ cs) h b = ground (arith, unexpired-all now t cs)

prune_nonces-live :
    (now : ℤ) (cn : CachedNonce) (cs : List CachedNonce)
    → ltb_ℤ now cn.expiration ≡ true
    → prune_nonces now (cn ∷ cs) ≡ (cn ∷ cs, 0)
unfolding prune_nonces first_unexpired
prune_nonces-live now cn cs h = ground arith

prune_nonces-expired :
    (now : ℤ) (cn : CachedNonce) (cs : List CachedNonce)
    → ltb_ℤ now cn.expiration ≡ false
    → prune_nonces now (cn ∷ cs) ≡ ((prune_nonces now cs).0, suc (prune_nonces now cs).1)
unfolding prune_nonces first_unexpired
prune_nonces-expired now cn cs h = ground arith

-- Of a cache in order of expiration exactly what has not expired is left, and the result is the number
-- of what is gone.
pub prune_nonces-unexpired :
    (now : ℤ) (cache : List CachedNonce)
    → InOrder cache
    → let (left, gone) = prune_nonces now cache in
      (left ≡ unexpired now cache) × (gone + length left ≡ length cache)
prune_nonces-unexpired now [] o = unfold prune_nonces first_unexpired in (refl, refl)
prune_nonces-unexpired now (cn ∷ cs) o = elim (Bool-cases (ltb_ℤ now cn.expiration)) [
  | inl h ↦
      rw (prune_nonces-live now cn cs h)
        (ground (arith, unexpired-all now cn.expiration cs h o.0), omega arith)
  | inr h ↦
      let (e, n) = prune_nonces-unexpired now cs o.1 in
      rw (prune_nonces-expired now cn cs h) (rw h e, omega (arith, n))
]
