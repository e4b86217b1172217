-- ===== src/NonceCache.antt =====
-- signer/cosigner_nonce_cache.go: nonces that the leader has drawn from the cosigners in advance.
pub mod Load
pub mod Prune
pub mod Calls
pub mod Counts
pub mod Handed
pub mod Usable
use horcrux.Prelude.{
  ℕ, ℤ, suc, zero, ◌+◌, ◌-◌, ◌%◌, ◌^◌, Bool, true, false, List, [], ◌∷◌, ◌++◌, Option, none, some,
  if◌then◌else◌, ltb, leb, ltb_ℤ, eqb_ℤ, length, drop, ◌==◌, ◌&&◌,
}
use horcrux.Outcome.{Outcome, ok, err, panic, message}
use horcrux.Cosigner.{Uuid, CosignerNonce, CosignerUuidNonces}

-- `CosignerNoncesRel`: a cosigner, by its identifier, and what it has made
pub record CosignerNoncesRel : Type 0 where
  pub cosigner : ℤ
  pub nonces : List CosignerNonce

pub record CachedNonce : Type 0 where
  pub uuid : Uuid
  pub expiration : ℤ
  pub nonces : List CosignerNoncesRel

-- The cache, the counter that `reconcile` compares with, and the events in the channel `empty`.
pub record CosignerNonceCache : Type 0 where
  pub cache : List CachedNonce
  pub last_reconcile_nonces : ℕ  -- uint64
  pub empty : ℕ
  pub threshold : ℕ  -- uint8

-- `Size`
unfoldable pub size : CosignerNonceCache → ℕ
size c = length c.cache

-- `Add`
unfoldable pub add : CachedNonce → CosignerNonceCache → CosignerNonceCache
add cn c = record c { cache = c.cache ++ cn ∷ [] }

-- `Delete`, for an index of the slice
unfoldable pub delete_at {ℓ} : {A : Type ℓ} → ℕ → List A → List A
delete_at i [] = []
delete_at zero (x ∷ xs) = xs
delete_at (suc i) (x ∷ xs) = x ∷ delete_at i xs

-- the loop of `PruneNonces`; `now` is the time of the call
unfoldable pub first_unexpired : ℤ → List CachedNonce → Option ℕ
first_unexpired now [] = none
first_unexpired now (cn ∷ cs) =
    let rest = first_unexpired now cs in
    if ltb_ℤ now cn.expiration then some 0 else elim rest [ none ↦ none | some i ↦ some (suc i) ]

-- `PruneNonces`: what is left, and how many were deleted
unfoldable pub prune_nonces : ℤ → List CachedNonce → List CachedNonce × ℕ
prune_nonces now cache = elim (first_unexpired now cache) [
  | none ↦ ([], length cache)
  | some i ↦ (drop i cache, i)
]

-- the inner loop of `GetNonces`: what one peer has made
unfoldable pub find_peer : ℤ → List CosignerNoncesRel → Option (List CosignerNonce)
find_peer id [] = none
find_peer id (n ∷ ns) =
    let rest = find_peer id ns in if eqb_ℤ n.cosigner id then some n.nonces else rest

-- the loop over the peers: all that they have made, or none if one is missing
unfoldable pub collect : List ℤ → List CosignerNoncesRel → Option (List CosignerNonce)
unfolding find_peer
collect [] rels = some []
collect (p ∷ ps) rels = elim (find_peer p rels) [
  | none ↦ none
  | some ns ↦ elim (collect ps rels) [ none ↦ none | some more ↦ some (ns ++ more) ]
]

-- the entry that `GetNonces` stops at: its index, its UUID and the nonces of the peers
pub record Hit : Type 0 where
  pub index : ℕ
  pub uuid : Uuid
  pub nonces : List CosignerNonce

unfoldable pub find_entry : List ℤ → List CachedNonce → Option Hit
find_entry peers [] = none
find_entry peers (cn ∷ cs) = elim (collect peers cn.nonces) [
  | some ns ↦ some (record { index = 0; uuid = cn.uuid; nonces = ns })
  | none ↦ elim (find_entry peers cs) [
    | none ↦ none
    | some h ↦ some (record h { index = suc h.index })
  ]
]

-- an event for `Start`, where the cache has become empty and no event waits
unfoldable pub note_empty : CosignerNonceCache → CosignerNonceCache
note_empty c = if length c.cache == 0 && c.empty == 0 then record c { empty = 1 } else c

-- `GetNonces`
unfoldable pub get_nonces :
    List ℤ → CosignerNonceCache → Outcome CosignerUuidNonces × CosignerNonceCache
get_nonces peers c = elim (find_entry peers c.cache) [
  | some h ↦ (
    ok (record { uuid = h.uuid; nonces = h.nonces }),
    note_empty (record c { cache = delete_at h.index c.cache }),
  )
  | none ↦ (
    err (message "no nonces found involving cosigners"),
    record c { last_reconcile_nonces = (c.last_reconcile_nonces + 1) % 2 ^ 64 },
  )
]

-- the search of `ClearNonces` in one entry
unfoldable pub find_rel : ℤ → List CosignerNoncesRel → Option ℕ
find_rel id [] = none
find_rel id (n ∷ ns) =
    let rest = find_rel id ns in
    if eqb_ℤ n.cosigner id then some 0 else elim rest [ none ↦ none | some j ↦ some (suc j) ]

-- the loop of `ClearNonces`: an entry that drops below the threshold is deleted
unfoldable pub clear_entries : ℤ → ℕ → List CachedNonce → List CachedNonce
clear_entries id threshold [] = []
clear_entries id threshold (cn ∷ cs) =
    let rest = clear_entries id threshold cs in
    elim (find_rel id cn.nonces) [
      | none ↦ cn ∷ rest
      | some j ↦
          if ltb (length cn.nonces - 1) threshold
          then rest
          else record cn { nonces = delete_at j cn.nonces } ∷ rest
    ]

-- `ClearNonces`
unfoldable pub clear_nonces : ℤ → CosignerNonceCache → CosignerNonceCache
clear_nonces id c = record c { cache = clear_entries id c.threshold c.cache }
