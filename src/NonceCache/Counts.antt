-- ===== src/NonceCache/Counts.antt =====
-- How the calls on the cache of signer/cosigner_nonce_cache.go change the number of a UUID's entries.
use horcrux.Prelude.{
  ℕ, ℤ, suc, zero, ◌+◌, ◌-◌, ◌≤◌, ◌≡◌, ap, inl, inr, arith, List, [], ◌∷◌, ◌++◌, Option, some, leb,
  drop, Bool-cases, Option-cases, subst,
}
use horcrux.Outcome.{ok, Outcome-cases, returned, failed, panicked}
use horcrux.Cosigner.{Uuid, CosignerUuidNonces}
use horcrux.NonceCache.{
  CosignerNoncesRel, CachedNonce, CosignerNonceCache, Hit, size, delete_at, prune_nonces,
  first_unexpired, get_nonces, collect, find_entry, clear_entries, add,
}
use horcrux.NonceCache.Load.{
  Surroundings, reconcile, top_up, pruned, CachedNonceSingle, load_n, load_uuids, add_if_enough,
  gather,
}
use horcrux.NonceCache.Usable.{note_empty-cache}
use horcrux.NonceCache.Calls.{asked, count, entries}

pub count-append : (u : Uuid) (xs ys : List Uuid) → count u (xs ++ ys) ≡ count u xs + count u ys
unfolding count
count-append u [] ys = omega arith
count-append u (x ∷ xs) ys = ground (arith, count-append u xs ys)

pub entries-append :
    (u : Uuid) (xs ys : List CachedNonce) → entries u (xs ++ ys) ≡ entries u xs + entries u ys
unfolding entries
entries-append u [] ys = omega arith
entries-append u (x ∷ xs) ys = ground (arith, entries-append u xs ys)

pub entries-drop : (u : Uuid) (i : ℕ) (cs : List CachedNonce) → entries u (drop i cs) ≤ entries u cs
unfolding entries
entries-drop u zero cs = omega arith
entries-drop u (suc i) [] = omega arith
entries-drop u (suc i) (cn ∷ cs) = ground (arith, entries-drop u i cs)

pub entries-prune :
    (u : Uuid) (now : ℤ) (cs : List CachedNonce) → entries u (prune_nonces now cs).0 ≤ entries u cs
unfolding prune_nonces entries
entries-prune u now cs = elim (Option-cases (first_unexpired now cs)) [
  | inl e ↦ ground arith
  | inr (i, e) ↦ ground (arith, entries-drop u i cs)
]

pub entries-clear :
    (u : Uuid) (id : ℤ) (t : ℕ) (cs : List CachedNonce)
    → entries u (clear_entries id t cs) ≤ entries u cs
unfolding clear_entries entries
entries-clear u id t [] = omega arith
entries-clear u id t (cn ∷ cs) = ground (arith, entries-clear u id t cs)

pub entries-take :
    (u : Uuid) (peers : List ℤ) (cs : List CachedNonce) (h : Hit)
    → find_entry peers cs ≡ some h
    → entries u cs ≡ entries u (delete_at h.index cs) + count u (h.uuid ∷ [])
unfolding find_entry entries delete_at count
entries-take u peers [] h e = absurd (ground arith)
entries-take u peers (cn ∷ cs) h e = elim (Option-cases (collect peers cn.nonces)) [
  | inr (ns, f) ↦
      let q : record { index = 0; uuid = cn.uuid; nonces = ns } ≡ h = ground arith in
      subst
        (λ x. entries u (cn ∷ cs) ≡ entries u (delete_at x.index (cn ∷ cs)) + count u (x.uuid ∷ []))
        q (ground arith)
  | inl f ↦ elim (Option-cases (find_entry peers cs)) [
    | inl g ↦ absurd (ground arith)
    | inr (rest, g) ↦
        let q : record rest { index = suc rest.index } ≡ h = ground arith in
        subst
          (λ x.
            entries u (cn ∷ cs) ≡ entries u (delete_at x.index (cn ∷ cs)) + count u (x.uuid ∷ []))
          q (ground (arith, entries-take u peers cs rest g))
  ]
]

-- what one draw takes out of the cache is what it hands out
pub draw-once :
    (u : Uuid) (peers : List ℤ) (c : CosignerNonceCache) (n : CosignerUuidNonces)
    → (get_nonces peers c).0 ≡ ok n
    → entries u (get_nonces peers c).1.cache + count u (n.uuid ∷ []) ≡ entries u c.cache
unfolding get_nonces
draw-once u peers c n e = elim (Option-cases (find_entry peers c.cache)) [
  | inl f ↦ absurd (ground arith)
  | inr (h, f) ↦
      let less : CosignerNonceCache = record c { cache = delete_at h.index c.cache } in
      let q : h.uuid ≡ n.uuid = ground arith in
      let r : (get_nonces peers c).1.cache ≡ delete_at h.index c.cache =
        ground (arith, note_empty-cache less) in
      ground (arith, entries-take u peers c.cache h f)
]

pub draw-nothing :
    (u : Uuid) (peers : List ℤ) (c : CosignerNonceCache)
    → entries u (get_nonces peers c).1.cache ≤ entries u c.cache
unfolding get_nonces
draw-nothing u peers c = elim (Option-cases (find_entry peers c.cache)) [
  | inl f ↦ ground arith
  | inr (h, f) ↦
      let less : CosignerNonceCache = record c { cache = delete_at h.index c.cache } in
      let r : (get_nonces peers c).1.cache ≡ delete_at h.index c.cache =
        ground (arith, note_empty-cache less) in
      ground (arith, entries-take u peers c.cache h f)
]

pub entries-add :
    (u uuid : Uuid) (expiration : ℤ) (rels : List CosignerNoncesRel) (c : CosignerNonceCache)
    → entries u (add_if_enough uuid expiration rels c).cache
      ≤ entries u c.cache + count u (uuid ∷ [])
unfolding add_if_enough add count entries
entries-add u uuid expiration rels c =
    let one : CachedNonce = record { uuid = uuid; expiration = expiration; nonces = rels } in
    ground (arith, entries-append u c.cache (one ∷ []))

pub entries-load :
    (u : Uuid) (i : ℕ) (us : List Uuid) (expiration : ℤ) (answers : List (Option CachedNonceSingle))
    (c loaded : CosignerNonceCache)
    → load_uuids i us expiration answers c ≡ ok loaded
    → entries u loaded.cache ≤ entries u c.cache + count u us
unfolding load_uuids count
entries-load u i [] expiration answers c loaded e =
    let q : c ≡ loaded = ground arith in ground arith
entries-load u i (uuid ∷ us) expiration answers c loaded e =
    elim (Outcome-cases (gather i answers)) [
      | returned rels f ↦
          let next : CosignerNonceCache = add_if_enough uuid expiration rels c in
          let rest = entries-load u (suc i) us expiration answers next loaded (ground arith) in
          ground (arith, entries-add u uuid expiration rels c)
      | failed x f ↦ absurd (ground arith)
      | panicked m f ↦ absurd (ground arith)
    ]

pub entries-renew :
    (u : Uuid) (w : Surroundings) (c after : CosignerNonceCache)
    → reconcile w c ≡ ok after
    → entries u after.cache ≤ entries u c.cache + count u (asked w c)
unfolding reconcile top_up load_n pruned asked count
entries-renew u w c after e =
    let p : CosignerNonceCache = pruned w.now c in
    let fewer : entries u p.cache ≤ entries u c.cache = entries-prune u w.now c.cache in
    let goal : ℕ = w.target (prune_nonces w.now c.cache).1 (size p) in
    elim (Bool-cases w.is_leader) [
      | inr f ↦ let q : p ≡ after = ground arith in ground arith
      | inl f ↦ elim (Bool-cases (leb goal (size p))) [
        | inl g ↦
            let q : record p { last_reconcile_nonces = size p } ≡ after = ground arith in
            let q2 : p.cache ≡ after.cache = ap (λ x. x.cache) q in ground arith
        | inr g ↦
            let us : List Uuid = w.uuids (goal - size p) in
            elim (Outcome-cases (load_uuids 0 us w.expiration (w.answers us) p)) [
              | returned loaded h ↦
                  let q : record loaded { last_reconcile_nonces = goal } ≡ after = ground arith in
                  let q2 : loaded.cache ≡ after.cache = ap (λ x. x.cache) q in
                  let q3 : asked w c ≡ us = ground arith in
                  let r = entries-load u 0 us w.expiration (w.answers us) p loaded h in
                  rw q3 (ground arith)
              | failed x h ↦ absurd (ground arith)
              | panicked m h ↦ absurd (ground arith)
            ]
      ]
    ]
