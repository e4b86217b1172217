-- ===== src/NonceCache/Usable.antt =====
-- Every nonce in the cache of signer/cosigner_nonce_cache.go has the threshold of cosigners.
use horcrux.Prelude.{
  ℕ, ℤ, suc, zero, ◌+◌, ◌-◌, ◌≤◌, ◌%◌, ◌≡◌, inl, inr, arith, List, [], ◌∷◌, ◌++◌, Option, ltb, leb,
  length, drop, Bool-cases, Option-cases, subst, sym, ◌⊎◌,
}
use horcrux.Outcome.{ok, Outcome-cases, returned, failed, panicked}
use horcrux.Cosigner.{Uuid}
use horcrux.NonceCache.{
  CosignerNoncesRel, CachedNonce, CosignerNonceCache, delete_at, prune_nonces, first_unexpired,
  get_nonces, find_entry, note_empty, clear_entries, find_rel, add, size,
}
use horcrux.NonceCache.Load.{
  Surroundings, reconcile, top_up, pruned, CachedNonceSingle, load_n, load_uuids, add_if_enough,
  gather,
}

abbrev pub AllUsable : ℕ → List CachedNonce → Type 0
AllUsable threshold [] = Unit
AllUsable threshold (cn ∷ cs) = (threshold ≤ length cn.nonces) × AllUsable threshold cs

abbrev pub IsUsable : CosignerNonceCache → Type 0
IsUsable c = AllUsable c.threshold c.cache

AllUsable-delete_at :
    (t i : ℕ) (cs : List CachedNonce) → AllUsable t cs → AllUsable t (delete_at i cs)
unfolding delete_at
AllUsable-delete_at t zero [] u = tt
AllUsable-delete_at t (suc i) [] u = tt
AllUsable-delete_at t zero (cn ∷ cs) u = u.1
AllUsable-delete_at t (suc i) (cn ∷ cs) u = (u.0, AllUsable-delete_at t i cs u.1)

AllUsable-drop : (t i : ℕ) (cs : List CachedNonce) → AllUsable t cs → AllUsable t (drop i cs)
AllUsable-drop t zero cs u = u
AllUsable-drop t (suc i) [] u = tt
AllUsable-drop t (suc i) (cn ∷ cs) u = AllUsable-drop t i cs u.1

AllUsable-append :
    (t : ℕ) (cs : List CachedNonce) (cn : CachedNonce)
    → AllUsable t cs
    → t ≤ length cn.nonces
    → AllUsable t (cs ++ cn ∷ [])
AllUsable-append t [] cn u h = (h, tt)
AllUsable-append t (c ∷ cs) cn u h = (u.0, AllUsable-append t cs cn u.1 h)

pub prune_nonces-AllUsable :
    (t : ℕ) (now : ℤ) (cs : List CachedNonce) → AllUsable t cs → AllUsable t (prune_nonces now cs).0
unfolding prune_nonces
prune_nonces-AllUsable t now cs u = elim (Option-cases (first_unexpired now cs)) [
  | inl e ↦
      let q : (prune_nonces now cs).0 ≡ [] = ground arith in subst (λ xs. AllUsable t xs) (sym q) tt
  | inr (i, e) ↦
      let q : (prune_nonces now cs).0 ≡ drop i cs = ground arith in
      subst (λ xs. AllUsable t xs) (sym q) (AllUsable-drop t i cs u)
]

-- `note_empty` leaves the nonces and the threshold
pub note_empty-cache : (c : CosignerNonceCache) → (note_empty c).cache ≡ c.cache
unfolding note_empty
note_empty-cache c = ground arith

pub note_empty-threshold : (c : CosignerNonceCache) → (note_empty c).threshold ≡ c.threshold
unfolding note_empty
note_empty-threshold c = ground arith

-- what `GetNonces` leaves: the cache as it was, or without one entry
pub get_nonces-cases :
    (peers : List ℤ) (c : CosignerNonceCache)
    → ((get_nonces peers c).1.threshold ≡ c.threshold)
      × (((get_nonces peers c).1.cache ≡ c.cache)
          ⊎ ((i : ℕ) × ((get_nonces peers c).1.cache ≡ delete_at i c.cache)))
unfolding get_nonces
get_nonces-cases peers c = elim (Option-cases (find_entry peers c.cache)) [
  | inl e ↦ (ground arith, inl (ground arith))
  | inr (h, e) ↦
      let less = record c { cache = delete_at h.index c.cache } in
      (
        ground (arith, note_empty-threshold less),
        inr (h.index, ground (arith, note_empty-cache less)),
      )
]

pub get_nonces-IsUsable :
    (peers : List ℤ) (c : CosignerNonceCache) → IsUsable c → IsUsable (get_nonces peers c).1
get_nonces-IsUsable peers c u =
    let (t, cases) = get_nonces-cases peers c in
    subst (λ n. AllUsable n (get_nonces peers c).1.cache) (sym t)
      (elim cases [
        | inl e ↦ subst (λ cs. AllUsable c.threshold cs) (sym e) u
        | inr (i, e) ↦
            subst (λ cs. AllUsable c.threshold cs) (sym e)
              (AllUsable-delete_at c.threshold i c.cache u)
      ])

length-delete_at : {A : Type 0} (j : ℕ) (xs : List A) → length xs ≤ length (delete_at j xs) + 1
unfolding delete_at
length-delete_at zero [] = omega arith
length-delete_at (suc j) [] = omega arith
length-delete_at zero (x ∷ xs) = omega arith
length-delete_at (suc j) (x ∷ xs) = omega (arith, length-delete_at j xs)

pub clear_entries-AllUsable :
    (id : ℤ) (t : ℕ) (cs : List CachedNonce) → AllUsable t cs → AllUsable t (clear_entries id t cs)
unfolding clear_entries
clear_entries-AllUsable id t [] u = tt
clear_entries-AllUsable id t (cn ∷ cs) u =
    let rest = clear_entries-AllUsable id t cs u.1 in
    elim (Option-cases (find_rel id cn.nonces)) [
      | inl e ↦
          let q : clear_entries id t (cn ∷ cs) ≡ cn ∷ clear_entries id t cs = ground arith in
          subst (λ xs. AllUsable t xs) (sym q) (u.0, rest)
      | inr (j, e) ↦ elim (Bool-cases (ltb (length cn.nonces - 1) t)) [
        | inl few ↦
            let q : clear_entries id t (cn ∷ cs) ≡ clear_entries id t cs = ground arith in
            subst (λ xs. AllUsable t xs) (sym q) rest
        | inr enough ↦
            let less = record cn { nonces = delete_at j cn.nonces } in
            let q : clear_entries id t (cn ∷ cs) ≡ less ∷ clear_entries id t cs = ground arith in
            subst (λ xs. AllUsable t xs) (sym q)
              (ground (arith, length-delete_at j cn.nonces), rest)
      ]
    ]

add_if_enough-IsUsable :
    (uuid : Uuid) (expiration : ℤ) (rels : List CosignerNoncesRel) (c : CosignerNonceCache)
    → IsUsable c
    → IsUsable (add_if_enough uuid expiration rels c)
unfolding add_if_enough add
add_if_enough-IsUsable uuid expiration rels c u =
    elim (Bool-cases (leb c.threshold (length rels % 256))) [
      | inr few ↦
          let q : add_if_enough uuid expiration rels c ≡ c = ground arith in
          subst (λ x. IsUsable x) (sym q) u
      | inl enough ↦
          let cn : CachedNonce = record { uuid = uuid; expiration = expiration; nonces = rels } in
          let q : add_if_enough uuid expiration rels c ≡ add cn c = ground arith in
          subst (λ x. IsUsable x) (sym q) (AllUsable-append c.threshold c.cache cn u (grind arith))
    ]

load_uuids-IsUsable :
    (i : ℕ) (us : List Uuid) (expiration : ℤ) (answers : List (Option CachedNonceSingle))
    (c loaded : CosignerNonceCache)
    → IsUsable c
    → load_uuids i us expiration answers c ≡ ok loaded
    → IsUsable loaded
unfolding load_uuids
load_uuids-IsUsable i [] expiration answers c loaded u e =
    let q : c ≡ loaded = ground arith in subst (λ x. IsUsable x) q u
load_uuids-IsUsable i (uuid ∷ us) expiration answers c loaded u e =
    elim (Outcome-cases (gather i answers)) [
      | returned rels f ↦
          load_uuids-IsUsable (suc i) us expiration answers (add_if_enough uuid expiration rels c)
            loaded (add_if_enough-IsUsable uuid expiration rels c u) (ground arith)
      | failed x f ↦ absurd (ground arith)
      | panicked m f ↦ absurd (ground arith)
    ]

pub reconcile-IsUsable :
    (w : Surroundings) (c after : CosignerNonceCache)
    → IsUsable c
    → reconcile w c ≡ ok after
    → IsUsable after
unfolding reconcile top_up load_n pruned
reconcile-IsUsable w c after u e =
    let p : CosignerNonceCache = pruned w.now c in
    let fine : IsUsable p = prune_nonces-AllUsable c.threshold w.now c.cache u in
    let goal : ℕ = w.target (prune_nonces w.now c.cache).1 (size p) in
    elim (Bool-cases w.is_leader) [
      | inr f ↦ let q : p ≡ after = ground arith in subst (λ x. IsUsable x) q fine
      | inl f ↦ elim (Bool-cases (leb goal (size p))) [
        | inl g ↦
            let q : record p { last_reconcile_nonces = size p } ≡ after = ground arith in
            subst (λ x. IsUsable x) q fine
        | inr g ↦
            let us : List Uuid = w.uuids (goal - size p) in
            elim (Outcome-cases (load_uuids 0 us w.expiration (w.answers us) p)) [
              | returned loaded h ↦
                  let q : record loaded { last_reconcile_nonces = goal } ≡ after = ground arith in
                  subst (λ x. IsUsable x) q
                    (load_uuids-IsUsable 0 us w.expiration (w.answers us) p loaded fine h)
              | failed x h ↦ absurd (ground arith)
              | panicked m h ↦ absurd (ground arith)
            ]
      ]
    ]
