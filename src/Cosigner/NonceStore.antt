-- ===== src/Cosigner/NonceStore.antt =====
-- The nonce store of signer/local_cosigner.go.
pub mod Once
use horcrux.Prelude.{
  ℕ, ℤ, suc, zero, ◌%◌, Bytes, is_nil, is_empty, Bool, true, false, ◌&&◌, ◌||◌, not, List, [], ◌∷◌,
  ◌++◌, Option, none, some, if◌then◌else◌, ltb, ltb_ℤ, length, get_elem?, set, replicate, lookup,
  insert, delete, delete_where, nat_Eq, String,
}
use horcrux.Outcome.{Outcome, ok, err, panic, message, ◌>>=◌, ◌>>◌}
use horcrux.Cosigner.{
  Uuid, Nonce, Nonces, NoncesWithExpiration, CosignerNonce, CosignerSecurity, slot,
}

abbrev pub NonceMap : Type 0
NonceMap = List (Uuid × NoncesWithExpiration)

abbrev pub index {ℓ} : {A : Type ℓ} → List A → ℤ → Option A
index l id = elim (slot id) [ none ↦ none | some i ↦ get_elem? l i ]

-- whether the loop of `pruneNonces` deletes an entry: `now.After(nonces.Expiration)`
unfoldable pub is_expired : ℤ → Uuid → NoncesWithExpiration → Bool
is_expired now _ n = ltb_ℤ n.expiration now

unfoldable pub prune_nonces : ℤ → NonceMap → NonceMap
unfolding is_expired
prune_nonces now m = delete_where (is_expired now) m

-- one round of the loop of `combinedNonces`, in front of what the later rounds add
unfoldable pub usable_nonce : ℤ → Nonces → List Nonce → Outcome (List Nonce)
usable_nonce my_id c rest = elim c.shares [
  | [] ↦ ok rest
  | _ ∷ _ ↦ elim (index c.shares my_id) [
    | none ↦ panic "index out of range"
    | some share ↦
        if is_empty share
        then ok rest
        else ok (record { share = share; pub_key = c.pub_key } ∷ rest)
  ]
]

unfoldable pub usable_nonces : ℤ → List Nonces → Outcome (List Nonce)
usable_nonces my_id [] = ok []
usable_nonces my_id (c ∷ cs) = do rest ← usable_nonces my_id cs; usable_nonce my_id c rest

-- the threshold test; the threshold is a uint8
unfoldable pub enough_nonces : ℕ → List Nonce → Outcome (List Nonce)
enough_nonces threshold l =
    if ltb (length l) threshold then err (message "insufficient nonces for signing") else ok l

-- `combinedNonces`: the nonces of a UUID, which are gone whatever comes of them
unfoldable pub combined_nonces : ℤ → ℕ → Uuid → NonceMap → Outcome (List Nonce) × NonceMap
unfolding enough_nonces
combined_nonces my_id threshold uuid m = elim (lookup uuid m) [
  | none ↦ (err (message "no metadata at HRS"), m)
  | some n ↦ (do l ← usable_nonces my_id n.nonces; enough_nonces threshold l, delete uuid m)
]

-- `generateNoncesIfNecessary`; `fresh` is what `generateNonces` makes
unfoldable pub generate_nonces_if_necessary :
    Uuid
    → (fresh : Outcome NoncesWithExpiration) → NonceMap
    → Outcome NoncesWithExpiration × NonceMap
generate_nonces_if_necessary uuid fresh m = elim (lookup uuid m) [
  | some n ↦ (ok n, m)
  | none ↦ elim fresh [
    | ok n ↦ (ok n, insert uuid n m)
    | err e ↦ (err e, m)
    | panic t ↦ (panic t, m)
  ]
]

-- the nonces of one cosigner with the share for `my_id` set
unfoldable pub set_share : ℕ → ℤ → Bytes → Bytes → Nonces → Outcome Nonces
set_share total my_id pub_key share n =
    let shares : List Bytes = elim n.shares [ [] ↦ replicate total none | s ∷ ss ↦ s ∷ ss ] in
    elim (slot my_id) [
      | none ↦ panic "index out of range"
      | some i ↦
          if ltb i (length shares)
          then ok (record { pub_key = pub_key; shares = set shares i share })
          else panic "index out of range"
    ]

unfoldable pub set_slot : ℕ → ℤ → ℤ → Bytes → Bytes → List Nonces → Outcome (List Nonces)
unfolding set_share
set_slot total my_id source_id pub_key share l = elim (slot source_id) [
  | none ↦ panic "index out of range"
  | some i ↦ elim (get_elem? l i) [
    | none ↦ panic "index out of range"
    | some n ↦ do n' ← set_share total my_id pub_key share n; ok (set l i n')
  ]
]

abbrev pub err_unexpected_state : String
err_unexpected_state = "unexpected state, metadata does not exist for U:"

-- the part of `setNonce` under the lock
unfoldable pub store_nonce :
    ℕ → ℤ → Uuid → ℤ → (pub_key share : Bytes) → NonceMap → Outcome (Unit {0}) × NonceMap
unfolding set_slot
store_nonce total my_id uuid source_id pub_key share m = elim (lookup uuid m) [
  | none ↦ (err (message err_unexpected_state), m)
  | some n ↦ elim (set_slot total my_id source_id pub_key share n.nonces) [
    | ok l ↦ (ok tt, insert uuid (record n { nonces = l }) m)
    | err e ↦ (err e, m)
    | panic t ↦ (panic t, m)
  ]
]

-- `setNonce`
unfoldable pub set_nonce :
    CosignerSecurity → ℕ → ℤ → Uuid → CosignerNonce → NonceMap → Outcome (Unit {0}) × NonceMap
unfolding store_nonce
set_nonce security total my_id uuid nonce m =
    if is_nil nonce.signature
    then (err (message "signature field is required"), m)
    else elim (security.decrypt_and_verify nonce.source_id nonce.pub_key nonce.share
        nonce.signature) [
          | ok parts ↦ store_nonce total my_id uuid nonce.source_id parts.0 parts.1 m
          | err e ↦ (err e, m)
          | panic t ↦ (panic t, m)
        ]

-- the result of an errgroup: a panic of any goroutine, else the first error
unfoldable pub join : Outcome (Unit {0}) → Outcome (Unit {0}) → Outcome (Unit {0})
join (ok _) rs = rs
join (panic t) rs = panic t
join (err e) (panic t) = panic t
join (err e) (ok _) = err e
join (err e) (err _) = err e

-- the goroutines of one errgroup, in the order in which they take the lock: all of them run
unfoldable pub set_nonces :
    CosignerSecurity → ℕ → ℤ → Uuid → List CosignerNonce → NonceMap → Outcome (Unit {0}) × NonceMap
unfolding set_nonce join
set_nonces security total my_id uuid [] m = (ok tt, m)
set_nonces security total my_id uuid (n ∷ ns) m =
    let (r, m') = set_nonce security total my_id uuid n m in
    let (rs, m'') = set_nonces security total my_id uuid ns m' in (join r rs, m'')
