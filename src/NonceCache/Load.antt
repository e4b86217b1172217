-- ===== src/NonceCache/Load.antt =====
-- `LoadN`, `reconcile` and the moving average of signer/cosigner_nonce_cache.go.
use horcrux.Prelude.{
  ℕ, ℤ, suc, zero, ◌+◌, ◌-◌, ◌≤◌, ◌<◌, ◌%◌, Bool, ◌≡◌, refl, inl, inr, arith, List, [], ◌∷◌, ◌++◌,
  Option, none, some, if◌then◌else◌, ltb, leb, length, get_elem?, Option-cases, Bool-cases, ◌⊎◌,
  String,
}
use horcrux.Outcome.{Outcome, ok, err, panic, ◌>>=◌}
use horcrux.Cosigner.{Uuid, CosignerUuidNonces}
use horcrux.NonceCache.{CosignerNoncesRel, CosignerNonceCache, add, size, prune_nonces}

-- What the goroutine of one cosigner leaves: nothing where the call failed.
pub record CachedNonceSingle : Type 0 where
  pub cosigner : ℤ
  pub nonces : List CosignerUuidNonces

-- the inner loop of `LoadN`: what each cosigner that answered has made for the UUID with index `i`
unfoldable pub gather : ℕ → List (Option CachedNonceSingle) → Outcome (List CosignerNoncesRel)
gather i [] = ok []
gather i (none ∷ ns) = gather i ns
gather i (some n ∷ ns) = elim (get_elem? n.nonces i) [
  | none ↦ panic "index out of range"
  | some u ↦ elim (gather i ns) [
    | ok rels ↦ ok (record { cosigner = n.cosigner; nonces = u.nonces } ∷ rels)
    | err e ↦ err e
    | panic m ↦ panic m
  ]
]

-- a UUID that at least the threshold of cosigners have answered for is cached; `num` is a uint8
unfoldable pub add_if_enough :
    Uuid → ℤ → List CosignerNoncesRel → CosignerNonceCache → CosignerNonceCache
add_if_enough uuid expiration rels c =
    if leb c.threshold (length rels % 256)
    then add (record { uuid = uuid; expiration = expiration; nonces = rels }) c
    else c

-- the loop of `LoadN` over the UUIDs, from the index `i`
unfoldable pub load_uuids :
    ℕ
    → List Uuid
    → ℤ
    → List (Option CachedNonceSingle)
    → CosignerNonceCache
    → Outcome CosignerNonceCache
load_uuids i [] expiration answers c = ok c
load_uuids i (u ∷ us) expiration answers c = elim (gather i answers) [
  | ok rels ↦ load_uuids (suc i) us expiration answers (add_if_enough u expiration rels c)
  | err e ↦ err e
  | panic m ↦ panic m
]

-- `LoadN`; `answers` is what the cosigners return for the UUIDs, in the order of the cosigners
unfoldable pub load_n :
    List Uuid
    → ℤ
    → List (Option CachedNonceSingle)
    → CosignerNonceCache
    → Outcome CosignerNonceCache
load_n uuids expiration answers c = load_uuids 0 uuids expiration answers c

-- `movingAverageItem` without its rate: the float average is not modelled
pub record MovingAverageItem : Type 0 where
  pub time_since_last_reconcile : ℕ

-- the items that `add` keeps: up to the first with which the period is filled
unfoldable pub keep_items : ℕ → ℕ → List MovingAverageItem → List MovingAverageItem
keep_items period duration [] = []
keep_items period duration (e ∷ es) =
    let total = duration + e.time_since_last_reconcile in
    let rest = keep_items period total es in if leb period total then e ∷ [] else e ∷ rest

-- `movingAverage.add`
unfoldable pub add_item : ℕ → MovingAverageItem → List MovingAverageItem → List MovingAverageItem
add_item period item items = item ∷ keep_items period item.time_since_last_reconcile items

-- What `reconcile` takes from outside: whether this cosigner leads, the time, the target that the
-- average demand gives, new UUIDs, the expiration of what is loaded, and the cosigners' answers.
pub record Surroundings : Type 0 where
  pub is_leader : Bool
  pub now : ℤ
  pub target : (pruned remaining : ℕ) → ℕ
  pub uuids : ℕ → List Uuid
  pub expiration : ℤ
  pub answers : List Uuid → List (Option CachedNonceSingle)

-- the cache after the prune that opens `reconcile`
unfoldable pub pruned : ℤ → CosignerNonceCache → CosignerNonceCache
pruned now c = record c { cache = (prune_nonces now c.cache).0 }

-- the part of `reconcile` behind the leader test
unfoldable pub top_up : Surroundings → ℕ → CosignerNonceCache → Outcome CosignerNonceCache
top_up w deleted c =
    let remaining = size c in
    let t = w.target deleted remaining in
    if leb t remaining then ok (record c { last_reconcile_nonces = remaining }) else (do
      loaded ← load_n (w.uuids (t - remaining)) w.expiration (w.answers (w.uuids (t - remaining))) c
      ok (record loaded { last_reconcile_nonces = t }))

-- `reconcile`
unfoldable pub reconcile : Surroundings → CosignerNonceCache → Outcome CosignerNonceCache
reconcile w c =
    let p = pruned w.now c in
    if w.is_leader then top_up w (prune_nonces w.now c.cache).1 p else ok p

abbrev out_of_range : String
out_of_range = "index out of range"

get_elem?-none {ℓ} : {A : Type ℓ} (xs : List A) (i : ℕ) → length xs ≤ i → get_elem? xs i ≡ none
get_elem?-none [] i h = refl
get_elem?-none (x ∷ xs) zero h = absurd (omega arith)
get_elem?-none (x ∷ xs) (suc i) h = get_elem?-none xs i (omega arith)

-- a gather succeeds or panics
gather-cases :
    (i : ℕ) (ns : List (Option CachedNonceSingle))
    → ((rels : List CosignerNoncesRel) × (gather i ns ≡ ok rels))
      ⊎ (gather i ns ≡ panic out_of_range)
unfolding gather
gather-cases i [] = inl ([], refl)
gather-cases i (none ∷ ns) = gather-cases i ns
gather-cases i (some n ∷ ns) = elim (Option-cases (get_elem? n.nonces i)) [
  | inl e ↦ inr (ground arith)
  | inr (u, e) ↦ elim (gather-cases i ns) [
    | inl (rels, f) ↦ inl (record { cosigner = n.cosigner; nonces = u.nonces } ∷ rels, ground arith)
    | inr f ↦ inr (ground arith)
  ]
]

gather-short :
    (i : ℕ) (front back : List (Option CachedNonceSingle)) (short : CachedNonceSingle)
    → get_elem? short.nonces i ≡ none
    → gather i (front ++ some short ∷ back) ≡ panic out_of_range
unfolding gather
gather-short i [] back short h = ground arith
gather-short i (none ∷ front) back short h = gather-short i front back short h
gather-short i (some n ∷ front) back short h = ground (arith, gather-short i front back short h)

load_uuids-short :
    (i : ℕ) (us : List Uuid) (expiration : ℤ) (front back : List (Option CachedNonceSingle))
    (short : CachedNonceSingle) (c : CosignerNonceCache)
    → i ≤ length short.nonces
    → length short.nonces < i + length us
    → load_uuids i us expiration (front ++ some short ∷ back) c ≡ panic out_of_range
unfolding load_uuids
load_uuids-short i [] expiration front back short c p h = absurd (omega arith)
load_uuids-short i (u ∷ us) expiration front back short c p h =
    elim (gather-cases i (front ++ some short ∷ back)) [
      | inr f ↦ ground arith
      | inl (rels, f) ↦ elim (Bool-cases (ltb i (length short.nonces))) [
        | inl more ↦
            let rest =
              load_uuids-short (suc i) us expiration front back short
                (add_if_enough u expiration rels c) (ground arith) (omega (arith, h)) in
            ground arith
        | inr last ↦
            let e : get_elem? short.nonces i ≡ none =
              get_elem?-none short.nonces i (ground arith) in
            ground (arith, gather-short i front back short e)
      ]
    ]

-- One cosigner that answers with fewer rounds than there are UUIDs makes `LoadN` panic, whatever the
-- other cosigners answer.
pub load_n-short_answer :
    (us : List Uuid) (expiration : ℤ) (front back : List (Option CachedNonceSingle))
    (short : CachedNonceSingle) (c : CosignerNonceCache)
    → length short.nonces < length us
    → load_n us expiration (front ++ some short ∷ back) c ≡ panic "index out of range"
unfolding load_n
load_n-short_answer us expiration front back short c h =
    load_uuids-short 0 us expiration front back short c (omega arith) (omega arith)
