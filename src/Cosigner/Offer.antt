-- ===== src/Cosigner/Offer.antt =====
-- `GetNonces` of signer/local_cosigner.go: the nonces that a cosigner makes for the others.
use horcrux.Prelude.{
  ℕ, ℤ, pos, suc, zero, ◌+◌, ◌-◌, ◌<◌, ◌≡◌, subst, ◌∙◌, arith, List, [], ◌∷◌, none, some,
  if◌then◌else◌, ltb, eqb_ℤ, length, set, replicate,
}
use horcrux.Outcome.{Outcome, ok, err, panic, ◌>>=◌, Outcome-cases, returned, failed, panicked}
use horcrux.Cosigner.{
  Uuid, CosignerNonce, CosignerUuidNonces, Nonces, NoncesWithExpiration, CosignerSecurity, slot,
}
use horcrux.Cosigner.NonceStore.{NonceMap, index, generate_nonces_if_necessary}

abbrev no_nonces : Nonces
no_nonces = record { pub_key = none; shares = [] }

-- `generateNonces`; `made` is what `GenerateNonces` makes for all cosigners
unfoldable pub generate_nonces :
    (total : ℕ) → (my_id : ℤ) → (made : Outcome Nonces) → Outcome (List Nonces)
generate_nonces total my_id made = do
  n ← made
  elim (slot my_id) [
    | none ↦ panic "index out of range"
    | some i ↦
        if ltb i total then ok (set (replicate total no_nonces) i n) else panic "index out of range"
  ]

-- `getNonce`: the share for one peer, encrypted for it
unfoldable pub get_nonce : CosignerSecurity → ℤ → NoncesWithExpiration → ℤ → Outcome CosignerNonce
get_nonce security my_id meta peer_id = elim (index meta.nonces my_id) [
  | none ↦ panic "index out of range"
  | some ours ↦ elim (index ours.shares peer_id) [
    | none ↦ panic "index out of range"
    | some share ↦ security.encrypt_and_sign peer_id ours.pub_key share
  ]
]

-- the peers of the inner loop, from the one with index `i` on, for `n` indices
unfoldable pub peers_from : ℕ → ℕ → ℤ → List ℤ
peers_from i zero my_id = []
peers_from i (suc n) my_id =
    let rest = peers_from (suc i) n my_id in
    if eqb_ℤ (pos (suc i)) my_id then rest else pos (suc i) ∷ rest

-- the results of an errgroup: a panic of any goroutine, else the first error, else all of them in
-- the slots of their goroutines
unfoldable pub both : {A : Type 0} → Outcome A → Outcome (List A) → Outcome (List A)
both (panic m) _ = panic m
both (ok a) (ok l) = ok (a ∷ l)
both (ok a) (err e) = err e
both (ok a) (panic m) = panic m
both (err e) (panic m) = panic m
both (err e) (ok _) = err e
both (err e) (err _) = err e

unfoldable pub offer_all :
    CosignerSecurity → ℤ → NoncesWithExpiration → List ℤ → Outcome (List CosignerNonce)
unfolding both
offer_all security my_id meta [] = ok []
offer_all security my_id meta (p ∷ ps) =
    both (get_nonce security my_id meta p) (offer_all security my_id meta ps)

-- the goroutine for one UUID
unfoldable pub offer :
    CosignerSecurity
    → ℕ
    → ℤ
    → (fresh : Outcome NoncesWithExpiration) → Uuid
    → NonceMap
    → Outcome CosignerUuidNonces × NonceMap
offer security total my_id fresh uuid m =
    let (r, m') = generate_nonces_if_necessary uuid fresh m in
    (
      do
        meta ← r
        nonces ← offer_all security my_id meta (peers_from 0 total my_id)
        ok (record { uuid = uuid; nonces = nonces }),
      m',
    )

-- `GetNonces`; `fresh` is what is made for a UUID that the store does not hold
unfoldable pub get_nonces :
    CosignerSecurity
    → ℕ
    → ℤ
    → (fresh : Uuid → Outcome NoncesWithExpiration) → List Uuid
    → NonceMap
    → Outcome (List CosignerUuidNonces) × NonceMap
get_nonces security total my_id fresh [] m = (ok [], m)
get_nonces security total my_id fresh (u ∷ us) m =
    let (r, m') = offer security total my_id (fresh u) u m in
    let (rs, m'') = get_nonces security total my_id fresh us m' in (both r rs, m'')

length-peers_from :
    (i n : ℕ) (my_id : ℕ)
    → length (peers_from i n (pos (suc my_id)))
      ≡ (if ltb my_id i then n else if ltb my_id (i + n) then n - 1 else n)
unfolding peers_from
length-peers_from i zero my_id = ground arith
length-peers_from i (suc n) my_id = ground (arith, length-peers_from (suc i) n my_id)

offer_all-length :
    (security : CosignerSecurity) (my_id : ℤ) (meta : NoncesWithExpiration) (ps : List ℤ)
    (l : List CosignerNonce)
    → offer_all security my_id meta ps ≡ ok l
    → length l ≡ length ps
unfolding offer_all both
offer_all-length security my_id meta [] l h = ground arith
offer_all-length security my_id meta (p ∷ ps) l h =
    elim (Outcome-cases (offer_all security my_id meta ps)) [
      | returned l' f ↦ ground (arith, offer_all-length security my_id meta ps l' f)
      | failed e f ↦ absurd (ground arith)
      | panicked m f ↦ absurd (ground arith)
    ]

-- The answers are for the UUIDs asked for, in their order, each with `n` nonces.
abbrev pub AnswersFor : ℕ → List Uuid → List CosignerUuidNonces → Type 0
AnswersFor n [] [] = Unit
AnswersFor n (u ∷ us) (r ∷ rs) = (r.uuid ≡ u) × (length r.nonces ≡ n) × AnswersFor n us rs
AnswersFor n _ _ = ⊥

offer-lem :
    (security : CosignerSecurity) (total : ℕ) (my_id : ℤ) (fresh : Outcome NoncesWithExpiration)
    (u : Uuid) (m : NonceMap) (r : CosignerUuidNonces)
    → (offer security total my_id fresh u m).0 ≡ ok r
    → (r.uuid ≡ u) × (length r.nonces ≡ length (peers_from 0 total my_id))
unfolding offer
offer-lem security total my_id fresh u m r h =
    elim (Outcome-cases (generate_nonces_if_necessary u fresh m).0) [
      | failed e f ↦ absurd (ground arith)
      | panicked t f ↦ absurd (ground arith)
      | returned meta f ↦
          elim (Outcome-cases (offer_all security my_id meta (peers_from 0 total my_id))) [
            | failed e g ↦ absurd (ground arith)
            | panicked t g ↦ absurd (ground arith)
            | returned l g ↦ (
              ground arith,
              ground (arith, offer_all-length security my_id meta (peers_from 0 total my_id) l g),
            )
          ]
    ]

length-peers :
    (total my_id : ℕ) → my_id < total → length (peers_from 0 total (pos (suc my_id))) ≡ total - 1
length-peers total my_id h = ground (arith, length-peers_from 0 total my_id)

-- Where `GetNonces` of a cosigner whose identifier is from 1 to the number of cosigners returns no error,
-- it answers for each UUID in the order in which they were asked for, with one nonce for every other
-- cosigner.
pub get_nonces-AnswersFor :
    (security : CosignerSecurity) (total my_id : ℕ) (fresh : Uuid → Outcome NoncesWithExpiration)
    (us : List Uuid) (m m' : NonceMap) (rs : List CosignerUuidNonces)
    → my_id < total
    → get_nonces security total (pos (suc my_id)) fresh us m ≡ (ok rs, m')
    → AnswersFor (total - 1) us rs
unfolding get_nonces both
get_nonces-AnswersFor security total my_id fresh [] m m' [] h e = tt
get_nonces-AnswersFor security total my_id fresh [] m m' (r ∷ rs) h e = absurd (ground arith)
get_nonces-AnswersFor security total my_id fresh (u ∷ us) m m' rs h e =
    let first = offer security total (pos (suc my_id)) (fresh u) u m in
    let later = get_nonces security total (pos (suc my_id)) fresh us first.1 in
    elim (Outcome-cases first.0) [
      | failed x f ↦ elim (Outcome-cases later.0) [
        | returned l g ↦ absurd (ground arith)
        | failed y g ↦ absurd (ground arith)
        | panicked t g ↦ absurd (ground arith)
      ]
      | panicked t f ↦ absurd (ground arith)
      | returned r f ↦ elim (Outcome-cases later.0) [
        | failed y g ↦ absurd (ground arith)
        | panicked t g ↦ absurd (ground arith)
        | returned l g ↦
            let (same, many) = offer-lem security total (pos (suc my_id)) (fresh u) u m r f in
            let q : r ∷ l ≡ rs = ground arith in
            let rest =
              get_nonces-AnswersFor security total my_id fresh us first.1 later.1 l h
                (ground arith) in
            subst (λ x. AnswersFor (total - 1) (u ∷ us) x) q
              (same, many ∙ length-peers total my_id h, rest)
      ]
    ]
