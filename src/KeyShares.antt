-- ===== src/KeyShares.antt =====
-- The keys of the cosigners in signer/cosigner_key_shares.go, with `ExpandSecret` of
-- signer/tsed25519/ed25519.go. Reading and writing the key files is left out.
pub mod Bounds
pub mod Shards
use horcrux.Prelude.{
  ℕ, ℤ, pos, zero, suc, ◌+◌, ◌-◌, ◌*◌, ◌%◌, List, [], ◌∷◌, map, Bool, true, false, if◌then◌else◌,
  ltb, length, take, set, get_or,
}
use horcrux.Outcome.{Outcome, ok, err, panic, ◌>>=◌, ◌>>◌}
use horcrux.Sharing.{deal_shares}

-- A key shard of a cosigner, with the public key of all.
pub record CosignerEd25519Key : Type 0 where
  pub pub_key : List ℕ
  pub private_shard : List ℕ
  pub id : ℤ

-- A cosigner's key of another kind, RSA or ECIES, with the public keys of all.
pub record CosignerKey (K P : Type 0) : Type 0 where
  pub id : ℤ
  pub key : K
  pub pubs : List P

-- `b &= 248`, `b &= 127` and `b |= 64` of a byte that `& 127` has passed
abbrev pub and_248 : ℕ → ℕ
and_248 b = b - b % 8

abbrev pub or_64 : ℕ → ℕ
or_64 b = if ltb b 64 then b + 64 else b

-- `ExpandSecret`: the first half of the digest, clamped
unfoldable pub expand_secret : (sha512 : List ℕ → List ℕ) → List ℕ → List ℕ
expand_secret sha512 secret =
    let digest = sha512 secret in
    take 32 (set (set digest 0 (and_248 (get_or digest 0 0))) 31 (or_64 (get_or digest 31 0 % 128)))

-- the loop that gives each shard its identifier
abbrev pub number_shards : (pub_key : List ℕ) → ℕ → List (List ℕ) → List CosignerEd25519Key
number_shards pub_key i [] = []
number_shards pub_key i (shard ∷ shards) =
    record { pub_key = pub_key; private_shard = shard; id = pos (i + 1) }
    ∷ number_shards pub_key (i + 1) shards

-- `CreateCosignerEd25519Shards`, for the bytes of a private key and its public key
unfoldable pub create_cosigner_ed25519_shards :
    (sha512 : List ℕ → List ℕ)
    → (random priv_key pub_key : List ℕ) → (threshold shards : ℕ)
    → Outcome (List CosignerEd25519Key)
create_cosigner_ed25519_shards sha512 random priv_key pub_key threshold shards =
    if ltb (length priv_key) 32 then panic "slice bounds out of range" else do
      priv_shards ← deal_shares random (expand_secret sha512 (take 32 priv_key)) threshold shards
      ok (number_shards pub_key 0 priv_shards)

module _ {K : Type 0} where
  abbrev pub number_keys : {P : Type 0} → List P → ℕ → List K → List (CosignerKey K P)
  number_keys pubs i [] = []
  number_keys pubs i (key ∷ keys) =
      record { id = pos (i + 1); key = key; pubs = pubs } ∷ number_keys pubs (i + 1) keys

  -- the goroutines of `makeRSAKeys` and `makeECIESKeys`: one failed generation fails all
  abbrev pub make_keys : (generate : ℕ → Outcome K) → (i num : ℕ) → Outcome (List K)
  make_keys generate i zero = ok []
  make_keys generate i (suc num) = do
    key ← generate i
    keys ← make_keys generate (i + 1) num
    ok (key ∷ keys)

  -- `CreateCosignerRSAShards` and `CreateCosignerECIESShards`
  unfoldable pub create_cosigner_shards :
      {P : Type 0}
      → (generate : ℕ → Outcome K) → (public : K → P) → ℕ
      → Outcome (List (CosignerKey K P))
  create_cosigner_shards generate public shards = do
    keys ← make_keys generate 0 shards
    ok (number_keys (map public keys) 0 keys)
