-- ===== src/Security/KeyFile.antt =====
-- The key file of signer/cosigner_security_ecies.go, with big-endian numbers of a fixed width.
pub mod Restored
use horcrux.Prelude.{
  ℕ, zero, suc, ◌+◌, ◌-◌, ◌*◌, ◌/◌, ◌%◌, ◌^◌, ◌<◌, ◌≤◌, ◌==◌, ltb, ℤ, pos, String, Bool, true,
  false, ◌||◌, not, List, [], ◌∷◌, ◌++◌, Option, none, some, length, get_elem?, get_or, take, drop,
  ltb_ℤ, if◌then◌else◌, ◌≡◌, refl, arith,
}
use horcrux.Outcome.{Error, Outcome, ok, err, panic, message, ◌>>=◌, ◌>>◌}
use horcrux.Cosigner.{slot}

-- `SetBytes`, the first byte is the most significant
abbrev pub set_from : (acc : ℕ) → List ℕ → ℕ
set_from acc [] = acc
set_from acc (b ∷ bs) = set_from (acc * 256 + b) bs

unfoldable pub set_bytes : List ℕ → ℕ
set_bytes bs = set_from 0 bs

unfoldable pub low_bytes : (width : ℕ) → ℕ → List ℕ
low_bytes zero n = []
low_bytes (suc width) n = low_bytes width (n / 256) ++ ((n % 256) ∷ [])

-- `FillBytes` into 32 bytes
unfoldable pub fill_bytes : ℕ → Outcome (List ℕ)
fill_bytes n =
    if ltb n (256 ^ 32)
    then ok (low_bytes 32 n)
    else panic "math/big: buffer too small to fit value"

-- `CosignerECIESKey`: the private scalar with its public point, the ID, and all public points
pub record EciesKey : Type 0 where
  pub scalar : ℕ
  pub point : ℕ × ℕ
  pub id : ℤ
  pub ecies_pubs : List (ℕ × ℕ)

-- the struct that `MarshalJSON` and `UnmarshalJSON` exchange with package json
pub record EciesKeyFile : Type 0 where
  pub ecies_key : List ℕ
  pub ecies_pubs : List (List ℕ)
  pub id : ℤ

abbrev pub ecies_pub_key_bytes : ℕ
ecies_pub_key_bytes = 65

abbrev pub ecies_pub_key_prefix : ℕ
ecies_pub_key_prefix = 4

unfoldable pub point_bytes : ℕ × ℕ → Outcome (List ℕ)
unfolding fill_bytes
point_bytes (x, y) = do xs ← fill_bytes x; ys ← fill_bytes y; ok (ecies_pub_key_prefix ∷ (xs ++ ys))

unfoldable pub points_bytes : List (ℕ × ℕ) → Outcome (List (List ℕ))
unfolding point_bytes
points_bytes [] = ok []
points_bytes (p ∷ ps) = do bz ← point_bytes p; rest ← points_bytes ps; ok (bz ∷ rest)

-- `MarshalJSON` up to `json.Marshal`
unfoldable pub marshal_ecies : EciesKey → Outcome EciesKeyFile
unfolding fill_bytes points_bytes
marshal_ecies key = do
  d ← fill_bytes key.scalar
  pubs ← points_bytes key.ecies_pubs
  ok (record { ecies_key = d; ecies_pubs = pubs; id = key.id })

module _ (is_on_curve : ℕ × ℕ → Bool) where
  -- the loop of `UnmarshalJSON` over the public keys
  unfoldable pub read_point : List ℕ → Outcome (ℕ × ℕ)
  read_point bz =
      let p : ℕ × ℕ = (set_bytes (take 32 (drop 1 bz)), set_bytes (drop 33 bz)) in
      if not (length bz == ecies_pub_key_bytes)
      then err (message "ecies pub key: got another number of bytes")
      else if not (get_or bz 0 0 == ecies_pub_key_prefix)
      then err (message "ecies pub key: got another prefix")
      else if not (is_on_curve p)
      then err (message "ecies pub key is not on the secp256k1 curve")
      else ok p

  unfoldable pub read_points : List (List ℕ) → Outcome (List (ℕ × ℕ))
  read_points [] = ok []
  read_points (bz ∷ bzs) = do p ← read_point bz; rest ← read_points bzs; ok (p ∷ rest)

  -- `UnmarshalJSON` behind `json.Unmarshal`
  unfoldable pub unmarshal_ecies : EciesKeyFile → Outcome EciesKey
  unmarshal_ecies aux = do
    pubs ← read_points aux.ecies_pubs
    elim (slot aux.id) [
      | none ↦ err (message "cosigner id out of range")
      | some i ↦ elim (get_elem? pubs i) [
        | none ↦ err (message "cosigner id out of range")
        | some p ↦
            ok (record {
              scalar = set_bytes aux.ecies_key;
              point = p;
              id = aux.id;
              ecies_pubs = pubs;
            })
      ]
    ]
