-- ===== src/Cosigner.antt =====
-- The data of signer/cosigner.go and signer/threshold_signer.go, and the interfaces behind which a
-- local cosigner finds its key shard and the channel to its peers.
pub mod Wire
pub mod NonceStore
pub mod Offer
pub mod Local
pub mod Interleave
use horcrux.Prelude.{
  ℕ, ℤ, pos, negsuc, zero, suc, Bytes, is_empty, String, Bool, true, false, ◌&&◌, not, List, [],
  ◌∷◌, ◌++◌, Option, none, some, if◌then◌else◌, eqb_ℤ,
}
use horcrux.Outcome.{Outcome}
use horcrux.Hrs.{HrstKey}

-- `uuid.UUID`, a comparable array of 16 bytes, by its number.
abbrev pub Uuid : Type 0
Uuid = ℕ

pub record CosignerNonce : Type 0 where
  pub source_id : ℤ
  pub destination_id : ℤ
  pub pub_key : Bytes
  pub share : Bytes
  pub signature : Bytes

pub record CosignerUuidNonces : Type 0 where
  pub uuid : Uuid
  pub nonces : List CosignerNonce

nonces_for : ℤ → List CosignerNonce → List CosignerNonce
nonces_for id [] = []
nonces_for id (n ∷ ns) =
    let rest = nonces_for id ns in if eqb_ℤ n.destination_id id then n ∷ rest else rest

-- `For`: the nonces that are addressed to one cosigner
unfoldable pub for_id : CosignerUuidNonces → ℤ → CosignerUuidNonces
unfolding nonces_for
for_id n id = record { uuid = n.uuid; nonces = nonces_for id n.nonces }

pub record CosignerSignRequest : Type 0 where
  pub chain_id : String
  pub sign_bytes : Bytes
  pub uuid : Uuid
  pub vote_extension_sign_bytes : Bytes
  pub vote_ext_uuid : Uuid

pub record CosignerSignResponse : Type 0 where
  pub signature : Bytes
  pub vote_extension_signature : Bytes

pub record CosignerSetNoncesAndSignRequest : Type 0 where
  pub chain_id : String
  pub hrst : HrstKey
  pub nonces : Option CosignerUuidNonces
  pub sign_bytes : Bytes
  pub vote_extension_nonces : Option CosignerUuidNonces
  pub vote_extension_sign_bytes : Bytes

-- `Nonces` of signer/threshold_signer.go: what one cosigner made for all; no shares are `nil`.
pub record Nonces : Type 0 where
  pub pub_key : Bytes
  pub shares : List Bytes

pub record NoncesWithExpiration : Type 0 where
  pub expiration : ℤ
  pub nonces : List Nonces

-- `Nonce`: what another cosigner made for this one
pub record Nonce : Type 0 where
  pub share : Bytes
  pub pub_key : Bytes

pub record PartialSignature : Type 0 where
  pub id : ℤ
  pub signature : Bytes

-- `ThresholdSigner` without its `PubKey`, and the check of a signature against that key.
pub record ThresholdSigner : Type 0 where
  pub sign : List Nonce → Bytes → Outcome Bytes
  pub combine_signatures : List PartialSignature → Outcome Bytes
  pub verify_signature : (payload signature : Bytes) → Bool

-- `CosignerSecurity` but for the identifier
pub record CosignerSecurity : Type 0 where
  pub encrypt_and_sign : (peer_id : ℤ) → (pub_key share : Bytes) → Outcome CosignerNonce
  pub decrypt_and_verify :
      (source_id : ℤ) → (pub_key share signature : Bytes) → Outcome (Bytes × Bytes)

-- the index `id - 1` of a Go slice; there is none for an identifier below 1
abbrev pub slot : ℤ → Option ℕ
slot (pos zero) = none
slot (pos (suc n)) = some n
slot (negsuc n) = none
