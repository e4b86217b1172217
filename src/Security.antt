-- ===== src/Security.antt =====
-- The channel between cosigners: `CosignerSecurityECIES` and `CosignerSecurityRSA` of
-- signer/cosigner_security_ecies.go and signer/cosigner_security_rsa.go, which are alike but for the
-- cipher, and the key file of the former. Ciphers, signatures and SHA-256 are parameters.
pub mod Sealed
pub mod KeyFile
use horcrux.Prelude.{
  ℕ, zero, suc, ◌+◌, ◌*◌, ◌/◌, ◌%◌, ◌==◌, ltb, ℤ, pos, Bytes, contents, String, Bool, true, false,
  ◌||◌, not, List, [], ◌∷◌, ◌++◌, Option, none, some, length, get_elem?, get_or, take, drop, ltb_ℤ,
  if◌then◌else◌,
}
use horcrux.Outcome.{Error, Outcome, ok, err, panic, message, wrapped, ◌>>=◌, ◌>>◌}
use horcrux.Cosigner.{CosignerNonce, CosignerSecurity, slot}

-- A cipher with a signature scheme; `random` is what a call draws from `rand.Reader`.
pub record Scheme : Type 1 where
  pub PublicKey : Type 0
  pub PrivateKey : Type 0
  pub encrypt : PublicKey → (random : ℕ) → List ℕ → Outcome (List ℕ)
  pub decrypt : PrivateKey → List ℕ → Outcome (List ℕ)
  pub sign : PrivateKey → (random : ℕ) → List ℕ → Outcome (List ℕ)
  pub verify : PublicKey → List ℕ → Bytes → Outcome (Unit {0})
  pub decrypt_failed : (what : String) → Error → Error

-- JSON of a nonce, as `cometjson` writes it, and SHA-256
pub record Digest : Type 0 where
  pub marshal_nonce : CosignerNonce → Outcome (List ℕ)
  pub sha256 : List ℕ → List ℕ

-- `errgroup`: both goroutines run, and the error is the one of the first that fails
abbrev pub both : Outcome (List ℕ) → Outcome (List ℕ) → Outcome (List ℕ × List ℕ)
both first second = do a ← first; b ← second; ok (a, b)

module _ (s : Scheme) (d : Digest) where
  open s use {PublicKey, PrivateKey}

  -- `CosignerECIESKey` and `CosignerRSAKey`, with the map from IDs to public keys that
  -- `NewCosignerSecurityECIES` and `NewCosignerSecurityRSA` make of the list
  pub record SecurityKey : Type 0 where
    pub private_key : PrivateKey
    pub id : ℤ
    pub public_keys : List PublicKey

  unfoldable pub public_key_of : List PublicKey → ℤ → Option PublicKey
  public_key_of keys id = elim (slot id) [ none ↦ none | some i ↦ get_elem? keys i ]

  -- the nonce as it is signed: without a destination and a signature
  abbrev pub unsigned : ℤ → (pub_key share : Bytes) → CosignerNonce
  unsigned source_id pub_key share = record {
    source_id = source_id;
    destination_id = pos 0;
    pub_key = pub_key;
    share = share;
    signature = none;
  }

  -- `EncryptAndSign`
  unfoldable pub encrypt_and_sign :
      SecurityKey
      → (random : ℕ × ℕ × ℕ) → ℤ
      → (nonce_pub nonce_share : Bytes) → Outcome CosignerNonce
  encrypt_and_sign key (r, r', r'') id nonce_pub nonce_share =
      elim (public_key_of key.public_keys id) [
        | none ↦ err (message "unknown cosigner ID")
        | some pub_key ↦ do
          sealed ←
              both (s.encrypt pub_key r (contents nonce_share))
                (s.encrypt pub_key r' (contents nonce_pub))
          json ← d.marshal_nonce (unsigned key.id (some sealed.1) (some sealed.0))
          signature ← s.sign key.private_key r'' (d.sha256 json)
          ok (record (unsigned key.id (some sealed.1) (some sealed.0)) {
            destination_id = id;
            signature = some signature;
          })
      ]

  abbrev pub failing : String → Outcome (List ℕ) → Outcome (List ℕ)
  failing what (ok l) = ok l
  failing what (err e) = err (s.decrypt_failed what e)
  failing what (panic t) = panic t

  -- `DecryptAndVerify`
  unfoldable pub decrypt_and_verify :
      SecurityKey
      → ℤ
      → (encrypted_nonce_pub encrypted_nonce_share signature : Bytes) → Outcome (Bytes × Bytes)
  decrypt_and_verify key id encrypted_nonce_pub encrypted_nonce_share signature =
      elim (public_key_of key.public_keys id) [
        | none ↦ err (message "unknown cosigner")
        | some pub_key ↦ do
          json ← d.marshal_nonce (unsigned id encrypted_nonce_pub encrypted_nonce_share)
          s.verify pub_key (d.sha256 json) signature
          plain ←
              both
                (failing "failed to decrypt nonce pub"
                  (s.decrypt key.private_key (contents encrypted_nonce_pub)))
                (failing "failed to decrypt nonce share"
                  (s.decrypt key.private_key (contents encrypted_nonce_share)))
          ok (some plain.0, some plain.1)
      ]

  -- what a local cosigner finds its peers by
  unfoldable pub cosigner_security : SecurityKey → (random : ℕ × ℕ × ℕ) → CosignerSecurity
  cosigner_security key random = record {
    encrypt_and_sign = encrypt_and_sign key random;
    decrypt_and_verify = decrypt_and_verify key;
  }

-- `ecdsa.VerifyASN1` gives a Boolean, and ECIES's errors are wrapped
pub record Ecies : Type 1 where
  pub PrivateKey : Type 0
  pub encrypt : ℕ × ℕ → (random : ℕ) → List ℕ → Outcome (List ℕ)
  pub decrypt : PrivateKey → List ℕ → Outcome (List ℕ)
  pub sign_asn1 : PrivateKey → (random : ℕ) → List ℕ → Outcome (List ℕ)
  pub verify_asn1 : ℕ × ℕ → List ℕ → Bytes → Bool

unfoldable pub ecies_scheme : Ecies → Scheme
ecies_scheme e = record {
  PublicKey = ℕ × ℕ;
  PrivateKey = e.PrivateKey;
  encrypt = e.encrypt;
  decrypt = e.decrypt;
  sign = e.sign_asn1;
  verify = λ key digest signature.
      if e.verify_asn1 key digest signature then ok tt else err (message "signature is invalid");
  decrypt_failed = wrapped;
}

-- RSA-OAEP and RSA-PSS, whose errors are returned as they are
pub record Rsa : Type 1 where
  pub PublicKey : Type 0
  pub PrivateKey : Type 0
  pub encrypt_oaep : PublicKey → (random : ℕ) → List ℕ → Outcome (List ℕ)
  pub decrypt_oaep : PrivateKey → List ℕ → Outcome (List ℕ)
  pub sign_pss : PrivateKey → (random : ℕ) → List ℕ → Outcome (List ℕ)
  pub verify_pss : PublicKey → List ℕ → Bytes → Outcome (Unit {0})

unfoldable pub rsa_scheme : Rsa → Scheme
rsa_scheme r = record {
  PublicKey = r.PublicKey;
  PrivateKey = r.PrivateKey;
  encrypt = r.encrypt_oaep;
  decrypt = r.decrypt_oaep;
  sign = r.sign_pss;
  verify = r.verify_pss;
  decrypt_failed = λ what e. e;
}
