-- ===== src/Security/Sealed.antt =====
-- What one cosigner seals with signer/cosigner_security_ecies.go or signer/cosigner_security_rsa.go, the
-- other opens.
use horcrux.Prelude.{ℕ, Bytes, contents, List, some, ◌≡◌, refl, arith, subst}
use horcrux.Outcome.{ok, Outcome-cases, returned, failed, panicked}
use horcrux.Cosigner.{CosignerNonce}
use horcrux.Security.{
  Scheme, Digest, SecurityKey, public_key_of, unsigned, encrypt_and_sign, decrypt_and_verify,
}

module _ (s : Scheme) (d : Digest) where
  open s use {PublicKey, PrivateKey}

  -- The documented behaviour of a key pair: what the public key encrypts the private key decrypts, and what
  -- the private key signs the public key verifies.
  pub record KeyPair (public : PublicKey) (private : PrivateKey) : Type 0 where
    pub decrypts : (r : ℕ) (l c : List ℕ) → s.encrypt public r l ≡ ok c → s.decrypt private c ≡ ok l
    pub verifies :
        (r : ℕ) (m sig : List ℕ)
        → s.sign private r m ≡ ok sig
        → s.verify public m (some sig) ≡ ok tt

  -- A nonce that one cosigner seals for another is opened by that one as it was, under the ID of the first,
  -- where each has the public key of the other.
  pub decrypt_and_verify-encrypt_and_sign :
      (from to : SecurityKey s d) (from_public to_public : PublicKey)
      → KeyPair from_public from.private_key
      → KeyPair to_public to.private_key
      → public_key_of s d from.public_keys to.id ≡ some to_public
      → public_key_of s d to.public_keys from.id ≡ some from_public
      → (random : ℕ × ℕ × ℕ) (nonce_pub nonce_share : Bytes) (n : CosignerNonce)
      → encrypt_and_sign s d from random to.id nonce_pub nonce_share ≡ ok n
      → (n.source_id ≡ from.id)
        × (n.destination_id ≡ to.id)
        × (decrypt_and_verify s d to from.id n.pub_key n.share n.signature
            ≡ ok (some (contents nonce_pub), some (contents nonce_share)))
  unfolding encrypt_and_sign decrypt_and_verify
  decrypt_and_verify-encrypt_and_sign from to fp tp fk tk at_to at_from (r, r', r'') np ns n h =
      elim (Outcome-cases (s.encrypt tp r (contents ns))) [
        | failed x e ↦ absurd (ground arith)
        | panicked m e ↦ absurd (ground arith)
        | returned c e ↦ elim (Outcome-cases (s.encrypt tp r' (contents np))) [
          | failed x e' ↦ absurd (ground arith)
          | panicked m e' ↦ absurd (ground arith)
          | returned c' e' ↦
              elim (Outcome-cases (d.marshal_nonce (unsigned s d from.id (some c') (some c)))) [
                | failed x j ↦ absurd (ground arith)
                | panicked m j ↦ absurd (ground arith)
                | returned json j ↦
                    elim (Outcome-cases (s.sign from.private_key r'' (d.sha256 json))) [
                      | failed x g ↦ absurd (ground arith)
                      | panicked m g ↦ absurd (ground arith)
                      | returned sig g ↦
                          let open_pub = tk.decrypts r' (contents np) c' e' in
                          let open_share = tk.decrypts r (contents ns) c e in
                          let valid = fk.verifies r'' (d.sha256 json) sig g in
                          let sealed : CosignerNonce =
                            record (unsigned s d from.id (some c') (some c)) {
                              destination_id = to.id;
                              signature = some sig;
                            } in
                          subst
                            (λ m.
                              (m.source_id ≡ from.id)
                              × (m.destination_id ≡ to.id)
                              × (decrypt_and_verify s d to from.id m.pub_key m.share m.signature
                                  ≡ ok (some (contents np), some (contents ns))))
                            {x = sealed} (ground arith) (refl, refl, ground arith)
                    ]
              ]
        ]
      ]
