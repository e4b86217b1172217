-- ===== src/Scenarios/Called.antt =====
-- Sealed nonces, a key file, and calls between cosigners, at concrete inputs: signer/cosigner_security.go,
-- signer/cosigner_security_ecies.go and signer/remote_cosigner.go.
use horcrux.Prelude.{
  ℕ, ◌+◌, ◌==◌, ℤ, pos, Bytes, contents, String, true, List, [], ◌∷◌, ◌++◌, none, some, list_eq,
  list_eq_iff, if◌then◌else◌, ◌≡◌, inl, refl, arith,
}
use horcrux.Outcome.{Error, Outcome, ok, err, message, height_regression}
use horcrux.ChainId.{codes}
use horcrux.ErrorText.{error_text}
use horcrux.Cosigner.{CosignerNonce, CosignerUuidNonces, CosignerSetNoncesAndSignRequest}
use horcrux.Validator.{Block}
use horcrux.Validator.Existing.{Found}
use horcrux.Refusal.{sign_refusal, is_refusal_type}
use horcrux.Security.{
  Scheme, Digest, SecurityKey, public_key_of, encrypt_and_sign, decrypt_and_verify,
}
use horcrux.Security.Sealed.{KeyPair, decrypt_and_verify-encrypt_and_sign}
use horcrux.Security.KeyFile.{EciesKey, EciesKeyFile, marshal_ecies, unmarshal_ecies}
use horcrux.Security.KeyFile.Restored.{unmarshal_ecies-marshal_ecies}
use horcrux.Payload.{zero_time}
use horcrux.Rpc.Shares.{FullSignResponse, remote_set_nonces_and_sign}
use horcrux.Rpc.Transparent.{
  called, returned_by, as_sent, remote_set_nonces_and_sign-local,
  remote_set_nonces_and_sign-refuses,
}

-- A cipher that puts the number of the key in front.
abbrev unlock : ℕ → List ℕ → Outcome (List ℕ)
unlock key [] = err (message "empty")
unlock key (x ∷ l) = if x == key then ok l else err (message "wrong key")

abbrev checks : ℕ → List ℕ → Bytes → Outcome (Unit {0})
checks key m signature =
    if list_eq (contents signature) (key ∷ m) then ok tt else err (message "signature is invalid")

abbrev toy : Scheme
toy = record {
  PublicKey = ℕ;
  PrivateKey = ℕ;
  encrypt = λ key random l. ok (key ∷ l);
  decrypt = unlock;
  sign = λ key random m. ok (key ∷ m);
  verify = checks;
  decrypt_failed = λ what e. e;
}

abbrev digest : Digest
digest = record {
  marshal_nonce = λ n. ok (contents n.pub_key ++ contents n.share);
  sha256 = λ bytes. bytes;
}

toy-KeyPair : (key : ℕ) → KeyPair toy digest key key
toy-KeyPair key = record {
  decrypts = λ r l c h. ground arith;
  verifies = λ r m sig h. ground (arith, list_eq_iff sig (key ∷ m));
}

abbrev key_of : ℤ → ℕ → SecurityKey toy digest
key_of id private = record { private_key = private; id = id; public_keys = 51 ∷ 52 ∷ [] }

abbrev sealed : CosignerNonce
sealed = record {
  source_id = pos 1;
  destination_id = pos 2;
  pub_key = some (52 ∷ 7 ∷ []);
  share = some (52 ∷ 8 ∷ []);
  signature = some (51 ∷ 52 ∷ 7 ∷ 52 ∷ 8 ∷ []);
}

sealed_run :
    encrypt_and_sign toy digest
      (key_of (pos 1) 51)
      (0, 0, 0)
      (pos 2)
      (some (7 ∷ []))
      (some (8 ∷ []))
    ≡ ok sealed
unfolding encrypt_and_sign public_key_of
sealed_run = refl

first_known : public_key_of toy digest (51 ∷ 52 ∷ []) (pos 1) ≡ some 51
unfolding public_key_of
first_known = refl

second_known : public_key_of toy digest (51 ∷ 52 ∷ []) (pos 2) ≡ some 52
unfolding public_key_of
second_known = refl

decrypt_and_verify-encrypt_and_sign_example :
    (sealed.source_id ≡ pos 1)
    × (sealed.destination_id ≡ pos 2)
    × (decrypt_and_verify toy digest
          (key_of (pos 2) 52)
          (pos 1)
          sealed.pub_key
          sealed.share
          sealed.signature
        ≡ ok (some (7 ∷ []), some (8 ∷ [])))
decrypt_and_verify-encrypt_and_sign_example =
    decrypt_and_verify-encrypt_and_sign toy digest (key_of (pos 1) 51) (key_of (pos 2) 52) 51 52
      (toy-KeyPair 51) (toy-KeyPair 52) second_known first_known (0, 0, 0) (some (7 ∷ []))
      (some (8 ∷ [])) sealed sealed_run

-- A key with coordinates of less than 32 bytes.
abbrev small_key : EciesKey
small_key = record {
  scalar = 300;
  point = (5, 70000);
  id = pos 2;
  ecies_pubs = (1, 2) ∷ (5, 70000) ∷ [];
}

unmarshal_ecies-marshal_ecies_example :
    (file : EciesKeyFile) × (marshal_ecies small_key ≡ ok file)
    × (unmarshal_ecies (λ p. true) file ≡ ok small_key)
unmarshal_ecies-marshal_ecies_example =
    unmarshal_ecies-marshal_ecies (λ p. true) small_key 1 (omega arith)
      (omega arith, omega arith, refl, (omega arith, omega arith, refl, tt)) refl refl

abbrev asked : CosignerSetNoncesAndSignRequest
asked = record {
  chain_id = "gno-1";
  hrst = record { height = pos 9; round = pos 0; step = pos 2; timestamp = pos 400 };
  nonces = some (record { uuid = 77; nonces = sealed ∷ [] });
  sign_bytes = some (1 ∷ []);
  vote_extension_nonces = none;
  vote_extension_sign_bytes = none;
}

abbrev sealed_nonces : CosignerUuidNonces
sealed_nonces = record { uuid = 77; nonces = sealed ∷ [] }

-- a cosigner that counts its requests and refuses them
abbrev refusing : CosignerSetNoncesAndSignRequest → ℕ → Outcome FullSignResponse × ℕ
refusing req count = (err (height_regression req.hrst.height (pos 10)), count + 1)

-- and one that signs, and leaves the time and the public nonces unset
abbrev signing : CosignerSetNoncesAndSignRequest → ℕ → Outcome FullSignResponse × ℕ
signing req count = (
  ok (record {
    shares = record { signature = req.sign_bytes; vote_extension_signature = none };
    timestamp = zero_time;
    nonce_public = none;
    vote_extension_nonce_public = none;
  }),
  count + 1,
)

remote_set_nonces_and_sign-local_example :
    remote_set_nonces_and_sign (called (λ e. "refused") signing) asked 4 ≡ (
      returned_by (λ e. "refused") signing (signing (as_sent asked) 4).0,
      (signing (as_sent asked) 4).1,
    )
remote_set_nonces_and_sign-local_example =
    remote_set_nonces_and_sign-local (λ e. "refused") signing asked sealed_nonces 4 refl
      (omega arith) (omega arith, (omega arith, omega arith, tt)) (inl (refl, refl))

abbrev as_status : Error → String
as_status e = "rpc error: code = Unknown desc = height regression. Got 9, last height 10"

as_status_text :
    codes (as_status (height_regression (pos 9) (pos 10)))
    ≡ codes "rpc error: code = Unknown desc = "
      ++ (error_text [] (height_regression (pos 9) (pos 10)) ++ [])
unfolding error_text
as_status_text = refl

refused_typed : sign_refusal [] (height_regression (pos 9) (pos 10)) ≡ true
unfolding sign_refusal is_refusal_type
refused_typed = refl

as_sent_refused : (refusing (as_sent asked) 4).0 ≡ err (height_regression (pos 9) (pos 10))
unfolding as_sent
as_sent_refused = refl

remote_set_nonces_and_sign-refuses_example :
    (e : Error) × ((remote_set_nonces_and_sign (called as_status refusing) asked 4).0 ≡ err e)
    × (sign_refusal [] e ≡ true)
remote_set_nonces_and_sign-refuses_example =
    remote_set_nonces_and_sign-refuses as_status refusing []
      (codes "rpc error: code = Unknown desc = ") [] asked sealed_nonces 4
      (height_regression (pos 9) (pos 10)) as_status_text refl (omega arith)
      (omega arith, (omega arith, omega arith, tt)) (inl (refl, refl)) as_sent_refused refused_typed

abbrev asked_block : Block
asked_block = record {
  height = pos 11;
  round = pos 0;
  step = pos 2;
  sign_bytes = some (1 ∷ []);
  vote_extension_sign_bytes = none;
  timestamp = pos 400;
}

abbrev leader_signs : String → Block → Outcome Found
leader_signs chain_id block =
    ok (record { signature = some (3 ∷ []); vote_extension_signature = none; timestamp = pos 350 })
