-- ===== src/ConnKey.antt =====
-- signer/conn_key.go: the public keys by which the two ends of a connection to a chain node are
-- authenticated, and their hex encoding. CometBFT's key files are not modelled.
pub mod Encoded
use horcrux.Prelude.{
  ℕ, ◌+◌, ◌-◌, ◌*◌, leb, ◌==◌, Bool, true, false, ◌&&◌, not, List, [], ◌∷◌, Option, none, some,
  length, list_eq, if◌then◌else◌,
}
use horcrux.Outcome.{Outcome, ok, err, message, wrapped}
use horcrux.ErrorText.{Text, hex}

-- `PubKeySize` of CometBFT's ed25519
abbrev pub pub_key_size : ℕ
pub_key_size = 32

-- the value of a digit of `hex.DecodeString`, which takes both cases
unfoldable pub from_hex_char : ℕ → Option ℕ
from_hex_char c =
    if leb b'0' c && leb c b'9'
    then some (c - b'0')
    else if leb b'a' c && leb c b'f'
    then some (c - b'a' + 10)
    else if leb b'A' c && leb c b'F'
    then some (c - b'A' + 10)
    else none

abbrev byte : Option ℕ → Option ℕ → Option (List ℕ) → Option (List ℕ)
byte (some high) (some low) (some rest) = some ((high * 16 + low) ∷ rest)
byte _ _ _ = none

-- `hex.DecodeString`: an odd length is an error
unfoldable pub decode_hex : Text → Option (List ℕ)
unfolding from_hex_char
decode_hex [] = some []
decode_hex (c ∷ []) = none
decode_hex (c ∷ d ∷ cs) = byte (from_hex_char c) (from_hex_char d) (decode_hex cs)

-- `connPubKeyFromHex`
unfoldable pub conn_pub_key_from_hex : Text → Outcome (List ℕ)
conn_pub_key_from_hex pub_key = elim (decode_hex pub_key) [
  | none ↦ err (message "failed to decode hex connection public key")
  | some bz ↦
      if not (length bz == pub_key_size)
      then err (message "connection public key must be 32 bytes")
      else ok bz
]

-- `ConnPubKeyHex`, of the bytes of the public key
unfoldable pub conn_pub_key_hex : List ℕ → Text
conn_pub_key_hex pub_key = hex pub_key

-- `verifyNodePubKey`: a nil key accepts any node
unfoldable pub verify_node_pub_key : Option (List ℕ) → List ℕ → Outcome (Unit {0})
verify_node_pub_key none presented = ok tt
verify_node_pub_key (some expected) presented =
    if not (list_eq expected presented)
    then err (wrapped "connection public key mismatch" (message "expected another key"))
    else ok tt
