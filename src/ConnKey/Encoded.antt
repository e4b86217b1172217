-- ===== src/ConnKey/Encoded.antt =====
-- The hex encoding of connection keys, signer/conn_key.go.
use horcrux.Prelude.{
  ℕ, ◌+◌, ◌*◌, ◌/◌, ◌%◌, ◌<◌, List, [], ◌∷◌, some, length, ◌≡◌, refl, arith, ap, ◌↔◌, list_eq_iff,
}
use horcrux.Outcome.{ok}
use horcrux.ErrorText.{hex, hex_digit}
use horcrux.ConnKey.{
  from_hex_char, decode_hex, conn_pub_key_from_hex, conn_pub_key_hex, verify_node_pub_key,
}

abbrev pub AreBytes : List ℕ → Type 0
AreBytes [] = Unit
AreBytes (x ∷ xs) = (x < 256) × AreBytes xs

from_hex_char-hex_digit : (d : ℕ) → d < 16 → from_hex_char (hex_digit d) ≡ some d
unfolding from_hex_char
from_hex_char-hex_digit d h = ground arith

decode_hex-hex : (xs : List ℕ) → AreBytes xs → decode_hex (hex xs) ≡ some xs
unfolding decode_hex
decode_hex-hex [] h = refl
decode_hex-hex (x ∷ xs) (b, h) =
    rw
      (
        from_hex_char-hex_digit (x / 16) (omega arith),
        from_hex_char-hex_digit (x % 16) (omega arith),
        decode_hex-hex xs h,
      )
      (ap (λ t. some (t ∷ xs)) {x = x / 16 * 16 + x % 16} (omega arith))

-- The hex text of a 32-byte key is read back as that key, and a node that is configured with it is
-- accepted exactly when it presents that key.
pub conn_pub_key_from_hex-conn_pub_key_hex :
    (key : List ℕ)
    → AreBytes key
    → length key ≡ 32
    → (conn_pub_key_from_hex (conn_pub_key_hex key) ≡ ok key)
      × ((presented : List ℕ)
          → (verify_node_pub_key (some key) presented ≡ ok tt) ↔ (key ≡ presented))
unfolding conn_pub_key_from_hex conn_pub_key_hex verify_node_pub_key
conn_pub_key_from_hex-conn_pub_key_hex key h n = (
  ground (arith, decode_hex-hex key h),
  λ presented. (
    λ e. ground (arith, list_eq_iff key presented),
    λ e. ground (arith, list_eq_iff key presented),
  ),
)
