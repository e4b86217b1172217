-- ===== src/Cosigner/Wire.antt =====
-- The wire forms of signer/cosigner.go's nonces: identifiers are int32 there.
use horcrux.Prelude.{ℤ, Bytes, ◌≡◌, refl, List, [], ◌∷◌, IsInt32, to_int32, to_int32-eq}
use horcrux.Cosigner.{CosignerNonce}

-- `proto.Nonce`
pub record NonceProto : Type 0 where
  pub source_id : ℤ
  pub destination_id : ℤ
  pub pub_key : Bytes
  pub share : Bytes
  pub signature : Bytes

-- `toProto` of a nonce
unfoldable pub nonce_to_proto : CosignerNonce → NonceProto
nonce_to_proto n = record {
  source_id = to_int32 n.source_id;
  destination_id = to_int32 n.destination_id;
  pub_key = n.pub_key;
  share = n.share;
  signature = n.signature;
}

-- `toProto` of nonces
unfoldable pub nonces_to_proto : List CosignerNonce → List NonceProto
nonces_to_proto [] = []
nonces_to_proto (n ∷ ns) = nonce_to_proto n ∷ nonces_to_proto ns

-- `CosignerNonceFromProto`
unfoldable pub nonce_from_proto : NonceProto → CosignerNonce
nonce_from_proto n = record {
  source_id = n.source_id;
  destination_id = n.destination_id;
  pub_key = n.pub_key;
  share = n.share;
  signature = n.signature;
}

-- `CosignerNoncesFromProto`
unfoldable pub nonces_from_proto : List NonceProto → List CosignerNonce
nonces_from_proto [] = []
nonces_from_proto (n ∷ ns) = nonce_from_proto n ∷ nonces_from_proto ns

-- Every cosigner's identifier is an int32.
abbrev pub AllInt32 : List CosignerNonce → Type 0
AllInt32 [] = Unit
AllInt32 (n ∷ ns) = IsInt32 n.source_id × IsInt32 n.destination_id × AllInt32 ns

-- Nonces whose identifiers are int32 come back from the wire as they were sent, in their order.
nonces_from_proto-to_proto :
    (ns : List CosignerNonce) → AllInt32 ns → nonces_from_proto (nonces_to_proto ns) ≡ ns
unfolding nonces_from_proto nonces_to_proto nonce_to_proto nonce_from_proto
nonces_from_proto-to_proto [] h = refl
nonces_from_proto-to_proto (n ∷ ns) (s, d, h) =
    rw (to_int32-eq n.source_id s, to_int32-eq n.destination_id d, nonces_from_proto-to_proto ns h)
