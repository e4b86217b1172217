-- ===== src/Rpc/Shares.antt =====
-- How cosigners ask each other for nonces and shares: `SetNoncesAndSign` and `GetNonces` of
-- signer/cosigner_grpc_server.go and signer/remote_cosigner.go, with the bytes that protobuf carries.
use horcrux.Prelude.{
  ℕ, ◌==◌, ℤ, Bytes, is_empty, String, Bool, ◌&&◌, not, List, [], ◌∷◌, Option, none, some, length,
  if◌then◌else◌,
}
use horcrux.Outcome.{Outcome, ok, err, panic, message, ◌>>=◌}
use horcrux.Hrs.{HrstProto, hrst_key_from_proto, hrst_to_proto}
use horcrux.Payload.{Time, unix_nano}
use horcrux.Cosigner.{
  Uuid, CosignerUuidNonces, CosignerSetNoncesAndSignRequest, CosignerSignResponse,
}
use horcrux.Cosigner.Wire.{NonceProto, nonces_to_proto, nonces_from_proto}
use horcrux.Security.KeyFile.{low_bytes, set_bytes}

abbrev pub uuid_len : ℕ
uuid_len = 16

-- the bytes of a UUID, and `uuid.UUID` of 16 bytes
abbrev pub uuid_bytes : Uuid → List ℕ
uuid_bytes u = low_bytes 16 u

abbrev pub uuid_of_bytes : List ℕ → Uuid
uuid_of_bytes bz = set_bytes bz

-- `CosignerSignResponse`, with the time and the public nonces, which the local cosigner leaves unset and the
-- validator does not read
pub record FullSignResponse : Type 0 where
  pub shares : CosignerSignResponse
  pub timestamp : Time
  pub nonce_public : Bytes
  pub vote_extension_nonce_public : Bytes

-- `proto.SetNoncesAndSignResponse`
pub record SetNoncesAndSignResponse : Type 0 where
  pub nonce_public : Bytes
  pub timestamp : ℤ
  pub signature : Bytes
  pub vote_ext_nonce_public : Bytes
  pub vote_ext_signature : Bytes

-- `proto.SetNoncesAndSignRequest`
pub record SetNoncesAndSignRequest : Type 0 where
  pub uuid : List ℕ
  pub nonces : List NonceProto
  pub hrst : Option HrstProto
  pub sign_bytes : Bytes
  pub chain_id : String
  pub vote_ext_uuid : List ℕ
  pub vote_ext_nonces : List NonceProto
  pub vote_ext_sign_bytes : Bytes

-- `proto.UUIDNonce`
pub record UuidNonceProto : Type 0 where
  pub uuid : List ℕ
  pub nonces : List NonceProto

-- bytes as proto3 carries them: empty ones arrive as nil
abbrev pub arrived : Bytes → Bytes
arrived b = if is_empty b then none else b

unfoldable pub nonces_arrived : List NonceProto → List NonceProto
nonces_arrived [] = []
nonces_arrived (n ∷ ns) =
    record n {
      pub_key = arrived n.pub_key;
      share = arrived n.share;
      signature = arrived n.signature;
    }
    ∷ nonces_arrived ns

unfoldable pub request_arrived : SetNoncesAndSignRequest → SetNoncesAndSignRequest
request_arrived req = record req {
  nonces = nonces_arrived req.nonces;
  sign_bytes = arrived req.sign_bytes;
  vote_ext_nonces = nonces_arrived req.vote_ext_nonces;
  vote_ext_sign_bytes = arrived req.vote_ext_sign_bytes;
}

unfoldable pub response_arrived : SetNoncesAndSignResponse → SetNoncesAndSignResponse
response_arrived res = record {
  nonce_public = arrived res.nonce_public;
  timestamp = res.timestamp;
  signature = arrived res.signature;
  vote_ext_nonce_public = arrived res.vote_ext_nonce_public;
  vote_ext_signature = arrived res.vote_ext_signature;
}

-- the vote extension of a request in `SetNoncesAndSign` of the server
abbrev pub has_extension : SetNoncesAndSignRequest → Bool
has_extension req = not (is_empty req.vote_ext_sign_bytes) && (length req.vote_ext_uuid == uuid_len)

abbrev pub received : List ℕ → List NonceProto → CosignerUuidNonces
received uuid nonces = record { uuid = uuid_of_bytes uuid; nonces = nonces_from_proto nonces }

-- what `SetNoncesAndSign` of the server passes to the local cosigner
unfoldable pub cosigner_request : SetNoncesAndSignRequest → Outcome CosignerSetNoncesAndSignRequest
cosigner_request req = elim req.hrst [
  | none ↦ err (message "hrst is required")
  | some hrst ↦
      if not (length req.uuid == uuid_len)
      then err (message "uuid must be 16 bytes")
      else ok (record {
        chain_id = req.chain_id;
        hrst = hrst_key_from_proto hrst;
        nonces = some (received req.uuid req.nonces);
        sign_bytes = req.sign_bytes;
        vote_extension_nonces =
            if has_extension req
            then some (received req.vote_ext_uuid req.vote_ext_nonces)
            else none;
        vote_extension_sign_bytes = if has_extension req then req.vote_ext_sign_bytes else none;
      })
]

module _ {ℓ} {S : Type ℓ}
    (local : CosignerSetNoncesAndSignRequest → S → Outcome FullSignResponse × S) where
  -- `SetNoncesAndSign` of the server
  unfoldable pub serve_set_nonces_and_sign :
      SetNoncesAndSignRequest → S → Outcome SetNoncesAndSignResponse × S
  serve_set_nonces_and_sign req s = elim (cosigner_request req) [
    | err e ↦ (err e, s)
    | panic t ↦ (panic t, s)
    | ok asked ↦
        let (r, s') = local asked s in
        (
          do
            res ← r
            ok (record {
              nonce_public = res.nonce_public;
              timestamp = unix_nano res.timestamp;
              signature = res.shares.signature;
              vote_ext_nonce_public = res.vote_extension_nonce_public;
              vote_ext_signature = res.shares.vote_extension_signature;
            }),
          s',
        )
  ]

-- the message of `SetNoncesAndSign` of `RemoteCosigner`, for nonces that are not nil
unfoldable pub wire_request :
    CosignerSetNoncesAndSignRequest → CosignerUuidNonces → SetNoncesAndSignRequest
wire_request req n =
    let plain : SetNoncesAndSignRequest = record {
      uuid = uuid_bytes n.uuid;
      nonces = nonces_to_proto n.nonces;
      hrst = some (hrst_to_proto req.hrst);
      sign_bytes = req.sign_bytes;
      chain_id = req.chain_id;
      vote_ext_uuid = [];
      vote_ext_nonces = [];
      vote_ext_sign_bytes = none;
    } in
    elim req.vote_extension_nonces [
      | none ↦ plain
      | some m ↦ if is_empty req.vote_extension_sign_bytes then plain else record plain {
        vote_ext_uuid = uuid_bytes m.uuid;
        vote_ext_nonces = nonces_to_proto m.nonces;
        vote_ext_sign_bytes = req.vote_extension_sign_bytes;
      }
    ]

module _ {ℓ} {S : Type ℓ}
    (call : SetNoncesAndSignRequest → S → Outcome SetNoncesAndSignResponse × S) where
  -- `SetNoncesAndSign` of `RemoteCosigner`; the state is that of the other process
  unfoldable pub remote_set_nonces_and_sign :
      CosignerSetNoncesAndSignRequest → S → Outcome FullSignResponse × S
  remote_set_nonces_and_sign req s = elim req.nonces [
    | none ↦ (panic "invalid memory address or nil pointer dereference", s)
    | some n ↦
        let (r, s') = call (wire_request req n) s in
        (
          do
            res ← r
            ok (record {
              shares = record {
                signature = res.signature;
                vote_extension_signature = res.vote_ext_signature;
              };
              timestamp = res.timestamp;
              nonce_public = res.nonce_public;
              vote_extension_nonce_public = res.vote_ext_nonce_public;
            }),
          s',
        )
  ]

-- the conversion of UUIDs in `GetNonces` of the server
unfoldable pub uuids_of : List (List ℕ) → Outcome (List Uuid)
uuids_of [] = ok []
uuids_of (bz ∷ bzs) =
    let rest = uuids_of bzs in
    if not (length bz == uuid_len)
    then err (message "uuid must be 16 bytes")
    else (do us ← rest; ok (uuid_of_bytes bz ∷ us))

-- `toProto` of the nonces of several UUIDs
unfoldable pub uuid_nonces_to_proto : List CosignerUuidNonces → List UuidNonceProto
uuid_nonces_to_proto [] = []
uuid_nonces_to_proto (n ∷ ns) =
    record { uuid = uuid_bytes n.uuid; nonces = nonces_to_proto n.nonces } ∷ uuid_nonces_to_proto ns

-- the conversion of the answer in `GetNonces` of `RemoteCosigner`
unfoldable pub uuid_nonces_from_proto : List UuidNonceProto → Outcome (List CosignerUuidNonces)
uuid_nonces_from_proto [] = ok []
uuid_nonces_from_proto (n ∷ ns) =
    let rest = uuid_nonces_from_proto ns in
    if not (length n.uuid == uuid_len)
    then err (message "nonce uuid from cosigner must be 16 bytes")
    else (do out ← rest; ok (received n.uuid n.nonces ∷ out))
