-- ===== src/Rpc.antt =====
-- The calls between cosigners: the server of signer/cosigner_grpc_server.go with the interceptor of
-- signer/grpc_recovery.go, the client of signer/remote_cosigner.go, and the server of
-- signer/remote_signer_grpc_server.go. gRPC and protobuf carry the messages.
pub mod Shares
pub mod Transparent
use horcrux.Prelude.{
  ℕ, ◌==◌, ℤ, pos, Bytes, contents, is_empty, String, Bool, true, false, ◌&&◌, not, List, [], ◌∷◌,
  Option, none, some, length, eqb_ℤ, if◌then◌else◌,
}
use horcrux.Outcome.{Error, Outcome, ok, err, panic, message, ◌>>=◌}
use horcrux.Act.{Act, continue}
use horcrux.ChainId.{validate_chain_id}
use horcrux.Hrs.{HrstProto, hrst_key_from_proto, hrst_to_proto}
use horcrux.Payload.{Time, zero_time, unix_nano}
use horcrux.Cosigner.{
  Uuid, CosignerNonce, CosignerUuidNonces, CosignerSetNoncesAndSignRequest, CosignerSignResponse,
}
use horcrux.Cosigner.Wire.{NonceProto, nonces_to_proto, nonces_from_proto}
use horcrux.Validator.{Block, BlockProto, block_to_proto, block_from_proto}
use horcrux.Validator.Existing.{Found}
use horcrux.Security.KeyFile.{low_bytes, set_bytes}

-- `proto.SignBlockRequest` and its response
pub record SignBlockRequest : Type 0 where
  pub chain_id : String
  pub block : Option BlockProto

pub record SignBlockResponse : Type 0 where
  pub signature : Bytes
  pub vote_ext_signature : Bytes
  pub timestamp : ℤ

-- What a call gives to the other process: an error is a status with the text `status` makes of it, and
-- `recoveryUnaryInterceptor` makes an error of a panic.
module _ (status : Error → String) where
  unfoldable pub over_grpc {ℓ} : {A : Type ℓ} → Outcome A → Outcome A
  over_grpc (ok a) = ok a
  over_grpc (err e) = err (message (status e))
  over_grpc (panic t) = err (message (status (message "internal error")))

-- `SignBlock` of the server; `sign` is `Sign` of the threshold validator
unfoldable pub serve_sign_block :
    (sign : String → Block → Outcome Found) → SignBlockRequest → Outcome SignBlockResponse
serve_sign_block sign req = elim req.block [
  | none ↦ err (message "block is required")
  | some b ↦ do
    f ← sign req.chain_id (block_from_proto b)
    ok (record {
      signature = f.signature;
      vote_ext_signature = f.vote_extension_signature;
      timestamp = if eqb_ℤ f.timestamp zero_time then pos 0 else unix_nano f.timestamp;
    })
]

-- `Sign` of `RemoteCosigner`
unfoldable pub remote_sign :
    (call : SignBlockRequest → Outcome SignBlockResponse) → String → Block → Outcome Found
remote_sign call chain_id block = do
  res ← call (record { chain_id = chain_id; block = some (block_to_proto block) })
  ok (record {
    signature = res.signature;
    vote_extension_signature = res.vote_ext_signature;
    timestamp = if eqb_ℤ res.timestamp (pos 0) then block.timestamp else res.timestamp;
  })

-- `Sign` of `RemoteSignerGRPCServer`; `sign` is `signAndTrack`
unfoldable pub serve_remote_sign :
    (sign : String → Block → Outcome Found) → SignBlockRequest → Outcome SignBlockResponse
serve_remote_sign sign req = elim (validate_chain_id req.chain_id) [
  | err e ↦ err e
  | panic t ↦ panic t
  | ok _ ↦ elim req.block [
    | none ↦ err (message "block is required")
    | some b ↦ do
      f ← sign req.chain_id (block_from_proto b)
      ok (record {
        signature = f.signature;
        vote_ext_signature = f.vote_extension_signature;
        timestamp = unix_nano f.timestamp;
      })
  ]
]

-- `PubKey` of `RemoteSignerGRPCServer`
unfoldable pub serve_pub_key : (get_pub_key : String → Outcome Bytes) → String → Outcome Bytes
serve_pub_key get_pub_key chain_id = elim (validate_chain_id chain_id) [
  | err e ↦ err e
  | panic t ↦ panic t
  | ok _ ↦ get_pub_key chain_id
]
