-- ===== src/Rpc/Transparent.antt =====
-- A call of another cosigner by signer/remote_cosigner.go and signer/cosigner_grpc_server.go does what the
-- call in its own process does.
use horcrux.Prelude.{
  List, [], ◌∷◌, Option, to_int32-eq, ◌<◌, ◌^◌, ℤ, pos, is_empty, String, true, false, ◌||◌, ◌++◌,
  none, some, eqb_ℤ, if◌then◌else◌, ◌≡◌, ◌⊎◌, inl, inr, refl, arith, ◌∙◌, ap, IsInt8, IsInt64,
  Bool-cases, to_int64-eq,
}
use horcrux.Outcome.{
  Error, Outcome, ok, err, message, ◌>>=◌, Outcome-cases, returned, failed, panicked,
}
use horcrux.ChainId.{codes}
use horcrux.ErrorText.{Text, error_text}
use horcrux.Hrs.Wire.{from_proto-to_proto}
use horcrux.Payload.{zero_time, unix_nano}
use horcrux.Cosigner.{CosignerNonce, CosignerUuidNonces, CosignerSetNoncesAndSignRequest}
use horcrux.Cosigner.Wire.{
  AllInt32, nonces_to_proto, nonces_from_proto, nonce_to_proto, nonce_from_proto,
}
use horcrux.Validator.{Block, block_to_proto, block_from_proto}
use horcrux.Validator.Wire.{block_from_proto-to_proto}
use horcrux.Validator.Existing.{Found}
use horcrux.Refusal.{sign_refusal}
use horcrux.Refusal.Texts.{sign_refusal-message}
use horcrux.Security.KeyFile.Restored.{set_bytes-low_bytes, length-low_bytes}
use horcrux.Rpc.{over_grpc, serve_sign_block, remote_sign}
use horcrux.Rpc.Shares.{
  FullSignResponse, SetNoncesAndSignRequest, SetNoncesAndSignResponse, arrived, nonces_arrived,
  request_arrived, response_arrived, received, uuid_bytes, cosigner_request, wire_request,
  serve_set_nonces_and_sign, remote_set_nonces_and_sign,
}

-- a UUID of 16 bytes, and identifiers that are int32
abbrev pub IsWired : CosignerUuidNonces → Type 0
IsWired n = (n.uuid < 256 ^ 16) × AllInt32 n.nonces

-- nonces, a request and a response with their empty bytes as nil
abbrev pub nonces_as_sent : List CosignerNonce → List CosignerNonce
nonces_as_sent [] = []
nonces_as_sent (n ∷ ns) =
    record n {
      pub_key = arrived n.pub_key;
      share = arrived n.share;
      signature = arrived n.signature;
    }
    ∷ nonces_as_sent ns

abbrev uuid_nonces_as_sent : Option CosignerUuidNonces → Option CosignerUuidNonces
uuid_nonces_as_sent none = none
uuid_nonces_as_sent (some n) = some (record n { nonces = nonces_as_sent n.nonces })

unfoldable pub as_sent : CosignerSetNoncesAndSignRequest → CosignerSetNoncesAndSignRequest
as_sent req = record req {
  nonces = uuid_nonces_as_sent req.nonces;
  sign_bytes = arrived req.sign_bytes;
  vote_extension_nonces = uuid_nonces_as_sent req.vote_extension_nonces;
}

-- the time crosses as its nanoseconds from the Unix epoch
unfoldable pub as_returned : FullSignResponse → FullSignResponse
as_returned res = record {
  shares = record {
    signature = arrived res.shares.signature;
    vote_extension_signature = arrived res.shares.vote_extension_signature;
  };
  timestamp = unix_nano res.timestamp;
  nonce_public = arrived res.nonce_public;
  vote_extension_nonce_public = arrived res.vote_extension_nonce_public;
}

nonces-arrived :
    (ns : List CosignerNonce)
    → AllInt32 ns
    → nonces_from_proto (nonces_arrived (nonces_to_proto ns)) ≡ nonces_as_sent ns
unfolding nonces_arrived nonces_from_proto nonces_to_proto nonce_to_proto nonce_from_proto
nonces-arrived [] h = refl
nonces-arrived (n ∷ ns) (a, b, h) =
    rw (to_int32-eq n.source_id a, to_int32-eq n.destination_id b, nonces-arrived ns h) refl

received-wired :
    (n : CosignerUuidNonces)
    → IsWired n
    → received (uuid_bytes n.uuid) (nonces_arrived (nonces_to_proto n.nonces))
      ≡ record n { nonces = nonces_as_sent n.nonces }
received-wired n (u, h) = rw (set_bytes-low_bytes 16 n.uuid u, nonces-arrived n.nonces h) refl

-- The request has nonces for an extension exactly where it has bytes of one to sign.
abbrev pub HasExtension : CosignerSetNoncesAndSignRequest → Type 0
HasExtension req =
    ((req.vote_extension_nonces ≡ none) × (req.vote_extension_sign_bytes ≡ none))
    ⊎ ((m : CosignerUuidNonces) × (req.vote_extension_nonces ≡ some m)
        × (is_empty req.vote_extension_sign_bytes ≡ false)
        × IsWired m)

cosigner_request-wire_request :
    (req : CosignerSetNoncesAndSignRequest) (n : CosignerUuidNonces)
    → req.nonces ≡ some n
    → IsInt8 req.hrst.step
    → IsWired n
    → HasExtension req
    → cosigner_request (request_arrived (wire_request req n)) ≡ ok (as_sent req)
unfolding cosigner_request wire_request request_arrived nonces_arrived as_sent
cosigner_request-wire_request req n at step w (inl (lacks, unset)) =
    ground
      (arith, length-low_bytes 16 n.uuid, received-wired n w, from_proto-to_proto req.hrst step)
cosigner_request-wire_request req n at step w (inr (m, some_m, has, v)) = ground (
  arith,
  length-low_bytes 16 n.uuid,
  length-low_bytes 16 m.uuid,
  received-wired n w,
  received-wired m v,
  from_proto-to_proto req.hrst step,
)

module _ {ℓ} {S : Type ℓ} (status : Error → String)
    (local : CosignerSetNoncesAndSignRequest → S → Outcome FullSignResponse × S) where
  abbrev carried : Outcome SetNoncesAndSignResponse → Outcome SetNoncesAndSignResponse
  carried r = do res ← r; ok (response_arrived res)

  -- the server's answer as the client gets it
  abbrev pub called : SetNoncesAndSignRequest → S → Outcome SetNoncesAndSignResponse × S
  called req s =
      let (r, s') = serve_set_nonces_and_sign local (request_arrived req) s in
      (over_grpc status (carried r), s')

  -- what a response or an error of the local cosigner is to the caller
  abbrev pub returned_by : Outcome FullSignResponse → Outcome FullSignResponse
  returned_by r = over_grpc status (do res ← r; ok (as_returned res))

  -- A call of another cosigner leaves it in the state that the call in its own process leaves, and returns
  -- the response or, as a status, the error of that call, where empty bytes of the request and the response
  -- arrive as nil and the time as its int64 of nanoseconds: for a request with nonces, whose step is an int8
  -- and whose identifiers are int32, and that has nonces for an extension exactly with bytes to sign.
  pub remote_set_nonces_and_sign-local :
      (req : CosignerSetNoncesAndSignRequest) (n : CosignerUuidNonces) (s : S)
      → req.nonces ≡ some n
      → IsInt8 req.hrst.step
      → IsWired n
      → HasExtension req
      → remote_set_nonces_and_sign called req s
        ≡ (returned_by (local (as_sent req) s).0, (local (as_sent req) s).1)
  unfolding remote_set_nonces_and_sign serve_set_nonces_and_sign response_arrived as_returned
      over_grpc
  remote_set_nonces_and_sign-local req n s at step w ext =
      elim (Outcome-cases (local (as_sent req) s).0) [
        | returned res k ↦ ground (arith, cosigner_request-wire_request req n at step w ext)
        | failed x k ↦ ground (arith, cosigner_request-wire_request req n at step w ext)
        | panicked m k ↦ ground (arith, cosigner_request-wire_request req n at step w ext)
      ]

  -- A refusal of the other cosigner, for the request as it arrives, is a refusal to the caller too, where the status that the caller gets in
  -- place of the error has its text within it.
  pub remote_set_nonces_and_sign-refuses :
      (cause before after : Text) (req : CosignerSetNoncesAndSignRequest) (n : CosignerUuidNonces)
      (s : S) (e : Error)
      → codes (status e) ≡ before ++ (error_text cause e ++ after)
      → req.nonces ≡ some n
      → IsInt8 req.hrst.step
      → IsWired n
      → HasExtension req
      → (local (as_sent req) s).0 ≡ err e
      → sign_refusal cause e ≡ true
      → (e' : Error) × ((remote_set_nonces_and_sign called req s).0 ≡ err e')
        × (sign_refusal cause e' ≡ true)
  unfolding over_grpc as_returned
  remote_set_nonces_and_sign-refuses cause before after req n s e same at step w ext fails refused =
      (
        message (status e),
        ap (λ t. t.0) (remote_set_nonces_and_sign-local req n s at step w ext)
            ∙ ap (λ r. returned_by r) fails,
        sign_refusal-message cause e (status e) before after same refused,
      )

-- what the client makes of a time that the server writes
wire_time :
    (t b : ℤ)
    → (t ≡ zero_time) ⊎ IsInt64 t
    → (if eqb_ℤ (if eqb_ℤ t zero_time then pos 0 else unix_nano t) (pos 0)
        then b
        else (if eqb_ℤ t zero_time then pos 0 else unix_nano t))
      ≡ (if eqb_ℤ t zero_time || eqb_ℤ t (pos 0) then b else t)
wire_time t b (inl z) = rw z refl
wire_time t b (inr r) = elim (Bool-cases (eqb_ℤ t zero_time)) [
  | inl z ↦ rw z refl
  | inr z ↦ rw (z, to_int64-eq t r) refl
]

-- A block that another process signs is signed there as it is, and returned with the time that its
-- signature was made over, which for the zero time and the epoch is the time of the request: for a step
-- that is an int8 and times other than the epoch whose nanoseconds are int64.
pub remote_sign-sign_block :
    (status : Error → String) (sign : String → Block → Outcome Found) (chain_id : String)
    (block : Block) (f : Found)
    → IsInt8 block.step
    → (block.timestamp ≡ zero_time) ⊎ IsInt64 block.timestamp
    → eqb_ℤ block.timestamp (pos 0) ≡ false
    → (f.timestamp ≡ zero_time) ⊎ IsInt64 f.timestamp
    → sign chain_id block ≡ ok f
    → remote_sign (λ req. over_grpc status (serve_sign_block sign req)) chain_id block
      ≡ ok (record f {
        timestamp =
            if eqb_ℤ f.timestamp zero_time || eqb_ℤ f.timestamp (pos 0)
            then block.timestamp
            else f.timestamp;
      })
unfolding remote_sign serve_sign_block over_grpc
remote_sign-sign_block status sign chain_id block f step time_of later stamped signs =
    let same : block_from_proto (block_to_proto block) ≡ block =
      block_from_proto-to_proto block step time_of ∙ rw later refl in
    let signed : sign chain_id (block_from_proto (block_to_proto block)) ≡ ok f =
      ap (sign chain_id) same ∙ signs in
    rw signed
      (ap (λ t. ok (record f { timestamp = t })) (wire_time f.timestamp block.timestamp stamped))
