-- ===== src/Cosigner/Local/Requests.antt =====
-- The requests that a local cosigner answers: `SetNoncesAndSign`, `GetNonces`,
-- `SaveLastSignedState` and `LoadSignStateIfNecessary` of signer/local_cosigner.go.
use horcrux.Prelude.{
  ℤ, is_empty, String, string_Eq, not, List, [], Option, none, some, if◌then◌else◌,
}
use horcrux.Outcome.{Error, Outcome, ok, err, panic, message}
use horcrux.Act.{Act, lift, ◌>>=◌, ◌>>◌}
use horcrux.ChainId.{validate_chain_id}
use horcrux.SignState.{SignStateConsensus}
use horcrux.SignState.Disk.{Disk, load_or_create_sign_state}
use horcrux.Cosigner.{
  Uuid, CosignerNonce, CosignerUuidNonces, CosignerSignRequest, CosignerSignResponse,
  CosignerSetNoncesAndSignRequest,
}
use horcrux.Cosigner.NonceStore.{set_nonces, join, prune_nonces}
use horcrux.Cosigner.Local.{Setup, LocalCosigner, sign, save_signed}

-- the nonces of one extension request, if there are any
abbrev nonces_of : Option CosignerUuidNonces → List CosignerNonce
nonces_of none = []
nonces_of (some n) = n.nonces

abbrev uuid_of : Option CosignerUuidNonces → Uuid
uuid_of none = 0
uuid_of (some n) = n.uuid

module _ (setup : Setup) where
  open setup use {state_codec, security, id, total}

  -- `LoadSignStateIfNecessary`; `signer_fails` is the error of `NewThresholdSignerSoft`, if any
  unfoldable pub load_sign_state_if_necessary :
      (state_file : String) → (signer_fails : Option Error) → String → Act LocalCosigner (Unit {0})
  load_sign_state_if_necessary state_file signer_fails chain_id l =
      elim (validate_chain_id chain_id) [
        | err e ↦ (err e, l)
        | panic t ↦ (panic t, l)
        | ok _ ↦ elim l.chain_state [
          | some s ↦ (ok tt, l)
          | none ↦ elim (load_or_create_sign_state state_codec state_file l.disk.fs) [
            | err e ↦ (err e, l)
            | panic t ↦ (panic t, l)
            | ok loaded ↦
                let d : Disk = record l.disk { fs = loaded.1 } in
                elim signer_fails [
                  | some e ↦ (err e, record l { disk = d })
                  | none ↦ (ok tt, record l { chain_state = some loaded.0; disk = d })
                ]
          ]
        ]
      ]

  -- the checks of `SetNoncesAndSign`
  unfoldable pub check_request : CosignerSetNoncesAndSignRequest → Outcome CosignerUuidNonces
  check_request req = elim req.nonces [
    | none ↦ err (message "nonces are required")
    | some n ↦ elim req.vote_extension_nonces [
      | some _ ↦ ok n
      | none ↦
          if is_empty req.vote_extension_sign_bytes
          then ok n
          else err (message "vote extension nonces are required when signing a vote extension")
    ]
  ]

  -- the goroutines that decrypt and store the nonces of both rounds
  unfoldable pub set_all_nonces :
      CosignerUuidNonces → Option CosignerUuidNonces → Act LocalCosigner (Unit {0})
  set_all_nonces n ext l =
      let (r, m) = set_nonces security total id n.uuid n.nonces l.nonces in
      let (r', m') = set_nonces security total id (uuid_of ext) (nonces_of ext) m in
      (join r r', record l { nonces = m' })

  -- the extension of the request goes along only if there are bytes to sign; without it the UUID is
  -- the zero one
  unfoldable pub sign_request :
      CosignerSetNoncesAndSignRequest → CosignerUuidNonces → CosignerSignRequest
  sign_request req n =
      let has = not (is_empty req.vote_extension_sign_bytes) in
      record {
        chain_id = req.chain_id;
        sign_bytes = req.sign_bytes;
        uuid = n.uuid;
        vote_extension_sign_bytes = if has then req.vote_extension_sign_bytes else none;
        vote_ext_uuid = if has then uuid_of req.vote_extension_nonces else 0;
      }

  -- `SetNoncesAndSign`; `load` is `LoadSignStateIfNecessary` for the chain
  unfoldable pub set_nonces_and_sign :
      (load : Act LocalCosigner (Unit {0}))
      → CosignerSetNoncesAndSignRequest
      → Act LocalCosigner CosignerSignResponse
  set_nonces_and_sign load req = do
    load
    n ← lift (check_request req)
    set_all_nonces n req.vote_extension_nonces
    sign setup (sign_request req n)

  -- `SaveLastSignedState`, which replication calls
  unfoldable pub save_last_signed_state : SignStateConsensus → Act LocalCosigner (Unit {0})
  save_last_signed_state ssc = save_signed setup ssc

  -- `pruneNonces`
  unfoldable pub prune : (now : ℤ) → LocalCosigner → LocalCosigner
  prune now l = record l { nonces = prune_nonces now l.nonces }
