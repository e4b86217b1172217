-- ===== src/Cosigner/Local.antt =====
-- `LocalCosigner` of signer/local_cosigner.go: a cosigner that holds one key shard.
pub mod Requests
pub mod Consumed
pub mod Succeeds
pub mod Once
use horcrux.Prelude.{
  ℕ, ℤ, ◌%◌, Bytes, is_nil, is_empty, bytes_equal, String, string_Eq, nat_Eq, ◌=?◌, Bool, true,
  false, ◌&&◌, not, List, [], ◌∷◌, ◌++◌, Option, none, some, if◌then◌else◌, eqb_ℤ, ltb, leb, delete,
  length,
}
use horcrux.Outcome
use horcrux.Outcome.{Error, Outcome, ok, err, panic, message, same_hrs}
use horcrux.Act.{Act, pure, fail, lift, gets, modify, continue, ◌>>=◌, ◌>>◌, deferring}
use horcrux.Hrs.{HrsKey, HrstKey, hrs_key}
use horcrux.Payload.{Codec, verify_sign_payload}
use horcrux.SignState.{SignState, SignStateConsensus, get_from_cache}
use horcrux.SignState.Gate.{error_if_conflict_or_regression}
use horcrux.SignState.Disk.{StateCodec, Disk, save}
use horcrux.Cosigner.{
  Uuid, CosignerSignRequest, CosignerSignResponse, CosignerSetNoncesAndSignRequest, Nonce,
  ThresholdSigner, CosignerSecurity,
}
use horcrux.Cosigner.NonceStore.{NonceMap, combined_nonces, set_nonces, join}

-- What a cosigner is set up with: its identifier, the threshold, the number of shards, and the
-- interfaces that it calls.
pub record Setup : Type 1 where
  pub codec : Codec
  pub state_codec : StateCodec
  pub security : CosignerSecurity
  pub signer : ThresholdSigner
  pub id : ℤ
  pub threshold : ℕ
  pub total : ℕ

-- The state for one chain: the map of chain states has an entry once
-- `LoadSignStateIfNecessary` has run.
pub record LocalCosigner : Type 0 where
  pub chain_state : Option SignState
  pub nonces : NonceMap
  pub disk : Disk

-- How a request goes on once it is checked: signed anew, or with the vote share of the cache.
pub data Admission : Type 0 where
  fresh : Admission
  reuse : Bytes → Admission

module _ (setup : Setup) where
  open setup use {codec, state_codec, security, signer, id, total}

  abbrev pub threshold_u8 : ℕ
  threshold_u8 = setup.threshold % 256

  -- the fallback for an extension request whose vote the watermark has passed
  unfoldable pub reuse_cached : Error → SignState → HrstKey → Bytes → Outcome Admission
  reuse_cached e s hrst sign_bytes =
      let (latest, cached) = get_from_cache s (hrs_key hrst) in
      elim cached [
        | none ↦ err e
        | some x ↦
            if not (is_nil x.signature)
              && eqb_ℤ hrst.height latest.height
              && bytes_equal x.sign_bytes sign_bytes
            then ok (reuse x.signature)
            else err e
      ]

  -- the checks of `sign` against the sign state
  unfoldable pub admit : SignState → HrstKey → Bool → Bytes → Outcome Admission
  admit s hrst has_ext sign_bytes = elim (error_if_conflict_or_regression codec s hrst sign_bytes) [
    | ok _ ↦ ok fresh
    | err e ↦ if has_ext then reuse_cached e s hrst sign_bytes else err e
    | panic t ↦ panic t
  ]

  -- the vote and its extension are signed under nonces of their own
  unfoldable pub check_uuids : Bool → CosignerSignRequest → Outcome (Unit {0})
  check_uuids has_ext req =
      if has_ext && (req.uuid =? req.vote_ext_uuid)
      then err (message "vote and vote extension nonce UUIDs must differ")
      else ok tt

  unfoldable pub get_chain_state : Act LocalCosigner SignState
  get_chain_state = λ l. elim l.chain_state [
    | none ↦ (err (message "failed to load chain state"), l)
    | some s ↦ (ok s, l)
  ]

  -- `combinedNonces` of this cosigner
  unfoldable pub take_nonces : Uuid → Act LocalCosigner (List Nonce)
  take_nonces uuid l =
      let (r, m) = combined_nonces id threshold_u8 uuid l.nonces in (r, record l { nonces = m })

  -- the part of `sign` that signs an extension beside a cached vote share
  unfoldable pub sign_extension_only :
      Bytes → CosignerSignRequest → Act LocalCosigner CosignerSignResponse
  sign_extension_only existing req = do
    nonces ← take_nonces req.vote_ext_uuid
    ext_sig ← lift (signer.sign nonces req.vote_extension_sign_bytes)
    pure (record { signature = existing; vote_extension_signature = ext_sig })

  -- `Save` of the signed share, with a goroutine for the disk
  unfoldable pub save_signed : SignStateConsensus → Act LocalCosigner (Unit {0})
  save_signed ssc l = elim l.chain_state [
    | none ↦ (err (message "failed to load chain state"), l)
    | some s ↦ elim (save state_codec true ssc s l.disk) [
      | ok saved ↦ (ok tt, record l { chain_state = some saved.0; disk = saved.1 })
      | err e ↦ (err e, l)
      | panic t ↦ (panic t, l)
    ]
  ]

  -- after `Save`: an error for the same height, round and step is forgiven if the stored payload is
  -- compatible with the signed one
  unfoldable pub after_save : HrstKey → Bytes → Outcome (Unit {0}) → Act LocalCosigner (Unit {0})
  after_save hrst sign_bytes (ok _) = pure tt
  after_save hrst sign_bytes (err (same_hrs k)) = do
    s ← get_chain_state
    lift (error_if_conflict_or_regression codec s hrst sign_bytes)
  after_save hrst sign_bytes (err e) = fail e
  after_save hrst sign_bytes (panic t) = lift (panic t)

  abbrev attempt {ℓ} : {S : Type ℓ} {A : Type ℓ} → Act S A → Act S (Outcome A)
  attempt m s = let (r, s') = m s in (ok r, s')

  -- the nonces of the extension, none where there is no extension
  unfoldable pub take_ext_nonces : Bool → Uuid → Act LocalCosigner (List Nonce)
  take_ext_nonces true uuid = take_nonces uuid
  take_ext_nonces false uuid = pure []

  unfoldable pub sign_ext : Bool → List Nonce → Bytes → Outcome Bytes
  sign_ext true nonces ext_bytes = signer.sign nonces ext_bytes
  sign_ext false nonces ext_bytes = ok none

  abbrev pub signed_state : HrstKey → Bytes → (sig ext_sig : Bytes) → SignStateConsensus
  signed_state hrst sign_bytes sig ext_sig = record {
    height = hrst.height;
    round = hrst.round;
    step = hrst.step;
    signature = sig;
    vote_extension_signature = ext_sig;
    sign_bytes = sign_bytes;
  }

  -- `Save` with the check of its error
  unfoldable pub save_share : HrstKey → Bytes → SignStateConsensus → Act LocalCosigner (Unit {0})
  save_share hrst sign_bytes ssc = do
    saved ← attempt (save_signed ssc)
    after_save hrst sign_bytes saved

  -- both signatures, and the save
  unfoldable pub sign_with :
      HrstKey
      → Bool
      → CosignerSignRequest
      → (nonces ext_nonces : List Nonce) → Act LocalCosigner CosignerSignResponse
  sign_with hrst has_ext req nonces ext_nonces = do
    sig ← lift (signer.sign nonces req.sign_bytes)
    ext_sig ← lift (sign_ext has_ext ext_nonces req.vote_extension_sign_bytes)
    save_share hrst req.sign_bytes (signed_state hrst req.sign_bytes sig ext_sig)
    pure (record { signature = sig; vote_extension_signature = ext_sig })

  -- the part of `sign` that signs the vote or proposal, and the extension if there is one
  unfoldable pub sign_fresh :
      HrstKey → Bool → CosignerSignRequest → Act LocalCosigner CosignerSignResponse
  sign_fresh hrst has_ext req = do
    nonces ← take_nonces req.uuid
    ext_nonces ← take_ext_nonces has_ext req.vote_ext_uuid
    sign_with hrst has_ext req nonces ext_nonces

  unfoldable pub sign_admitted :
      HrstKey → Bool → CosignerSignRequest → Admission → Act LocalCosigner CosignerSignResponse
  sign_admitted hrst has_ext req fresh = sign_fresh hrst has_ext req
  sign_admitted hrst has_ext req (reuse existing) = sign_extension_only existing req

  -- the deferred clean-up of `sign`
  unfoldable pub drop_nonces : CosignerSignRequest → LocalCosigner → LocalCosigner
  drop_nonces req l = record l { nonces = delete req.vote_ext_uuid (delete req.uuid l.nonces) }

  -- `sign`
  unfoldable pub sign : CosignerSignRequest → Act LocalCosigner CosignerSignResponse
  sign req = do
    s ← get_chain_state
    payload ←
        lift (verify_sign_payload codec req.chain_id req.sign_bytes req.vote_extension_sign_bytes)
    lift (check_uuids payload.1 req)
    admission ← lift (admit s payload.0 payload.1 req.sign_bytes)
    deferring (drop_nonces req) (sign_admitted payload.0 payload.1 req admission)
