-- ===== src/Cosigner/Local/Once.antt =====
-- How often and over what a local cosigner signs.
use horcrux.Prelude.{
  ◌≢◌, true, false, none, ◌∙◌, bytes_equal, Option-cases, ◌≤◌, Bytes, Bool, ◌≡◌, inl, inr, arith,
  List, some, lookup, nat_Eq, length,
}
use horcrux.Outcome.{Error, ok, err, Outcome-cases, returned, failed, panicked}
use horcrux.Hrs.{HrstKey, hrs_key}
use horcrux.Payload.{verify_sign_payload}
use horcrux.SignState.{SignState, SignStateConsensus, get_from_cache}
use horcrux.SignState.Gate.{error_if_conflict_or_regression}
use horcrux.Cosigner.{Uuid, CosignerSignRequest, CosignerSignResponse, Nonce, NoncesWithExpiration}
use horcrux.Cosigner.NonceStore.{usable_nonces}
use horcrux.Cosigner.NonceStore.Once.{combined_nonces-ok, lookup-combined_nonces}
use horcrux.Cosigner.Local.{
  Setup, LocalCosigner, Admission, fresh, reuse, admit, reuse_cached, take_ext_nonces, sign_ext,
  take_nonces, sign_extension_only, sign_admitted, sign, threshold_u8,
}
use horcrux.Cosigner.Local.Consumed.{sign-Signed, sign_fresh-Fresh, sign-consumes}

module _ (setup : Setup) where
  -- `payload` was signed over at least as many nonces as the threshold, all of them from the entry
  -- that the store held for `uuid`.
  pub record OverNonces (uuid : Uuid) (l : LocalCosigner) (payload share : Bytes) : Type 0 where
    pub entry : NoncesWithExpiration
    pub nonces : List Nonce
    pub stored : lookup uuid l.nonces ≡ some entry
    pub usable : usable_nonces setup.id entry.nonces ≡ ok nonces
    pub enough : threshold_u8 setup ≤ length nonces
    pub over_nonces : setup.signer.sign nonces payload ≡ ok share

  OverNonces-intro :
      (uuid : Uuid) (l : LocalCosigner) (payload share : Bytes) (nonces : List Nonce)
      → (take_nonces setup uuid l).0 ≡ ok nonces
      → setup.signer.sign nonces payload ≡ ok share
      → OverNonces uuid l payload share
  unfolding take_nonces
  OverNonces-intro uuid l payload share nonces taken signed =
      let (enough, entry, stored, usable) =
        combined_nonces-ok setup.id (threshold_u8 setup) uuid l.nonces nonces taken in
      record {
        entry = entry;
        nonces = nonces;
        stored = stored;
        usable = usable;
        enough = enough;
        over_nonces = signed;
      }

  -- The extension is signed where there is one, under the nonces of its own UUID.
  abbrev pub ExtensionOver : Bool → CosignerSignRequest → LocalCosigner → Bytes → Type 0
  ExtensionOver true req l share =
      (req.vote_ext_uuid ≢ req.uuid)
      × OverNonces req.vote_ext_uuid l req.vote_extension_sign_bytes share
  ExtensionOver false req l share = share ≡ none

  -- what a share is signed over, by the verdict of the gate on the vote
  pub data SignedOver (state : SignState) (hrst : HrstKey) (has_ext : Bool)
      (req : CosignerSignRequest) (l : LocalCosigner) (res : CosignerSignResponse) : Type 0 where
    anew :
        error_if_conflict_or_regression setup.codec state hrst req.sign_bytes ≡ ok tt
        → OverNonces req.uuid l req.sign_bytes res.signature
        → ExtensionOver has_ext req l res.vote_extension_signature
        → SignedOver state hrst has_ext req l res
    from_cache :
        (e : Error) (cached : SignStateConsensus)
        → error_if_conflict_or_regression setup.codec state hrst req.sign_bytes ≡ err e
        → has_ext ≡ true
        → (get_from_cache state (hrs_key hrst)).1 ≡ some cached
        → bytes_equal cached.sign_bytes req.sign_bytes ≡ true
        → res.signature ≡ cached.signature
        → OverNonces req.vote_ext_uuid l req.vote_extension_sign_bytes res.vote_extension_signature
        → SignedOver state hrst has_ext req l res

  sign_extension_only-OverNonces :
      (existing : Bytes) (req : CosignerSignRequest) (l l' : LocalCosigner)
      (res : CosignerSignResponse)
      → sign_extension_only setup existing req l ≡ (ok res, l')
      → (res.signature ≡ existing)
        × OverNonces req.vote_ext_uuid l req.vote_extension_sign_bytes res.vote_extension_signature
  unfolding sign_extension_only
  sign_extension_only-OverNonces existing req l l' res h =
      elim (Outcome-cases (take_nonces setup req.vote_ext_uuid l).0) [
        | failed x f ↦ absurd (ground arith)
        | panicked x f ↦ absurd (ground arith)
        | returned nonces f ↦
            elim (Outcome-cases (setup.signer.sign nonces req.vote_extension_sign_bytes)) [
              | failed x g ↦ absurd (ground arith)
              | panicked x g ↦ absurd (ground arith)
              | returned ext_sig g ↦ (
                ground arith,
                OverNonces-intro req.vote_ext_uuid l req.vote_extension_sign_bytes
                    res.vote_extension_signature nonces f (ground arith),
              )
            ]
      ]

  -- the nonces that are left when those of another UUID were read are those of before
  left_over :
      (uuid other : Uuid) (l : LocalCosigner) (payload share : Bytes)
      → OverNonces other (take_nonces setup uuid l).1 payload share
      → (other ≢ uuid) × OverNonces other l payload share
  unfolding take_nonces
  left_over uuid other l payload share o =
      let e = lookup-combined_nonces setup.id (threshold_u8 setup) uuid other l.nonces in
      (
        λ q. ground (arith, e, o.stored),
        record {
          entry = o.entry;
          nonces = o.nonces;
          stored = ground (arith, e, o.stored);
          usable = o.usable;
          enough = o.enough;
          over_nonces = o.over_nonces;
        },
      )

  extension-over :
      (has_ext : Bool) (req : CosignerSignRequest) (l : LocalCosigner) (nonces : List Nonce)
      (share : Bytes)
      → (take_ext_nonces setup has_ext req.vote_ext_uuid (take_nonces setup req.uuid l).1).0
        ≡ ok nonces
      → sign_ext setup has_ext nonces req.vote_extension_sign_bytes ≡ ok share
      → ExtensionOver has_ext req l share
  unfolding take_ext_nonces sign_ext
  extension-over true req l nonces share taken signed =
      left_over req.uuid req.vote_ext_uuid l req.vote_extension_sign_bytes share (
        OverNonces-intro req.vote_ext_uuid (take_nonces setup req.uuid l).1
          req.vote_extension_sign_bytes share nonces taken signed)
  extension-over false req l nonces share taken signed = ground arith

  -- what a request was let through for
  admit-fresh :
      (s : SignState) (hrst : HrstKey) (has_ext : Bool) (sign_bytes : Bytes)
      → admit setup s hrst has_ext sign_bytes ≡ ok fresh
      → error_if_conflict_or_regression setup.codec s hrst sign_bytes ≡ ok tt
  unfolding admit reuse_cached
  admit-fresh s hrst has_ext sign_bytes h =
      elim (Outcome-cases (error_if_conflict_or_regression setup.codec s hrst sign_bytes)) [
        | returned u e ↦ e
        | panicked m e ↦ absurd (ground arith)
        | failed x e ↦ elim (Option-cases (get_from_cache s (hrs_key hrst)).1) [
          | inl f ↦ absurd (ground arith)
          | inr (c, f) ↦ absurd (ground arith)
        ]
      ]

  admit-reuse :
      (s : SignState) (hrst : HrstKey) (has_ext : Bool) (sign_bytes existing : Bytes)
      → admit setup s hrst has_ext sign_bytes ≡ ok (reuse existing)
      → (e : Error) × (c : SignStateConsensus) × (error_if_conflict_or_regression setup.codec s hrst
            sign_bytes
          ≡ err e)
        × (has_ext ≡ true)
        × ((get_from_cache s (hrs_key hrst)).1 ≡ some c)
        × (bytes_equal c.sign_bytes sign_bytes ≡ true)
        × (existing ≡ c.signature)
  unfolding admit reuse_cached
  admit-reuse s hrst has_ext sign_bytes existing h =
      elim (Outcome-cases (error_if_conflict_or_regression setup.codec s hrst sign_bytes)) [
        | returned u e ↦ absurd (ground arith)
        | panicked m e ↦ absurd (ground arith)
        | failed x e ↦ elim (Option-cases (get_from_cache s (hrs_key hrst)).1) [
          | inl f ↦ absurd (ground arith)
          | inr (c, f) ↦ (x, c, e, ground arith, f, ground arith, ground arith)
        ]
      ]

  sign_admitted-SignedOver :
      (state : SignState) (hrst : HrstKey) (has_ext : Bool) (req : CosignerSignRequest)
      (a : Admission) (l l' : LocalCosigner) (res : CosignerSignResponse)
      → admit setup state hrst has_ext req.sign_bytes ≡ ok a
      → sign_admitted setup hrst has_ext req a l ≡ (ok res, l')
      → SignedOver state hrst has_ext req l res
  unfolding sign_admitted
  sign_admitted-SignedOver state hrst has_ext req fresh l l' res passed h =
      let f = sign_fresh-Fresh setup hrst has_ext req l l' res h in
      anew (admit-fresh state hrst has_ext req.sign_bytes passed)
        (OverNonces-intro req.uuid l req.sign_bytes res.signature f.nonces f.taken
          f.share.over_nonces)
        (extension-over has_ext req l f.ext_nonces res.vote_extension_signature f.ext_taken
          f.share.ext_over_nonces)
  sign_admitted-SignedOver state hrst has_ext req (reuse existing) l l' res passed h =
      let (e, c, refused, ext, cached, same, kept) =
        admit-reuse state hrst has_ext req.sign_bytes existing passed in
      let (old, over) = sign_extension_only-OverNonces existing req l l' res h in
      from_cache e c refused ext cached same (old ∙ kept) over

  -- A call of `sign` that succeeds has checked its payload. Where the gate lets the vote through, the vote is
  -- signed over the nonces stored for its UUID, and the extension, where the payload has one, over those
  -- stored for the UUID of the extension, which is another. Where the gate refuses, the payload has an
  -- extension, the vote share is the one that the cache holds for the same height, round, step and payload,
  -- and only the extension is signed, over the nonces of its UUID. Every share is over at least as many
  -- nonces as the threshold.
  pub sign-OverNonces :
      (req : CosignerSignRequest) (l l' : LocalCosigner) (res : CosignerSignResponse)
      → sign setup req l ≡ (ok res, l')
      → (state : SignState) × (hrst : HrstKey) × (has_ext : Bool) × (l.chain_state ≡ some state)
        × (verify_sign_payload setup.codec req.chain_id req.sign_bytes req.vote_extension_sign_bytes
            ≡ ok (hrst, has_ext))
        × SignedOver state hrst has_ext req l res
  sign-OverNonces req l l' res h =
      let s = sign-Signed setup req l l' res h in
      (
        s.state,
        s.hrst,
        s.has_ext,
        s.loaded,
        s.verified,
        sign_admitted-SignedOver s.state s.hrst s.has_ext req s.admission l s.last res s.passed
            s.signed,
      )

  -- After a call of `sign` that succeeds, no call with the same two UUIDs succeeds in the state that it
  -- leaves, whatever it is to sign.
  pub sign_once :
      (req again : CosignerSignRequest) (l l' l'' : LocalCosigner) (res res' : CosignerSignResponse)
      → again.uuid ≡ req.uuid
      → again.vote_ext_uuid ≡ req.vote_ext_uuid
      → sign setup req l ≡ (ok res, l')
      → ¬ (sign setup again l' ≡ (ok res', l''))
  sign_once req again l l' l'' res res' p q h k =
      let (gone, ext_gone) = sign-consumes setup req l l' res h in
      elim (sign-OverNonces again l' l'' res' k).5 [
        | anew passed o ext ↦ cc (o.stored, gone, p)
        | from_cache e c refused ext cached same old o ↦ cc (o.stored, ext_gone, q)
      ]
