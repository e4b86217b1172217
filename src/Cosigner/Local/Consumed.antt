-- ===== src/Cosigner/Local/Consumed.antt =====
-- `sign` of signer/local_cosigner.go by its parts: what a share that is given out has gone through.
use horcrux.Prelude.{
  Bool, true, false, ◌≡◌, refl, ap, ◌∙◌, inl, inr, arith, List, none, some, lookup, delete,
  lookup-delete, nat_Eq, Option-cases,
}
use horcrux.Outcome.{ok, Outcome-cases, returned, failed, panicked}
use horcrux.Hrs.{HrstKey}
use horcrux.Payload.{verify_sign_payload}
use horcrux.SignState.{SignState}
use horcrux.Cosigner.{Uuid, CosignerSignRequest, CosignerSignResponse, Nonce}
use horcrux.Cosigner.Local.{
  Setup, LocalCosigner, Admission, admit, check_uuids, get_chain_state, take_nonces, save_share,
  signed_state, take_ext_nonces, sign_ext, sign_with, sign_fresh, sign_admitted, drop_nonces, sign,
}

module _ (setup : Setup) where
  -- What a call of `sign` that returns a share has passed.
  pub record Signed (req : CosignerSignRequest) (l l' : LocalCosigner) (res : CosignerSignResponse)
      : Type 0 where
    pub state : SignState
    pub hrst : HrstKey
    pub has_ext : Bool
    pub admission : Admission
    pub last : LocalCosigner
    pub loaded : l.chain_state ≡ some state
    pub verified :
        verify_sign_payload setup.codec req.chain_id req.sign_bytes req.vote_extension_sign_bytes
        ≡ ok (hrst, has_ext)
    pub distinct : check_uuids setup has_ext req ≡ ok tt
    pub passed : admit setup state hrst has_ext req.sign_bytes ≡ ok admission
    pub signed : sign_admitted setup hrst has_ext req admission l ≡ (ok res, last)
    pub cleaned : l' ≡ drop_nonces setup req last

  pub sign-Signed :
      (req : CosignerSignRequest) (l l' : LocalCosigner) (res : CosignerSignResponse)
      → sign setup req l ≡ (ok res, l')
      → Signed req l l' res
  unfolding sign get_chain_state
  sign-Signed req l l' res h = elim (Option-cases l.chain_state) [
    | inl e ↦ absurd (ground arith)
    | inr (s, e) ↦
        elim (Outcome-cases (
          verify_sign_payload setup.codec req.chain_id req.sign_bytes
            req.vote_extension_sign_bytes)) [
              | failed x f ↦ absurd (ground arith)
              | panicked x f ↦ absurd (ground arith)
              | returned (hrst, has_ext) f ↦
                  elim (Outcome-cases (admit setup s hrst has_ext req.sign_bytes)) [
                    | failed x g ↦ absurd (ground arith)
                    | panicked x g ↦ absurd (ground arith)
                    | returned a g ↦ record {
                      state = s;
                      hrst = hrst;
                      has_ext = has_ext;
                      admission = a;
                      last = (sign_admitted setup hrst has_ext req a l).1;
                      loaded = e;
                      verified = f;
                      distinct = ground arith;
                      passed = g;
                      signed = ground arith;
                      cleaned = ground arith;
                    }
                  ]
            ]
  ]

  -- A share that is signed anew: over nonces that were read, and saved.
  pub record With (hrst : HrstKey) (has_ext : Bool) (req : CosignerSignRequest)
      (nonces ext_nonces : List Nonce) (l l' : LocalCosigner) (res : CosignerSignResponse)
      : Type 0 where
    pub over_nonces : setup.signer.sign nonces req.sign_bytes ≡ ok res.signature
    pub ext_over_nonces :
        sign_ext setup has_ext ext_nonces req.vote_extension_sign_bytes
        ≡ ok res.vote_extension_signature
    pub share_saved :
        save_share setup hrst req.sign_bytes
          (signed_state setup hrst req.sign_bytes res.signature res.vote_extension_signature)
          l
        ≡ (ok tt, l')

  sign_with-With :
      (hrst : HrstKey) (has_ext : Bool) (req : CosignerSignRequest) (nonces ext_nonces : List Nonce)
      (l l' : LocalCosigner) (res : CosignerSignResponse)
      → sign_with setup hrst has_ext req nonces ext_nonces l ≡ (ok res, l')
      → With hrst has_ext req nonces ext_nonces l l' res
  unfolding sign_with
  sign_with-With hrst has_ext req nonces ext_nonces l l' res h =
      elim (Outcome-cases (setup.signer.sign nonces req.sign_bytes)) [
        | failed x f ↦ absurd (ground arith)
        | panicked x f ↦ absurd (ground arith)
        | returned sig f ↦
            elim (Outcome-cases (sign_ext setup has_ext ext_nonces req.vote_extension_sign_bytes)) [
              | failed x g ↦ absurd (ground arith)
              | panicked x g ↦ absurd (ground arith)
              | returned ext_sig g ↦
                  elim (Outcome-cases
                    (save_share setup hrst req.sign_bytes
                      (signed_state setup hrst req.sign_bytes sig ext_sig) l).0) [
                        | failed x k ↦ absurd (ground arith)
                        | panicked x k ↦ absurd (ground arith)
                        | returned _ k ↦ record {
                          over_nonces = ground arith;
                          ext_over_nonces = ground arith;
                          share_saved = ground arith;
                        }
                      ]
            ]
      ]

  pub record Fresh (hrst : HrstKey) (has_ext : Bool) (req : CosignerSignRequest)
      (l l' : LocalCosigner) (res : CosignerSignResponse) : Type 0 where
    pub nonces : List Nonce
    pub taken : (take_nonces setup req.uuid l).0 ≡ ok nonces
    pub ready : LocalCosigner
    pub same_state : ready.chain_state ≡ l.chain_state
    pub ext_nonces : List Nonce
    pub ext_taken :
        (take_ext_nonces setup has_ext req.vote_ext_uuid (take_nonces setup req.uuid l).1).0
        ≡ ok ext_nonces
    pub share : With hrst has_ext req nonces ext_nonces ready l' res

  take_nonces-state :
      (uuid : Uuid) (l : LocalCosigner) → (take_nonces setup uuid l).1.chain_state ≡ l.chain_state
  unfolding take_nonces
  take_nonces-state uuid l = refl

  take_ext_nonces-state :
      (b : Bool) (uuid : Uuid) (l : LocalCosigner)
      → (take_ext_nonces setup b uuid l).1.chain_state ≡ l.chain_state
  unfolding take_ext_nonces take_nonces
  take_ext_nonces-state true uuid l = refl
  take_ext_nonces-state false uuid l = refl

  pub sign_fresh-Fresh :
      (hrst : HrstKey) (has_ext : Bool) (req : CosignerSignRequest) (l l' : LocalCosigner)
      (res : CosignerSignResponse)
      → sign_fresh setup hrst has_ext req l ≡ (ok res, l')
      → Fresh hrst has_ext req l l' res
  unfolding sign_fresh
  sign_fresh-Fresh hrst has_ext req l l' res h =
      let l₁ = (take_nonces setup req.uuid l).1 in
      let l₂ = (take_ext_nonces setup has_ext req.vote_ext_uuid l₁).1 in
      elim (Outcome-cases (take_nonces setup req.uuid l).0) [
        | failed x f ↦ absurd (ground arith)
        | panicked x f ↦ absurd (ground arith)
        | returned nonces f ↦
            elim (Outcome-cases (take_ext_nonces setup has_ext req.vote_ext_uuid l₁).0) [
              | failed x g ↦ absurd (ground arith)
              | panicked x g ↦ absurd (ground arith)
              | returned ext_nonces g ↦ record {
                nonces = nonces;
                taken = f;
                ext_nonces = ext_nonces;
                ext_taken = g;
                ready = l₂;
                same_state =
                    take_ext_nonces-state has_ext req.vote_ext_uuid l₁
                    ∙ take_nonces-state req.uuid l;
                share = sign_with-With hrst has_ext req nonces ext_nonces l₂ l' res (ground arith);
              }
            ]
      ]

  -- After a call of `sign` that succeeds, the store holds no nonces for the two UUIDs of the request.
  pub sign-consumes :
      (req : CosignerSignRequest) (l l' : LocalCosigner) (res : CosignerSignResponse)
      → sign setup req l ≡ (ok res, l')
      → (lookup req.uuid l'.nonces ≡ none) × (lookup req.vote_ext_uuid l'.nonces ≡ none)
  unfolding drop_nonces
  sign-consumes req l l' res h =
      let s = sign-Signed req l l' res h in
      let e : l'.nonces ≡ delete req.vote_ext_uuid (delete req.uuid s.last.nonces) =
        ap (λ (x : LocalCosigner). x.nonces) s.cleaned in
      (
        rw e (
            ground (
              arith,
              lookup-delete req.vote_ext_uuid req.uuid (delete req.uuid s.last.nonces),
              lookup-delete req.uuid req.uuid s.last.nonces,
            )),
        rw e (
            ground (
              arith,
              lookup-delete req.vote_ext_uuid req.vote_ext_uuid (delete req.uuid s.last.nonces),
            )),
      )
