-- ===== src/Cosigner/Interleave/Saved.antt =====
-- What the parts of `sign` of signer/local_cosigner.go have done to the sign state.
use horcrux.Prelude.{
  Bytes, Bool, true, ◌≡◌, refl, sym, ap, ◌∙◌, arith, [], ◌∷◌, ◌++◌, Option, some, String,
}
use horcrux.Outcome.{Error, ok, err, panic, same_hrs, Outcome-cases, returned, failed, panicked}
use horcrux.Hrs.{HrsKey, HrstKey}
use horcrux.SignState.{SignState, SignStateConsensus, block_double_sign}
use horcrux.SignState.Gate.{error_if_conflict_or_regression}
use horcrux.SignState.Disk.{StateCodec, Disk, save, signal, persist}
use horcrux.Cosigner.{CosignerSignRequest, CosignerSignResponse}
use horcrux.Cosigner.Local.{
  Setup, LocalCosigner, fresh, reuse, reuse_cached, admit, save_share, save_signed, after_save,
  sign_extension_only, take_nonces, get_chain_state,
}

-- What a save that was accepted, with the check of its error, has done to the sign state.
pub data Saved (setup : Setup) (hrst : HrstKey) (sign_bytes : Bytes) (ssc : SignStateConsensus)
    (s : SignState) (after : Option SignState) : Type 0 where
  advanced :
      (s' copy : SignState)
      → block_double_sign s ssc ≡ ok (s', copy)
      → after ≡ some (signal s')
      → Saved setup hrst sign_bytes ssc s after
  forgiven :
      (k : HrsKey)
      → block_double_sign s ssc ≡ err (same_hrs k)
      → error_if_conflict_or_regression setup.codec s hrst sign_bytes ≡ ok tt
      → after ≡ some s
      → Saved setup hrst sign_bytes ssc s after

save-lem :
    (codec : StateCodec) (ssc : SignStateConsensus) (s s' copy : SignState) (d : Disk)
    → block_double_sign s ssc ≡ ok (s', copy)
    → (d' : Disk) × (save codec true ssc s d ≡ ok (signal s', d'))
unfolding save persist
save-lem codec ssc s s' copy d h = (record d { pending = d.pending ++ copy ∷ [] }, ground arith)

save-err :
    (codec : StateCodec) (ssc : SignStateConsensus) (s : SignState) (d : Disk) (e : Error)
    → block_double_sign s ssc ≡ err e
    → save codec true ssc s d ≡ err e
unfolding save
save-err codec ssc s d e h = ground arith

save-panic :
    (codec : StateCodec) (ssc : SignStateConsensus) (s : SignState) (d : Disk) (m : String)
    → block_double_sign s ssc ≡ panic m
    → save codec true ssc s d ≡ panic m
unfolding save
save-panic codec ssc s d m h = ground arith

module _ (setup : Setup) where
  pub after_save-forgiven :
      (hrst : HrstKey) (sign_bytes : Bytes) (s : SignState) (e : Error) (l l' : LocalCosigner)
      → l.chain_state ≡ some s
      → after_save setup hrst sign_bytes (err e) l ≡ (ok tt, l')
      → (k : HrsKey) × (e ≡ same_hrs k)
        × (error_if_conflict_or_regression setup.codec s hrst sign_bytes ≡ ok tt)
        × (l'.chain_state ≡ some s)
  unfolding after_save get_chain_state
  after_save-forgiven hrst sign_bytes s (same_hrs k) l l' e h =
      (k, refl, ground arith, ground arith)
  after_save-forgiven hrst sign_bytes s _ l l' e h = absurd (ground arith)

  pub save_share-err :
      (hrst : HrstKey) (sign_bytes : Bytes) (ssc : SignStateConsensus) (s : SignState) (x : Error)
      (l : LocalCosigner)
      → l.chain_state ≡ some s
      → block_double_sign s ssc ≡ err x
      → save_share setup hrst sign_bytes ssc l ≡ after_save setup hrst sign_bytes (err x) l
  unfolding save_share save_signed
  save_share-err hrst sign_bytes ssc s x l e f =
      ground (arith, save-err setup.state_codec ssc s l.disk x f)

  pub save_share-Saved :
      (hrst : HrstKey) (sign_bytes : Bytes) (ssc : SignStateConsensus) (s : SignState)
      (l l' : LocalCosigner)
      → l.chain_state ≡ some s
      → save_share setup hrst sign_bytes ssc l ≡ (ok tt, l')
      → Saved setup hrst sign_bytes ssc s l'.chain_state
  unfolding save_share save_signed after_save
  save_share-Saved hrst sign_bytes ssc s l l' e h = elim (Outcome-cases (block_double_sign s ssc)) [
    | returned (s', copy) f ↦
        advanced s' copy f (ground (arith, (save-lem setup.state_codec ssc s s' copy l.disk f).1))
    | failed x f ↦
        let (k, g, gate, same) =
          after_save-forgiven hrst sign_bytes s x l l' e
            (sym (save_share-err hrst sign_bytes ssc s x l e f) ∙ h) in
        forgiven k (f ∙ ap err g) gate same
    | panicked m f ↦ absurd (ground (arith, save-panic setup.state_codec ssc s l.disk m f))
  ]

  pub admit-fresh :
      (s : SignState) (hrst : HrstKey) (has_ext : Bool) (sign_bytes : Bytes)
      → admit setup s hrst has_ext sign_bytes ≡ ok fresh
      → error_if_conflict_or_regression setup.codec s hrst sign_bytes ≡ ok tt
  unfolding admit reuse_cached
  admit-fresh s hrst has_ext sign_bytes h =
      elim (Outcome-cases (error_if_conflict_or_regression setup.codec s hrst sign_bytes)) [
        | returned _ f ↦ f
        | failed x f ↦ absurd (ground arith)
        | panicked m f ↦ absurd (ground arith)
      ]

  pub admit-reuse :
      (s : SignState) (hrst : HrstKey) (has_ext : Bool) (sign_bytes share : Bytes)
      → admit setup s hrst has_ext sign_bytes ≡ ok (reuse share)
      → (has_ext ≡ true) × (e : Error) × (reuse_cached setup e s hrst sign_bytes ≡ ok (reuse share))
  unfolding admit
  admit-reuse s hrst has_ext sign_bytes share h =
      elim (Outcome-cases (error_if_conflict_or_regression setup.codec s hrst sign_bytes)) [
        | returned _ f ↦ absurd (ground arith)
        | failed x f ↦ (ground arith, x, ground arith)
        | panicked m f ↦ absurd (ground arith)
      ]

  pub sign_extension_only-state :
      (existing : Bytes) (req : CosignerSignRequest) (l l' : LocalCosigner)
      (res : CosignerSignResponse)
      → sign_extension_only setup existing req l ≡ (ok res, l')
      → l'.chain_state ≡ l.chain_state
  unfolding sign_extension_only take_nonces
  sign_extension_only-state existing req l l' res h = ground arith
