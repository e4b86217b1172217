-- ===== src/Cosigner/Local/Succeeds.antt =====
-- When `sign` of signer/local_cosigner.go succeeds.
use horcrux.Prelude.{
  ◌≤◌, Bytes, true, false, ◌≡◌, refl, ◌∙◌, arith, List, [], ◌∷◌, ◌++◌, none, some, lookup, nat_Eq,
  length,
}
use horcrux.Outcome.{ok}
use horcrux.Hrs.{HrstKey, hrs_key, greater_than}
use horcrux.Payload.{verify_sign_payload}
use horcrux.SignState.{
  SignState, SignStateConsensus, latest_hrs, consensus_key, advance, locked_copy,
}
use horcrux.SignState.Gate.{gate-above}
use horcrux.SignState.Watermark.{block_double_sign_lem}
use horcrux.SignState.Disk.{Disk, save, persist, signal}
use horcrux.Cosigner.{CosignerSignRequest, Nonce, NoncesWithExpiration}
use horcrux.Cosigner.NonceStore.{combined_nonces, enough_nonces, usable_nonces}
use horcrux.Cosigner.Local.{
  Setup, LocalCosigner, admit, check_uuids, threshold_u8, take_nonces, take_ext_nonces, sign_ext,
  save_signed, save_share, after_save, signed_state, sign_with, sign_fresh, sign_admitted,
  drop_nonces, get_chain_state, sign,
}

module _ (setup : Setup) where
  taken :
      (req : CosignerSignRequest) (l : LocalCosigner) (n : NoncesWithExpiration) (ns : List Nonce)
      → lookup req.uuid l.nonces ≡ some n
      → usable_nonces setup.id n.nonces ≡ ok ns
      → threshold_u8 setup ≤ length ns
      → (take_nonces setup req.uuid l).0 ≡ ok ns
  unfolding take_nonces combined_nonces enough_nonces
  taken req l n ns stored usable enough = ground arith

  taken_state :
      (req : CosignerSignRequest) (l : LocalCosigner)
      → (take_nonces setup req.uuid l).1.chain_state ≡ l.chain_state
  unfolding take_nonces
  taken_state req l = ground arith

  abbrev after_saving : SignStateConsensus → SignState → LocalCosigner → LocalCosigner
  after_saving ssc s l = record l {
    chain_state = some (signal (advance s ssc));
    disk = record l.disk { pending = l.disk.pending ++ locked_copy (advance s ssc) ∷ [] };
  }

  save-above :
      (ssc : SignStateConsensus) (s : SignState) (d : Disk)
      → greater_than (consensus_key ssc) (latest_hrs s) ≡ true
      → save setup.state_codec true ssc s d
        ≡ ok (
          signal (advance s ssc),
          record d { pending = d.pending ++ locked_copy (advance s ssc) ∷ [] },
        )
  unfolding save persist
  save-above ssc s d above = ground (arith, block_double_sign_lem s ssc)

  share_saved :
      (hrst : HrstKey) (sign_bytes : Bytes) (ssc : SignStateConsensus) (l : LocalCosigner)
      (s : SignState)
      → l.chain_state ≡ some s
      → greater_than (consensus_key ssc) (latest_hrs s) ≡ true
      → save_share setup hrst sign_bytes ssc l ≡ (ok tt, after_saving ssc s l)
  unfolding save_share save_signed after_save
  share_saved hrst sign_bytes ssc l s loaded above = ground (arith, save-above ssc s l.disk above)

  -- the request is admitted and its nonces are taken
  signed_fresh :
      (req : CosignerSignRequest) (l : LocalCosigner) (s : SignState) (hrst : HrstKey)
      (ns : List Nonce) (sig : Bytes)
      → l.chain_state ≡ some s
      → greater_than (hrs_key hrst) (latest_hrs s) ≡ true
      → (take_nonces setup req.uuid l).0 ≡ ok ns
      → setup.signer.sign ns req.sign_bytes ≡ ok sig
      → sign_fresh setup hrst false req l ≡ (
        ok (record { signature = sig; vote_extension_signature = none }),
        after_saving
            (signed_state setup hrst req.sign_bytes sig none)
            s
            (take_nonces setup req.uuid l).1,
      )
  unfolding sign_fresh take_ext_nonces sign_with sign_ext
  signed_fresh req l s hrst ns sig loaded above taken_ok signs =
      let l₁ = (take_nonces setup req.uuid l).1 in
      let ssc = signed_state setup hrst req.sign_bytes sig none in
      ground (arith, share_saved hrst req.sign_bytes ssc l₁ s (taken_state req l ∙ loaded) above)

  -- A request without an extension succeeds, and moves the watermark to its height, round and step, on a
  -- loaded chain, above the watermark, with enough usable nonces stored for its UUID, and a key shard that
  -- signs.
  pub sign-ok :
      (req : CosignerSignRequest) (l : LocalCosigner) (s : SignState) (hrst : HrstKey)
      (n : NoncesWithExpiration) (ns : List Nonce) (sig : Bytes)
      → l.chain_state ≡ some s
      → verify_sign_payload setup.codec req.chain_id req.sign_bytes req.vote_extension_sign_bytes
        ≡ ok (hrst, false)
      → greater_than (hrs_key hrst) (latest_hrs s) ≡ true
      → lookup req.uuid l.nonces ≡ some n
      → usable_nonces setup.id n.nonces ≡ ok ns
      → threshold_u8 setup ≤ length ns
      → setup.signer.sign ns req.sign_bytes ≡ ok sig
      → (l' : LocalCosigner) × (sign setup req l
          ≡ (ok (record { signature = sig; vote_extension_signature = none }), l'))
        × (l'.chain_state
            ≡ some (signal (advance s (signed_state setup hrst req.sign_bytes sig none))))
  unfolding sign get_chain_state check_uuids admit sign_admitted drop_nonces
  sign-ok req l s hrst n ns sig loaded verified above stored usable enough signs =
      let ssc = signed_state setup hrst req.sign_bytes sig none in
      let t = taken req l n ns stored usable enough in
      let f = signed_fresh req l s hrst ns sig loaded above t signs in
      let g = gate-above setup.codec s hrst req.sign_bytes above in
      (
        drop_nonces setup req (after_saving ssc s (take_nonces setup req.uuid l).1),
        ground arith,
        refl,
      )
