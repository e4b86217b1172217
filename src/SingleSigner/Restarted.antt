-- ===== src/SingleSigner/Restarted.antt =====
-- What signer/single_signer_validator.go has after a restart, and that its chains do not meet.
use horcrux.Prelude.{
  String, string_Eq, =?-refl, some, lookup, lookup-insert, ◌≡◌, ◌⊎◌, inl, inr, refl, arith, ap, ◌∙◌,
  Option-cases,
}
use horcrux.Outcome.{Outcome, ok, err, panic, Outcome-cases, returned, failed, panicked}
use horcrux.ChainId.{validate_chain_id}
use horcrux.Payload.{Codec, Time}
use horcrux.Validator.{Block}
use horcrux.FileSigner.{FilePvLastSignState, FilePv, FileKey, FileSigned, sign_file}
use horcrux.FileSigner.Once.{IsNew, IsReused, sign_file_lem}
use horcrux.SingleSigner.{
  holds, read_file, at_path, load_file_pv, SingleSigner, load_existing, load_chain_state,
  store_chain, load_chain_state_if_necessary, keep_chain, sign_loaded, sign_single, restarted,
}

module _ (state_path : String → String) (chain_id : String) where
  abbrev load : SingleSigner → Outcome (FileKey × FilePv) × SingleSigner
  load s = load_chain_state_if_necessary state_path chain_id s

  store_chain-files :
      (r : Outcome (FileKey × FilePv)) (s : SingleSigner)
      → ((store_chain state_path chain_id r s).1.key_files ≡ s.key_files)
        × ((store_chain state_path chain_id r s).1.state_files ≡ s.state_files)
  store_chain-files (ok a) s = (refl, refl)
  store_chain-files (err e) s = (refl, refl)
  store_chain-files (panic m) s = (refl, refl)

  load-files :
      (s : SingleSigner)
      → ((load s).1.key_files ≡ s.key_files) × ((load s).1.state_files ≡ s.state_files)
  unfolding load_chain_state_if_necessary
  load-files s = elim (Outcome-cases (validate_chain_id chain_id)) [
    | failed x e ↦ (ground arith, ground arith)
    | panicked m e ↦ (ground arith, ground arith)
    | returned u e ↦ elim (Option-cases (lookup chain_id s.chain_state)) [
      | inl n ↦ (
        ground (
          arith,
          store_chain-files
              (load_chain_state state_path (state_path chain_id) (s.key_files chain_id)
                (s.state_files chain_id))
              s,
        ),
        ground (
          arith,
          store_chain-files
              (load_chain_state state_path (state_path chain_id) (s.key_files chain_id)
                (s.state_files chain_id))
              s,
        ),
      )
      | inr (a, n) ↦ (ground arith, ground arith)
    ]
  ]

  load-valid :
      (s : SingleSigner) (a : FileKey × FilePv)
      → (load s).0 ≡ ok a
      → validate_chain_id chain_id ≡ ok tt
  unfolding load_chain_state_if_necessary
  load-valid s a h = elim (Outcome-cases (validate_chain_id chain_id)) [
    | failed x e ↦ absurd (ground arith)
    | panicked m e ↦ absurd (ground arith)
    | returned u e ↦ e
  ]

  load-restarted :
      (s : SingleSigner) (key : FileKey) (lss : FilePvLastSignState)
      → validate_chain_id chain_id ≡ ok tt
      → s.key_files chain_id ≡ holds key
      → s.state_files chain_id ≡ holds lss
      → (load (restarted s)).0
        ≡ ok (
          key,
          record { last_sign_state = at_path (state_path chain_id) lss; on_disk = some lss },
        )
  unfolding load_chain_state_if_necessary lookup load_chain_state load_existing load_file_pv
      read_file
  load-restarted s key lss v k f = ground arith

  module _ (c : Codec) (now : Time) where
    -- A signature that `Sign` returns is a new one or the one of before, by the state of the chain; and after
    -- a new one, a restarted process loads for the chain the state that was signed, with the same key.
    pub sign_single-restarted :
        (block : Block) (f : FileSigned) (s s' : SingleSigner) (key : FileKey)
        → s.key_files chain_id ≡ holds key
        → sign_single state_path c now chain_id block s ≡ (ok f, s')
        → (k : FileKey) × (before : FilePv) × (after : FilePv) × ((load s).0 ≡ ok (k, before))
          × (lookup chain_id s'.chain_state ≡ some (k, after))
          × ((IsNew k block f before after
                × ((load (restarted s')).0
                    ≡ ok (
                      key,
                      record {
                        last_sign_state = at_path (state_path chain_id) after.last_sign_state;
                        on_disk = some after.last_sign_state;
                      },
                    )))
              ⊎ IsReused c now block f before after)
    unfolding sign_single sign_loaded
    sign_single-restarted block f s s' key at h = elim (Outcome-cases (load s).0) [
      | failed x e ↦ absurd (ground arith)
      | panicked m e ↦ absurd (ground arith)
      | returned (k, before) e ↦
          let after : FilePv = (sign_file c k now chain_id block before).1 in
          let signs : sign_file c k now chain_id block before ≡ (ok f, after) = ground arith in
          let kept : s' ≡ (keep_chain state_path chain_id k (ok f, after) (load s).1).1 =
            ground arith in
          let found : lookup chain_id s'.chain_state ≡ some (k, after) =
            ap (λ t. lookup chain_id t.chain_state) kept
            ∙ lookup-insert chain_id chain_id (k, after) (load s).1.chain_state
            ∙ rw (=?-refl chain_id) refl in
          (
            k,
            before,
            after,
            e,
            found,
            elim (sign_file_lem c now k chain_id block f before after signs) [
              | inr reused ↦ inr reused
              | inl new ↦ inl (
                new,
                load-restarted s' key after.last_sign_state (load-valid s (k, before) e)
                    (ap (λ t. t.key_files chain_id) kept
                      ∙ ap (λ g. g chain_id) (load-files s).0
                      ∙ at)
                    (ap (λ t. t.state_files chain_id) kept
                      ∙ rw (=?-refl chain_id, new.stored) refl),
              )
            ],
          )
    ]
