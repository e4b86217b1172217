-- ===== src/Validator/Sign.antt =====
-- The part of `Sign` of signer/threshold_validator.go that has the cosigners sign a block and combines
-- their shares.
pub mod Shares
pub mod Finish
pub mod Verified
pub mod Marks
use horcrux.Prelude.{
  ℕ, ℤ, pos, suc, zero, ◌-◌, ◌%◌, Bytes, is_nil, is_empty, clone, String, Bool, true, false, ◌&&◌,
  ◌||◌, ◌==◌, not, List, [], ◌∷◌, ◌++◌, Option, none, some, if◌then◌else◌, eqb_ℤ, ltb, leb, length,
  take, drop, set, replicate, get_elem?,
}
use horcrux.Outcome.{Error, Outcome, ok, err, panic, message, wrapped, same_hrs, Outcome-cases}
use horcrux.Act.{Act, pure, fail, lift, continue, ◌>>=◌, ◌>>◌}
use horcrux.Hrs.{HrsKey, HrstKey}
use horcrux.Payload.{Codec, verify_sign_payload}
use horcrux.SignState.{SignStateConsensus}
use horcrux.SignState.Disk.{StateCodec}
use horcrux.Cosigner.{
  Uuid, CosignerUuidNonces, for_id, CosignerSetNoncesAndSignRequest, CosignerSignResponse,
  PartialSignature, ThresholdSigner, slot,
}
use horcrux.Cosigner.NonceStore.{join}
use horcrux.NonceCache.{CosignerNonceCache, get_nonces, clear_nonces}
use horcrux.Validator.{
  Block, block_hrs_key, block_hrst_key, ThresholdValidator, must_load_chain_state, save_signed,
  notify_block_sign_error,
}
use horcrux.Validator.Existing.{Found, is_same_hrs}

-- What a call of `Sign` meets: this cosigner's identifier, the threshold, the number of cosigners,
-- the peers from the fastest on, the answers of the cosigners to `SetNoncesAndSign`, of
-- `getNoncesFallback`, and of the calls that make nonces for an extension; the text of an error; and which
-- errors tell that a cosigner has lost its nonces or is not reached.
pub record Cluster : Type 0 where
  pub my_id : ℤ
  pub threshold : ℕ
  pub total : ℕ
  pub fastest : List ℤ
  pub call : ℤ → CosignerSetNoncesAndSignRequest → Outcome CosignerSignResponse
  pub fallback : (count : ℕ) → Outcome (List ℤ × List CosignerUuidNonces)
  pub extension_nonces : List ℤ → Outcome CosignerUuidNonces
  pub text_of : Error → String
  pub is_unexpected_state : Error → Bool
  pub is_unreachable : Error → Bool
  pub signer : ThresholdSigner

-- The nonces of a block, the cosigners that made them, and whether another cosigner may take the place
-- of one that fails.
pub record Chosen : Type 0 where
  pub cosigners : List ℤ
  pub nonces : CosignerUuidNonces
  pub ext_nonces : Option CosignerUuidNonces
  pub may_replace : Bool

-- the sign states and the nonce cache
abbrev pub Held : Type 0
Held = ThresholdValidator × CosignerNonceCache

-- marks a failed sign, and returns its error: what each early return of `Sign` behind the go-ahead does
unfoldable pub fail_block : {A : Type 0} → Block → Error → Act ThresholdValidator A
fail_block block e = do notify_block_sign_error (block_hrs_key block) block.sign_bytes; fail e

unfoldable pub failing : {A : Type 0} → Block → Error → Act Held A
failing block e s = let (r, pv) = fail_block block e s.0 in (r, (pv, s.1))

-- the nonces of the answers to `getNoncesFallback`
unfoldable pub chosen_of : Bool → List ℤ → List CosignerUuidNonces → Outcome Chosen
chosen_of has_ext cosigners nonces = elim (get_elem? nonces 0) [
  | none ↦ panic "index out of range"
  | some n ↦ elim has_ext [
    | false ↦
        ok (record { cosigners = cosigners; nonces = n; ext_nonces = none; may_replace = false })
    | true ↦ elim (get_elem? nonces 1) [
      | none ↦ panic "index out of range"
      | some x ↦
          ok
            (record { cosigners = cosigners; nonces = n; ext_nonces = some x; may_replace = false })
    ]
  ]
]

module _ (w : Cluster) where
  -- the nonces of a drained cache
  unfoldable pub choose_fallback : Block → Bool → Act Held Chosen
  choose_fallback block has_ext s = elim (w.fallback (if has_ext then 2 else 1)) [
    | err e ↦ failing block (wrapped "failed to get nonces" e) s
    | panic t ↦ (panic t, s)
    | ok (cosigners, nonces) ↦ (chosen_of has_ext cosigners nonces, s)
  ]

  -- the nonces of an extension, for cosigners whose nonces for the vote came from the cache
  unfoldable pub choose_extension : Block → Bool → List ℤ → Act Held (Option CosignerUuidNonces)
  choose_extension block false cosigners s = (ok none, s)
  choose_extension block true cosigners s =
      let (r, cache) = get_nonces cosigners s.1 in
      elim r [
        | ok n ↦ (ok (some n), (s.0, cache))
        | panic t ↦ (panic t, (s.0, cache))
        | err _ ↦ elim (w.extension_nonces cosigners) [
          | ok n ↦ (ok (some n), (s.0, cache))
          | panic t ↦ (panic t, (s.0, cache))
          | err e ↦
              failing block (wrapped "failed to get nonces for vote extensions" e) (s.0, cache)
        ]
      ]

  -- the cosigners for the block: this one, and the fastest peers
  abbrev pub cosigners_for_block : List ℤ
  cosigners_for_block = w.my_id ∷ take (w.threshold - 1) w.fastest

  -- with the nonces of the cache for the vote
  abbrev pub chosen_from_cache :
      List ℤ → CosignerUuidNonces → Option CosignerUuidNonces → Act Held Chosen
  chosen_from_cache cosigners n ext =
      pure (record { cosigners = cosigners; nonces = n; ext_nonces = ext; may_replace = true })

  unfoldable pub choose_nonces : Block → Bool → Act Held Chosen
  choose_nonces block has_ext s =
      let (r, cache) = get_nonces cosigners_for_block s.1 in
      elim r [
        | panic t ↦ (panic t, (s.0, cache))
        | err _ ↦ choose_fallback block has_ext (s.0, cache)
        | ok n ↦
            (choose_extension block has_ext cosigners_for_block
                >>= chosen_from_cache cosigners_for_block n)
              (s.0, cache)
      ]

  -- the request that one cosigner gets
  unfoldable pub request_for : String → Block → Chosen → ℤ → CosignerSetNoncesAndSignRequest
  request_for chain_id block chosen id = record {
    chain_id = chain_id;
    hrst = block_hrst_key block;
    nonces = some (for_id chosen.nonces id);
    sign_bytes = block.sign_bytes;
    vote_extension_nonces = elim chosen.ext_nonces [ none ↦ none | some x ↦ some (for_id x id) ];
    vote_extension_sign_bytes = elim chosen.ext_nonces [
      | none ↦ none
      | some _ ↦ block.vote_extension_sign_bytes
    ];
  }
