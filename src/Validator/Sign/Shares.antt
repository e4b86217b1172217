-- ===== src/Validator/Sign/Shares.antt =====
-- The goroutines of `Sign` of signer/threshold_validator.go that collect the cosigners' shares.
use horcrux.Prelude.{
  ℤ, Bytes, String, true, false, ◌&&◌, not, List, [], ◌∷◌, none, some, if◌then◌else◌, eqb_ℤ, ltb,
  length, set,
}
use horcrux.Outcome.{Error, Outcome, ok, err, panic, message}
use horcrux.Cosigner.{CosignerSignResponse, slot}
use horcrux.Cosigner.NonceStore.{join}
use horcrux.NonceCache.{CosignerNonceCache, clear_nonces}
use horcrux.Validator.{Block}
use horcrux.Validator.Sign.{Cluster, Chosen, request_for}

-- The shares so far, in the slots of their cosigners, the peers that are left to take over, and the
-- nonce cache.
pub record Round : Type 0 where
  pub shares : List Bytes
  pub ext_shares : List Bytes
  pub spares : List ℤ
  pub cache : CosignerNonceCache

-- a write to a slice
abbrev put : List Bytes → ℤ → Bytes → Outcome (List Bytes)
put l id b = elim (slot id) [
  | none ↦ panic "index out of range"
  | some i ↦ if ltb i (length l) then ok (set l i b) else panic "index out of range"
]

unfoldable pub store_share : ℤ → CosignerSignResponse → Round → Outcome (Unit {0}) × Round
store_share id res r = elim (put r.shares id res.signature) [
  | err e ↦ (err e, r)
  | panic t ↦ (panic t, r)
  | ok shares ↦ elim (put r.ext_shares id res.vote_extension_signature) [
    | err e ↦ (err e, r)
    | panic t ↦ (panic t, r)
    | ok ext_shares ↦ (ok tt, record r { shares = shares; ext_shares = ext_shares })
  ]
]

module _ (w : Cluster) where
  -- what an error of a cosigner does to the nonce cache
  unfoldable pub forget : ℤ → Error → CosignerNonceCache → CosignerNonceCache
  forget id e cache =
      let lost = if w.is_unexpected_state e then clear_nonces id cache else cache in
      if not (eqb_ℤ id w.my_id) && w.is_unreachable e then clear_nonces id lost else lost

  -- the error where no other cosigner takes over
  abbrev none_available : ℤ → Error → Error
  none_available id e = if eqb_ℤ id w.my_id then e else message "no cosigners available to sign"

  -- the goroutine that starts with the cosigner `id`; `spares` are the peers that may take over
  unfoldable pub sign_with_cosigner :
      String → Block → Chosen → ℤ → (spares : List ℤ) → Round → Outcome (Unit {0}) × Round
  sign_with_cosigner chain_id block chosen id [] r =
      elim (w.call id (request_for w chain_id block chosen id)) [
        | panic t ↦ (panic t, r)
        | ok res ↦ store_share id res (record r { spares = [] })
        | err e ↦ (err (none_available id e), record r { spares = []; cache = forget id e r.cache })
      ]
  sign_with_cosigner chain_id block chosen id (next ∷ rest) r =
      elim (w.call id (request_for w chain_id block chosen id)) [
        | panic t ↦ (panic t, r)
        | ok res ↦ store_share id res (record r { spares = next ∷ rest })
        | err e ↦ elim (not (eqb_ℤ id w.my_id) && chosen.may_replace) [
          | true ↦
              sign_with_cosigner chain_id block chosen next rest
                (record r { cache = forget id e r.cache })
          | false ↦ (
            err (none_available id e),
            record r { spares = next ∷ rest; cache = forget id e r.cache },
          )
        ]
      ]

  -- the goroutines one after the other: all of them run
  unfoldable pub sign_with_all :
      String → Block → Chosen → List ℤ → Round → Outcome (Unit {0}) × Round
  sign_with_all chain_id block chosen [] r = (ok tt, r)
  sign_with_all chain_id block chosen (id ∷ ids) r =
      let (a, r') = sign_with_cosigner chain_id block chosen id r.spares r in
      let (b, r'') = sign_with_all chain_id block chosen ids r' in (join a b, r'')
