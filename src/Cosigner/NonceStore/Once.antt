-- ===== src/Cosigner/NonceStore/Once.antt =====
-- A nonce leaves the store of signer/local_cosigner.go when it is read.
use horcrux.Prelude.{
  ℕ, ℤ, ◌≤◌, ◌≡◌, inl, inr, arith, List, none, some, lookup, lookup-delete, nat_Eq, Option-cases,
  length, if◌then◌else◌, ◌==◌,
}
use horcrux.Outcome.{ok, Outcome-cases, returned, failed, panicked}
use horcrux.Cosigner.{Uuid, Nonce, NoncesWithExpiration}
use horcrux.Cosigner.NonceStore.{NonceMap, combined_nonces, usable_nonces}

-- Reading the nonces of a UUID removes them on every branch, error or not, and touches no other
-- UUID.
pub lookup-combined_nonces :
    (id : ℤ) (threshold : ℕ) (uuid j : Uuid) (m : NonceMap)
    → lookup j (combined_nonces id threshold uuid m).1 ≡ (if uuid == j then none else lookup j m)
unfolding combined_nonces
lookup-combined_nonces id threshold uuid j m = ground (arith, lookup-delete uuid j m)

-- What is read is at least as many nonces as the threshold, from a stored entry.
pub combined_nonces-ok :
    (id : ℤ) (threshold : ℕ) (uuid : Uuid) (m : NonceMap) (l : List Nonce)
    → (combined_nonces id threshold uuid m).0 ≡ ok l
    → (threshold ≤ length l)
      × (n : NoncesWithExpiration) × (lookup uuid m ≡ some n)
      × (usable_nonces id n.nonces ≡ ok l)
unfolding combined_nonces
combined_nonces-ok id threshold uuid m l h = elim (Option-cases (lookup uuid m)) [
  | inl e ↦ absurd (ground arith)
  | inr (n, e) ↦ elim (Outcome-cases (usable_nonces id n.nonces)) [
    | failed x f ↦ absurd (ground arith)
    | panicked x f ↦ absurd (ground arith)
    | returned l' f ↦ (ground arith, n, e, ground arith)
  ]
]
