-- ===== src/Validator/Fallback.antt =====
-- `getNoncesFallback` and `waitForPeerNonces` of signer/threshold_validator.go: nonces that are drawn
-- from the cosigners while a block waits.
pub mod Threshold
use horcrux.Prelude.{
  ℕ, ℤ, suc, zero, ◌+◌, ◌-◌, ◌≤◌, ◌<◌, ◌==◌, Bool, true, false, ◌≡◌, refl, sym, ap, subst, ◌∙◌,
  arith, List, [], ◌∷◌, ◌++◌, Option, none, some, if◌then◌else◌, ltb, leb, length, take, Bool-cases,
  Option-cases, inl, inr,
}
use horcrux.Outcome.{Outcome, ok, err, message}
use horcrux.Cosigner.{CosignerUuidNonces}

-- `CosignersAndNonces`, and how often the channel `thresholdReached` was closed: closing it twice
-- would panic
pub record Collected : Type 0 where
  pub cosigners : List ℤ
  pub nonces : List CosignerUuidNonces
  pub closes : ℕ

abbrev pub nothing_yet : Collected
nothing_yet = record { cosigners = []; nonces = []; closes = 0 }

-- What a cosigner's `GetNonces` returned, `none` for an error, in the order in which the goroutines
-- take the lock.
pub record Arrival : Type 0 where
  pub peer : ℤ
  pub answer : Option (List CosignerUuidNonces)

-- the loop over what was collected: nonces for a UUID that is there are appended to it
unfoldable pub merge_one : CosignerUuidNonces → List CosignerUuidNonces → List CosignerUuidNonces
merge_one n [] = n ∷ []
merge_one n (x ∷ xs) =
    let rest = merge_one n xs in
    if n.uuid == x.uuid then record x { nonces = x.nonces ++ n.nonces } ∷ xs else x ∷ rest

unfoldable pub merge : List CosignerUuidNonces → List CosignerUuidNonces → List CosignerUuidNonces
unfolding merge_one
merge [] acc = acc
merge (n ∷ ns) acc = merge ns (merge_one n acc)

-- the part of `waitForPeerNonces` under the lock
unfoldable pub collect_one : ℕ → ℤ → List CosignerUuidNonces → Collected → Collected
collect_one threshold peer ns s = if leb threshold (length s.cosigners) then s else record {
  cosigners = s.cosigners ++ peer ∷ [];
  nonces = merge ns s.nonces;
  closes = if length (s.cosigners ++ peer ∷ []) == threshold then s.closes + 1 else s.closes;
}

-- `waitForPeerNonces`
unfoldable pub wait_for_peer_nonces : ℕ → Arrival → Collected → Collected
wait_for_peer_nonces threshold a s = elim a.answer [
  | none ↦ s
  | some ns ↦ collect_one threshold a.peer ns s
]

-- the goroutines one after the other
unfoldable pub wait_for_all : ℕ → List Arrival → Collected → Collected
wait_for_all threshold [] s = s
wait_for_all threshold (a ∷ arrivals) s =
    wait_for_all threshold arrivals (wait_for_peer_nonces threshold a s)

-- `getNoncesFallback`, for the arrivals before the timeout
unfoldable pub get_nonces_fallback : ℕ → List Arrival → Outcome Collected
get_nonces_fallback threshold arrivals =
    let s = wait_for_all threshold arrivals nothing_yet in
    if ltb 0 s.closes then ok s else err (message "timed out waiting for ephemeral shares")
