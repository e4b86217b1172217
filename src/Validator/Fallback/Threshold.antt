-- ===== src/Validator/Fallback/Threshold.antt =====
-- When the fallback of signer/threshold_validator.go has enough nonces.
use horcrux.Prelude.{
  ℕ, ℤ, suc, zero, ◌+◌, ◌≤◌, ◌<◌, ◌==◌, ◌≡◌, refl, sym, ap, ◌∙◌, arith, List, [], ◌∷◌, ◌++◌, none,
  some, if◌then◌else◌, leb, length, take, Option-cases, inl, inr,
}
use horcrux.Outcome.{ok, err, message}
use horcrux.Cosigner.{CosignerUuidNonces}
use horcrux.Validator.Fallback.{
  Collected, nothing_yet, Arrival, merge, collect_one, wait_for_peer_nonces, wait_for_all,
  get_nonces_fallback,
}

-- the cosigners that have answered without an error
abbrev pub answered : List Arrival → List ℤ
answered [] = []
answered (a ∷ arrivals) = elim a.answer [
  | none ↦ answered arrivals
  | some _ ↦ a.peer ∷ answered arrivals
]

length-snoc : {A : Type 0} (xs : List A) (x : A) → length (xs ++ x ∷ []) ≡ length xs + 1
length-snoc [] x = omega arith
length-snoc (y ∷ xs) x = omega (arith, length-snoc xs x)

snoc-append : {A : Type 0} (xs : List A) (x : A) (ys : List A) → (xs ++ x ∷ []) ++ ys ≡ xs ++ x ∷ ys
snoc-append [] x ys = refl
snoc-append (y ∷ xs) x ys = ap (λ l. y ∷ l) (snoc-append xs x ys)

append-nil : {A : Type 0} (xs : List A) → xs ++ [] ≡ xs
append-nil [] = refl
append-nil (y ∷ xs) = ap (λ l. y ∷ l) (append-nil xs)

silent :
    (threshold : ℕ) (a : Arrival) (s : Collected)
    → a.answer ≡ none
    → wait_for_peer_nonces threshold a s ≡ s
unfolding wait_for_peer_nonces
silent threshold a s e = ground arith

late :
    (threshold : ℕ) (a : Arrival) (s : Collected)
    → threshold ≤ length s.cosigners
    → wait_for_peer_nonces threshold a s ≡ s
unfolding wait_for_peer_nonces collect_one
late threshold a s h = ground arith

abbrev joined : Arrival → List CosignerUuidNonces → ℕ → Collected → Collected
joined a ns closes s = record {
  cosigners = s.cosigners ++ a.peer ∷ [];
  nonces = merge ns s.nonces;
  closes = closes;
}

early :
    (threshold n : ℕ) (a : Arrival) (ns : List CosignerUuidNonces) (s : Collected)
    → a.answer ≡ some ns
    → threshold ≡ length s.cosigners + suc n
    → wait_for_peer_nonces threshold a s ≡ joined a ns (if n == 0 then s.closes + 1 else s.closes) s
unfolding wait_for_peer_nonces collect_one
early threshold n a ns s e h = ground (arith, length-snoc s.cosigners a.peer)

not_last :
    (threshold n : ℕ) (a : Arrival) (ns : List CosignerUuidNonces) (s : Collected)
    → a.answer ≡ some ns
    → threshold ≡ length s.cosigners + suc (suc n)
    → wait_for_peer_nonces threshold a s ≡ joined a ns s.closes s
not_last threshold n a ns s e h = ground (arith, early threshold (suc n) a ns s e h)

-- once the threshold is reached nothing is changed
wait_for_all-full :
    (threshold : ℕ) (arrivals : List Arrival) (s : Collected)
    → threshold ≤ length s.cosigners
    → wait_for_all threshold arrivals s ≡ s
unfolding wait_for_all
wait_for_all-full threshold [] s h = refl
wait_for_all-full threshold (a ∷ arrivals) s h =
    rw (late threshold a s h) (wait_for_all-full threshold arrivals s h)

abbrev Ends : ℕ → List Arrival → Collected → Collected → Type 0
Ends n arrivals s end =
    (end.cosigners ≡ s.cosigners ++ take (suc n) (answered arrivals))
    × (end.closes ≡ (if leb (suc n) (length (answered arrivals)) then s.closes + 1 else s.closes))

answered-silent :
    (a : Arrival) (arrivals : List Arrival)
    → a.answer ≡ none
    → answered (a ∷ arrivals) ≡ answered arrivals
answered-silent a arrivals e = ground arith

answered-heard :
    (a : Arrival) (arrivals : List Arrival) (ns : List CosignerUuidNonces)
    → a.answer ≡ some ns
    → answered (a ∷ arrivals) ≡ a.peer ∷ answered arrivals
answered-heard a arrivals ns e = ground arith

silent-Ends :
    (threshold n : ℕ) (a : Arrival) (arrivals : List Arrival) (s : Collected)
    → a.answer ≡ none
    → Ends n arrivals s (wait_for_all threshold arrivals s)
    → Ends n (a ∷ arrivals) s (wait_for_all threshold (a ∷ arrivals) s)
unfolding wait_for_all
silent-Ends threshold n a arrivals s e (c, k) =
    let q : wait_for_all threshold (a ∷ arrivals) s ≡ wait_for_all threshold arrivals s =
      ap (λ z. wait_for_all threshold arrivals z) (silent threshold a s e) in
    rw (q, answered-silent a arrivals e) (c, k)

-- the goroutine of the last cosigner that is missing
last-Ends :
    (threshold : ℕ) (a : Arrival) (ns : List CosignerUuidNonces) (arrivals : List Arrival)
    (s : Collected)
    → a.answer ≡ some ns
    → threshold ≡ length s.cosigners + 1
    → Ends 0 (a ∷ arrivals) s (wait_for_all threshold (a ∷ arrivals) s)
unfolding wait_for_all
last-Ends threshold a ns arrivals s e h =
    let q : wait_for_all threshold (a ∷ arrivals) s ≡ joined a ns (s.closes + 1) s =
      ap (λ z. wait_for_all threshold arrivals z) (early threshold 0 a ns s e h)
      ∙ wait_for_all-full threshold arrivals (joined a ns (s.closes + 1) s)
          (omega (arith, length-snoc s.cosigners a.peer, h)) in
    rw (q, answered-heard a arrivals ns e) (refl, ground arith)

heard-Ends :
    (threshold n : ℕ) (a : Arrival) (ns : List CosignerUuidNonces) (arrivals : List Arrival)
    (s : Collected)
    → a.answer ≡ some ns
    → threshold ≡ length s.cosigners + suc (suc n)
    → Ends n arrivals
        (joined a ns s.closes s)
        (wait_for_all threshold arrivals (joined a ns s.closes s))
    → Ends (suc n) (a ∷ arrivals) s (wait_for_all threshold (a ∷ arrivals) s)
unfolding wait_for_all
heard-Ends threshold n a ns arrivals s e h (c, k) =
    let q : wait_for_all threshold (a ∷ arrivals) s
        ≡ wait_for_all threshold arrivals (joined a ns s.closes s) =
      ap (λ z. wait_for_all threshold arrivals z) (not_last threshold n a ns s e h) in
    rw (q, answered-heard a arrivals ns e)
      (c ∙ snoc-append s.cosigners a.peer (take (suc n) (answered arrivals)), ground arith)

-- where `n + 1` cosigners are missing
wait_for_all-Ends :
    (threshold n : ℕ) (arrivals : List Arrival) (s : Collected)
    → threshold ≡ length s.cosigners + suc n
    → Ends n arrivals s (wait_for_all threshold arrivals s)
wait_for_all-Ends threshold n [] s h =
    unfold wait_for_all in (sym (append-nil s.cosigners), ground arith)
wait_for_all-Ends threshold zero (a ∷ arrivals) s h = elim (Option-cases a.answer) [
  | inl e ↦
      silent-Ends threshold zero a arrivals s e (wait_for_all-Ends threshold zero arrivals s h)
  | inr (ns, e) ↦ last-Ends threshold a ns arrivals s e h
]
wait_for_all-Ends threshold (suc n) (a ∷ arrivals) s h = elim (Option-cases a.answer) [
  | inl e ↦
      silent-Ends threshold (suc n) a arrivals s e
        (wait_for_all-Ends threshold (suc n) arrivals s h)
  | inr (ns, e) ↦ heard-Ends threshold n a ns arrivals s e h (
      wait_for_all-Ends threshold n arrivals (joined a ns s.closes s)
        (omega (arith, length-snoc s.cosigners a.peer, h)))
]

-- For a threshold above 0 the fallback returns exactly when at least that many cosigners have answered
-- without an error before the timeout, and then with the first of them, as many as the threshold; the
-- channel is closed at most once, whoever answers late.
pub get_nonces_fallback_lem :
    (threshold : ℕ) (arrivals : List Arrival)
    → 0 < threshold
    → let s = wait_for_all threshold arrivals nothing_yet in
      (get_nonces_fallback threshold arrivals ≡ (
        if leb threshold (length (answered arrivals))
        then ok s
        else err (message "timed out waiting for ephemeral shares")))
      × (s.cosigners ≡ take threshold (answered arrivals))
      × (s.closes ≤ 1)
unfolding get_nonces_fallback
get_nonces_fallback_lem (suc n) arrivals h =
    let (c, k) = wait_for_all-Ends (suc n) n arrivals nothing_yet (omega arith) in
    (ground arith, c, ground arith)
get_nonces_fallback_lem zero arrivals h = absurd (omega (arith, h))
