-- ===== src/Refusal/Texts.antt =====
-- `signRefusal` of signer/remote_signer.go: the types and the texts agree.
use horcrux.Prelude.{
  ℕ, zero, suc, String, true, false, List, [], ◌∷◌, ◌++◌, some, ◌≡◌, refl, sym, ap, ◌∙◌, arith,
  get_elem?, inl, inr, Bool-cases,
}
use horcrux.Outcome.{
  Error, height_regression, round_regression, step_regression, empty_sign_bytes, same_hrs,
  unmarshal_error, already_signed_vote, diff_block_ids, conflicting_data, beyond_block,
  still_waiting_for_block, same_block, message, wrapped,
}
use horcrux.ChainId.{codes}
use horcrux.ErrorText.{Text, error_text, progress_text, within, has_prefix}
use horcrux.ErrorText.Within.{has_prefix-within, within-append, within-behind}
use horcrux.Refusal.{sign_refusal_messages, is_refusal_type, within_any, sign_refusal}

-- A listed message that is in a text is found.
listed :
    (refusals : List String) (i : ℕ) (r : String) (text : Text)
    → get_elem? refusals i ≡ some r
    → within text (codes r) ≡ true
    → within_any text refusals ≡ true
unfolding within_any
listed [] i r text at h = absurd (ground arith)
listed (q ∷ refusals) zero r text at h = ground arith
listed (q ∷ refusals) (suc i) r text at h = ground (arith, listed refusals i r text at h)

-- A message that is in one text is found in another that has all the parts of it.
within_any_mono :
    (refusals : List String) (text text' : Text)
    → ((part : Text) → within text part ≡ true → within text' part ≡ true)
    → within_any text refusals ≡ true
    → within_any text' refusals ≡ true
unfolding within_any
within_any_mono [] text text' f h = absurd (ground arith)
within_any_mono (r ∷ refusals) text text' f h = elim (Bool-cases (within text (codes r))) [
  | inl here ↦ ground (arith, f (codes r) here)
  | inr there ↦ ground (arith, within_any_mono refusals text text' f (ground arith))
]

-- The text starts with the message at the index `i`.
starts :
    (text : Text) (i : ℕ) (r : String)
    → get_elem? sign_refusal_messages i ≡ some r
    → has_prefix text (codes r) ≡ true
    → within_any text sign_refusal_messages ≡ true
starts text i r at h = listed sign_refusal_messages i r text at (has_prefix-within text (codes r) h)

module _ (cause : Text) where
  -- The text of an error of a refusal's type has a listed message in it.
  refusal_type-listed :
      (e : Error)
      → is_refusal_type e ≡ true
      → within_any (error_text cause e) sign_refusal_messages ≡ true
  unfolding is_refusal_type error_text has_prefix
  refusal_type-listed (height_regression r l) h = starts _ 0 "height regression. Got " refl refl
  refusal_type-listed (round_regression g r l) h =
      starts _ 1 "round regression at height " refl refl
  refusal_type-listed (step_regression g o r l) h =
      starts _ 2 "step regression at height " refl refl
  refusal_type-listed empty_sign_bytes h = starts _ 8 "no SignBytes found" refl refl
  refusal_type-listed (same_hrs k) h = starts _ 6 "HRS is the same as current: " refl refl
  refusal_type-listed (unmarshal_error n s) h = absurd (ground arith)
  refusal_type-listed (already_signed_vote true) h =
      starts _ 5 "already signed vote with " refl refl
  refusal_type-listed (already_signed_vote false) h =
      starts _ 5 "already signed vote with " refl refl
  refusal_type-listed (diff_block_ids a b) h =
      starts _ 4 "differing block IDs - last Vote: " refl refl
  refusal_type-listed (conflicting_data a b) h = starts _ 3 "conflicting data" refl refl
  refusal_type-listed (beyond_block c l b) h =
      within_any_mono sign_refusal_messages (progress_text l b) _
        (λ part q. within-behind (codes "[") (codes c ++ (codes "] " ++ progress_text l b)) part (
          within-behind (codes c) (codes "] " ++ progress_text l b) part
            (within-behind (codes "] ") (progress_text l b) part q)))
        (starts (progress_text l b) 7 "Progress already started on block " refl refl)
  refusal_type-listed (still_waiting_for_block c k) h = absurd (ground arith)
  refusal_type-listed (same_block c k) h = absurd (ground arith)
  refusal_type-listed (message m) h = absurd (ground arith)
  refusal_type-listed (wrapped m e) h =
      within_any_mono sign_refusal_messages (error_text cause e) _
        (λ part q.
          within-behind (codes m) (codes ": " ++ error_text cause e) part
            (within-behind (codes ": ") (error_text cause e) part q))
        (refusal_type-listed e h)

  -- An error is classified by its text alone: the listed messages cover every type of a refusal.
  pub sign_refusal-text :
      (e : Error) → sign_refusal cause e ≡ within_any (error_text cause e) sign_refusal_messages
  unfolding sign_refusal
  sign_refusal-text e = elim (Bool-cases (is_refusal_type e)) [
    | inl typed ↦ ground (arith, refusal_type-listed e typed)
    | inr untyped ↦ ground arith
  ]

  -- A refusal stays one when another process passes it on as a plain text, with text before and after
  -- it.
  pub sign_refusal-message :
      (e : Error) (s : String) (before after : Text)
      → codes s ≡ before ++ (error_text cause e ++ after)
      → sign_refusal cause e ≡ true
      → sign_refusal cause (message s) ≡ true
  unfolding error_text
  sign_refusal-message e s before after same h =
      sign_refusal-text (message s)
      ∙ within_any_mono sign_refusal_messages (error_text cause e) (codes s)
          (λ part q.
            ap (λ t. within t part) same
            ∙ within-behind before (error_text cause e ++ after) part
                (within-append (error_text cause e) part after q))
          (sym (sign_refusal-text e) ∙ h)
