-- ===== src/Refusal.antt =====
-- `signRefusal` of signer/remote_signer.go, which tells a deliberate refusal to sign from an error that
-- passes, by its type or by the messages of signer/sign_state.go.
pub mod Texts
use horcrux.Prelude.{String, Bool, true, false, ◌||◌, List, [], ◌∷◌}
use horcrux.Outcome.{
  Error, height_regression, round_regression, step_regression, same_hrs, already_signed_vote,
  diff_block_ids, conflicting_data, beyond_block, wrapped,
}
use horcrux.ChainId.{codes}
use horcrux.ErrorText.{Text, error_text, within}

-- `signRefusalMessages`
abbrev pub sign_refusal_messages : List String
sign_refusal_messages =
    "height regression. Got " ∷ "round regression at height " ∷ "step regression at height "
    ∷ "conflicting data" ∷ "differing block IDs - last Vote: " ∷ "already signed vote with "
    ∷ "HRS is the same as current: " ∷ "Progress already started on block " ∷ "no SignBytes found"
    ∷ []

-- `errors.As` for the eight types of `signRefusal`
unfoldable pub is_refusal_type : Error → Bool
is_refusal_type (height_regression _ _) = true
is_refusal_type (round_regression _ _ _) = true
is_refusal_type (step_regression _ _ _ _) = true
is_refusal_type (same_hrs _) = true
is_refusal_type (already_signed_vote _) = true
is_refusal_type (diff_block_ids _ _) = true
is_refusal_type (conflicting_data _ _) = true
is_refusal_type (beyond_block _ _ _) = true
is_refusal_type (wrapped _ e) = is_refusal_type e
is_refusal_type _ = false

-- the loop over `signRefusalMessages`
unfoldable pub within_any : Text → List String → Bool
within_any text [] = false
within_any text (refusal ∷ refusals) = within text (codes refusal) || within_any text refusals

module _ (cause : Text) where
  -- `signRefusal`
  unfoldable pub sign_refusal : Error → Bool
  sign_refusal e = is_refusal_type e || within_any (error_text cause e) sign_refusal_messages
