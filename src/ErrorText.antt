-- ===== src/ErrorText.antt =====
-- The texts of the errors, the `Error` methods of signer/sign_state.go and
-- signer/threshold_validator.go, and `strings.Contains`, by which a refusal that crossed a connection
-- as a text is recognised.
pub mod Within
use horcrux.Prelude.{
  ℕ, zero, suc, ◌+◌, ◌-◌, ◌/◌, ◌%◌, ◌==◌, ltb, ℤ, pos, negsuc, String, contents, Bool, true, false,
  ◌&&◌, ◌||◌, List, [], ◌∷◌, ◌++◌, if◌then◌else◌,
}
use horcrux.Outcome.{
  Error, height_regression, round_regression, step_regression, empty_sign_bytes, same_hrs,
  unmarshal_error, already_signed_vote, diff_block_ids, conflicting_data, beyond_block,
  still_waiting_for_block, same_block, message, wrapped,
}
use horcrux.Hrs.{HrsKey}
use horcrux.ChainId.{codes}

-- A text is the list of its characters.
abbrev pub Text : Type 0
Text = List ℕ

-- the last `count` decimal digits of `n`, without leading zeros
abbrev digits : (count n : ℕ) → Text
digits zero n = []
digits (suc count) n =
    let front = digits count (n / 10) in (if ltb n 10 then [] else front) ++ ((b'0' + n % 10) ∷ [])

-- `%d` of an int64, which has at most 19 digits
abbrev pub decimal : ℤ → Text
decimal (pos n) = digits 19 n
decimal (negsuc n) = b'-' ∷ digits 19 (suc n)

abbrev pub hex_digit : ℕ → ℕ
hex_digit d = if ltb d 10 then b'0' + d else b'a' + (d - 10)

-- `hex.EncodeToString`
abbrev pub hex : List ℕ → Text
hex [] = []
hex (x ∷ xs) = hex_digit (x / 16) ∷ hex_digit (x % 16) ∷ hex xs

-- `%d.%d.%d` and `%d:%d:%d`
abbrev triple : (separator : ℕ) → HrsKey → Text
triple separator k =
    decimal k.height ++ (separator ∷ (decimal k.round ++ (separator ∷ decimal k.step)))

-- "[chain ID] " in front of a text
abbrev of_chain : String → Text → Text
of_chain chain_id t = codes "[" ++ (codes chain_id ++ (codes "] " ++ t))

abbrev pub progress_text : HrsKey → HrsKey → Text
progress_text latest block =
    codes "Progress already started on block "
    ++ (triple b'.' latest ++ (codes ", skipping " ++ triple b'.' block))

-- the cause of an `UnmarshalError` is protobuf's, and its text a parameter
module _ (cause : Text) where
  -- `Error()`
  unfoldable pub error_text : Error → Text
  error_text (height_regression regressed last) =
      codes "height regression. Got "
      ++ (decimal regressed ++ (codes ", last height " ++ decimal last))
  error_text (round_regression height regressed last) =
      codes "round regression at height "
      ++ (decimal height
          ++ (codes ". Got " ++ (decimal regressed ++ (codes ", last round " ++ decimal last))))
  error_text (step_regression height round regressed last) =
      codes "step regression at height "
      ++ (decimal height
          ++ (codes ", round "
              ++ (decimal round
                  ++ (codes ". Got "
                      ++ (decimal regressed ++ (codes ", last step " ++ decimal last))))))
  error_text empty_sign_bytes = codes "no SignBytes found"
  error_text (same_hrs k) = codes "HRS is the same as current: " ++ triple b':' k
  error_text (unmarshal_error name sign_type) =
      codes name
      ++ (codes " cannot be unmarshalled into " ++ (codes sign_type ++ (codes ": " ++ cause)))
  error_text (already_signed_vote true) =
      codes "already signed vote with non-nil BlockID. refusing to sign vote on nil BlockID"
  error_text (already_signed_vote false) =
      codes "already signed vote with nil BlockID. refusing to sign vote on non-nil BlockID"
  error_text (diff_block_ids first second) =
      codes "differing block IDs - last Vote: "
      ++ (contents first ++ (codes ", new Vote: " ++ contents second))
  error_text (conflicting_data existing new) =
      codes "conflicting data. existing: "
      ++ (hex (contents existing) ++ (codes " - new: " ++ hex (contents new)))
  error_text (beyond_block chain_id latest block) = of_chain chain_id (progress_text latest block)
  error_text (still_waiting_for_block chain_id k) =
      of_chain chain_id (codes "Still waiting for block " ++ triple b'.' k)
  error_text (same_block chain_id k) = of_chain chain_id (codes "Same block: " ++ triple b'.' k)
  error_text (message m) = codes m
  error_text (wrapped m e) = codes m ++ (codes ": " ++ error_text e)

-- `strings.HasPrefix`
unfoldable pub has_prefix : (text prefix : Text) → Bool
has_prefix text [] = true
has_prefix [] (p ∷ ps) = false
has_prefix (c ∷ cs) (p ∷ ps) = (c == p) && has_prefix cs ps

-- `strings.Contains`
unfoldable pub within : (text part : Text) → Bool
unfolding has_prefix
within [] part = has_prefix [] part
within (c ∷ cs) part = has_prefix (c ∷ cs) part || within cs part
