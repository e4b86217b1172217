-- ===== src/ErrorText/Within.antt =====
-- What `strings.Contains` of signer/remote_signer.go finds in a text that is put together from parts.
use horcrux.Prelude.{true, [], ◌∷◌, ◌++◌, ◌≡◌, refl, arith}
use horcrux.ErrorText.{Text, has_prefix, within}

has_prefix-append :
    (text part after : Text) → has_prefix text part ≡ true → has_prefix (text ++ after) part ≡ true
unfolding has_prefix
has_prefix-append text [] after h = refl
has_prefix-append [] (p ∷ ps) after h = absurd (ground arith)
has_prefix-append (c ∷ cs) (p ∷ ps) after h = ground (arith, has_prefix-append cs ps after)

pub has_prefix-within : (text part : Text) → has_prefix text part ≡ true → within text part ≡ true
unfolding within
has_prefix-within [] part h = h
has_prefix-within (c ∷ cs) part h = ground (arith, h)

-- A part of a text is in what the text is the front of.
pub within-append :
    (text part after : Text) → within text part ≡ true → within (text ++ after) part ≡ true
unfolding within
within-append [] [] [] h = refl
within-append [] [] (a ∷ after) h = refl
within-append [] (p ∷ ps) after h = absurd (ground arith)
within-append (c ∷ cs) part after h =
    ground (arith, has_prefix-append (c ∷ cs) part after, within-append cs part after)

-- A part of a text is in what the text is the end of.
pub within-behind :
    (before text part : Text) → within text part ≡ true → within (before ++ text) part ≡ true
unfolding within
within-behind [] text part h = h
within-behind (b ∷ before) text part h = ground (arith, within-behind before text part h)
