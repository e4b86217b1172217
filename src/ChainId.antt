-- ===== src/ChainId.antt =====
-- `ValidateChainID` of signer/config.go: a chain ID becomes part of a file name.
use Prim.Native.Char.{code}
use Prim.Native.String.{len}
use horcrux.Prelude.{
  ℕ, ◌≤◌, String, string_Eq, ◌=?◌, Bool, true, false, ◌&&◌, ◌||◌, not, ◌≡◌, ◌↔◌, inl, inr, refl,
  arith, ltb, leb, ◌==◌, List, [], ◌∷◌, if◌then◌else◌, Bool-cases, subst, eq_of_=?,
}
use horcrux.Outcome.{Outcome, ok, err, message}

abbrev pub max_chain_id_len : ℕ
max_chain_id_len = 50

-- the code points of a text
abbrev pub codes : String → List ℕ
codes String.[] = []
codes (String.◌∷◌ c s) = code c ∷ codes s

-- `[a-zA-Z0-9_-]`
unfoldable pub is_word : ℕ → Bool
is_word c =
    (leb b'a' c && leb c b'z')
    || (leb b'A' c && leb c b'Z')
    || (leb b'0' c && leb c b'9')
    || (c == b'_')
    || (c == b'-')

-- `^[a-zA-Z0-9_-]+(?:\.[a-zA-Z0-9_-]+)*$`; the flag says whether the last character was a word's
unfoldable pub match_pattern : Bool → List ℕ → Bool
unfolding is_word
match_pattern in_word [] = in_word
match_pattern in_word (c ∷ cs) =
    let inside = match_pattern true cs in
    let outside = match_pattern false cs in
    if is_word c then inside else (if in_word && (c == b'.') then outside else false)

unfoldable pub validate_chain_id : String → Outcome (Unit {0})
unfolding match_pattern
validate_chain_id chain_id =
    if chain_id =? ""
    then err (message "chain id cannot be empty")
    else if ltb max_chain_id_len (len chain_id)
    then err (message "chain id too long")
    else if not (match_pattern false (codes chain_id))
    then err (message "chain id contains invalid characters")
    else ok tt

-- Words of the allowed characters, joined by single dots: the strings of the pattern.
mutual
  pub data Words : List ℕ → Type 0 where
    start : {c : ℕ} {cs : List ℕ} → is_word c ≡ true → Rest cs → Words (c ∷ cs)

  pub data Rest : List ℕ → Type 0 where
    end : Rest []
    more : {c : ℕ} {cs : List ℕ} → is_word c ≡ true → Rest cs → Rest (c ∷ cs)
    dot : {c : ℕ} {cs : List ℕ} → c ≡ b'.' → Words cs → Rest (c ∷ cs)

-- No path separator, and no dot in front, where the flag is set, or behind another.
abbrev pub IsFileName : Bool → List ℕ → Type 0
IsFileName after_dot [] = Unit
IsFileName after_dot (c ∷ cs) =
    ((c == b'/') ≡ false)
    × ((c == b'\\') ≡ false)
    × ((after_dot && (c == b'.')) ≡ false)
    × IsFileName (c == b'.') cs

mutual
  unfolding match_pattern

  match→Words : (cs : List ℕ) → match_pattern false cs ≡ true → Words cs
  match→Words [] h = absurd (ground arith)
  match→Words (c ∷ cs) h = start (ground arith) (match→Rest cs (ground arith))

  match→Rest : (cs : List ℕ) → match_pattern true cs ≡ true → Rest cs
  match→Rest [] h = end
  match→Rest (c ∷ cs) h = elim (Bool-cases (is_word c)) [
    | inl w ↦ more w (match→Rest cs (ground arith))
    | inr n ↦ dot (ground arith) (match→Words cs (ground arith))
  ]

mutual
  unfolding match_pattern

  Words→match : (cs : List ℕ) → Words cs → match_pattern false cs ≡ true
  Words→match [] w = elim w [ ]
  Words→match (c ∷ cs) (start w r) = rw w (Rest→match cs r)

  Rest→match : (cs : List ℕ) → Rest cs → match_pattern true cs ≡ true
  Rest→match [] r = refl
  Rest→match (c ∷ cs) (more w r) = rw w (Rest→match cs r)
  Rest→match (c ∷ cs) (dot e w) = ground (arith, Words→match cs w)

mutual
  unfolding is_word

  Words-IsFileName : (cs : List ℕ) → Words cs → IsFileName true cs
  Words-IsFileName [] w = elim w [ ]
  Words-IsFileName (c ∷ cs) (start w r) =
      let n : (c == b'.') ≡ false = ground arith in
      (ground arith, ground arith, ground arith, rw n (Rest-IsFileName cs r))

  Rest-IsFileName : (cs : List ℕ) → Rest cs → IsFileName false cs
  Rest-IsFileName [] r = tt
  Rest-IsFileName (c ∷ cs) (more w r) =
      let n : (c == b'.') ≡ false = ground arith in
      (ground arith, ground arith, refl, rw n (Rest-IsFileName cs r))
  Rest-IsFileName (c ∷ cs) (dot e w) =
      let n : (c == b'.') ≡ true = ground arith in
      (ground arith, ground arith, refl, rw n (Words-IsFileName cs w))

codes-empty : (s : String) → Words (codes s) → (s =? "") ≡ false
codes-empty s w = elim (Bool-cases (s =? "")) [
  | inl e ↦ elim (subst (λ t. Words (codes t)) (eq_of_=? s "" e) w) [ ]
  | inr n ↦ n
]

-- A chain ID is accepted exactly when it is words of letters, digits, `_` and `-`, joined by single
-- dots, of at most 50 bytes in all.
pub validate_chain_id_iff :
    (s : String) → (validate_chain_id s ≡ ok tt) ↔ (Words (codes s) × (len s ≤ 50))
unfolding validate_chain_id
validate_chain_id_iff s = (
  λ h. (match→Words (codes s) (ground arith), ground arith),
  λ h. ground (arith, Words→match (codes s) h.0, codes-empty s h.0),
)

-- An accepted chain ID holds no path separator, does not start with a dot and holds no two dots in a
-- row.
pub validate_chain_id-IsFileName :
    (s : String) → validate_chain_id s ≡ ok tt → IsFileName true (codes s)
validate_chain_id-IsFileName s h = Words-IsFileName (codes s) ((validate_chain_id_iff s).0 h).0
