-- ===== src/ChainFiles/Apart.antt =====
-- The files of different chains, signer/config.go, are different.
use horcrux.Prelude.{
  is_empty_list, ◌==◌, Bool, true, false, String, [], ◌∷◌, ◌++◌, ◌≡◌, refl, sym, ap, ◌∙◌, arith,
}
use horcrux.Outcome.{ok}
use horcrux.ChainId.{codes, IsFileName, validate_chain_id, validate_chain_id-IsFileName}
use horcrux.ErrorText.{Text}
use horcrux.ChainFiles.{
  RuntimeConfig, ChainFile, single_signer_key, cosigner_key, priv_val_state, cosigner_state, suffix,
  file_name, directory, chain_file_path,
}

abbrev reversed : Text → Text
reversed [] = []
reversed (x ∷ xs) = reversed xs ++ (x ∷ [])

append_nil : (xs : Text) → xs ++ [] ≡ xs
append_nil [] = refl
append_nil (x ∷ xs) = ap (λ l. x ∷ l) (append_nil xs)

append_assoc : (xs ys zs : Text) → (xs ++ ys) ++ zs ≡ xs ++ (ys ++ zs)
append_assoc [] ys zs = refl
append_assoc (x ∷ xs) ys zs = ap (λ l. x ∷ l) (append_assoc xs ys zs)

reversed-append : (xs ys : Text) → reversed (xs ++ ys) ≡ reversed ys ++ reversed xs
reversed-append [] ys = sym (append_nil (reversed ys))
reversed-append (x ∷ xs) ys =
    ap (λ l. l ++ (x ∷ [])) (reversed-append xs ys)
    ∙ append_assoc (reversed ys) (reversed xs) (x ∷ [])

reversed_twice : (xs : Text) → reversed (reversed xs) ≡ xs
reversed_twice [] = refl
reversed_twice (x ∷ xs) =
    reversed-append (reversed xs) (x ∷ []) ∙ ap (λ l. x ∷ l) (reversed_twice xs)

reversed_eq : (xs ys : Text) → reversed xs ≡ reversed ys → xs ≡ ys
reversed_eq xs ys h = sym (reversed_twice xs) ∙ ap reversed h ∙ reversed_twice ys

-- A name tells which file of which chain it is.
file_name-eq :
    (k l : ChainFile) (cs ds : Text)
    → reversed (suffix k) ++ reversed cs ≡ reversed (suffix l) ++ reversed ds
    → (k ≡ l) × (reversed cs ≡ reversed ds)
file_name-eq single_signer_key single_signer_key cs ds h = (refl, ground arith)
file_name-eq cosigner_key cosigner_key cs ds h = (refl, ground arith)
file_name-eq priv_val_state priv_val_state cs ds h = (refl, ground arith)
file_name-eq cosigner_state cosigner_state cs ds h = (refl, ground arith)
file_name-eq _ _ cs ds h = absurd (ground arith)

IsFileName-append :
    (after_dot : Bool) (cs sfx : Text)
    → ((b : Bool) → IsFileName b sfx)
    → IsFileName after_dot cs
    → IsFileName after_dot (cs ++ sfx)
IsFileName-append b [] sfx s h = s b
IsFileName-append b (c ∷ cs) sfx s (p, q, r, h) =
    (p, q, r, IsFileName-append (c == b'.') cs sfx s h)

suffix-IsFileName : (k : ChainFile) (b : Bool) → IsFileName b (suffix k)
suffix-IsFileName single_signer_key true = search refl
suffix-IsFileName single_signer_key false = search refl
suffix-IsFileName cosigner_key true = search refl
suffix-IsFileName cosigner_key false = search refl
suffix-IsFileName priv_val_state true = search refl
suffix-IsFileName priv_val_state false = search refl
suffix-IsFileName cosigner_state true = search refl
suffix-IsFileName cosigner_state false = search refl

append-filled : (cs sfx : Text) → is_empty_list sfx ≡ false → is_empty_list (cs ++ sfx) ≡ false
append-filled [] sfx h = h
append-filled (c ∷ cs) sfx h = refl

suffix-filled : (k : ChainFile) → is_empty_list (suffix k) ≡ false
suffix-filled single_signer_key = refl
suffix-filled cosigner_key = refl
suffix-filled priv_val_state = refl
suffix-filled cosigner_state = refl

file_name-filled :
    (k : ChainFile) (chain_id : String) → is_empty_list (file_name k chain_id) ≡ false
file_name-filled k chain_id = append-filled (codes chain_id) (suffix k) (suffix-filled k)

-- The paths of two files are the same only for the same kind of file of the same chain: for accepted chain
-- IDs, and where a joined name that is not empty is the last element of the path.
pub chain_file_path-eq :
    (join : (dir name : Text) → Text) (base : Text → Text)
    → ((dir name : Text)
        → is_empty_list name ≡ false
        → IsFileName true name
        → base (join dir name) ≡ name)
    → (c : RuntimeConfig) (k l : ChainFile) (chain_id other : String)
    → validate_chain_id chain_id ≡ ok tt
    → validate_chain_id other ≡ ok tt
    → chain_file_path join c k chain_id ≡ chain_file_path join c l other
    → (k ≡ l) × (codes chain_id ≡ codes other)
unfolding chain_file_path
chain_file_path-eq join base law c k l chain_id other v w h =
    let named : IsFileName true (file_name k chain_id) =
      IsFileName-append true (codes chain_id) (suffix k) (suffix-IsFileName k)
        (validate_chain_id-IsFileName chain_id v) in
    let named' : IsFileName true (file_name l other) =
      IsFileName-append true (codes other) (suffix l) (suffix-IsFileName l)
        (validate_chain_id-IsFileName other w) in
    let same : file_name k chain_id ≡ file_name l other =
      sym (law (directory c k) (file_name k chain_id) (file_name-filled k chain_id) named)
      ∙ ap base h
      ∙ law (directory c l) (file_name l other) (file_name-filled l other) named' in
    let told = file_name-eq k l (codes chain_id) (codes other) (
      sym (reversed-append (codes chain_id) (suffix k))
      ∙ ap reversed same
      ∙ reversed-append (codes other) (suffix l)) in
    (told.0, reversed_eq (codes chain_id) (codes other) told.1)
