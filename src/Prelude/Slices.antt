-- ===== src/Prelude/Slices.antt =====
-- Go byte slices: `none` is the nil slice, which differs from an empty one where the code tests
-- for nil and not where it compares contents or takes a length.
use Prim.Native.Nat.{ℕ}
use mathlib.Core.Path.{◌≡◌, refl}
use mathlib.Core.Logic.{◌↔◌}
use mathlib.Core.Bool.{Bool, true, false, ◌&&◌}
use mathlib.Core.Option.{Option, none, some}
use mathlib.Core.List.{List, [], ◌∷◌}
use native.Mathlib.Omega.{arith}
use horcrux.Prelude.Tests.{◌==◌}

abbrev pub Bytes : Type 0
Bytes = Option (List ℕ)

abbrev pub contents : Bytes → List ℕ
contents none = []
contents (some l) = l

abbrev pub is_nil : Bytes → Bool
is_nil none = true
is_nil (some l) = false

-- `len(b) == 0`
abbrev pub is_empty_list : List ℕ → Bool
is_empty_list [] = true
is_empty_list (x ∷ l) = false

abbrev pub is_empty : Bytes → Bool
is_empty b = is_empty_list (contents b)

unfoldable pub list_eq : List ℕ → List ℕ → Bool
list_eq [] [] = true
list_eq (x ∷ xs) (y ∷ ys) = (x == y) && list_eq xs ys
list_eq _ _ = false

pub list_eq_iff : (xs ys : List ℕ) → (list_eq xs ys ≡ true) ↔ (xs ≡ ys)
unfolding list_eq
list_eq_iff [] [] = (λ h. refl, λ h. refl)
list_eq_iff [] (y ∷ ys) = (λ h. cc, λ h. cc)
list_eq_iff (x ∷ xs) [] = (λ h. cc, λ h. cc)
list_eq_iff (x ∷ xs) (y ∷ ys) =
    (λ h. ground (arith, list_eq_iff xs ys), λ h. ground (arith, list_eq_iff xs ys))

-- `bytes.Equal`
unfoldable pub bytes_equal : Bytes → Bytes → Bool
bytes_equal a b = list_eq (contents a) (contents b)

pub bytes_equal_iff : (a b : Bytes) → (bytes_equal a b ≡ true) ↔ (contents a ≡ contents b)
unfolding bytes_equal
bytes_equal_iff a b = list_eq_iff (contents a) (contents b)

-- `make` of the same length and `copy`: the copy of a nil slice is empty and not nil
abbrev pub clone : Bytes → Bytes
clone b = some (contents b)
