-- ===== src/Sharing/Moments.antt =====
-- Weighted sums of the values of a polynomial, on which `CombineShares` of signer/tsed25519/ed25519.go
-- rests. A point is a weight with the place where the polynomial is read.
use horcrux.Prelude.{
  ℕ, zero, suc, ◌+◌, ◌*◌, ◌%◌, ◌≤◌, ◌≡◌, refl, sym, ap, ◌∙◌, arith, List, [], ◌∷◌, Bool, true, ◌&&◌,
  ◌==◌, length,
}
use native.Mathlib.Nat.{mul-add, mul_assoc, mul_comm, mod-mod, zero-mod, mul-zero}
use horcrux.Sharing.{horner}
use horcrux.Sharing.Modular.{mul-mod-mod, mul_congr, add_congr}

abbrev pub Points : Type 0
Points = List (ℕ × ℕ)

-- the value of a polynomial, its constant first
abbrev pub eval : ℕ → List ℕ → ℕ
eval x [] = 0
eval x (c ∷ cs) = c + x * eval x cs

abbrev pub mass : Points → ℕ
mass [] = 0
mass ((w, x) ∷ ps) = w + mass ps

-- each weight times its place
abbrev pub scale : Points → Points
scale [] = []
scale ((w, x) ∷ ps) = (w * x, x) ∷ scale ps

abbrev pub weighted : Points → List ℕ → ℕ
weighted [] cs = 0
weighted ((w, x) ∷ ps) cs = w * eval x cs + weighted ps cs

weighted-nil : (ps : Points) → weighted ps [] ≡ 0
weighted-nil [] = refl
weighted-nil ((w, x) ∷ ps) = ground (arith, weighted-nil ps)

step : (w x c e m v : ℕ) → w * (c + x * e) + (c * m + v) ≡ c * (w + m) + (w * x * e + v)
step w x c e m v = grind (arith, mul-add w c (x * e), mul-add c w m, mul_assoc w x e, mul_comm w c)

weighted-cons :
    (ps : Points) (c : ℕ) (cs : List ℕ)
    → weighted ps (c ∷ cs) ≡ c * mass ps + weighted (scale ps) cs
weighted-cons [] c cs = omega arith
weighted-cons ((w, x) ∷ ps) c cs =
    ap (λ t. w * (c + x * eval x cs) + t) (weighted-cons ps c cs)
    ∙ step w x c (eval x cs) (mass ps) (weighted (scale ps) cs)

module _ (m : ℕ) where
  -- the first `k` moments are zero modulo `m`
  abbrev pub cancels : ℕ → Points → Bool
  cancels zero ps = true
  cancels (suc k) ps = (mass ps % m == 0) && cancels k (scale ps)

  cancels-weighted :
      (k : ℕ) (ps : Points) (cs : List ℕ)
      → cancels k ps ≡ true
      → length cs ≤ k
      → weighted ps cs % m ≡ 0
  cancels-weighted k ps [] h l = ap (λ t. t % m) (weighted-nil ps) ∙ zero-mod m
  cancels-weighted zero ps (c ∷ cs) h l = absurd (omega arith)
  cancels-weighted (suc k) ps (c ∷ cs) h l =
      let head : mass ps % m ≡ 0 = ground arith in
      ap (λ t. t % m) (weighted-cons ps c cs)
      ∙ add_congr (c * mass ps) 0 (weighted (scale ps) cs) 0 m
          (sym (mul-mod-mod c (mass ps) m)
            ∙ ap (λ t. (c * t) % m) head
            ∙ ap (λ t. t % m) (mul-zero c))
          (cancels-weighted k (scale ps) cs (ground arith) (omega arith) ∙ sym (zero-mod m))
      ∙ zero-mod m

  -- Points whose weights sum to `d` and whose next moments are zero read off the constant.
  pub weighted-constant :
      (k d : ℕ) (ps : Points) (c : ℕ) (cs : List ℕ)
      → mass ps % m ≡ d % m
      → cancels k (scale ps) ≡ true
      → length cs ≤ k
      → weighted ps (c ∷ cs) % m ≡ (c * d) % m
  weighted-constant k d ps c cs e h l =
      ap (λ t. t % m) (weighted-cons ps c cs)
      ∙ add_congr (c * mass ps) (c * d) (weighted (scale ps) cs) 0 m
          (sym (mul-mod-mod c (mass ps) m) ∙ ap (λ t. (c * t) % m) e ∙ mul-mod-mod c d m)
          (cancels-weighted k (scale ps) cs h l ∙ sym (zero-mod m))
      ∙ ap (λ t. t % m) (omega arith)

  pub horner-eval : (x : ℕ) (cs : List ℕ) → horner m x cs % m ≡ eval x cs % m
  horner-eval x [] = refl
  horner-eval x (c ∷ []) = ap (λ t. t % m) (omega arith)
  horner-eval x (c ∷ d ∷ cs) =
      mod-mod (horner m x (d ∷ cs) * x + c) m
      ∙ add_congr (horner m x (d ∷ cs) * x) (eval x (d ∷ cs) * x) c c m
          (mul_congr (horner m x (d ∷ cs)) (eval x (d ∷ cs)) x m (horner-eval x (d ∷ cs))) refl
      ∙ ap (λ t. t % m) (omega (arith, mul_comm x (eval x (d ∷ cs))))
