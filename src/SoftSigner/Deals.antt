-- ===== src/SoftSigner/Deals.antt =====
-- The deals behind a signature of signer/threshold_signer_soft.go: the polynomials whose values are the
-- shares of the key and of the nonces.
use horcrux.Prelude.{
  ℕ, zero, suc, ◌+◌, ◌-◌, ◌*◌, ◌/◌, ◌%◌, ◌^◌, ◌≤◌, ◌<◌, ◌≡◌, refl, sym, ap, ◌∙◌, arith, contents,
  List, [], ◌∷◌, map, true, Bool-cases, inl, inr, ltb, some, length, take, get_or, subst,
}
use horcrux.Outcome.{ok}
use horcrux.Cosigner.{Nonce}
use horcrux.Sharing.{order_l, bytes_to_big, to_bytes, deal_shares, deal_from, sum_scalars}
use horcrux.Sharing.Modular.{add_congr}
use horcrux.Sharing.Moments.{eval}
use horcrux.Sharing.Dealt.{dealt, get_or-deal_from, deal_shares-SharesOf}
use horcrux.SoftSigner.{Curve}
use horcrux.SoftSigner.Linear.{add_poly, eval-add_poly, length-add_poly-le}

module _ (e : Curve) where
  open e use {Element, to_element_bytes, sc_reduce, sc_mul_add, sc_minimal}

  -- What the code relies on of signer/edwards25519, for scalars of 32 bytes.
  pub record CurveLaws : Type 0 where
    pub length_element : (g : Element) → length (to_element_bytes g) ≡ 32
    pub length_reduced : (s : List ℕ) → length (sc_reduce s) ≡ 32
    pub length_mul_add : (a b c : List ℕ) → length (sc_mul_add a b c) ≡ 32
    pub mul_add :
        (a b c : List ℕ)
        → length a ≡ 32
        → length b ≡ 32
        → length c ≡ 32
        → bytes_to_big (sc_mul_add a b c) % order_l
          ≡ (bytes_to_big a * bytes_to_big b + bytes_to_big c) % order_l
    pub minimal : (s : List ℕ) → length s ≡ 32 → bytes_to_big s < order_l → sc_minimal s ≡ true

-- A secret that was dealt: the cosigners' key, or the nonce that one cosigner made for all.
pub record Deal : Type 0 where
  pub secret : List ℕ
  pub random : List ℕ
  pub shares : List (List ℕ)
  pub pub_key : List ℕ

abbrev pub IsDealt : (threshold total : ℕ) → Deal → Type 0
IsDealt threshold total d =
    (deal_shares d.random d.secret threshold total ≡ ok d.shares)
    × (bytes_to_big d.secret < 256 ^ 32)

abbrev pub AllDealt : (threshold total : ℕ) → List Deal → Type 0
AllDealt threshold total [] = Unit
AllDealt threshold total (d ∷ ds) = IsDealt threshold total d × AllDealt threshold total ds

abbrev pub share_of : Deal → ℕ → List ℕ
share_of d x = get_or d.shares (x - 1) []

-- the nonces that a cosigner has from the dealers
abbrev pub nonces_of : List Deal → ℕ → List Nonce
nonces_of [] x = []
nonces_of (d ∷ ds) x =
    record { share = some (share_of d x); pub_key = some d.pub_key } ∷ nonces_of ds x

abbrev pub pub_keys : List Deal → List (List ℕ)
pub_keys [] = []
pub_keys (d ∷ ds) = d.pub_key ∷ pub_keys ds

abbrev pub secrets : List Deal → ℕ
secrets [] = 0
secrets (d ∷ ds) = bytes_to_big d.secret + secrets ds

abbrev pub sum_poly : ℕ → List Deal → List ℕ
sum_poly t [] = []
sum_poly t (d ∷ ds) = add_poly (dealt d.random d.secret t) (sum_poly t ds)

pub nonces_of-pub_keys :
    (ds : List Deal) (x : ℕ)
    → map (λ (n : Nonce). contents n.pub_key) (nonces_of ds x) ≡ pub_keys ds
nonces_of-pub_keys [] x = refl
nonces_of-pub_keys (d ∷ ds) x = ap (λ l. d.pub_key ∷ l) (nonces_of-pub_keys ds x)

-- the shares of one player
abbrev one : ℕ → List ℕ
one x = x ∷ []

pub share_of-eval :
    (t n x : ℕ) (d : Deal)
    → IsDealt t n d
    → 0 < x
    → x ≤ n
    → (bytes_to_big (share_of d x) % order_l ≡ eval x (dealt d.random d.secret t) % order_l)
      × (length (dealt d.random d.secret t) ≡ t)
share_of-eval t n x d h p q =
    let (s, l) = deal_shares-SharesOf d.random d.secret t n d.shares (one x) h.0 h.1 (p, q, tt) in
    (s.0, l)

pub sum_scalars-eval :
    (t n x : ℕ) (ds : List Deal)
    → AllDealt t n ds
    → 0 < x
    → x ≤ n
    → sum_scalars (map (λ (m : Nonce). contents m.share) (nonces_of ds x)) % order_l
      ≡ eval x (sum_poly t ds) % order_l
sum_scalars-eval t n x [] h p q = refl
sum_scalars-eval t n x (d ∷ ds) h p q =
    add_congr (bytes_to_big (share_of d x)) (eval x (dealt d.random d.secret t))
      (sum_scalars (map (λ (m : Nonce). contents m.share) (nonces_of ds x)))
      (eval x (sum_poly t ds)) order_l (share_of-eval t n x d h.0 p q).0
      (sum_scalars-eval t n x ds h.1 p q)
    ∙ ap (λ v. v % order_l) (sym (eval-add_poly x (dealt d.random d.secret t) (sum_poly t ds)))

pub length-dealt-le : (t n : ℕ) (d : Deal) → IsDealt t n d → length (dealt d.random d.secret t) ≤ t
length-dealt-le t n d h =
    omega (arith, (deal_shares-SharesOf d.random d.secret t n d.shares [] h.0 h.1 tt).1)

pub length-sum_poly-le : (t n : ℕ) (ds : List Deal) → AllDealt t n ds → length (sum_poly t ds) ≤ t
length-sum_poly-le t n [] h = omega arith
length-sum_poly-le t n (d ∷ ds) h =
    length-add_poly-le t (dealt d.random d.secret t) (sum_poly t ds) (length-dealt-le t n d h.0)
      (length-sum_poly-le t n ds h.1)

pub eval_zero-sum_poly : (t : ℕ) (ds : List Deal) → eval 0 (sum_poly t ds) ≡ secrets ds
eval_zero-sum_poly t [] = refl
eval_zero-sum_poly t (d ∷ ds) =
    eval-add_poly 0 (dealt d.random d.secret t) (sum_poly t ds)
    ∙ omega (arith, eval_zero-sum_poly t ds)

pub length-to_bytes : (size n : ℕ) → length (to_bytes size n) ≡ size
unfolding to_bytes
length-to_bytes zero n = refl
length-to_bytes (suc size) n = ap suc (length-to_bytes size (n / 256))

-- the shares that are dealt have 32 bytes
pub length-share_of :
    (t n x : ℕ) (d : Deal) → IsDealt t n d → 0 < x → x ≤ n → length (share_of d x) ≡ 32
unfolding deal_shares
length-share_of zero n x d h p q = absurd (ground (arith, h.0))
length-share_of (suc t) n x d h p q = elim (Bool-cases (ltb (length d.random) t)) [
  | inl e ↦ absurd (ground (arith, h.0))
  | inr e ↦
      let cs : List ℕ = bytes_to_big d.secret ∷ take t d.random in
      let same : deal_from 0 n cs ≡ d.shares = ground (arith, h.0) in
      subst (λ ss. length (get_or ss (x - 1) []) ≡ 32) same
        (ap length (get_or-deal_from 0 n (x - 1) cs (omega arith)) ∙ length-to_bytes 32 _)
]
