-- ===== src/Sharing/Modular.antt =====
-- Arithmetic modulo a number, for the shares of signer/tsed25519/ed25519.go.
use horcrux.Prelude.{
  ℕ, ℤ, pos, negsuc, zero, suc, ◌+◌, ◌-◌, ◌*◌, ◌/◌, ◌%◌, ◌<◌, ◌≡◌, sym, ap, ◌∙◌, arith, residue,
  ◌*ℤ◌, neg_ℕ,
}
use native.Mathlib.Decide.{dec_lt}
use native.Mathlib.Nat.{
  mod-eq-sub-mod, mul-add, mul_left_comm, add-mod, mod-add-mod, div-add-mod, mul-add-mod_self_left,
  mul_comm, mod-lt, mod-eq_of_lt, mul-mod_right,
}

pub mod-mul-mod : (a b m : ℕ) → (a % m * b) % m ≡ (a * b) % m
mod-mul-mod a b m =
    sym (mul-add-mod_self_left m (a / m * b) (a % m * b))
    ∙ ap (λ t. t % m) (grind (arith, ap (λ t. t * b) (div-add-mod a m)))

pub mul-mod-mod : (a b m : ℕ) → (a * (b % m)) % m ≡ (a * b) % m
mul-mod-mod a b m =
    ap (λ t. t % m) (mul_comm a (b % m)) ∙ mod-mul-mod b a m ∙ ap (λ t. t % m) (mul_comm b a)

pub mul_congr : (a b c m : ℕ) → a % m ≡ b % m → (a * c) % m ≡ (b * c) % m
mul_congr a b c m h = sym (mod-mul-mod a c m) ∙ ap (λ t. t * c % m) h ∙ mod-mul-mod b c m

pub add_congr : (a b c d m : ℕ) → a % m ≡ b % m → c % m ≡ d % m → (a + c) % m ≡ (b + d) % m
add_congr a b c d m h k =
    add-mod a c m ∙ ap (λ t. (t + c % m) % m) h ∙ ap (λ t. (b % m + t) % m) k ∙ sym (add-mod b d m)

-- the only multiple between 0 and 2 m
eq_of-mod-zero : (x m : ℕ) → 0 < x → x < m + m → x % m ≡ 0 → x ≡ m
eq_of-mod-zero x m p q h = elim (dec_lt x m) [
  | yes l ↦ absurd (omega (arith, mod-eq_of_lt l))
  | no g ↦
      let e : x % m ≡ (x - m) % m = mod-eq-sub-mod (omega arith) in
      let l : x - m < m = omega arith in omega (arith, e, mod-eq_of_lt l)
]

residue-neg_ℕ : (m k t : ℕ) → 0 < m → (k + t) % m ≡ 0 → residue m (neg_ℕ k) ≡ t % m
residue-neg_ℕ m zero t p h = let e : 0 + t ≡ t = omega arith in mod-eq_of_lt p ∙ sym (rw e at h)
residue-neg_ℕ m (suc k) t p h =
    let e : (k % m + 1 + t % m) % m ≡ 0 =
      ap (λ u. u % m) (omega arith)
      ∙ mod-add-mod k m (t % m + 1)
      ∙ ap (λ u. u % m) (omega arith)
      ∙ mod-add-mod t m (k + 1)
      ∙ ap (λ u. u % m) (omega arith)
      ∙ h in
    let l : k % m < m = mod-lt k p in
    let l' : t % m < m = mod-lt t p in
    omega (arith, eq_of-mod-zero (k % m + 1 + t % m) m (omega arith) (omega arith) e)

factor : (s a b m q : ℕ) → a + b ≡ m * q → s * a + s * b ≡ m * (s * q)
factor s a b m q h = sym (mul-add s a b) ∙ ap (λ t. s * t) h ∙ mul_left_comm s m q

complement : (n m : ℕ) → 0 < m → suc n + (m - 1 - n % m) ≡ m * (n / m + 1)
complement n m h = grind (arith, mod-lt n h, div-add-mod n m, mul-add m (n / m) 1)

-- a product that is negative, reduced
pub residue-mul : (m s : ℕ) (w : ℤ) → 0 < m → residue m (pos s *ℤ w) ≡ (s * residue m w) % m
residue-mul m s (pos n) h = sym (mul-mod-mod s n m)
residue-mul m s (negsuc n) h = residue-neg_ℕ m (s * suc n) (s * (m - 1 - n % m)) h (
    ap (λ t. t % m) (factor s (suc n) (m - 1 - n % m) m (n / m + 1) (complement n m h))
    ∙ mul-mod_right m (s * (n / m + 1)))
