-- ===== src/Sharing.antt =====
-- The threshold arithmetic of signer/tsed25519/ed25519.go: dealing a secret into shares, combining
-- shares, and a share of a signature.
pub mod Modular
pub mod Moments
pub mod Recovery
pub mod Quorums
pub mod Dealt
use horcrux.Prelude.{
  ℕ, ℤ, pos, negsuc, zero, suc, ◌+◌, ◌-◌, ◌*◌, ◌/◌, ◌%◌, ◌^◌, List, [], ◌∷◌, ◌++◌, Bool, true,
  false, if◌then◌else◌, ltb, ◌==◌, eqb_ℤ, to_int64, residue, ◌*ℤ◌, ◌/ℤ◌, ◌-ℤ◌, length, take,
}
use horcrux.Outcome.{Outcome, ok, err, panic, ◌>>=◌, ◌>>◌}

-- `orderL`
abbrev pub order_l : ℕ
order_l = 2 ^ 252 + 27742317777372353535851937790883648493

-- `util.BytesToBig`, and `SetBytes` of `util.Reverse`: the first byte is the least significant
unfoldable pub bytes_to_big : List ℕ → ℕ
bytes_to_big [] = 0
bytes_to_big (b ∷ bs) = b + 256 * bytes_to_big bs

-- `copy(out, util.Reverse(n.Bytes()))` into `size` zero bytes
unfoldable pub to_bytes : ℕ → ℕ → List ℕ
to_bytes zero n = []
to_bytes (suc size) n = (n % 256) ∷ to_bytes size (n / 256)

-- `ModInverse` for the prime modulus `m`, by Fermat's power; what has no inverse stays as it is.
abbrev pub pow_mod : (fuel base exponent m : ℕ) → ℕ
pow_mod zero b e m = 1 % m
pow_mod (suc f) b e m =
    let rest = pow_mod f (b * b % m) (e / 2) m in if e % 2 == 1 then b * rest % m else rest

unfoldable pub mod_inverse : ℕ → ℕ → ℕ
mod_inverse g m = let z = pow_mod 256 (g % m) (m - 2) m in if g * z % m == 1 then z else g

-- the sum in `AddScalars` before it is reduced
abbrev pub sum_scalars : List (List ℕ) → ℕ
sum_scalars [] = 0
sum_scalars (s ∷ ss) = bytes_to_big s + sum_scalars ss

unfoldable pub add_scalars : List (List ℕ) → List ℕ
add_scalars scalars = to_bytes 32 (sum_scalars scalars % order_l)

-- The inner loop of `DealShares`, from the last coefficient down to the first: a single coefficient is
-- not reduced.
abbrev pub horner : (m x : ℕ) → List ℕ → ℕ
horner m x [] = 0
horner m x (c ∷ []) = c
horner m x (c ∷ d ∷ cs) = (horner m x (d ∷ cs) * x + c) % m

-- The outer loop, for the players from `i + 1` on.
abbrev pub deal_from : (i left : ℕ) → List ℕ → List (List ℕ)
deal_from i zero coeffs = []
deal_from i (suc left) coeffs =
    to_bytes 32 (horner order_l (i + 1) coeffs) ∷ deal_from (i + 1) left coeffs

-- `DealShares`; `random` is what `rand.Int` draws, and a failed draw panics.
unfoldable pub deal_shares :
    (random : List ℕ) (secret : List ℕ) (threshold total : ℕ) → Outcome (List (List ℕ))
deal_shares random secret zero total = panic "index out of range"
deal_shares random secret (suc t) total =
    if ltb (length random) t
    then panic "rand"
    else ok (deal_from 0 total (bytes_to_big secret ∷ take t random))

abbrev pub mul_others : ℤ → List ℤ → ℤ → ℤ
mul_others id [] r = r
mul_others id (c ∷ cs) r = mul_others id cs (if eqb_ℤ c id then r else to_int64 (r *ℤ c))

abbrev pub div_others : ℤ → List ℤ → ℤ → ℤ
div_others id [] r = r
div_others id (c ∷ cs) r =
    div_others id cs (if eqb_ℤ c id then r else to_int64 (r /ℤ to_int64 (c -ℤ id)))

-- `calcOmega`, in int64
unfoldable pub calc_omega : ℤ → List ℤ → ℕ → ℤ
calc_omega id cosigners delta =
    div_others id cosigners (mul_others id cosigners (to_int64 (pos delta)))

-- `MulRange(1, n)`
abbrev pub factorial : ℕ → ℕ
factorial zero = 1
factorial (suc n) = suc n * factorial n

-- The loop of `CombineShares` over the players: the sum of the weighted shares, each reduced.
unfoldable pub weigh : List ℤ → ℕ → List ℤ → List (List ℕ) → Outcome ℕ
weigh all delta [] shares = ok 0
weigh all delta (id ∷ ids) [] = panic "index out of range"
weigh all delta (id ∷ ids) (share ∷ shares) = do
  rest ← weigh all delta ids shares
  ok (residue order_l (pos (bytes_to_big share) *ℤ calc_omega id all delta) + rest)

unfoldable pub combine_shares :
    (total : ℕ) → (cosigner_ids : List ℤ) → List (List ℕ) → Outcome (List ℕ)
combine_shares total ids shares = do
  sum ← weigh ids (factorial total) ids shares
  ok (to_bytes 32 (sum * mod_inverse (factorial total) order_l % order_l))
