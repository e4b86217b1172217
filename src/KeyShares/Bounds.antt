-- ===== src/KeyShares/Bounds.antt =====
-- The secret that signer/cosigner_key_shares.go deals, and the shards it gives out.
use horcrux.Prelude.{
  ℕ, zero, suc, ◌+◌, ◌*◌, ◌%◌, ◌^◌, ◌≤◌, ◌<◌, ◌≡◌, ap, ◌∙◌, arith, List, [], ◌∷◌, length, take, set,
  get_or,
}
use native.Mathlib.Nat.{pow-suc, one-le-pow, mul_assoc, mul_comm}
use horcrux.Sharing.{bytes_to_big}
use horcrux.KeyShares.{expand_secret, and_248, or_64}

abbrev pub AllBytes : List ℕ → Type 0
AllBytes [] = Unit
AllBytes (b ∷ bs) = (b < 256) × AllBytes bs

bytes_to_big-lt : (bs : List ℕ) (n : ℕ) → AllBytes bs → length bs ≤ n → bytes_to_big bs < 256 ^ n
unfolding bytes_to_big
bytes_to_big-lt [] n h l = omega (arith, one-le-pow n 256 (omega arith))
bytes_to_big-lt (b ∷ bs) zero h l = absurd (omega arith)
bytes_to_big-lt (b ∷ bs) (suc n) h l =
    omega (arith, bytes_to_big-lt bs n h.1 (omega arith), pow-suc 256 n)

AllBytes-take : (n : ℕ) (bs : List ℕ) → AllBytes bs → AllBytes (take n bs)
AllBytes-take zero bs h = tt
AllBytes-take (suc n) [] h = tt
AllBytes-take (suc n) (b ∷ bs) h = (h.0, AllBytes-take n bs h.1)

length-take-le : (n : ℕ) (bs : List ℕ) → length (take n bs) ≤ n
length-take-le zero bs = omega arith
length-take-le (suc n) [] = omega arith
length-take-le (suc n) (b ∷ bs) = omega (arith, length-take-le n bs)

-- the number with its last byte written
take-set_last :
    (n v : ℕ) (bs : List ℕ)
    → n < length bs
    → bytes_to_big (take (suc n) (set bs n v)) ≡ bytes_to_big (take n bs) + 256 ^ n * v
unfolding bytes_to_big
take-set_last n v [] h = absurd (omega arith)
take-set_last zero v (b ∷ bs) h = omega arith
take-set_last (suc n) v (b ∷ bs) h =
    ap (λ t. b + 256 * t) (take-set_last n v bs (omega arith))
    ∙ omega
        (arith, ap (λ t. t * v) (pow-suc 256 n ∙ mul_comm (256 ^ n) 256), mul_assoc 256 (256 ^ n) v)

clamped : (b rest : ℕ) → b < 256 → (and_248 b + 256 * rest) % 8 ≡ 0
clamped b rest h = omega arith

-- `ExpandSecret` gives 32 bytes with a number that is a multiple of 8 between 2 ^ 254 and 2 ^ 255, for a
-- digest of 64 bytes.
pub expand_secret_bounds :
    (sha512 : List ℕ → List ℕ) (secret : List ℕ)
    → length (sha512 secret) ≡ 64
    → AllBytes (sha512 secret)
    → (2 ^ 254 ≤ bytes_to_big (expand_secret sha512 secret))
      × (bytes_to_big (expand_secret sha512 secret) < 2 ^ 255)
      × (bytes_to_big (expand_secret sha512 secret) % 8 ≡ 0)
unfolding expand_secret bytes_to_big
expand_secret_bounds sha512 secret h b = go (sha512 secret) h b
  where
    go :
        (digest : List ℕ)
        → length digest ≡ 64
        → AllBytes digest
        → (2 ^ 254
            ≤ bytes_to_big (
                take 32 (
                  set
                    (set digest 0 (and_248 (get_or digest 0 0)))
                    31
                    (or_64 (get_or digest 31 0 % 128)))))
          × (bytes_to_big (
                take 32 (
                  set
                    (set digest 0 (and_248 (get_or digest 0 0)))
                    31
                    (or_64 (get_or digest 31 0 % 128))))
              < 2 ^ 255)
          × (bytes_to_big (
                  take 32 (
                    set
                      (set digest 0 (and_248 (get_or digest 0 0)))
                      31
                      (or_64 (get_or digest 31 0 % 128))))
                % 8
              ≡ 0)
    go [] e a = absurd (omega arith)
    go (d ∷ ds) e a =
        let v : ℕ = or_64 (get_or ds 30 0 % 128) in
        let low : ℕ = bytes_to_big (take 30 ds) in
        let low_lt : low < 256 ^ 30 =
          bytes_to_big-lt (take 30 ds) 30 (AllBytes-take 30 ds a.1) (length-take-le 30 ds) in
        let value : bytes_to_big (and_248 d ∷ take 31 (set ds 30 v))
            ≡ and_248 d + 256 * (low + 256 ^ 30 * v) =
          ap (λ t. and_248 d + 256 * t) (take-set_last 30 v ds (omega arith)) in
        let v_bounds : (64 ≤ v) × (v < 128) = ground arith in
        rw value (omega arith, omega arith, omega arith)
