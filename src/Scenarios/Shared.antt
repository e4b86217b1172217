-- ===== src/Scenarios/Shared.antt =====
-- Runs of signer/tsed25519/ed25519.go and signer/threshold_signer_soft.go over the group of the scalars
-- themselves, with a hash that keeps its input.
use horcrux.Prelude.{
  ℕ, pos, ◌+◌, ◌*◌, ◌%◌, ◌^◌, ◌<◌, ◌≡◌, refl, ap, ◌∙◌, arith, List, [], ◌∷◌, false, some, ltb,
  length, replicate, take, ◌≤◌, to_int64, ◌-ℤ◌,
}
use native.Mathlib.Nat.{mod-lt, mod-mod}
use horcrux.Outcome.{ok, ◌>>=◌}
use horcrux.Sharing.{
  order_l, bytes_to_big, to_bytes, deal_from, deal_shares, combine_shares, calc_omega, mod_inverse,
}
use horcrux.Sharing.Recovery.{bytes_to_big-to_bytes, recovers, weights}
use horcrux.Sharing.Dealt.{shares_at, combine_shares-deal_shares}
use horcrux.KeyShares.{
  CosignerEd25519Key, expand_secret, create_cosigner_ed25519_shards, number_shards,
}
use horcrux.KeyShares.Bounds.{expand_secret_bounds}
use horcrux.KeyShares.Shards.{shards_with_ids, create_cosigner_ed25519_shards-combine}
use horcrux.SoftSigner.{Curve, soft_combine_signatures}
use horcrux.SoftSigner.Deals.{CurveLaws, Deal, IsDealt, length-to_bytes}
use horcrux.SoftSigner.Combined.{sign_each, signer_of, signature, sign_each-combine}

reduced : ℕ → List ℕ
reduced n = to_bytes 32 (n % order_l)

abbrev scalars : Curve
scalars = record {
  Element = ℕ;
  zero_element = 0;
  from_bytes = bytes_to_big;
  to_element_bytes = to_bytes 32;
  ge_add = λ a b. (a + b) % order_l;
  scalar_mult_base = bytes_to_big;
  sc_reduce = λ s. reduced (bytes_to_big s);
  sc_mul_add = λ a b c. reduced (bytes_to_big a * bytes_to_big b + bytes_to_big c);
  sc_minimal = λ s. ltb (bytes_to_big s) order_l;
  sha512 = λ s. s;
}

length-reduced : (n : ℕ) → length (reduced n) ≡ 32
unfolding reduced
length-reduced n = length-to_bytes 32 (n % order_l)

reduced-mod : (n : ℕ) → bytes_to_big (reduced n) % order_l ≡ n % order_l
unfolding reduced
reduced-mod n =
    ap (λ t. t % order_l)
      (bytes_to_big-to_bytes 32 (n % order_l) (omega (arith, mod-lt n {m = order_l} (omega arith))))
    ∙ mod-mod n order_l

scalars-CurveLaws : CurveLaws scalars
scalars-CurveLaws = record {
  length_element = λ g. length-to_bytes 32 g;
  length_reduced = λ s. length-reduced (bytes_to_big s);
  length_mul_add = λ a b c. length-reduced (bytes_to_big a * bytes_to_big b + bytes_to_big c);
  mul_add = λ a b c p q r. reduced-mod (bytes_to_big a * bytes_to_big b + bytes_to_big c);
  minimal = λ s p h. ground arith;
}

-- a secret that is split in two of three
abbrev deal_of : (secret slope : ℕ) → Deal
deal_of secret slope = record {
  secret = secret ∷ [];
  random = slope ∷ [];
  shares = deal_from 0 3 (secret ∷ slope ∷ []);
  pub_key = secret ∷ [];
}

key-IsDealt : IsDealt 2 3 (deal_of 41 1000)
unfolding deal_shares bytes_to_big
key-IsDealt = (refl, omega arith)

first-IsDealt : IsDealt 2 3 (deal_of 7 501)
unfolding deal_shares bytes_to_big
first-IsDealt = (refl, omega arith)

third-IsDealt : IsDealt 2 3 (deal_of 9 77)
unfolding deal_shares bytes_to_big
third-IsDealt = (refl, omega arith)

combine_shares-deal_shares_example :
    combine_shares 3 (pos 1 ∷ pos 3 ∷ []) (shares_at (deal_from 0 3 (41 ∷ 1000 ∷ [])) (1 ∷ 3 ∷ []))
    ≡ ok (to_bytes 32 (bytes_to_big (41 ∷ []) % order_l))
combine_shares-deal_shares_example =
    combine_shares-deal_shares (1000 ∷ []) (41 ∷ []) 2 3 (deal_from 0 3 (41 ∷ 1000 ∷ []))
      (1 ∷ 3 ∷ []) (omega arith) key-IsDealt.1 key-IsDealt.0 (omega arith) (omega arith)

sign_each-combine_example :
    (sign_each scalars 2 3
        (deal_of 41 1000)
        (deal_of 7 501 ∷ deal_of 9 77 ∷ [])
        (some (5 ∷ []))
        (1 ∷ 3 ∷ [])
      >>= soft_combine_signatures (
          signer_of scalars 2 3
            (deal_of 41 1000)
            (deal_of 7 501 ∷ deal_of 9 77 ∷ [])
            (some (5 ∷ []))
            1))
    ≡ ok (
        some (
          signature scalars 2 3
            (deal_of 41 1000)
            (deal_of 7 501 ∷ deal_of 9 77 ∷ [])
            (some (5 ∷ []))))
sign_each-combine_example =
    sign_each-combine scalars 2 3 (deal_of 41 1000) (deal_of 7 501 ∷ deal_of 9 77 ∷ [])
      (some (5 ∷ [])) 1 1 (3 ∷ []) scalars-CurveLaws key-IsDealt
      (first-IsDealt, (third-IsDealt, tt)) (omega arith) (omega arith) (omega arith)

-- a digest of 64 bytes, and the private key of 32 bytes that is split
abbrev digest : List ℕ → List ℕ
digest s = replicate 64 5

abbrev priv_key : List ℕ
priv_key = replicate 32 9

expand_secret_bounds_example :
    (2 ^ 254 ≤ bytes_to_big (expand_secret digest priv_key))
    × (bytes_to_big (expand_secret digest priv_key) < 2 ^ 255)
    × (bytes_to_big (expand_secret digest priv_key) % 8 ≡ 0)
expand_secret_bounds_example = expand_secret_bounds digest priv_key refl (omega arith)

abbrev split_keys : List CosignerEd25519Key
split_keys =
    number_shards (1 ∷ []) 0
      (deal_from 0 3 (bytes_to_big (expand_secret digest priv_key) ∷ 12345 ∷ []))

keys_made : create_cosigner_ed25519_shards digest (12345 ∷ []) priv_key (1 ∷ []) 2 3 ≡ ok split_keys
unfolding create_cosigner_ed25519_shards deal_shares
keys_made = refl

create_cosigner_ed25519_shards-combine_example :
    combine_shares 3 (pos 2 ∷ pos 3 ∷ []) (shards_with_ids split_keys (2 ∷ 3 ∷ []))
    ≡ ok (to_bytes 32 (bytes_to_big (expand_secret digest (take 32 priv_key)) % order_l))
create_cosigner_ed25519_shards-combine_example =
    create_cosigner_ed25519_shards-combine digest (12345 ∷ []) priv_key (1 ∷ []) 2 3 split_keys
      (2 ∷ 3 ∷ []) refl (omega arith) (omega arith) keys_made (omega arith) (omega arith)

-- In a cluster of 15 the weights of the last eight players pass the range of int64: they do not read
-- off the constant.
too_many : recovers 15 (8 ∷ 9 ∷ 10 ∷ 11 ∷ 12 ∷ 13 ∷ 14 ∷ 15 ∷ []) ≡ false
unfolding recovers weights calc_omega mod_inverse to_int64 ◌-ℤ◌
too_many = refl
