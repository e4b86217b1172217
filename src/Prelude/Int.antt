-- ===== src/Prelude/Int.antt =====
-- Signed integers over the native numbers, read by `omega` through their two parts, and the
-- two's complement wrap of Go's fixed-width integers.
use Prim.Native.Nat.{ℕ, zero, suc, ◌+◌, ◌-◌, ◌*◌, ◌/◌, ◌%◌, ◌≤◌, ◌<◌}
use mathlib.Core.Path.{◌≡◌}
use mathlib.Core.Logic.{◌↔◌}
use mathlib.Core.Bool.{Bool, true}
use native.Mathlib.Omega.{arith}
use horcrux.Prelude.Tests.{ltb, leb, ◌==◌, if◌then◌else◌}

-- `negsuc n` is -(n + 1).
pub data ℤ : Type 0 where
  pos : ℕ → ℤ
  negsuc : ℕ → ℤ

abbrev pub pos_part : ℤ → ℕ
pos_part (pos n) = n
pos_part (negsuc n) = 0

abbrev pub neg_part : ℤ → ℕ
neg_part (pos n) = 0
neg_part (negsuc n) = suc n

-- a - b, as an integer.
abbrev pub sub_ℕ : ℕ → ℕ → ℤ
sub_ℕ a b = if leb b a then pos (a - b) else negsuc (b - a - 1)

infixl 65 ◌-ℤ◌
infix 50 ◌≤ℤ◌ ◌<ℤ◌
unfoldable pub ◌-ℤ◌ : ℤ → ℤ → ℤ
a -ℤ b = sub_ℕ (pos_part a + neg_part b) (neg_part a + pos_part b)

-- -n
abbrev pub neg_ℕ : ℕ → ℤ
neg_ℕ zero = pos 0
neg_ℕ (suc n) = negsuc n

infixl 70 ◌*ℤ◌ ◌/ℤ◌
abbrev pub ◌*ℤ◌ : ℤ → ℤ → ℤ
pos a *ℤ pos b = pos (a * b)
pos a *ℤ negsuc b = neg_ℕ (a * suc b)
negsuc a *ℤ pos b = neg_ℕ (suc a * b)
negsuc a *ℤ negsuc b = pos (suc a * suc b)

-- Go's division, which rounds towards zero; the source never divides by zero.
abbrev pub ◌/ℤ◌ : ℤ → ℤ → ℤ
pos a /ℤ pos b = pos (a / b)
pos a /ℤ negsuc b = neg_ℕ (a / suc b)
negsuc a /ℤ pos b = neg_ℕ (suc a / b)
negsuc a /ℤ negsuc b = pos (suc a / suc b)

abbrev pub ◌≤ℤ◌ : ℤ → ℤ → Type 0
a ≤ℤ b = pos_part a + neg_part b ≤ pos_part b + neg_part a

abbrev pub ◌<ℤ◌ : ℤ → ℤ → Type 0
a <ℤ b = pos_part a + neg_part b < pos_part b + neg_part a

-- Go's `a < b` and `a == b` on signed integers.
abbrev pub ltb_ℤ : ℤ → ℤ → Bool
ltb_ℤ a b = ltb (pos_part a + neg_part b) (pos_part b + neg_part a)

abbrev pub eqb_ℤ : ℤ → ℤ → Bool
eqb_ℤ a b = (pos_part a + neg_part b) == (pos_part b + neg_part a)

pub eq_of_parts : (a b : ℤ) → pos_part a + neg_part b ≡ pos_part b + neg_part a → a ≡ b
eq_of_parts a b h = ground arith

pub eqb_ℤ_iff : (a b : ℤ) → (eqb_ℤ a b ≡ true) ↔ (a ≡ b)
eqb_ℤ_iff a b = (λ h. eq_of_parts a b (ground arith), λ e. ground arith)

pub -ℤ_parts :
    (a b : ℤ)
    → pos_part (a -ℤ b) + neg_part a + pos_part b ≡ neg_part (a -ℤ b) + pos_part a + neg_part b
unfolding ◌-ℤ◌
-ℤ_parts a b = ground arith

-- The residue of an integer modulo `m`, which Go's conversion to an unsigned type of that size keeps.
abbrev pub residue : ℕ → ℤ → ℕ
residue m (pos n) = n % m
residue m (negsuc n) = m - 1 - n % m

-- The signed reading of a residue modulo `m + m`.
abbrev pub signed : ℕ → ℕ → ℤ
signed m r = if ltb r m then pos r else negsuc (m + m - 1 - r)

unfoldable pub to_int8 : ℤ → ℤ
to_int8 a = signed 128 (residue 256 a)

unfoldable pub to_int32 : ℤ → ℤ
to_int32 a = signed 2147483648 (residue 4294967296 a)

unfoldable pub to_int64 : ℤ → ℤ
to_int64 a = signed 9223372036854775808 (residue 18446744073709551616 a)

abbrev pub InRange : ℕ → ℤ → Type 0
InRange m a = (pos_part a < m) × (neg_part a ≤ m)

abbrev pub IsInt8 : ℤ → Type 0
IsInt8 = InRange 128

abbrev pub IsInt32 : ℤ → Type 0
IsInt32 = InRange 2147483648

abbrev pub IsInt64 : ℤ → Type 0
IsInt64 = InRange 9223372036854775808

pub to_int8-eq : (a : ℤ) → IsInt8 a → to_int8 a ≡ a
unfolding to_int8
to_int8-eq (pos n) h = ground arith
to_int8-eq (negsuc n) h = ground arith

pub to_int32-eq : (a : ℤ) → IsInt32 a → to_int32 a ≡ a
unfolding to_int32
to_int32-eq (pos n) h = ground arith
to_int32-eq (negsuc n) h = ground arith

pub to_int64-eq : (a : ℤ) → IsInt64 a → to_int64 a ≡ a
unfolding to_int64
to_int64-eq (pos n) h = ground arith
to_int64-eq (negsuc n) h = ground arith

pub to_int64_range : (a : ℤ) → IsInt64 (to_int64 a)
unfolding to_int64
to_int64_range (pos n) = ground arith
to_int64_range (negsuc n) = ground arith
