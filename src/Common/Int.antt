-- ===== src/Common/Int.antt =====
-- Signed integers over the native numbers, and int64 with its wrap-around.
use Prim.Native.Nat.{ℕ, suc, ◌+◌, ◌-◌, ◌*◌, ◌/◌, ◌%◌, ◌≤◌, ◌<◌}
use mathlib.Core.Path.{◌≡◌}
use mathlib.Core.Bool.{Bool}
use native.Mathlib.Omega.{arith}
use cln_circular.Common.Tests.{ltb, leb, if◌then◌else◌}
use cln_circular.Common.Words.{u64_mod}

-- `negsuc n` is -(n + 1).
pub data ℤ : Type 0 where
  pos : ℕ → ℤ
  negsuc : ℕ → ℤ

abbrev pub pos_part : ℤ → ℕ
pos_part (pos n) = n
pos_part (negsuc n) = 0

abbrev pub neg_part : ℤ → ℕ
neg_part (pos n) = 0
neg_part (negsuc n) = suc n

-- a - b, as an integer.
abbrev pub sub_ℕ : ℕ → ℕ → ℤ
sub_ℕ a b = if leb b a then pos (a - b) else negsuc (b - a - 1)

infixl 65 ◌+ℤ◌
infix 50 ◌≤ℤ◌
abbrev pub ◌+ℤ◌ : ℤ → ℤ → ℤ
a +ℤ b = sub_ℕ (pos_part a + pos_part b) (neg_part a + neg_part b)

abbrev pub neg : ℕ → ℤ
neg n = sub_ℕ 0 n

-- A natural number times an integer, and Go's division, which rounds toward zero.
abbrev pub scale : ℕ → ℤ → ℤ
scale n (pos a) = pos (n * a)
scale n (negsuc a) = neg (n * suc a)

abbrev pub quot : ℤ → ℕ → ℤ
quot (pos a) d = pos (a / d)
quot (negsuc a) d = neg (suc a / d)

abbrev pub ◌≤ℤ◌ : ℤ → ℤ → Type 0
a ≤ℤ b = pos_part a + neg_part b ≤ pos_part b + neg_part a

-- `a < b` as a test.
abbrev pub ltb_ℤ : ℤ → ℤ → Bool
ltb_ℤ a b = ltb (pos_part a + neg_part b) (pos_part b + neg_part a)

abbrev pub i63_mod : ℕ
i63_mod = 9223372036854775808

-- The int64 that an integer wraps to.
unfoldable pub int64 : ℤ → ℤ
int64 (pos n) =
    if ltb (n % u64_mod) i63_mod then pos (n % u64_mod) else negsuc (u64_mod - n % u64_mod - 1)
int64 (negsuc n) =
    if ltb (n % u64_mod) i63_mod then negsuc (n % u64_mod) else pos (u64_mod - n % u64_mod - 1)

-- int64 keeps what fits in 64 bits.
abbrev pub FitsInt64 : ℤ → Type 0
FitsInt64 a = (pos_part a < i63_mod) × (neg_part a ≤ i63_mod)

pub int64_of_FitsInt64 : (a : ℤ) → FitsInt64 a → int64 a ≡ a
unfolding int64
int64_of_FitsInt64 (pos n) h = ground arith
int64_of_FitsInt64 (negsuc n) h = ground arith
