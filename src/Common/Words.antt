-- ===== src/Common/Words.antt =====
-- `uint64` as a native number below 2 ^ 64, and the functions of Go's math/bits on it.
use Prim.Native.Nat.{ℕ, ◌+◌, ◌-◌, ◌*◌, ◌/◌, ◌%◌}

abbrev pub u64_mod : ℕ
u64_mod = 18446744073709551616

-- math.MaxUint64
abbrev pub max_uint64 : ℕ
max_uint64 = 18446744073709551615

-- A sum, a difference and a product of two uint64 wrap.
abbrev pub u64 : ℕ → ℕ
u64 n = n % u64_mod

abbrev pub sub64 : ℕ → ℕ → ℕ
sub64 a b = (a + u64_mod - b) % u64_mod

-- bits.Mul64: the product of two uint64 as its high and low words.
abbrev pub mul64_hi : ℕ → ℕ → ℕ
mul64_hi a b = a * b / u64_mod

abbrev pub mul64_lo : ℕ → ℕ → ℕ
mul64_lo a b = a * b % u64_mod

-- bits.Add64 with no carry in: the sum and the carry.
abbrev pub add64_sum : ℕ → ℕ → ℕ
add64_sum a b = (a + b) % u64_mod

abbrev pub add64_carry : ℕ → ℕ → ℕ
add64_carry a b = (a + b) / u64_mod

-- bits.Div64: the quotient of the two-word number hi, lo by y, for hi < y.
abbrev pub div64 : ℕ → ℕ → ℕ → ℕ
div64 hi lo y = (hi * u64_mod + lo) / y
