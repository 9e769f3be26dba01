-- ===== src/Common/Decimal.antt =====
-- The decimal digits of a number, as `%d` prints them.
use Prim.Native.Nat.{ℕ, zero, suc, ◌+◌, ◌/◌, ◌%◌}
use mathlib.Core.List.{[], ◌∷◌}
use cln_circular.Common.Tests.{ltb, if◌then◌else◌}
use cln_circular.Common.Strings.{Str}

-- The digits of `n` before those in `acc`. A number has at most as many digits as itself plus one.
unfoldable pub digits : ℕ → ℕ → Str → Str
digits zero n acc = acc
digits (suc fuel) n acc =
    let more = digits fuel (n / 10) ((b'0' + n % 10) ∷ acc) in
    if ltb n 10 then (b'0' + n) ∷ acc else more

unfoldable pub decimal : ℕ → Str
unfolding digits
decimal n = digits (n + 1) n []
