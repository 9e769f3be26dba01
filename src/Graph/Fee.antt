-- ===== src/Graph/Fee.antt =====
-- Fee arithmetic on uint64 (graph/channel.go and graph/pathfinder.go) and the inbound fees of
-- graph/graph.go, which are int64.
use cln_circular.Common.{
  ℕ, ◌+◌, ◌-◌, ◌/◌, ◌%◌, Option, none, some, ltb, leb, ◌==◌, ◌||◌, ◌&&◌, not, if◌then◌else◌, u64,
  max_uint64, mul64_hi, mul64_lo, add64_sum, add64_carry, div64,
}
use cln_circular.Common.Int.{
  ℤ, pos, negsuc, pos_part, neg_part, ◌+ℤ◌, neg, scale, quot, ltb_ℤ, int64,
}

-- addSaturating: the sum, or math.MaxUint64 where it overflows.
unfoldable pub add_saturating : ℕ → ℕ → ℕ
add_saturating a b = if add64_carry a b == 0 then add64_sum a b else max_uint64

-- Channel.ComputeFee over the fields that it reads.
unfoldable pub proportional_fee : ℕ → ℕ → ℕ → ℕ
unfolding add_saturating
proportional_fee base ppm amount =
    let lo = add64_sum (mul64_lo amount ppm) 999999 in
    let carry = add64_carry (mul64_lo amount ppm) 999999 in
    let hi = u64 (mul64_hi amount ppm + carry) in
    if leb 1000000 hi then max_uint64 else add_saturating base (div64 hi lo 1000000)

-- feePPM: a fee as parts per million of an amount, rounded down.
unfoldable pub fee_ppm : ℕ → ℕ → ℕ
fee_ppm fee amount =
    if amount == 0
    then 0
    else if fee == max_uint64 || leb amount (mul64_hi fee 1000000)
    then max_uint64
    else div64 (mul64_hi fee 1000000) (mul64_lo fee 1000000) amount

-- MaxFeeForPPM.
unfoldable pub max_fee_for_ppm : ℕ → ℕ → ℕ
max_fee_for_ppm amount ppm =
    if amount == 0 || ppm == max_uint64
    then max_uint64
    else if not (mul64_hi (u64 (ppm + 1)) amount == 0)
    then max_uint64
    else (mul64_lo (u64 (ppm + 1)) amount - 1) / 1000000

-- nodeFee: the outbound fee plus the inbound fee, never below zero. `discount` is
-- uint64(-inboundFee), which is exact on every int64.
unfoldable pub node_fee : ℕ → ℤ → ℕ
unfolding add_saturating
node_fee outbound inbound =
    if outbound == max_uint64
    then outbound
    else if not (ltb_ℤ inbound (pos 0))
    then add_saturating outbound (pos_part inbound)
    else let discount = neg_part inbound in if leb outbound discount then 0 else outbound - discount

-- InboundFee, two int32.
pub record InboundFee : Type 0 where
  pub base_fee : ℤ
  pub fee_rate : ℤ

-- maxInboundFeeRate
abbrev pub max_inbound_fee_rate : ℕ
max_inbound_fee_rate = 10000000

-- The rate of `Graph.inboundFee`, capped either way.
unfoldable pub cap_rate : ℤ → ℤ
cap_rate rate =
    if ltb_ℤ (pos max_inbound_fee_rate) rate
    then pos max_inbound_fee_rate
    else if ltb_ℤ rate (neg max_inbound_fee_rate)
    then neg max_inbound_fee_rate
    else rate

-- math.MaxInt64/2/maxInboundFeeRate
abbrev pub max_millions : ℕ
max_millions = 9223372036854775807 / 2 / 10000000

-- The fee at a capped rate: each int64 product and sum wraps.
unfoldable pub inbound_charge : ℤ → ℤ → ℕ → ℤ
inbound_charge base rate amount =
    let millions = amount / 1000000 in
    let rest = amount % 1000000 in
    if (ltb_ℤ rate (pos 0) || ltb_ℤ (pos 0) rate) && ltb max_millions millions
    then (if ltb_ℤ (pos 0) rate then pos 9223372036854775807 else negsuc 9223372036854775807)
    else int64
        (int64 (base +ℤ int64 (scale millions rate)) +ℤ quot (int64 (scale rest rate)) 1000000)

-- Graph.inboundFee: no entry charges nothing.
unfoldable pub inbound_fee : Option InboundFee → ℕ → ℤ
unfolding cap_rate inbound_charge
inbound_fee none amount = pos 0
inbound_fee (some fee) amount = inbound_charge fee.base_fee (cap_rate fee.fee_rate) amount
