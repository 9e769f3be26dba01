-- ===== src/Graph/FeeLaws.antt =====
-- Laws of the fee arithmetic of graph/channel.go, graph/pathfinder.go and graph/graph.go.
use Prim.Native.Nat.{min}
use cln_circular.Common.{
  ℕ, suc, ◌+◌, ◌-◌, ◌*◌, ◌/◌, ◌%◌, ◌≤◌, ◌<◌, ◌≡◌, ap, ◌∙◌, ◌↔◌, arith, max_uint64, u64_mod, ltb,
  ◌==◌, some, false, if◌then◌else◌, ◌||◌, ◌&&◌,
}
use cln_circular.Common.Int.{
  ℤ, pos, negsuc, pos_part, neg_part, ◌+ℤ◌, ◌≤ℤ◌, neg, scale, quot, ltb_ℤ, int64, FitsInt64,
  int64_of_FitsInt64,
}
use cln_circular.Graph.Fee.{
  add_saturating, proportional_fee, fee_ppm, max_fee_for_ppm, node_fee, InboundFee, cap_rate,
  inbound_charge, inbound_fee, max_inbound_fee_rate, max_millions,
}

-- The sum of two uint64, capped at the largest.
pub add_saturating_lem :
    (a b : ℕ) → a < u64_mod → b < u64_mod → add_saturating a b ≡ min max_uint64 (a + b)
unfolding add_saturating
add_saturating_lem a b ha hb = ground arith

product-le : (a b : ℕ) → a < u64_mod → b < u64_mod → a * b ≤ max_uint64 * max_uint64
product-le a b ha hb = grind arith

-- The fee is the base fee plus the proportional fee rounded up, capped at the largest uint64.
pub proportional_fee_exact :
    (base ppm amount : ℕ)
    → base < u64_mod
    → ppm < u64_mod
    → amount < u64_mod
    → proportional_fee base ppm amount ≡ min max_uint64 (base + (amount * ppm + 999999) / 1000000)
unfolding proportional_fee
proportional_fee_exact base ppm amount hb hp ha = ground (arith, product-le amount ppm ha hp)

-- A quotient is at most `k` exactly when the number is below `k + 1` times the divisor.
pub div-le_iff : (a d k : ℕ) → 0 < d → (a / d ≤ k) ↔ (a < (k + 1) * d)
div-le_iff a d k h = (λ p. grind arith, λ p. grind arith)

-- The larger of two fees has the larger rate, up to the saturated one.
fee_ppm_lem :
    (fee amount : ℕ)
    → 0 < amount
    → fee < max_uint64
    → amount < u64_mod
    → fee_ppm fee amount
      ≡ (if ltb (fee * 1000000) (amount * u64_mod) then fee * 1000000 / amount else max_uint64)
unfolding fee_ppm
fee_ppm_lem fee amount h k l = ground arith

amount-le : (ppm amount : ℕ) → amount ≤ (ppm + 1) * amount
amount-le ppm amount = grind arith

max_fee_for_ppm_lem :
    (amount ppm : ℕ)
    → 0 < amount
    → ppm < max_uint64
    → (ppm + 1) * amount < u64_mod
    → max_fee_for_ppm amount ppm ≡ ((ppm + 1) * amount - 1) / 1000000
unfolding max_fee_for_ppm
max_fee_for_ppm_lem amount ppm ha hp hm =
    let wraps : (ppm + 1) % u64_mod ≡ ppm + 1 = omega arith in ground (arith, wraps)

-- A larger amount or a higher rate allows no smaller fee.
pub max_fee_for_ppm_mono :
    (a b p q : ℕ)
    → 0 < a
    → a ≤ b
    → p ≤ q
    → (q + 1) * b < u64_mod
    → max_fee_for_ppm a p ≤ max_fee_for_ppm b q
max_fee_for_ppm_mono a b p q ha hab hpq fits =
    let less : (p + 1) * a ≤ (q + 1) * b = grind arith in
    let rate : q < max_uint64 = grind arith in
    rw
      (
        max_fee_for_ppm_lem a p ha (omega arith) (omega arith),
        max_fee_for_ppm_lem b q (omega arith) rate fits,
      )
      (omega arith)

-- MaxFeeForPPM and feePPM agree: of an amount above 0, a fee has at most the rate `ppm` exactly
-- when it is within the limit, provided that (ppm + 1) * amount fits in 64 bits.
pub fee_ppm-le_iff :
    (fee amount ppm : ℕ)
    → 0 < amount
    → fee < max_uint64
    → ppm < max_uint64
    → (ppm + 1) * amount < u64_mod
    → (fee_ppm fee amount ≤ ppm) ↔ (fee ≤ max_fee_for_ppm amount ppm)
fee_ppm-le_iff fee amount ppm ha hf hp hm = (
  λ p. ground (
    arith,
    amount-le ppm amount,
    fee_ppm_lem fee amount ha hf,
    max_fee_for_ppm_lem amount ppm ha hp hm,
    (div-le_iff (fee * 1000000) amount ppm ha).0,
  ),
  λ p. ground (
    arith,
    amount-le ppm amount,
    fee_ppm_lem fee amount ha hf,
    max_fee_for_ppm_lem amount ppm ha hp hm,
    (div-le_iff (fee * 1000000) amount ppm ha).1,
  ),
)

-- What a node charges is its outbound fee plus its inbound fee, no less than 0 and no more than
-- the largest uint64; an outbound fee that is saturated stays so whatever the discount.
pub node_fee_exact :
    (outbound : ℕ) (inbound : ℤ)
    → outbound < u64_mod
    → FitsInt64 inbound
    → node_fee outbound inbound ≡ (
        if outbound == max_uint64
        then max_uint64
        else min max_uint64 (outbound + pos_part inbound - neg_part inbound))
unfolding node_fee
node_fee_exact outbound (pos n) h k = ground arith
node_fee_exact outbound (negsuc n) h k = ground arith

-- A larger inbound fee never makes the node charge less.
pub node_fee_mono :
    (outbound : ℕ) (a b : ℤ)
    → outbound < u64_mod
    → FitsInt64 a
    → FitsInt64 b
    → a ≤ℤ b
    → node_fee outbound a ≤ node_fee outbound b
unfolding node_fee
node_fee_mono outbound (pos a) (pos b) h k l m = ground arith
node_fee_mono outbound (pos a) (negsuc b) h k l m = absurd (omega arith)
node_fee_mono outbound (negsuc a) (pos b) h k l m = ground arith
node_fee_mono outbound (negsuc a) (negsuc b) h k l m = ground arith

abbrev FitsInt32 : ℤ → Type 0
FitsInt32 a = (pos_part a < 2147483648) × (neg_part a ≤ 2147483648)

-- The capped rate lies within the cap.
cap_rate-le : (r : ℤ) → pos_part (cap_rate r) + neg_part (cap_rate r) ≤ max_inbound_fee_rate
unfolding cap_rate
cap_rate-le (pos r) = ground arith
cap_rate-le (negsuc r) = ground arith

fits_sum :
    (base a : ℤ)
    → FitsInt32 base
    → pos_part a + neg_part a ≤ max_millions * max_inbound_fee_rate
    → FitsInt64 (base +ℤ a)
fits_sum (pos n) (pos a) hb ha = ground arith
fits_sum (pos n) (negsuc a) hb ha = ground arith
fits_sum (negsuc n) (pos a) hb ha = ground arith
fits_sum (negsuc n) (negsuc a) hb ha = ground arith

sum_size :
    (a b : ℤ)
    → (pos_part (a +ℤ b) ≤ pos_part a + pos_part b) × (neg_part (a +ℤ b) ≤ neg_part a + neg_part b)
sum_size a b = ground arith

quot_size :
    (b : ℤ) → (pos_part (quot b 1000000) ≤ pos_part b) × (neg_part (quot b 1000000) ≤ neg_part b)
quot_size (pos b) = ground arith
quot_size (negsuc b) = ground arith

fits_total :
    (base a b : ℤ)
    → FitsInt32 base
    → pos_part a + neg_part a ≤ max_millions * max_inbound_fee_rate
    → pos_part b + neg_part b ≤ 999999 * max_inbound_fee_rate
    → FitsInt64 (base +ℤ a +ℤ quot b 1000000)
fits_total base a b hb ha hc =
    omega (arith, sum_size base a, sum_size (base +ℤ a) (quot b 1000000), quot_size b)

product-le_cap : (m r k l : ℕ) → m ≤ k → r ≤ l → m * r ≤ k * l
product-le_cap m r k l h j = grind arith

split_amount :
    (amount r : ℕ) → amount * r ≡ (amount / 1000000 * r) * 1000000 + (amount % 1000000) * r
split_amount amount r =
    let e : amount ≡ amount / 1000000 * 1000000 + amount % 1000000 = omega arith in
    omega (arith, ap (λ (t : ℕ). t * r) e)

-- No int64 sum of the three parts wraps.
parts_exact :
    (base a b : ℤ)
    → FitsInt32 base
    → pos_part a + neg_part a ≤ max_millions * max_inbound_fee_rate
    → pos_part b + neg_part b ≤ 999999 * max_inbound_fee_rate
    → int64 (int64 (base +ℤ int64 a) +ℤ quot (int64 b) 1000000) ≡ base +ℤ a +ℤ quot b 1000000
parts_exact base a b hb ha hc =
    let one = int64_of_FitsInt64 a (omega arith) in
    let two = int64_of_FitsInt64 b (omega arith) in
    let three = int64_of_FitsInt64 (base +ℤ a) (fits_sum base a hb ha) in
    let four = int64_of_FitsInt64 (base +ℤ a +ℤ quot b 1000000) (fits_total base a b hb ha hc) in
    rw (one, two, three, four)

quot-neg : (y : ℕ) → quot (neg y) 1000000 ≡ neg (y / 1000000)
quot-neg y = ground arith

+ℤ-neg : (base : ℤ) (x y : ℕ) → base +ℤ neg x +ℤ neg y ≡ base +ℤ neg (x + y)
+ℤ-neg (pos n) x y = ground arith
+ℤ-neg (negsuc n) x y = ground arith

negative_sum :
    (base : ℤ) (x y z : ℕ)
    → z ≡ x * 1000000 + y
    → base +ℤ neg x +ℤ quot (neg y) 1000000 ≡ base +ℤ quot (neg z) 1000000
negative_sum base x y z e =
    let whole : x + y / 1000000 ≡ z / 1000000 = omega arith in
    rw (quot-neg y, quot-neg z, +ℤ-neg base x (y / 1000000), whole)

positive_sum :
    (base : ℤ) (x y z : ℕ)
    → z ≡ x * 1000000 + y
    → base +ℤ pos x +ℤ quot (pos y) 1000000 ≡ base +ℤ quot (pos z) 1000000
positive_sum (pos n) x y z e = ground arith
positive_sum (negsuc n) x y z e = ground arith

-- The charge at a rate within the cap, where the amount is below the saturation bound.
charge_exact :
    (base rate : ℤ) (amount : ℕ)
    → FitsInt32 base
    → pos_part rate + neg_part rate ≤ max_inbound_fee_rate
    → amount / 1000000 ≤ max_millions
    → inbound_charge base rate amount ≡ base +ℤ quot (scale amount rate) 1000000
unfolding inbound_charge
charge_exact base (pos r) amount hb hr ha =
    let m = amount / 1000000 in
    let c = amount % 1000000 in
    let small : m * r ≤ max_millions * max_inbound_fee_rate =
      product-le_cap m r max_millions max_inbound_fee_rate ha (omega arith) in
    let rest : c * r ≤ 999999 * max_inbound_fee_rate =
      product-le_cap c r 999999 max_inbound_fee_rate (omega arith) (omega arith) in
    let capped : (ltb_ℤ (pos r) (pos 0) || ltb_ℤ (pos 0) (pos r)) && ltb max_millions m ≡ false =
      ground arith in
    rw capped (
      parts_exact base (pos (m * r)) (pos (c * r)) hb (omega arith) (omega arith)
      ∙ positive_sum base (m * r) (c * r) (amount * r) (split_amount amount r))
charge_exact base (negsuc r) amount hb hr ha =
    let m = amount / 1000000 in
    let c = amount % 1000000 in
    let small : m * suc r ≤ max_millions * max_inbound_fee_rate =
      product-le_cap m (suc r) max_millions max_inbound_fee_rate ha (omega arith) in
    let rest : c * suc r ≤ 999999 * max_inbound_fee_rate =
      product-le_cap c (suc r) 999999 max_inbound_fee_rate (omega arith) (omega arith) in
    let capped : (ltb_ℤ (negsuc r) (pos 0) || ltb_ℤ (pos 0) (negsuc r)) && ltb max_millions m
        ≡ false =
      ground arith in
    rw capped (
      parts_exact base (neg (m * suc r)) (neg (c * suc r)) hb (ground arith) (ground arith)
      ∙ negative_sum base (m * suc r) (c * suc r) (amount * suc r) (split_amount amount (suc r)))

-- The inbound fee is the base fee plus the capped rate's share of the amount in millionths,
-- rounded toward zero, with no int64 overflow, for amounts up to the bound at which it saturates.
pub inbound_fee_exact :
    (fee : InboundFee) (amount : ℕ)
    → FitsInt32 fee.base_fee
    → amount / 1000000 ≤ max_millions
    → inbound_fee (some fee) amount
      ≡ fee.base_fee +ℤ quot (scale amount (cap_rate fee.fee_rate)) 1000000
unfolding inbound_fee
inbound_fee_exact fee amount hb ha =
    charge_exact fee.base_fee (cap_rate fee.fee_rate) amount hb (cap_rate-le fee.fee_rate) ha
