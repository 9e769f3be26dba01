-- ===== src/Tests/Fees.antt =====
-- Fees, ids and rates at concrete amounts (graph/channel.go, graph/fees.go, util/util.go).
use Prim.Native.Nat.{min}
use cln_circular.Common.{
  ◌+◌, ◌*◌, ◌/◌, ◌≤◌, ◌≡◌, ◌↔◌, refl, some, [], ◌∷◌, arith, str_eq, max_uint64,
}
use cln_circular.Common.Int.{negsuc, quot, scale, ◌+ℤ◌}
use cln_circular.Graph.Fee.{
  InboundFee, proportional_fee, fee_ppm, max_fee_for_ppm, inbound_fee, cap_rate,
}
use cln_circular.Graph.FeeLaws.{proportional_fee_exact, fee_ppm-le_iff, inbound_fee_exact}
use cln_circular.Graph.Channel.{opposite_channel_id, make_id}
use cln_circular.Graph.ChannelId.{opposite-make_id}
use cln_circular.Tests.Samples.{us, bob, differ}

abbrev discount : InboundFee
discount = record { base_fee = negsuc 4; fee_rate = negsuc 99 }

proportional_fee_exact_example :
    proportional_fee 1 100 123456 ≡ min max_uint64 (1 + (123456 * 100 + 999999) / 1000000)
proportional_fee_exact_example =
    proportional_fee_exact 1 100 123456 (omega arith) (omega arith) (omega arith)

fee_ppm-le_iff_example : (fee_ppm 30 100000 ≤ 300) ↔ (30 ≤ max_fee_for_ppm 100000 300)
fee_ppm-le_iff_example =
    fee_ppm-le_iff 30 100000 300 (omega arith) (omega arith) (omega arith) (omega arith)

inbound_fee_exact_example :
    inbound_fee (some discount) 1234567
    ≡ discount.base_fee +ℤ quot (scale 1234567 (cap_rate discount.fee_rate)) 1000000
inbound_fee_exact_example =
    inbound_fee_exact discount 1234567 (omega arith, omega arith) (omega arith)

opposite-make_id_example :
    opposite_channel_id (make_id (b'7' ∷ []) us bob) ≡ make_id (b'7' ∷ []) bob us
unfolding str_eq
opposite-make_id_example = opposite-make_id (b'7' ∷ []) us bob (differ us bob refl)
