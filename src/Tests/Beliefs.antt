-- ===== src/Tests/Beliefs.antt =====
-- Lessons from payments and from gossip on a small network (graph/beliefs.go, graph/graph.go).
use Prim.Native.Nat.{min, max}
use cln_circular.Common.{
  true, [], ◌∷◌, ℕ, ◌+◌, ◌-◌, ◌≤◌, ◌<◌, ◌≡◌, refl, false, some, arith, str_eq, lookup,
}
use cln_circular.Graph.Channel.{Channel, can_forward, opposite_channel_id}
use cln_circular.Graph.AvoidLaws.{avoided_lem, unexpired, still}
use cln_circular.Graph.State.{Graph, avoided}
use cln_circular.Graph.Belief.{learn_upper_bound, learn_lower_bound, learn_payment}
use cln_circular.Graph.BeliefLaws.{
  learn_upper_bound-blocks, learn_upper_bound-opposite, learn_lower_bound_lem, learn_payment_lem,
  learn-FitsCapacity, learn, short_of, FitsCapacity,
}
use cln_circular.Graph.Topology.{ChannelUpdate, apply_channel_update}
use cln_circular.Graph.TopologyLaws.{Follows, apply_channel_update-converges}
use cln_circular.Tests.Samples.{network, mid_id, mid_back_id, mid_channel, mid_back, differ}

abbrev update_at : ℕ → ℕ → ChannelUpdate
update_at timestamp fee_ppm = record {
  channel_id = mid_id;
  timestamp = timestamp;
  message_flags = 1;
  channel_flags = 0;
  cltv_delta = 9;
  htlc_minimum_msat = 10;
  htlc_maximum_msat = 800000;
  base_fee_msat = 2;
  fee_ppm = fee_ppm;
}

learn_upper_bound-blocks_example :
    (c' : Channel) × (lookup mid_id (learn_upper_bound 9 mid_id 300000 network).channels ≡ some c')
    × (c'.liquidity < 300000)
    × (c'.liquidity ≤ mid_channel.liquidity)
    × (can_forward c' 400000 ≡ false)
unfolding lookup str_eq opposite_channel_id
learn_upper_bound-blocks_example =
    learn_upper_bound-blocks 9 mid_id 300000 400000 network (omega arith) (omega arith)
      (differ mid_id mid_back_id refl) refl

learn_upper_bound-opposite_example :
    (d' : Channel) × (lookup
        (opposite_channel_id mid_id)
        (learn_upper_bound 9 mid_id 300000 network).channels
      ≡ some d')
    × (mid_back.liquidity ≤ d'.liquidity)
    × (mid_back.amount_msat ≤ d'.liquidity + 300000)
unfolding lookup str_eq opposite_channel_id
learn_upper_bound-opposite_example =
    learn_upper_bound-opposite 9 mid_id 300000 network {d = mid_back} (omega arith)
      (differ mid_id mid_back_id refl) refl

learn_lower_bound_lem_example :
    (c' : Channel) × (d' : Channel) × (lookup mid_id
        (learn_lower_bound 9 mid_id 700000 network).channels
      ≡ some c')
    × (lookup (opposite_channel_id mid_id) (learn_lower_bound 9 mid_id 700000 network).channels
        ≡ some d')
    × (c'.liquidity ≡ max mid_channel.liquidity 700000)
    × (d'.liquidity ≡ min mid_back.liquidity (mid_back.amount_msat - 700000))
unfolding lookup str_eq opposite_channel_id
learn_lower_bound_lem_example =
    learn_lower_bound_lem 9 mid_id 700000 network {c = mid_channel} {d = mid_back}
      (differ mid_id mid_back_id refl) refl refl

learn_payment_lem_example :
    (c' : Channel) × (d' : Channel) × (lookup mid_id
        (learn_payment 9 mid_id 200000 network).channels
      ≡ some c')
    × (lookup (opposite_channel_id mid_id) (learn_payment 9 mid_id 200000 network).channels
        ≡ some d')
    × (c'.liquidity ≡ max 1 (mid_channel.liquidity - 200000))
    × (d'.liquidity ≡ min mid_back.amount_msat (mid_back.liquidity + 200000))
unfolding lookup str_eq opposite_channel_id
learn_payment_lem_example =
    learn_payment_lem 9 mid_id 200000 network {c = mid_channel} {d = mid_back}
      (differ mid_id mid_back_id refl) refl refl (omega arith) (omega arith) (omega arith)

network-FitsCapacity : FitsCapacity network
network-FitsCapacity = (omega arith, (omega arith, (omega arith, (omega arith, tt))))

learn-FitsCapacity_example : FitsCapacity (learn 9 (short_of mid_id 300000) network)
learn-FitsCapacity_example =
    learn-FitsCapacity 9 (short_of mid_id 300000) network tt network-FitsCapacity

apply_channel_update-converges_example :
    (lookup mid_id
        (apply_channel_update
          (update_at 9 250)
          (apply_channel_update (update_at 8 150) network).0).0.channels
      ≡ lookup mid_id
          (apply_channel_update
            (update_at 8 150)
            (apply_channel_update (update_at 9 250) network).0).0.channels)
    × Follows (update_at 9 250) (lookup mid_id network.channels) (
        lookup mid_id
          (apply_channel_update
            (update_at 9 250)
            (apply_channel_update (update_at 8 150) network).0).0.channels)
apply_channel_update-converges_example =
    apply_channel_update-converges (update_at 8 150) (update_at 9 250) network mid_id refl
      (omega arith) refl

-- A node avoided up to 50 and one avoided up to 90.
abbrev wary : Graph
wary = record network { avoid = (mid_id, 50) ∷ (mid_back_id, 90) ∷ [] }

avoided_lem_example :
    (lookup mid_back_id (avoided 60 wary).0.avoid ≡ unexpired 60 (lookup mid_back_id wary.avoid))
    × (lookup mid_back_id (avoided 60 wary).1 ≡ still 60 true (lookup mid_back_id wary.avoid))
unfolding lookup str_eq
avoided_lem_example = avoided_lem 60 wary mid_back_id (refl, (refl, tt))
