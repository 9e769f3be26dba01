-- ===== src/Tests/Routes.antt =====
-- A circular payment through a small network (graph/pathfinder.go).
use cln_circular.Common.{
  ℕ, ◌≤◌, ◌≡◌, ◌≢◌, refl, [], ◌∷◌, arith, Str, str_eq, lookup, lookup_or, insert, str_lt, keep_if,
}
use cln_circular.Common.Int.{int64}
use cln_circular.Graph.Fee.{
  add_saturating, proportional_fee, node_fee, inbound_fee, inbound_charge, cap_rate,
}
use cln_circular.Graph.State.{get_inbound_fee}
use cln_circular.Graph.Channel.{
  Channel, make_id, get_direction, channel_id, compute_fee, forward_limit, can_forward,
}
use cln_circular.Graph.Search.{
  less, dominated, record_mark, add_expansion, lacks_node, self_of, path_hops, seed, push,
  final_label, next_label, expand_edge, expand_all, at_source, expand, turn, search_loop,
  circular_request, search_channels, Answer,
}
use cln_circular.Graph.Circular.{
  Searched, priced, no_cost, search_route, price_answer, try_hops, get_circular_route,
  likely_route_at,
}
use cln_circular.Graph.CircularLaws.{IsCircular, searched-IsCircular, likely_route-IsCircular}
use cln_circular.Graph.SearchEnds.{circular_search-ends, reach, count_edges}
use cln_circular.Graph.Route.{
  Route, RouteHop, new_route_from_channels, price_hops, hop_before, extend,
}
use cln_circular.Tests.Queue.{least_first}
use cln_circular.Tests.Samples.{
  network, network-EdgesSound, bob, carol, out_channel, mid_channel, in_channel,
}

abbrev pub hop : Channel → ℕ → ℕ → RouteHop
hop c amount delay = record { channel = c; milli_satoshi = amount; delay = delay }

-- 100 sats around the triangle, at 23 msat.
abbrev pub circle : Route
circle = record {
  destination = carol;
  source = bob;
  amount = 100000;
  hops = hop out_channel 100023 156 ∷ hop mid_channel 100011 150 ∷ hop in_channel 100000 144 ∷ [];
}

program : Unit {0}
unfolding lookup insert str_eq str_lt keep_if int64 least_first add_saturating proportional_fee
    node_fee inbound_fee inbound_charge cap_rate make_id get_direction channel_id compute_fee
    forward_limit can_forward get_inbound_fee new_route_from_channels price_hops hop_before extend
    less dominated record_mark add_expansion lacks_node self_of path_hops seed push final_label
    next_label expand_edge expand_all at_source expand turn search_loop search_channels
    circular_request search_route price_answer try_hops get_circular_route likely_route_at
program = tt

found :
    search_route network least_first 20 no_cost
      (circular_request out_channel in_channel 100000 [] 4 1000)
    ≡ priced circle
unfolding program
found = refl

found_by_hops :
    get_circular_route network least_first 20 out_channel in_channel 100000 [] 4 1000
    ≡ priced circle
unfolding program
found_by_hops = refl

found_likely :
    likely_route_at network least_first 20 no_cost out_channel in_channel 100000 [] 4 1000 5
    ≡ priced circle
unfolding program
found_likely = refl

none_found :
    likely_route_at network least_first 20 no_cost out_channel in_channel 100000 [] 4 22 5
    ≡ Searched.no_route
unfolding program
none_found = refl

searched-IsCircular_example :
    IsCircular network
      (circular_request out_channel in_channel 100000 [] 4 1000)
      out_channel
      in_channel
      4
      1000
      circle
searched-IsCircular_example =
    searched-IsCircular network network-EdgesSound out_channel in_channel 100000 [] no_cost 4 1000
      (omega arith) least_first 20 circle found

likely_route-IsCircular_example :
    IsCircular network
      (circular_request out_channel in_channel 100000 [] 4 1000)
      out_channel
      in_channel
      4
      1000
      circle
likely_route-IsCircular_example =
    likely_route-IsCircular network network-EdgesSound out_channel in_channel 100000 [] least_first
      20 1000 no_cost 4 5 circle (omega arith) found_likely

narrow : (u : Str) → count_edges (lookup_or u [] network.inbound) ≤ 1
unfolding lookup
narrow u = ground arith

circular_search-ends_example :
    search_channels no_cost network
      (circular_request out_channel in_channel 100000 [] 4 1000)
      least_first
      20
    ≢ Answer.out_of_fuel
unfolding reach
circular_search-ends_example =
    circular_search-ends no_cost network out_channel in_channel 100000 [] 4 1000 1 least_first 20
      narrow (omega arith)
