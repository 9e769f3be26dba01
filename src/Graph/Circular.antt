-- ===== src/Graph/Circular.antt =====
-- The searches that rebalances make (graph/pathfinder.go): searchRoute and the functions on it.
use cln_circular.Common.{
  ℕ, zero, suc, ◌+◌, ◌-◌, Bool, true, false, ◌||◌, ◌&&◌, not, Option, none, some, [], ◌∷◌, ltb,
  ◌==◌, if◌then◌else◌, Str, str_eq, max_uint64, Map, lookup, lookup_or,
}
use cln_circular.Common.Float.{Float64}
use cln_circular.Graph.Fee.{add_saturating, node_fee, inbound_fee}
use cln_circular.Graph.Chance.{channel_cost}
use cln_circular.Graph.Channel.{Channel, compute_fee, make_id}
use cln_circular.Graph.Route.{Route, new_route_from_channels}
use cln_circular.Graph.Search.{
  Heap, SearchRequest, search_channels, plain_request, circular_request, Answer,
}
use cln_circular.Graph.State.{Graph, Edge}

-- A priced route, util.ErrNoRoute or util.ErrNoSuchNode; `panicked` and `out_of_fuel` are of the model.
pub data Searched : Type 0 where
  priced : Route → Searched
  no_route : Searched
  no_such_node : Searched
  panicked : Searched
  out_of_fuel : Searched

-- The cost of a search by fees alone (riskPPM 0).
abbrev pub no_cost : Channel → ℕ → ℕ
no_cost c amount = 0

-- The end of searchRoute: the channels that the search found, priced.
unfoldable pub price_answer : Graph → SearchRequest → Answer → Searched
price_answer g req (Answer.route channels) =
    elim (new_route_from_channels g req.src req.dst req.amount channels) [
      | none ↦ panicked
      | some r ↦ priced r
    ]
price_answer g req Answer.no_route = no_route
price_answer g req Answer.no_such_node = no_such_node
price_answer g req Answer.out_of_fuel = out_of_fuel

-- `if err != util.ErrNoRoute { return route, err }`, and what follows it.
abbrev pub or_else : Searched → Searched → Searched
or_else no_route next = next
or_else (priced r) next = priced r
or_else no_such_node next = no_such_node
or_else panicked next = panicked
or_else out_of_fuel next = out_of_fuel

module _ (g : Graph) (heap : Heap) (fuel : ℕ) where
  -- Graph.searchRoute
  unfoldable pub search_route : (Channel → ℕ → ℕ) → SearchRequest → Searched
  unfolding price_answer
  search_route cost_of req = price_answer g req (search_channels cost_of g req heap fuel)

  -- Graph.GetRoute
  unfoldable pub get_route : Str → Str → ℕ → Map Bool → ℕ → Searched
  unfolding search_route plain_request
  get_route src dst amount exclude max_hops =
      search_route no_cost (plain_request src dst amount exclude max_hops)

  -- The loop of GetCircularRoute, with the hop limits that are left to try.
  unfoldable pub try_hops : Channel → Channel → ℕ → Map Bool → ℕ → ℕ → ℕ → Searched
  try_hops out back amount exclude max_fee hops zero = no_route
  try_hops out back amount exclude max_fee hops (suc left) =
      let next = try_hops out back amount exclude max_fee (hops + 1) left in
      or_else (search_route no_cost (circular_request out back amount exclude hops max_fee)) next

  -- Graph.GetCircularRoute
  unfoldable pub get_circular_route : Channel → Channel → ℕ → Map Bool → ℕ → ℕ → Searched
  unfolding search_route try_hops circular_request
  get_circular_route out back amount exclude max_hops max_fee =
      try_hops out back amount exclude max_fee 2 (max_hops - 1)

  -- Graph.GetCheapestCircularRoute
  unfoldable pub get_cheapest_circular_route : Channel → Channel → ℕ → Map Bool → ℕ → Searched
  unfolding search_route circular_request
  get_cheapest_circular_route out back amount exclude max_hops =
      search_route no_cost (circular_request out back amount exclude max_hops max_uint64)

  -- Graph.GetLikelyCircularRoute, for what its search takes a channel to cost.
  unfoldable pub likely_route_at :
      (Channel → ℕ → ℕ) → Channel → Channel → ℕ → Map Bool → ℕ → ℕ → ℕ → Searched
  unfolding get_circular_route
  likely_route_at cost_of out back amount exclude max_hops max_fee risk_ppm =
      let by_fees = get_circular_route out back amount exclude max_hops max_fee in
      let likely =
        search_route cost_of (circular_request out back amount exclude max_hops max_fee) in
      if risk_ppm == 0 then by_fees else or_else likely by_fees

  -- Graph.GetLikelyCircularRoute, with the nodes' penalties of the moment.
  unfoldable pub get_likely_circular_route :
      (Fl : Float64) → Option (Map Fl.F) → Channel → Channel → ℕ → Map Bool → ℕ → ℕ → ℕ → Searched
  unfolding likely_route_at channel_cost
  get_likely_circular_route Fl penalties out back amount exclude max_hops max_fee risk_ppm =
      likely_route_at (channel_cost Fl risk_ppm penalties) out back amount exclude max_hops max_fee
        risk_ppm

module _ (g : Graph) (self first_hop_id : Str) (outbound forwarded : ℕ) where
  -- The inner loop of LeastForwardFee: the least fee so far, none where no channel was found.
  unfoldable pub least_over_edge : Str → Str → Edge → Option ℕ → Option ℕ
  least_over_edge peer w [] least = least
  least_over_edge peer w (scid ∷ edge) least =
      let id = make_id scid w peer in
      let fee = node_fee outbound (inbound_fee (lookup id g.inbound_fees) forwarded) in
      let kept : ℕ = elim least [ none ↦ max_uint64 | some l ↦ l ] in
      let known : Bool = elim (lookup id g.channels) [ none ↦ false | some _ ↦ true ] in
      least_over_edge peer w edge (
        if not known || (str_eq w self && not (str_eq id first_hop_id))
        then least
        else some (if ltb fee kept then fee else kept))

  unfoldable pub least_over_all : Str → Map Edge → Option ℕ → Option ℕ
  least_over_all peer [] least = least
  least_over_all peer ((w, edge) ∷ m) least =
      least_over_all peer m (least_over_edge peer w edge least)

-- Graph.LeastForwardFee; `out` may be nil.
unfoldable pub least_forward_fee : Graph → Channel → Option Channel → ℕ → ℕ
unfolding least_over_edge least_over_all
least_forward_fee g back out amount =
    let self = back.destination in
    let peer = back.source in
    let first_hop_id : Str = elim out [
      | none ↦ []
      | some o ↦
          if str_eq o.source self && str_eq o.destination peer
          then make_id o.short_channel_id self peer
          else []
    ] in
    let outbound = compute_fee back amount in
    elim (least_over_all g self first_hop_id outbound (add_saturating amount outbound) peer
      (lookup_or peer [] g.inbound) none) [ none ↦ outbound | some least ↦ least ]
