-- ===== src/Rebalance/Routing.antt =====
-- The routes of a rebalance: the one that a search finds, one that worked before, and one that is
-- tried again with less (rebalance/route.go and rebalance/rebalance.go).
use cln_circular.Common.{
  ℕ, ◌/◌, ◌*◌, Bool, false, ◌&&◌, ◌||◌, not, Option, none, some, List, [], ◌∷◌, ltb, leb, ◌==◌,
  if◌then◌else◌, Str, Map, lookup_or, delete,
}
use cln_circular.Common.Int.{pos_part}
use cln_circular.Common.Float.{Float64}
use cln_circular.Graph.Circular.{
  Searched, priced, get_likely_circular_route, get_cheapest_circular_route, least_forward_fee,
}
use cln_circular.Graph.Fee.{max_fee_for_ppm}
use cln_circular.Graph.Route.{
  Route, route_fee, route_fee_ppm, channel_ids, get_route_over_channels, can_carry,
}
use cln_circular.Graph.Scores.{node_penalties}
use cln_circular.Graph.Search.{Heap}
use cln_circular.Graph.State.{Graph}
use cln_circular.Rebalance.Checks.{risk_rate}
use cln_circular.Rebalance.Errors.{
  Error, fault, too_expensive, in_over_max, other, on_in, own_limit, no_route, no_such_node,
  Outcome, ok, err, hangs,
}
use cln_circular.Rebalance.Result.{retry_no}
use cln_circular.Rebalance.Split.{Rebalance, World, Progress}

-- The in-peer alone charges more than maxppm: above the split's own limit only, it blames neither
-- channel.
unfoldable pub in_peer_too_dear : Rebalance → ℕ → ℕ → Error
in_peer_too_dear r amount in_fee =
    if ltb r.max_ppm r.run_max_ppm && leb in_fee (max_fee_for_ppm amount r.run_max_ppm)
    then fault own_limit
    else on_in (in_over_max other) retry_no

-- What getRoute makes of an answer of the search that is not util.ErrNoRoute.
unfoldable pub check_price : Rebalance → Searched → Outcome Route
check_price r (priced route) =
    if ltb r.max_ppm (route_fee_ppm route)
    then err (too_expensive (route_fee_ppm route) r.max_ppm)
    else ok route
check_price r Searched.no_route = err (fault no_route)
check_price r Searched.no_such_node = err (fault no_such_node)
check_price r Searched.panicked = hangs
check_price r Searched.out_of_fuel = hangs

-- Its error where there is no route within the limits: how dear the cheapest one is, if any.
unfoldable pub why_no_route : Rebalance → Searched → Outcome Route
why_no_route r (priced cheapest) = err (too_expensive (route_fee_ppm cheapest) r.max_ppm)
why_no_route r Searched.no_route = err (fault no_route)
why_no_route r Searched.no_such_node = err (fault no_route)
why_no_route r Searched.panicked = hangs
why_no_route r Searched.out_of_fuel = hangs

unfoldable pub judge_search : Rebalance → Searched → Searched → Outcome Route
unfolding check_price why_no_route
judge_search r Searched.no_route cheapest = why_no_route r cheapest
judge_search r (priced route) cheapest = check_price r (priced route)
judge_search r Searched.no_such_node cheapest = check_price r Searched.no_such_node
judge_search r Searched.panicked cheapest = check_price r Searched.panicked
judge_search r Searched.out_of_fuel cheapest = check_price r Searched.out_of_fuel

module _ (Fl : Float64) (heap : Heap) (fuel : Graph → ℕ) where
  open Fl use {F}

  -- The search of getRoute, and the one for its error.
  unfoldable pub likely_route : World → Rebalance → Progress F → Searched
  likely_route w r p =
      get_likely_circular_route p.graph heap (fuel p.graph) Fl (node_penalties Fl w.now p.scores)
        r.out_channel r.in_channel p.amount p.exclude (pos_part r.max_hops)
        (max_fee_for_ppm p.amount r.max_ppm) (risk_rate w.defaults r)

  unfoldable pub cheapest_route : Rebalance → Progress F → Searched
  cheapest_route r p =
      get_cheapest_circular_route p.graph heap (fuel p.graph) r.out_channel r.in_channel p.amount
        p.exclude (pos_part r.max_hops)

  -- Rebalance.getRoute
  unfoldable pub get_route : World → Rebalance → Progress F → Outcome Route
  unfolding in_peer_too_dear judge_search likely_route cheapest_route
  get_route w r p =
      let in_fee = least_forward_fee p.graph r.in_channel (some r.out_channel) p.amount in
      if ltb (max_fee_for_ppm p.amount r.max_ppm) in_fee
      then err (in_peer_too_dear r p.amount in_fee)
      else judge_search r (likely_route w r p) (cheapest_route r p)

-- The loop of excludedChannels
unfoldable pub excluded_among : Map Bool → List Str → List Str
excluded_among exclude [] = []
excluded_among exclude (id ∷ ids) =
    let rest = excluded_among exclude ids in if lookup_or id false exclude then id ∷ rest else rest

-- excludedChannels
unfoldable pub excluded_channels : Route → Map Bool → List Str
unfolding excluded_among
excluded_channels route exclude = excluded_among exclude (channel_ids route.hops)

-- `delete(others, id)` for each id
unfoldable pub without : List Str → Map Bool → Map Bool
without [] exclude = exclude
without (id ∷ ids) exclude = without ids (delete id exclude)

module _ {F : Type 0} where
  -- Rebalance.knownRoute
  unfoldable pub known_route : Rebalance → Progress F → Option Route
  known_route r p = elim r.route [
    | [] ↦ none
    | id ∷ ids ↦ elim (get_route_over_channels p.graph (id ∷ ids) p.amount) [
      | none ↦ none
      | some route ↦
          if ltb r.max_ppm (route_fee_ppm route) || not (can_carry p.graph route p.exclude)
          then none
          else some route
    ]
  ]

  -- The checks of shrink on the route priced for the smaller amount.
  unfoldable pub can_shrink_to : Rebalance → Progress F → ℕ → List Str → Route → Bool
  can_shrink_to r p amount short_ids shrunk =
      leb (route_fee shrunk) (max_fee_for_ppm amount r.max_ppm)
      && can_carry p.graph shrunk (without short_ids p.exclude)

  -- Rebalance.shrink: the route to send half over; `amount` is then the new r.Amount.
  unfoldable pub shrink : Rebalance → Progress F → Route → List Str → Option (Route × ℕ)
  unfolding can_shrink_to
  shrink r p route short_ids =
      let amount = p.amount / 2 / 1000 * 1000 in
      let priced_again : Option (Route × ℕ) =
        elim (get_route_over_channels p.graph (channel_ids route.hops) amount) [
          | none ↦ none
          | some shrunk ↦
              if can_shrink_to r p amount short_ids shrunk then some (shrunk, amount) else none
        ] in
      if r.min_amount == 0
      then none
      else if ltb amount r.min_amount || amount == 0
      then none
      else priced_again
