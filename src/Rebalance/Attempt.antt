-- ===== src/Rebalance/Attempt.antt =====
-- One payment of a rebalance (runAttempt of rebalance/rebalance.go, tryRoute of rebalance/route.go)
-- and what Run starts from (rebalance/quote.go).
use cln_circular.Common.{
  ℕ, ◌+◌, ◌/◌, true, Bool, Option, none, some, List, [], ◌∷◌, if◌then◌else◌, Map, insert, delete,
}
use cln_circular.Common.Float.{Float64}
use cln_circular.Graph.Route.{Route, RouteHop, route_fee, route_fee_ppm, channel_ids}
use cln_circular.Graph.Search.{Heap}
use cln_circular.Graph.State.{Graph, avoided}
use cln_circular.Graph.Scores.{Scores}
use cln_circular.Rebalance.Checks.{validate_liquidity, check_first_hop}
use cln_circular.Rebalance.Errors.{
  Error, fault, circular_stopped, run_stopped, Outcome, ok, err, hangs,
}
use cln_circular.Rebalance.Failure.{learn_from_failure, learn_from_success}
use cln_circular.Rebalance.Result.{Result, PrettyHop, new_result}
use cln_circular.Rebalance.Routing.{get_route}
use cln_circular.Rebalance.Split.{
  Rebalance, World, Payment, delivered, failed_at, refused, Progress,
}

-- Rebalance.startExclude: the graph without what it need not avoid any more, and the exclusions.
unfoldable pub start_exclude : World → Rebalance → Graph → Graph × Map Bool
start_exclude w r g =
    let (g', exclude) = avoided w.now g in
    (
      g',
      delete r.in_channel.source
          (delete r.out_channel.destination (insert w.node.our_id true exclude)),
    )

-- The state that Run starts from.
unfoldable pub start : {F : Type 0} → World → Rebalance → Graph → Scores F → Progress F
unfolding start_exclude
start w r g scores =
    let (g', exclude) = start_exclude w r g in
    record {
      graph = g';
      scores = scores;
      amount = r.amount;
      exclude = exclude;
      node_failures = [];
      failures = [];
      payments = 0;
      mid_failures = 0;
    }

-- The hops of NewPrettyRoute, as far as they are read.
unfoldable pub pretty_hops : List RouteHop → List PrettyHop
pretty_hops [] = []
pretty_hops (hop ∷ hops) =
    record { id = hop.channel.source; short_channel_id = hop.channel.short_channel_id }
    ∷ pretty_hops hops

-- The result of runAttempt for a payment that went through.
unfoldable pub success_of : Rebalance → Route → Result
unfolding new_result pretty_hops
success_of r route =
    record (new_result true (route.amount / 1000) r.out_channel.destination r.in_channel.source) {
      amount_msat = route.amount;
      channels = channel_ids route.hops;
      fee = route_fee route;
      ppm = route_fee_ppm route;
      route = some (pretty_hops route.hops);
    }

-- What runAttempt returns: a result, an error, or an error with the route that it tried. `hung` is
-- where it does not return.
pub data Attempted : Type 0 where
  succeeded : Result → Attempted
  unsent : Error → Attempted
  failed_over : Route → Error → Attempted
  hung : Attempted

module _ {F : Type 0} where
  -- The payment leaves, and time passes until it ends.
  unfoldable pub send : World → Progress F → Progress F
  send w p = record p { graph = w.meanwhile p.graph; payments = p.payments + 1 }

module _ (Fl : Float64) (heap : Heap) (fuel : Graph → ℕ) where
  open Fl use {F}

  -- The end of tryRoute: what is learned from how the payment ended.
  unfoldable pub conclude :
      World → Rebalance → Route → Payment → Progress F → Progress F × Attempted
  unfolding success_of
  conclude w r route delivered p = (learn_from_success Fl w route p, succeeded (success_of r route))
  conclude w r route (failed_at e) p =
      let (p', error) = learn_from_failure Fl w r route e p in (p', failed_over route error)
  conclude w r route (refused error) p = (p, failed_over route error)

  -- Rebalance.tryRoute
  unfoldable pub try_route : World → Rebalance → Route → Progress F → Progress F × Attempted
  unfolding conclude send
  try_route w r route p = elim (check_first_hop w.node r route) [
    | some error ↦ (p, failed_over route error)
    | none ↦ conclude w r route (w.pay route) (send w p)
  ]

  -- The route of an attempt: the one that is given, or the one that a search finds.
  unfoldable pub choose_route : World → Rebalance → Option Route → Progress F → Outcome Route
  choose_route w r (some route) p = ok route
  choose_route w r none p = get_route Fl heap fuel w r p

  unfoldable pub try_outcome :
      World → Rebalance → Outcome Route → Progress F → Progress F × Attempted
  unfolding try_route
  try_outcome w r (ok route) p = try_route w r route p
  try_outcome w r (err error) p = (p, unsent error)
  try_outcome w r hangs p = (p, hung)

  -- Rebalance.runAttempt
  unfoldable pub run_attempt :
      World → Rebalance → Option Route → Progress F → Progress F × Attempted
  unfolding choose_route try_outcome
  run_attempt w r known p =
      let checked : Progress F × Attempted = elim (validate_liquidity w.node r p.amount) [
        | some error ↦ (p, unsent error)
        | none ↦ try_outcome w r (choose_route w r known p) p
      ] in
      if w.stopped
      then (p, unsent (fault circular_stopped))
      else if w.halted
      then (p, unsent (fault run_stopped))
      else checked
