-- ===== src/Rebalance/Failure.antt =====
-- What a rebalance learns from its payments (rebalance/failure.go).
use cln_circular.Common.{
  ℕ, zero, suc, ◌+◌, ◌-◌, Bool, true, ◌&&◌, ◌||◌, Option, none, some, List, [], ◌∷◌, ◌++◌, ltb,
  ◌==◌, if◌then◌else◌, Str, str_eq, lookup_or, insert, length, decimal,
}
use cln_circular.Common.Float.{Float64}
use cln_circular.Common.Int.{pos, ltb_ℤ}
use cln_circular.Graph.Belief.{learn_upper_bound, learn_lower_bound, learn_payment, mark_unusable}
use cln_circular.Graph.Channel.{Channel, channel_id}
use cln_circular.Graph.Route.{Route, RouteHop}
use cln_circular.Graph.Scores.{node_failed, node_forwarded}
use cln_circular.Graph.State.{Graph, avoid_until}
use cln_circular.Graph.Topology.{refresh_channels}
use cln_circular.Rebalance.Checks.{max_node_fails}
use cln_circular.Rebalance.Codes.{
  FailureCase, liquidity_failure, policy_failure, channel_failure, other_failure, failure_case,
  fails_the_node, has_node_bit, retry_when_free_if, now_differs,
}
use cln_circular.Rebalance.Errors.{
  Error, fault, other, on_out, on_in, temporary_failure, short_of_liquidity, wire_fee_insufficient,
}
use cln_circular.Rebalance.Result.{retry_no, retry_when_free, retry_now}
use cln_circular.Rebalance.Split.{Rebalance, World, PaymentErrorData, Progress}

-- AVOID_DURATION in seconds
abbrev pub avoid_duration : ℕ
avoid_duration = 1800

-- The first hop out of a node, with its index.
unfoldable pub hop_from : Str → ℕ → List RouteHop → Option (ℕ × RouteHop)
hop_from node i [] = none
hop_from node i (hop ∷ hops) =
    if str_eq hop.channel.source node then some (i, hop) else hop_from node (i + 1) hops

-- `for i := 1; i < k; i++` over the hops after the first, `left` of them to go.
unfoldable pub learn_carried : ℕ → ℕ → List RouteHop → Graph → Graph
learn_carried now zero hops g = g
learn_carried now (suc left) [] g = g
learn_carried now (suc left) (hop ∷ hops) g =
    learn_carried now left hops (learn_lower_bound now (channel_id hop.channel) hop.milli_satoshi g)

unfoldable pub learn_before : ℕ → ℕ → List RouteHop → Graph → Graph
unfolding learn_carried
learn_before now k [] g = g
learn_before now k (_ ∷ hops) g = learn_carried now (k - 1) hops g

-- The first loop of learnFromSuccess: over the hops that are not ours.
unfoldable pub learn_forwarded : ℕ → List RouteHop → Graph → Graph
learn_forwarded now [] g = g
learn_forwarded now (hop ∷ []) g = g
learn_forwarded now (hop ∷ next ∷ hops) g =
    learn_forwarded now (next ∷ hops)
      (learn_payment now (channel_id hop.channel) hop.milli_satoshi g)

module _ {F : Type 0} where
  -- `exclude[key] = true`
  unfoldable pub exclude_key : Str → Progress F → Progress F
  exclude_key key p = record p { exclude = insert key true p.exclude }

  -- Rebalance.avoid
  unfoldable pub avoid : World → Rebalance → Str → Progress F → Progress F
  unfolding exclude_key
  avoid w r key p =
      if str_eq key r.out_channel.destination || str_eq key r.in_channel.source
      then exclude_key key p
      else record (exclude_key key p) { graph = avoid_until key (w.now + avoid_duration) p.graph }

  -- `exclude[fmt.Sprintf("%s/%d", channel, direction)] = true`
  unfoldable pub exclude_erring : PaymentErrorData → Progress F → Progress F
  unfolding exclude_key
  exclude_erring e p =
      if str_eq e.erring_channel []
      then p
      else exclude_key (e.erring_channel ++ b'/' ∷ decimal e.erring_direction) p

  -- The rest of learnFromFailure for a hop that is not ours and lacked liquidity.
  unfoldable pub count_node_failure : Str → Progress F → Progress F
  count_node_failure node p = record p {
    node_failures = insert node (lookup_or node 0 p.node_failures + 1) p.node_failures;
  }

  unfoldable pub drained_node : ℕ → PaymentErrorData → Progress F → Progress F × Error
  unfolding exclude_key
  drained_node k e p =
      if k == 1
      then (p, on_out other retry_no)
      else (exclude_key e.erring_node p, fault short_of_liquidity)

  unfoldable pub learn_shortage :
      World → Rebalance → ℕ → RouteHop → PaymentErrorData → Progress F → Progress F × Error
  unfolding exclude_key count_node_failure drained_node
  learn_shortage w r k hop e p =
      let id = channel_id hop.channel in
      let learned = record p { graph = learn_upper_bound w.now id hop.milli_satoshi p.graph } in
      let counted = count_node_failure e.erring_node (exclude_key id learned) in
      let n = lookup_or e.erring_node 0 counted.node_failures in
      if ltb_ℤ (pos n) (max_node_fails w.defaults r)
      then (counted, fault short_of_liquidity)
      else drained_node k e counted

  -- A policy failure on our in channel.
  unfoldable pub in_fee_failure : World → Rebalance → RouteHop → ℕ → Progress F → Progress F × Error
  in_fee_failure w r hop code p =
      let id = channel_id hop.channel in
      let reread : Progress F × Error = elim (w.read_peer r.in_channel.source p.graph) [
        | none ↦ (p, on_in (fault wire_fee_insufficient) retry_no)
        | some g ↦ (
          record p { graph = g },
          on_in (fault wire_fee_insufficient)
              (if now_differs g id hop.channel then retry_now else retry_no),
        )
      ] in
      if code == 0x100c then reread else (p, on_in other retry_no)

  -- Rebalance.refreshPolicy: the graph after Node.RefreshChannel, and whether the policy changed.
  unfoldable pub refresh_policy : World → Channel → Progress F → Progress F × Bool
  unfolding now_differs
  refresh_policy w old p = elim (w.listed old.short_channel_id) [
    | none ↦ (p, now_differs p.graph (channel_id old) old)
    | some policies ↦
        let g = refresh_channels policies p.graph in
        (record p { graph = g }, now_differs g (channel_id old) old)
  ]

  unfoldable pub learn_policy : World → Rebalance → RouteHop → Progress F → Progress F × Error
  unfolding refresh_policy avoid
  learn_policy w r hop p =
      let (read, changed) = refresh_policy w hop.channel p in
      (if changed then read else avoid w r (channel_id hop.channel) read, fault temporary_failure)

  unfoldable pub learn_closed : World → RouteHop → Progress F → Progress F × Error
  unfolding exclude_key
  learn_closed w hop p =
      let id = channel_id hop.channel in
      (
        exclude_key id (record p { graph = mark_unusable w.now id p.graph }),
        fault temporary_failure,
      )

  -- The default case, in the order of its tests.
  unfoldable pub learn_other :
      World → Rebalance → ℕ → Bool → RouteHop → PaymentErrorData → Progress F → Progress F × Error
  unfolding avoid exclude_key
  learn_other w r k in_channel hop e p =
      let retry = retry_when_free_if (e.fail_code == 0x2002) in
      if in_channel
      then (exclude_key e.erring_node p, on_in other retry)
      else if k == 1 && has_node_bit e.fail_code
      then (exclude_key e.erring_node p, on_out other retry)
      else if has_node_bit e.fail_code
      then (avoid w r e.erring_node p, fault temporary_failure)
      else (avoid w r (channel_id hop.channel) p, fault temporary_failure)

  -- The switch of learnFromFailure.
  unfoldable pub react :
      World
      → Rebalance
      → FailureCase
      → ℕ
      → Bool
      → RouteHop
      → PaymentErrorData
      → Progress F
      → Progress F × Error
  unfolding learn_shortage in_fee_failure learn_policy learn_closed learn_other
  react w r liquidity_failure k in_channel hop e p =
      if in_channel then (p, on_in other retry_when_free) else learn_shortage w r k hop e p
  react w r policy_failure k in_channel hop e p =
      if in_channel then in_fee_failure w r hop e.fail_code p else learn_policy w r hop p
  react w r channel_failure k in_channel hop e p =
      if in_channel then (p, on_in other retry_no) else learn_closed w hop p
  react w r other_failure k in_channel hop e p = learn_other w r k in_channel hop e p

module _ (Fl : Float64) where
  open Fl use {F}

  -- The counters of the run and the node's score, for a failure that is not on our in channel.
  unfoldable pub blame_node : World → ℕ → PaymentErrorData → Progress F → Progress F
  blame_node w k e p =
      let counted = record p {
        failures = insert e.erring_node (lookup_or e.erring_node 0 p.failures + 1) p.failures;
      } in
      let past_out_peer = record counted {
        mid_failures = p.mid_failures + 1;
        scores =
            if fails_the_node e.fail_code
            then node_failed Fl w.now e.erring_node p.scores
            else p.scores;
      } in
      if ltb 1 k then past_out_peer else counted

  -- learnFromFailure from the hop that failed on.
  unfoldable pub learn_at_hop :
      World → Rebalance → Route → ℕ → RouteHop → PaymentErrorData → Progress F → Progress F × Error
  unfolding blame_node react
  learn_at_hop w r route k hop e p =
      let in_channel = k + 1 == length route.hops in
      let blamed = if in_channel then p else blame_node w k e p in
      let carried = record blamed { graph = learn_before w.now k route.hops blamed.graph } in
      react w r (failure_case e.fail_code) k in_channel hop e carried

  -- Rebalance.learnFromFailure
  unfoldable pub learn_from_failure :
      World → Rebalance → Route → PaymentErrorData → Progress F → Progress F × Error
  unfolding exclude_erring avoid learn_at_hop
  learn_from_failure w r route e p =
      let ours = str_eq e.erring_node w.node.our_id in
      let excluded = exclude_erring e p in
      let past : Progress F × Error = elim (hop_from e.erring_node 0 route.hops) [
        | none ↦ (avoid w r e.erring_node excluded, fault temporary_failure)
        | some (k, hop) ↦ learn_at_hop w r route k hop e excluded
      ] in
      if ours && e.erring_index == 0 && ltb 0 (length route.hops)
      then (p, on_out other (retry_when_free_if (e.fail_code == 0x1007)))
      else if ours
      then (p, other)
      else past

  -- Its second loop: over the nodes that forward.
  unfoldable pub thank_nodes : World → List RouteHop → Progress F → Progress F
  thank_nodes w [] p = p
  thank_nodes w (hop ∷ hops) p =
      thank_nodes w hops (record p { scores = node_forwarded Fl w.now hop.channel.source p.scores })

  -- Rebalance.learnFromSuccess
  unfoldable pub learn_from_success : World → Route → Progress F → Progress F
  unfolding learn_forwarded thank_nodes
  learn_from_success w route p = elim route.hops [
    | [] ↦ p
    | _ ∷ hops ↦ thank_nodes w hops (record p { graph = learn_forwarded w.now hops p.graph })
  ]
