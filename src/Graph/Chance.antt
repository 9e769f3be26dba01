-- ===== src/Graph/Chance.antt =====
-- A channel's chance of carrying an amount and what the search makes of it (graph/channel.go,
-- graph/pathfinder.go, graph/nodes.go, graph/estimate.go), over any float64.
use cln_circular.Common.{
  ℕ, ◌+◌, ◌-◌, ◌*◌, ◌/◌, ◌&&◌, ◌||◌, not, Option, none, some, List, [], ◌∷◌, ltb, leb, ◌==◌,
  if◌then◌else◌, max_uint64, u64, sub64, Map, lookup,
}
use cln_circular.Common.Float.{Float64}
use cln_circular.Graph.Fee.{add_saturating}
use cln_circular.Graph.Channel.{Channel, learned}
use cln_circular.Graph.Route.{RouteHop}

module _ (Fl : Float64) where
  open Fl use {F, of_ℕ, to_ℕ, ratio, add, mul, div, neg_log, ceil, lt, le}

  -- The end of Channel.SuccessChance: an even spread of balances around `liquidity`.
  unfoldable pub spread_chance : ℕ → ℕ → ℕ → F
  spread_chance capacity liquidity amount =
      let high_side = ltb (capacity / 2) liquidity in
      let low = if high_side then sub64 (u64 (2 * liquidity)) capacity else 0 in
      let high = if high_side then capacity else u64 (2 * liquidity) in
      if leb amount low
      then of_ℕ 1
      else if leb high amount
      then of_ℕ 0
      else div (of_ℕ (high - amount)) (of_ℕ (high - low))

  -- Channel.SuccessChance; DearShare is 0.3.
  unfoldable pub success_chance : Channel → ℕ → F
  unfolding spread_chance
  success_chance c amount =
      let capacity = c.amount_msat in
      let liquidity = if ltb capacity c.liquidity then capacity else c.liquidity in
      if liquidity == 0 || capacity == 0
      then of_ℕ 0
      else if c.upper && learned c
      then (if ltb liquidity amount
          then of_ℕ 0
          else div (of_ℕ (sub64 (u64 (liquidity + 1)) amount)) (of_ℕ (u64 (liquidity + 1))))
      else spread_chance capacity
          (if c.dear && not (learned c) then to_ℕ (mul (of_ℕ capacity) (ratio 3 10)) else liquidity)
          amount

  -- The end of uncertaintyCost and of nodeCost: msat, rounded up, or math.MaxUint64 if too large.
  unfoldable pub cost_of : F → ℕ
  cost_of cost = if le (of_ℕ (max_uint64 / 2)) cost then max_uint64 else to_ℕ (ceil cost)

  -- uncertaintyCost
  unfoldable pub uncertainty_cost : Channel → ℕ → ℕ → ℕ
  unfolding cost_of
  uncertainty_cost c amount risk_ppm =
      let chance = success_chance c amount in
      if risk_ppm == 0
      then 0
      else if le (of_ℕ 1) chance
      then 0
      else if le chance (of_ℕ 0)
      then max_uint64
      else cost_of (div (mul (mul (neg_log chance) (of_ℕ risk_ppm)) (of_ℕ amount)) (of_ℕ 1000000))

  -- nodeCost
  unfoldable pub node_cost : F → ℕ → ℕ → ℕ
  unfolding cost_of
  node_cost penalty amount risk_ppm =
      if le penalty (of_ℕ 0)
      then 0
      else cost_of (div (mul (mul penalty (of_ℕ risk_ppm)) (of_ℕ amount)) (of_ℕ 1000000))

  -- searchRequest.channelCost: `penalties` is none for a nil map.
  unfoldable pub channel_cost : ℕ → Option (Map F) → Channel → ℕ → ℕ
  unfolding uncertainty_cost node_cost
  channel_cost risk_ppm penalties c amount =
      let cost = uncertainty_cost c amount risk_ppm in
      elim penalties [
        | none ↦ cost
        | some m ↦
            if cost == max_uint64
            then cost
            else add_saturating cost (
                node_cost (elim (lookup c.source m) [ some p ↦ p | none ↦ of_ℕ 0 ]) amount risk_ppm)
      ]

  -- The loop of Graph.Estimate over the hops after the first, up to the last.
  unfoldable pub estimate_from : F → ℕ → List RouteHop → F × ℕ
  estimate_from chance guessed [] = (chance, guessed)
  estimate_from chance guessed (hop ∷ []) = (chance, guessed)
  estimate_from chance guessed (hop ∷ next ∷ hops) =
      estimate_from (mul chance (success_chance hop.channel hop.milli_satoshi))
        (if learned hop.channel then guessed else guessed + 1) (next ∷ hops)
