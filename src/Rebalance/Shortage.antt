-- ===== src/Rebalance/Shortage.antt =====
-- Laws of learnFromFailure (rebalance/failure.go) for a channel along the route without liquidity.
use cln_circular.Common.{ℕ, ◌+◌, ◌≡◌, ◌≢◌, ◌⊎◌, Bool, true, false, Str, Map, lookup_or, insert}
use cln_circular.Common.Int.{pos, ltb_ℤ}
use cln_circular.Graph.Belief.{learn_upper_bound}
use cln_circular.Graph.Channel.{channel_id}
use cln_circular.Graph.Route.{Route, RouteHop, can_carry}
use cln_circular.Graph.State.{Graph}
use cln_circular.Rebalance.Checks.{max_node_fails}
use cln_circular.Rebalance.Errors.{Error, fault, short_of_liquidity, on_out, other}
use cln_circular.Rebalance.Failure.{exclude_erring, learn_before}
use cln_circular.Rebalance.Result.{retry_no}
use cln_circular.Rebalance.Split.{Rebalance, World, PaymentErrorData, Progress}

-- Which of the two the node's count comes to, with what is excluded beyond `before`: under the limit,
-- the channel alone, and the run goes on; at the limit, the run ends if the node is the out-peer, and
-- goes on without the node otherwise.
abbrev pub Limited :
    {F : Type 0} → Bool → ℕ → Str → PaymentErrorData → Map Bool → Progress F × Error → Type 0
Limited under k id e before x =
    ((under ≡ true) × (x.1 ≡ fault short_of_liquidity) × (x.0.exclude ≡ insert id true before))
    ⊎ ((under ≡ false)
        × (k ≡ 1)
        × (x.1 ≡ on_out other retry_no)
        × (x.0.exclude ≡ insert id true before))
    ⊎ ((under ≡ false)
        × (k ≢ 1)
        × (x.1 ≡ fault short_of_liquidity)
        × (x.0.exclude ≡ insert e.erring_node true (insert id true before)))

-- The node's failures are under its limit still.
abbrev pub under_limit : World → Rebalance → ℕ → Bool
under_limit w r many = ltb_ℤ (pos many) (max_node_fails w.defaults r)

-- What a shortage leaves behind: the bound on the channel, its exclusion, and the node's count;
-- a node that fell short as often as is allowed ends the run if it is the out-peer, and is left out
-- otherwise.
pub record IsShort {F : Type 0} (w : World) (r : Rebalance) (route : Route) (k : ℕ) (hop : RouteHop)
    (e : PaymentErrorData) (p : Progress F) (x : Progress F × Error) : Type 0 where
  pub bounded :
      x.0.graph
      ≡ learn_upper_bound w.now
          (channel_id hop.channel)
          hop.milli_satoshi
          (learn_before w.now k route.hops p.graph)
  pub avoided : (g : Graph) → can_carry g route x.0.exclude ≡ false
  pub counted :
      lookup_or e.erring_node 0 x.0.node_failures ≡ lookup_or e.erring_node 0 p.node_failures + 1
  pub limited :
      Limited
        (under_limit w r (lookup_or e.erring_node 0 p.node_failures + 1))
        k
        (channel_id hop.channel)
        e
        (exclude_erring e p).exclude
        x

module _ {F : Type 0} (w : World) (r : Rebalance) (k : ℕ) (hop : RouteHop) (e : PaymentErrorData)
    (p : Progress F) where
  abbrev many : ℕ
  many = lookup_or e.erring_node 0 p.node_failures + 1
