-- ===== src/Rebalance/Checks.antt =====
-- The defaults of a rebalance and the checks before its payments (rebalance/params.go and
-- rebalance/rebalance.go).
use cln_circular.Common.{ℕ, ◌*◌, Option, none, some, [], ◌∷◌, ltb, ◌==◌, not, if◌then◌else◌, u64}
use cln_circular.Common.Int.{ℤ, pos, pos_part, ltb_ℤ}
use cln_circular.Graph.Route.{Route}
use cln_circular.Node.Peers.{Peers, PeerChannel, get_peer_channel, is_peer_connected}
use cln_circular.Rebalance.Errors.{
  Error, fault, Fault, on_out, on_in, no_peer_channel, incoming_channel_depleted,
  outgoing_channel_depleted, outgoing_channel_not_in_normal_state,
  incoming_channel_not_in_normal_state, incoming_peer_disconnected, outgoing_peer_disconnected,
}
use cln_circular.Rebalance.Result.{retry_no}
use cln_circular.Rebalance.Split.{Rebalance, Defaults}

-- OrDefault
unfoldable pub or_default : ℤ → ℤ → ℤ
or_default node_default builtin = if ltb_ℤ (pos 0) node_default then node_default else builtin

-- Rebalance.setDefaults
unfoldable pub set_defaults : Defaults → Rebalance → Rebalance
unfolding or_default
set_defaults d r =
    let amount = u64 (r.amount * 1000) in
    record r {
      amount = if amount == 0 then 200000000 else amount;
      max_ppm = if r.max_ppm == 0 then 10 else r.max_ppm;
      attempts = if ltb_ℤ (pos 0) r.attempts then r.attempts else or_default d.attempts (pos 1);
      max_hops = if ltb_ℤ (pos 0) r.max_hops then r.max_hops else or_default d.max_hops (pos 8);
    }

-- Rebalance.riskPPM
unfoldable pub risk_rate : Defaults → Rebalance → ℕ
risk_rate d r =
    if ltb_ℤ (pos 0) r.risk_ppm
    then pos_part r.risk_ppm
    else if ltb_ℤ r.risk_ppm (pos 0)
    then 0
    else d.risk_ppm

-- Rebalance.maxNodeFails
unfoldable pub max_node_fails : Defaults → Rebalance → ℤ
unfolding or_default
max_node_fails d r =
    if ltb_ℤ (pos 0) r.max_node_fails then r.max_node_fails else or_default d.max_node_fails (pos 5)

-- Rebalance.checkConnections: none is a nil error.
unfoldable pub check_connections : Peers → PeerChannel → PeerChannel → Option Fault
check_connections n in_channel out_channel =
    if not in_channel.is_normal
    then some incoming_channel_not_in_normal_state
    else if not out_channel.is_normal
    then some outgoing_channel_not_in_normal_state
    else if not (is_peer_connected n in_channel)
    then some incoming_peer_disconnected
    else if not (is_peer_connected n out_channel)
    then some outgoing_peer_disconnected
    else none

-- Rebalance.checkLiquidity for the amount
unfoldable pub check_liquidity : ℕ → PeerChannel → PeerChannel → Option Fault
check_liquidity amount in_channel out_channel =
    if ltb in_channel.receivable_msat amount
    then some incoming_channel_depleted
    else if ltb out_channel.spendable_msat amount
    then some outgoing_channel_depleted
    else none

-- The end of Rebalance.validateLiquidityParameters, for the two channels it looked up.
unfoldable pub check_channels : Peers → ℕ → PeerChannel → PeerChannel → Option Error
unfolding check_connections check_liquidity
check_channels n amount in_channel out_channel = elim (check_connections n in_channel out_channel) [
  | some f ↦ some (fault f)
  | none ↦ elim (check_liquidity amount in_channel out_channel) [
    | some f ↦ some (fault f)
    | none ↦ none
  ]
]

-- Rebalance.validateLiquidityParameters
unfoldable pub validate_liquidity : Peers → Rebalance → ℕ → Option Error
unfolding check_channels
validate_liquidity n r amount = elim (get_peer_channel n r.in_channel) [
  | none ↦ some (on_in (fault no_peer_channel) retry_no)
  | some in_channel ↦ elim (get_peer_channel n r.out_channel) [
    | none ↦ some (on_out (fault no_peer_channel) retry_no)
    | some out_channel ↦ check_channels n amount in_channel out_channel
  ]
]

-- The amount of the first hop; a route of the search has one.
unfoldable pub first_amount : Route → ℕ
first_amount route = elim route.hops [ [] ↦ 0 | hop ∷ _ ↦ hop.milli_satoshi ]

-- Rebalance.checkFirstHop
unfoldable pub check_first_hop : Peers → Rebalance → Route → Option Error
unfolding first_amount
check_first_hop n r route = elim (get_peer_channel n r.out_channel) [
  | none ↦ some (on_out (fault no_peer_channel) retry_no)
  | some out_channel ↦
      if ltb out_channel.spendable_msat (first_amount route)
      then some (fault outgoing_channel_depleted)
      else none
]
