-- ===== src/Rebalance/Split.antt =====
-- What one rebalance is given, what it reads of the world for a payment, and what it changes
-- (the Rebalance of rebalance/rebalance.go and the variables of its Run).
use cln_circular.Common.{ℕ, Bool, Option, List, Str, Map}
use cln_circular.Common.Int.{ℤ}
use cln_circular.Graph.Channel.{Policy, Channel}
use cln_circular.Graph.Route.{Route}
use cln_circular.Graph.Scores.{Scores}
use cln_circular.Graph.State.{Graph}
use cln_circular.Node.Peers.{Peers}
use cln_circular.Rebalance.Errors.{Error}

-- Rebalance without its functions and its counters; an int is an integer. `amount` is what the
-- caller asks for.
pub record Rebalance : Type 0 where
  pub out_channel : Channel
  pub in_channel : Channel
  pub amount : ℕ
  pub max_ppm : ℕ
  pub attempts : ℤ
  pub max_hops : ℤ
  pub min_amount : ℕ
  pub route : List Str
  pub max_node_fails : ℤ
  pub risk_ppm : ℤ
  pub run_max_ppm : ℕ

-- The fields of node.Defaults that a rebalance reads, and the node's risk rate.
pub record Defaults : Type 0 where
  pub attempts : ℤ
  pub max_hops : ℤ
  pub max_node_fails : ℤ
  pub risk_ppm : ℕ

-- glightning.PaymentErrorData
pub record PaymentErrorData : Type 0 where
  pub erring_node : Str
  pub erring_index : ℕ
  pub erring_channel : Str
  pub erring_direction : ℕ
  pub fail_code : ℕ

-- How the payment over a route ends: `pay` of the code, which is payInvoice but in tests.
pub data Payment : Type 0 where
  delivered : Payment
  failed_at : PaymentErrorData → Payment
  refused : Error → Payment

-- What one attempt reads of the node and of lightningd. The graph is shared with other goroutines:
-- `meanwhile` is what these do to it while the payment is in flight.
pub record World : Type 0 where
  pub now : ℕ
  pub stopped : Bool  -- Node.Stopped
  pub halted : Bool  -- Halt
  pub node : Peers
  pub defaults : Defaults
  pub pay : Route → Payment
  pub meanwhile : Graph → Graph
  pub listed : Str → Option (List Policy)  -- listchannels of an scid: none is an error
  pub read_peer : Str → Graph → Option Graph  -- refresh: none is an error

-- What a run changes: the shared graph and scores, `r.Amount`, and its own maps and counters.
pub record Progress (F : Type 0) : Type 0 where
  pub graph : Graph
  pub scores : Scores F
  pub amount : ℕ
  pub exclude : Map Bool
  pub node_failures : Map ℕ
  pub failures : Map ℕ
  pub payments : ℕ
  pub mid_failures : ℕ
