-- ===== src/Rebalance/Result.antt =====
-- The result of a rebalance (rebalance/result.go, rebalance/side.go).
use cln_circular.Common.{ℕ, Bool, false, Option, none, List, [], Str, Map}

pub data Side : Type 0 where
  side_none : Side
  side_route : Side
  side_out : Side
  side_in : Side

pub data Retry : Type 0 where
  retry_no : Retry
  retry_when_free : Retry
  retry_now : Retry

-- The fields of a hop of graph.PrettyRoute that the run reads.
pub record PrettyHop : Type 0 where
  pub id : Str
  pub short_channel_id : Str

-- Result: `success` is `Status == "success"`.
pub record Result : Type 0 where
  pub success : Bool
  pub message : Str
  pub amount : ℕ
  pub out_peer : Str
  pub in_peer : Str
  pub attempts : ℕ
  pub fee : ℕ
  pub ppm : ℕ
  pub route : Option (List PrettyHop)
  pub amount_msat : ℕ
  pub channels : List Str
  pub requested : ℕ
  pub candidate : Str
  pub failed_at : Side
  pub retry : Retry
  pub precheck : Bool
  pub halted : Bool
  pub cheapest_ppm : ℕ
  pub held_by_own_limit : Bool
  pub in_over_max : Bool
  pub own_limit : Bool
  pub failed_nodes : Map ℕ
  pub middle_failures : ℕ

-- NewResult, with the zero value of every other field.
unfoldable pub new_result : Bool → ℕ → Str → Str → Result
new_result success amount src dst = record {
  success = success;
  message = [];
  amount = amount;
  out_peer = src;
  in_peer = dst;
  attempts = 0;
  fee = 0;
  ppm = 0;
  route = none;
  amount_msat = 0;
  channels = [];
  requested = 0;
  candidate = [];
  failed_at = side_none;
  retry = retry_no;
  precheck = false;
  halted = false;
  cheapest_ppm = 0;
  held_by_own_limit = false;
  in_over_max = false;
  own_limit = false;
  failed_nodes = [];
  middle_failures = 0;
}
