-- ===== src/Tests/Rebalances.antt =====
-- One rebalance around a small network, and what it learns (rebalance/).
use cln_circular.Common.{
  ℕ, ◌+◌, ◌-◌, ◌*◌, ◌/◌, ◌≡◌, refl, true, false, Option, none, some, [], ◌∷◌, arith, Str, str_eq,
  str_lt, ltb, leb, lookup, insert, delete, keep_if,
}
use cln_circular.Common.Float.{Float64}
use cln_circular.Common.Int.{pos, int64}
use cln_circular.Graph.Belief.{learn_payment, on_channel, take_out, put_in}
use cln_circular.Graph.Channel.{
  make_id, get_direction, channel_id, compute_fee, forward_limit, can_forward,
}
use cln_circular.Graph.Circular.{
  search_route, price_answer, try_hops, get_circular_route, likely_route_at,
  get_likely_circular_route, get_cheapest_circular_route, least_forward_fee, least_over_edge,
  least_over_all,
}
use cln_circular.Graph.Fee.{
  add_saturating, proportional_fee, node_fee, inbound_fee, inbound_charge, cap_rate, fee_ppm,
  max_fee_for_ppm,
}
use cln_circular.Graph.Route.{
  new_route_from_channels, price_hops, hop_before, extend, route_fee, route_fee_ppm, channel_ids,
}
use cln_circular.Graph.Scores.{Scores, node_forwarded, change_node, node_penalties, penalties_of}
use cln_circular.Graph.Search.{
  less, dominated, record_mark, add_expansion, lacks_node, self_of, path_hops, seed, push,
  final_label, next_label, expand_edge, expand_all, at_source, expand, turn, search_loop,
  circular_request, search_channels,
}
use cln_circular.Graph.State.{get_inbound_fee, avoided, split_avoided}
use cln_circular.Node.Peers.{
  Peers, Peer, PeerChannel, Updates, get_peer_channel, is_peer_connected, channel_by_scid,
  get_channel_peer,
}
use cln_circular.Rebalance.Attempt.{
  run_attempt, choose_route, try_outcome, try_route, conclude, send, start, start_exclude,
  success_of, pretty_hops,
}
use cln_circular.Rebalance.Checks.{
  validate_liquidity, check_channels, check_connections, check_liquidity, check_first_hop,
  first_amount, risk_rate,
}
use cln_circular.Rebalance.Failure.{learn_from_success, learn_forwarded, thank_nodes}
use cln_circular.Rebalance.Routing.{
  get_route, judge_search, check_price, likely_route, cheapest_route, known_route,
}
use cln_circular.Rebalance.Run
use cln_circular.Rebalance.Result.{Result, new_result, side_none, retry_no}
use cln_circular.Rebalance.Run.{
  Ended, returned, stalled, run, run_loop, result_of, complete, after_attempt, remember_short,
  route_short, has_error, error_of,
}
use cln_circular.Rebalance.Answers.{enough}
use cln_circular.Rebalance.RunLaws.{Returns, run-Returns}
use cln_circular.Rebalance.Split.{Rebalance, Defaults, World, Payment, delivered}
use cln_circular.Parallel.Landing.{land}
use cln_circular.Parallel.Reach.{Step}
use cln_circular.Parallel.Splits.{SplitSettings, new_split, answer, run-lands}
use cln_circular.Tests.Runs.{fresh, flying, calm, out_id}
use cln_circular.Tests.Queue.{least_first}
use cln_circular.Graph.SearchAnswers.{IsAnswer, search_fuel, likely_route-IsAnswer}
use cln_circular.Graph.Circular.{get_likely_circular_route}
use cln_circular.Tests.Samples.{network, us, bob, carol, out_channel, in_channel, mid_id}

-- Numbers in place of floats: the rebalances here go by fees alone.
abbrev pub whole_numbers : Float64
whole_numbers = record {
  F = ℕ;
  of_ℕ = λ n. n;
  to_ℕ = λ n. n;
  ratio = λ a b. a / b;
  add = λ a b. a + b;
  sub = λ a b. a - b;
  mul = λ a b. a * b;
  div = λ a b. a / b;
  neg_log = λ a. a;
  pow = λ a b. a;
  ceil = λ a. a;
  lt = λ a b. ltb a b;
  le = λ a b. leb a b;
}

abbrev fees : Updates
fees = record {
  fee_base_msat = 1;
  fee_proportional_millionths = 100;
  cltv_expiry_delta = 6;
  htlc_minimum_msat = 0;
  htlc_maximum_msat = 1000000;
}

abbrev pub ours_with : Str → Str → PeerChannel
ours_with peer scid = record {
  short_channel_id = scid;
  peer_id = peer;
  peer_connected = true;
  is_normal = true;
  to_us_msat = 500000;
  total_msat = 1000000;
  spendable_msat = 400000;
  receivable_msat = 400000;
  htlcs = [];
  local = fees;
  remote = fees;
}

abbrev pub peer_with : Str → Str → Peer
peer_with id scid = record { id = id; connected = true; channels = ours_with id scid ∷ [] }

abbrev pub our_node : Peers
our_node = record {
  our_id = us;
  peers = (bob, peer_with bob (b'1' ∷ [])) ∷ (carol, peer_with carol (b'3' ∷ [])) ∷ [];
  scid_to_peer =
      (b'1' ∷ [], peer_with bob (b'1' ∷ [])) ∷ (b'3' ∷ [], peer_with carol (b'3' ∷ [])) ∷ [];
  peers_read_at = 1;
  channels_read_at = [];
  connected_at = [];
}

abbrev pub no_defaults : Defaults
no_defaults = record { attempts = pos 0; max_hops = pos 0; max_node_fails = pos 0; risk_ppm = 0 }

-- A moment at which payments end as `end`.
abbrev pub moment : Payment → World
moment end = record {
  now = 1000;
  stopped = false;
  halted = false;
  node = our_node;
  defaults = no_defaults;
  pay = λ route. end;
  meanwhile = λ g. g;
  listed = λ scid. none;
  read_peer = λ id g. some g;
}

abbrev pub no_scores : Scores ℕ
no_scores = record { half_life = 0; nodes = [] }

-- 100 sats at most 1000 ppm from our channel with Bob to the one with Carol.
abbrev pub once : Rebalance
once = record {
  out_channel = out_channel;
  in_channel = in_channel;
  amount = 100000;
  max_ppm = 1000;
  attempts = pos 2;
  max_hops = pos 4;
  min_amount = 0;
  route = [];
  max_node_fails = pos 0;
  risk_ppm = pos 0;
  run_max_ppm = 0;
}

program : Unit {0}
unfolding lookup insert delete str_eq str_lt keep_if int64 least_first add_saturating
    proportional_fee node_fee inbound_fee inbound_charge cap_rate make_id get_direction channel_id
    compute_fee forward_limit can_forward get_inbound_fee new_route_from_channels price_hops
    hop_before extend less dominated record_mark add_expansion lacks_node self_of path_hops seed
    push final_label next_label expand_edge expand_all at_source expand turn search_loop
    search_channels circular_request search_route price_answer try_hops get_circular_route
    likely_route_at get_likely_circular_route get_cheapest_circular_route least_forward_fee
    least_over_edge least_over_all max_fee_for_ppm fee_ppm route_fee route_fee_ppm run run_loop
    Run.turn run_attempt validate_liquidity check_channels check_connections check_liquidity
    get_peer_channel is_peer_connected channel_by_scid get_channel_peer choose_route try_outcome
    try_route conclude get_route judge_search check_price likely_route cheapest_route risk_rate
    check_first_hop first_amount send learn_from_success learn_forwarded thank_nodes start
    start_exclude avoided split_avoided known_route complete after_attempt remember_short
    route_short has_error error_of success_of new_result pretty_hops channel_ids node_forwarded
    change_node learn_payment node_penalties penalties_of on_channel take_out put_in
program = tt

-- What a run moved and paid, at what rate, in how many payments.
abbrev summary : Ended ℕ → Option (ℕ × ℕ × ℕ × ℕ)
summary (returned p res) = some (res.amount_msat, res.fee, res.ppm, res.attempts)
summary (stalled p) = none

-- The fee is 23 msat, 230 ppm.
delivers :
    summary (
      run whole_numbers least_first
        (λ g. 20)
        (λ n. (moment delivered, moment delivered))
        once
        network
        no_scores)
    ≡ some (100000, 23, 230, 1)
unfolding program
delivers = refl

run-Returns_example : Returns once 2 (
    run whole_numbers least_first
      (enough once)
      (λ n. (moment delivered, moment delivered))
      once
      network
      no_scores)
run-Returns_example =
    run-Returns whole_numbers least_first once (omega arith)
      (λ n. (moment delivered, moment delivered)) (λ n. ((λ route e h. cc), (λ route e h. cc)))
      network no_scores

abbrev split_settings : SplitSettings
split_settings = record {
  attempts = pos 2;
  max_hops = pos 4;
  max_node_fails = pos 0;
  risk_ppm = pos 0;
  min_split = 100000;
  has_ratio = false;
}

abbrev worlds : ℕ → World × World
worlds n = (moment delivered, moment delivered)

-- What the split of 100 sats gives, at 300 ppm at most.
abbrev gained : Result
gained = record {
  success = true;
  message = [];
  amount = 100;
  out_peer = bob;
  in_peer = carol;
  attempts = 1;
  fee = 23;
  ppm = 230;
  route = some (
      record { id = us; short_channel_id = b'1' ∷ [] }
      ∷ record { id = bob; short_channel_id = b'2' ∷ [] }
      ∷ record { id = carol; short_channel_id = b'3' ∷ [] }
      ∷ []);
  amount_msat = 100000;
  channels = out_id ∷ mid_id ∷ (b'3' ∷ b'/' ∷ b'1' ∷ []) ∷ [];
  requested = 0;
  candidate = [];
  failed_at = side_none;
  retry = retry_no;
  precheck = false;
  halted = false;
  cheapest_ppm = 0;
  held_by_own_limit = false;
  in_over_max = false;
  own_limit = false;
  failed_nodes = [];
  middle_failures = 0;
}

gains :
    result_of (
      run whole_numbers least_first
        (λ g. 20)
        worlds
        (new_split split_settings fresh out_channel in_channel out_channel 100000 300)
        network
        no_scores)
    ≡ some gained
unfolding program new_split
gains = refl

run-lands_example :
    let b = new_split split_settings fresh out_channel in_channel out_channel 100000 300 in
    (res : Result) × (result_of
        (run whole_numbers least_first (enough b) worlds b network no_scores)
      ≡ some res)
    × Step flying (land calm 0 (answer out_id 100000 res) flying)
run-lands_example =
    run-lands whole_numbers least_first split_settings fresh out_channel in_channel out_channel
      100000 300 worlds network no_scores calm 0 (λ n. ((λ route e h. cc), (λ route e h. cc)))
      (omega arith) (omega arith) (omega arith) refl refl

likely_route-IsAnswer_example : IsAnswer (
    get_likely_circular_route network least_first
      (search_fuel 4 network)
      whole_numbers
      none
      out_channel
      in_channel
      100000
      []
      4
      1000
      5)
likely_route-IsAnswer_example =
    likely_route-IsAnswer network least_first 4 out_channel in_channel 100000 [] whole_numbers none
      1000 5
