-- ===== src/Tests/Usage.antt =====
-- What a pull may take of a channel, and the parameters of a run (rebalance/parallel/pull.go,
-- params.go).
use cln_circular.Common.{
  ℕ, ◌+◌, ◌<◌, ◌≤◌, ◌≡◌, ◌≢◌, refl, true, none, [], ◌∷◌, arith, u64_mod, lookup, str_eq,
}
use cln_circular.Common.Int.{pos}
use cln_circular.Graph.Fee.{add_saturating, max_fee_for_ppm}
use cln_circular.Node.Peers.{PeerChannel, is_peer_connected, get_channel_peer}
use cln_circular.Parallel.Balances.{
  Usage, Asked, kept_by, pull_cost, local_balance, pull_room, pull_can_use, push_defaults,
  whole_splits, sub_saturating, htlcs_in_flight, sum_htlcs,
}
use cln_circular.Parallel.BalancesLaws.{IsRoom, pull_room-CanUse}
use cln_circular.Parallel.Params.{
  Params, Verdict, accepted, divides_by_zero, set_generic_defaults, validate_generic,
}
use cln_circular.Parallel.ParamsLaws.{IsAccepted, set_generic_defaults-IsAccepted}
use cln_circular.Tests.Rebalances.{whole_numbers, our_node, ours_with, no_defaults}
use cln_circular.Tests.Samples.{bob, in_channel}

-- Splits of 100 sats at 1000 ppm; a channel keeps 150 sats.
abbrev usage : Usage ℕ
usage = record {
  target_channel = in_channel;
  split_amount = 100000;
  max_ppm = 1000;
  keep_amount = 150000;
  keep_percent = 1;
  own_ppm = 50;
}

abbrev with_bob : PeerChannel
with_bob = ours_with bob (b'1' ∷ [])

-- Of its 500 sats three splits can go.
rooms : pull_room whole_numbers usage with_bob ≡ 300000
unfolding pull_room kept_by pull_cost local_balance whole_splits sub_saturating htlcs_in_flight
    sum_htlcs add_saturating max_fee_for_ppm str_eq
rooms = refl

usable : pull_can_use whole_numbers usage our_node with_bob ≡ none
unfolding pull_can_use kept_by pull_cost local_balance sub_saturating htlcs_in_flight sum_htlcs
    add_saturating max_fee_for_ppm is_peer_connected get_channel_peer lookup str_eq
usable = refl

fits : kept_by whole_numbers usage with_bob + pull_cost usage < u64_mod
unfolding kept_by pull_cost add_saturating max_fee_for_ppm
fits = omega arith

pull_room-CanUse_example :
    IsRoom
      (kept_by whole_numbers usage with_bob)
      (pull_cost usage)
      100000
      (local_balance with_bob)
      (pull_room whole_numbers usage with_bob)
    × (pull_can_use whole_numbers usage our_node with_bob ≡ none
        → 100000 ≤ pull_room whole_numbers usage with_bob)
pull_room-CanUse_example = pull_room-CanUse whole_numbers usage our_node with_bob (omega arith) fits

-- 400 sats in splits of 150.
abbrev asked : Params
asked = record {
  amount = 400;
  splits = pos 0;
  split_amount = 150;
  min_split = 0;
  max_ppm = 0;
  attempts = pos 0;
  max_hops = pos 0;
}

uneven : validate_generic (set_generic_defaults no_defaults asked) ≡ Verdict.not_multiple
unfolding validate_generic set_generic_defaults
uneven = refl

set_generic_defaults-IsAccepted_example :
    let p = set_generic_defaults no_defaults (record asked { amount = 450 }) in
    (validate_generic p ≢ divides_by_zero) × (validate_generic p ≡ accepted → IsAccepted p)
set_generic_defaults-IsAccepted_example =
    set_generic_defaults-IsAccepted no_defaults (record asked { amount = 450 }) (omega arith)

-- An inlist does not lift the lowest fee of our own: it is 50 ppm again.
abbrev listed_at_10 : Asked ℕ
listed_at_10 = record { listed = true; own_ppm = 10; keep_percent = 1; keep_amount = 1 }

inlist_limit : (push_defaults whole_numbers listed_at_10).own_ppm ≡ 50
unfolding push_defaults
inlist_limit = refl
