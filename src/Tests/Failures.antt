-- ===== src/Tests/Failures.antt =====
-- A failed payment around the small network, and what it teaches (rebalance/failure.go).
use cln_circular.Common.{ℕ, ◌≡◌, refl, [], ◌∷◌, str_eq}
use cln_circular.Rebalance.Blame.{Place, place_at, place_of, Blames, learn_from_failure-Blames}
use cln_circular.Rebalance.Failure.{hop_from, learn_from_failure}
use cln_circular.Rebalance.Split.{World, PaymentErrorData, Progress, delivered}
use cln_circular.Tests.Rebalances.{whole_numbers, moment, once, no_scores}
use cln_circular.Tests.Routes.{circle}
use cln_circular.Tests.Samples.{network, bob}

-- Bob has not enough on his channel with Carol.
abbrev shortage : PaymentErrorData
shortage = record {
  erring_node = bob;
  erring_index = 1;
  erring_channel = b'2' ∷ [];
  erring_direction = 0;
  fail_code = 0x1007;
}

abbrev begun : Progress ℕ
begun = record {
  graph = network;
  scores = no_scores;
  amount = 100000;
  exclude = [];
  node_failures = [];
  failures = [];
  payments = 0;
  mid_failures = 0;
}

abbrev now : World
now = moment delivered

placed :
    place_of now once circle (record shortage { erring_node = b'c' ∷ [] }) begun ≡ Place.in_peer
unfolding place_of place_at hop_from str_eq
placed = refl

learn_from_failure-Blames_example :
    Blames
      (place_of now once circle shortage begun)
      (learn_from_failure whole_numbers now once circle shortage begun).1
learn_from_failure-Blames_example =
    learn_from_failure-Blames whole_numbers now once circle shortage begun
