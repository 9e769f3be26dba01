-- ===== src/Tests/Runs.antt =====
-- A run that pulls 200 sats in splits of 100, and what circular-results and the node keep of it
-- (rebalance/parallel/, node/candidates.go).
use Prim.Native.Nat.{min}
use cln_circular.Common.{
  ℕ, ◌+◌, ◌-◌, ◌≤◌, ◌≡◌, ◌⊎◌, refl, Bool, true, false, ◌||◌, none, some, [], ◌∷◌, arith, Str, leb,
  ltb, if◌then◌else◌, length, inl, inr, Map, keep_if, AllValues,
}
use cln_circular.Common.Int.{pos}
use cln_circular.Graph.Fee.{max_fee_for_ppm}
use cln_circular.Node.Candidates.{
  CandidateRecord, no_record, candidate_record, backing_off, record_candidate,
}
use cln_circular.Node.CandidatesLaws.{
  IsRemembered, record_candidate-IsRemembered, record_candidate-backing_off,
}
use cln_circular.Rebalance.Result.{Result, side_none, side_route, retry_no}
use cln_circular.Parallel.Run.{
  Settings, Round, TargetLimit, RunResult, Run, Surroundings, candidate_side,
}
use cln_circular.Parallel.Target.{target_succeeded, target_busy}
use cln_circular.Parallel.TargetLaws.{IsCapped, target_succeeded-IsCapped, target_busy-IsCapped}
use cln_circular.Parallel.Fire.{fire_candidates}
use cln_circular.Parallel.Judge.{count_fail_streak, fail_limit, judge_candidate}
use cln_circular.Parallel.JudgeLaws.{count_fail_streak_lem, judge_candidate-stopped}
use cln_circular.Parallel.Landing.{land}
use cln_circular.Parallel.Rounds.{count_idle}
use cln_circular.Parallel.Ledger.{ledger}
use cln_circular.Parallel.Accounts.{IsBalanced, IsInBudget, worst_total}
use cln_circular.Parallel.Reach.{landed, HasNoBudget, Reaches, start, after, IsSafe, Reaches-limits}
use cln_circular.Parallel.Start.{unstarted-IsSafe}
use cln_circular.Parallel.Idle.{IsIdle, fire_candidates-IsIdle}
use cln_circular.Parallel.Steps.{Counted, count_idle-Counted}
use cln_circular.Parallel.Runs.{KnownRun, running, is_finished, count_finished, finish, end_run}
use cln_circular.Parallel.RunsLaws.{is_running, drop, end_run_lem}
use cln_circular.Tests.Samples.{us, bob, carol, out_channel}

abbrev pub settings : Settings
settings = record {
  pulls = true;
  amount = 200000;
  splits = 2;
  split_amount = 100000;
  max_fee_msat = 90;
  max_fail_streak = pos 3;
  default_fail_streak = pos 0;
  probe_fail_streak = 0;
  retry_every = 600;
  max_idle_rounds = 3;
  step_ppm = 50;
  cap_ppm = 1000;
  probe_msat = 0;
}

abbrev pub round : Round
round = record {
  number = 1;
  max_ppm = 300;
  goal_msat = 0;
  step_probe = false;
  start_moved = 0;
  start_fees = 0;
  max_paid = 0;
  top_limit = 300;
  most = 0;
  left_out = false;
  cheapest = 0;
  priced = true;
}

abbrev pub no_limit : TargetLimit
no_limit = record {
  cap = 0;
  successes = 0;
  set_at = 0;
  probing = false;
  probe_seq = 0;
  backoff = 0;
  fire_seq = 0;
  fired_at = [];
  busy_refusals = [];
  rechecked = false;
  refused_alone = [];
  stopped = false;
}

abbrev pub nothing_yet : RunResult
nothing_yet = record {
  rebalanced_amount = 0;
  fees_paid_msat = 0;
  splits_succeeded = 0;
  splits_failed = 0;
  successes = [];
  last_error = none;
  cheapest_over_max = 0;
  feeratio_held = 0;
  last_round = none;
  stopped = none;
}

-- The id of our channel with Bob, the candidate.
abbrev pub out_id : Str
out_id = b'1' ∷ b'/' ∷ b'0' ∷ []

abbrev pub fresh : Run
fresh = record {
  settings = settings;
  round = round;
  target = no_limit;
  result = nothing_yet;
  total_attempts = 0;
  candidates = out_channel ∷ [];
  amount_rebalanced = 0;
  in_flight_amount = 0;
  splits_in_flight = 0;
  flights = [];
  fail_streak = 0;
  streak_stopped = false;
  halt = false;
  moved_msat = 0;
  failed_at = [];
  gone = [];
  held_by_stop = false;
  time_stopped = false;
  first_stop = none;
  fee_reserved = 0;
  fee_stopped = false;
  feeratio_skipped = [];
  routes = [];
  launched = [];
  retried = [];
  idle_rounds = 0;
  history = [];
  records = [];
}

-- The same run with one split of 100 sats in flight, which may cost 30 msat.
abbrev pub flying : Run
flying = record fresh {
  candidates = [];
  in_flight_amount = 100000;
  splits_in_flight = 1;
  flights = record { candidate = out_id; requested = 100000 } ∷ [];
  fee_reserved = 30;
  launched = (out_id, out_channel) ∷ [];
}

abbrev pub calm : Surroundings
calm = record {
  now = 1000;
  our_id = us;
  node_stopped = λ _. false;
  waiting = λ _. 0;
  cannot_use = λ _. none;
  economics = λ limit _. record { limit = limit; most = 0 };
  not_worth = λ _ _. false;
  channel_of = λ _. some out_channel;
  missing = [];
  alias_of = λ id. id;
  refreshes = λ _. true;
}

abbrev paid : Result
paid = record {
  success = true;
  message = [];
  amount = 100;
  out_peer = bob;
  in_peer = carol;
  attempts = 1;
  fee = 23;
  ppm = 230;
  route = some (record { id = bob; short_channel_id = b'1' ∷ [] } ∷ []);
  amount_msat = 100000;
  channels = [];
  requested = 100000;
  candidate = out_id;
  failed_at = side_none;
  retry = retry_no;
  precheck = false;
  halted = false;
  cheapest_ppm = 0;
  held_by_own_limit = false;
  in_over_max = false;
  own_limit = false;
  failed_nodes = [];
  middle_failures = 0;
}

abbrev no_route_left : Result
no_route_left = record paid {
  success = false;
  amount_msat = 0;
  fee = 0;
  attempts = 4;
  failed_at = side_route;
}

fresh-IsBalanced : IsBalanced (ledger fresh)
fresh-IsBalanced = record {
  fits = omega arith;
  counted = refl;
  summed = refl;
  within = omega arith;
  few = omega arith;
}

fresh-IsInBudget : IsInBudget (ledger fresh)
fresh-IsInBudget = record {
  limited = omega arith;
  finite = omega arith;
  reserved = refl;
  within = omega arith;
}

flying-IsBalanced : IsBalanced (ledger flying)
flying-IsBalanced = record {
  fits = omega arith;
  counted = refl;
  summed = refl;
  within = omega arith;
  few = omega arith;
}

flying-IsInBudget : IsInBudget (ledger flying)
unfolding max_fee_for_ppm
flying-IsInBudget = record {
  limited = omega arith;
  finite = omega arith;
  reserved = refl;
  within = omega arith;
}

paid-cheap : paid.fee ≤ max_fee_for_ppm paid.requested flying.round.max_ppm
unfolding max_fee_for_ppm
paid-cheap = omega arith

fire_candidates-IsIdle_example : IsIdle calm (fire_candidates calm fresh)
fire_candidates-IsIdle_example = fire_candidates-IsIdle calm fresh

one_landed : Reaches flying (land calm 0 paid flying)
one_landed = after start (landed calm 0 paid refl refl (omega arith) paid-cheap)

flying-IsSafe : IsSafe settings flying
flying-IsSafe = record {
  asked = refl;
  balanced = flying-IsBalanced;
  in_budget = inr flying-IsInBudget;
}

-- Before its first split, the sample run is safe.
fresh-IsSafe : IsSafe settings fresh
fresh-IsSafe = unstarted-IsSafe settings fresh (record {
  asked = refl;
  fits = omega arith;
  nothing_moved = refl;
  nothing_asked = refl;
  none_counted = refl;
  none_flying = refl;
  nothing_reserved = refl;
  nothing_paid = refl;
})

Reaches-limits_example :
    ((land calm 0 paid flying).amount_rebalanced ≤ settings.amount)
    × (HasNoBudget settings
        ⊎ ((land calm 0 paid flying).result.fees_paid_msat
              + worst_total
                  (land calm 0 paid flying).round.max_ppm
                  (land calm 0 paid flying).flights
            ≤ settings.max_fee_msat))
    × (length (land calm 0 paid flying).flights ≤ settings.splits)
Reaches-limits_example = Reaches-limits settings one_landed flying-IsSafe

count_fail_streak_lem_example :
    (count_fail_streak calm no_route_left flying).streak_stopped
    ≡ elim (fail_limit flying.settings flying.round.step_probe) as (λ _. Bool) [
      | none ↦ flying.streak_stopped
      | some limit ↦
          flying.streak_stopped || leb limit (flying.fail_streak + no_route_left.attempts)
    ]
count_fail_streak_lem_example = count_fail_streak_lem calm no_route_left flying refl

judge_candidate-stopped_example :
    (judge_candidate calm no_route_left flying).target.stopped ≡ flying.target.stopped
unfolding candidate_side
judge_candidate-stopped_example = judge_candidate-stopped calm no_route_left flying refl refl

count_idle-Counted_example : Counted fresh (count_idle fresh)
count_idle-Counted_example = count_idle-Counted fresh

-- Two splits at once, the second of which tries whether the target takes them.
abbrev two_at_once : TargetLimit
two_at_once = record no_limit {
  cap = 2;
  probing = true;
  probe_seq = 5;
  backoff = 2;
  fire_seq = 5;
  fired_at = (out_id, 5) ∷ [];
}

two-IsCapped : IsCapped 4 two_at_once
two-IsCapped = record {
  cap = omega arith;
  backoff = inr (inr (inl refl));
  set_before = omega arith;
  probe_fired = omega arith;
}

target_succeeded-IsCapped_example : IsCapped 4 (target_succeeded 4 out_id two_at_once)
target_succeeded-IsCapped_example = target_succeeded-IsCapped 4 out_id two_at_once two-IsCapped

target_busy-IsCapped_example : IsCapped 4 (target_busy out_id 1 two_at_once).0
target_busy-IsCapped_example =
    target_busy-IsCapped 4 out_id 1 two_at_once (omega arith) two-IsCapped

abbrev pulling : KnownRun ℕ
pulling = record {
  pointer = 7;
  kind = [];
  target = out_id;
  amount = 200;
  max_ppm = 300;
  started = 900;
  ended = 0;
  status = running;
  result = none;
}

end_run_lem_example :
    (keep_if is_running (end_run 1000 7 none 200 (pulling ∷ []))
      ≡ keep_if is_running (finish 1000 7 none 200 (pulling ∷ [])))
    × (keep_if is_finished (end_run 1000 7 none 200 (pulling ∷ []))
        ≡ drop
            (count_finished (finish 1000 7 none 200 (pulling ∷ [])) - 20)
            (keep_if is_finished (finish 1000 7 none 200 (pulling ∷ []))))
    × (length (keep_if is_finished (end_run 1000 7 none 200 (pulling ∷ [])))
        ≡ min 20 (count_finished (finish 1000 7 none 200 (pulling ∷ []))))
end_run_lem_example = end_run_lem 1000 7 none 200 (pulling ∷ [])

abbrev often : CandidateRecord
often = record no_record { successes = 30; failures = 20 }

abbrev records : Map CandidateRecord
records = (out_id, often) ∷ []

record_candidate-IsRemembered_example :
    AllValues IsRemembered (record_candidate 1000 out_id true 100000 23 records)
record_candidate-IsRemembered_example =
    record_candidate-IsRemembered 1000 out_id true 100000 23 records (omega arith, tt)

record_candidate-backing_off_example :
    backing_off 1200 (candidate_record out_id (record_candidate 1000 out_id false 0 0 records))
    ≡ (if false then false else ltb 1200 (1000 + 1800))
record_candidate-backing_off_example =
    record_candidate-backing_off 1000 1200 out_id false 0 0 records
