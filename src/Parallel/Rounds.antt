-- ===== src/Parallel/Rounds.antt =====
-- The rounds of a run in slow mode, and the prices they step through
-- (rebalance/parallel/result.go).
use cln_circular.Common.{
  ℕ, ◌+◌, ◌/◌, Bool, true, false, ◌&&◌, ◌||◌, not, Option, none, some, List, [], ◌∷◌, ◌++◌, ltb,
  leb, ◌==◌, if◌then◌else◌, Map, u64, sub64, max_uint64, mul64_hi, mul64_lo, div64,
}
use cln_circular.Graph.Channel.{Channel}
use cln_circular.Parallel.Run.{
  Run, RoundInfo, Surroundings, Gone, gone_failed, gone_refused, skipped, StopReason, time_limit,
  gave_up, by_circular_stop, ran_out, TargetLimit, note_stop, held, round_goal,
}
use cln_circular.Parallel.Fire.{fire_candidates}

-- avgPPM
unfoldable pub avg_ppm : ℕ → ℕ → ℕ
avg_ppm fee moved =
    if moved == 0
    then 0
    else if leb moved (mul64_hi fee 1000000)
    then max_uint64
    else div64 (mul64_hi fee 1000000) (mul64_lo fee 1000000) moved

-- AbstractRebalance.heldLimit
unfoldable pub held_limit : Run → ℕ
held_limit r =
    if ltb 0 r.round.top_limit && ltb r.round.top_limit r.round.max_ppm
    then r.round.top_limit
    else 0

-- AbstractRebalance.stepCap
unfoldable pub step_cap : Run → ℕ
step_cap r =
    if ltb 0 r.round.most && ltb r.round.most r.settings.cap_ppm && not r.round.left_out
    then r.round.most
    else r.settings.cap_ppm

-- AbstractRebalance.atTop
unfoldable pub at_top : Run → Bool
unfolding step_cap
at_top r = r.settings.step_ppm == 0 || leb (step_cap r) r.round.max_ppm

-- AbstractRebalance.idleAtTop
unfoldable pub idle_at_top : Run → Bool
unfolding at_top held_limit
idle_at_top r =
    not
      (ltb r.round.start_moved r.amount_rebalanced || not (r.round.priced || ltb 0 (held_limit r)))
    && at_top r

-- AbstractRebalance.countIdle
unfoldable pub count_idle : Run → Run
unfolding idle_at_top at_top
count_idle r =
    if idle_at_top r
    then record r { idle_rounds = r.idle_rounds + 1 }
    else if ltb r.round.start_moved r.amount_rebalanced
    then record r { idle_rounds = 0 }
    else if r.round.top_limit == 0 && not r.round.left_out
    then r
    else if not (at_top r)
    then record r { idle_rounds = 0 }
    else r

-- AbstractRebalance.probeSize
unfoldable pub probe_size : Run → ℕ
probe_size r =
    let left = sub64 r.settings.amount r.amount_rebalanced in
    let p = if r.settings.probe_msat == 0 then left / 5 else r.settings.probe_msat in
    let p' = if ltb p r.settings.split_amount then r.settings.split_amount else p in
    if ltb left p' then left else p'

-- The next round: its limit, whether it is a probe, and whether to wait retry_every first.
pub record NextRound : Type 0 where
  pub price : ℕ
  pub probe : Bool
  pub wait : Bool

-- AbstractRebalance.nextStep
unfoldable pub next_step : Run → NextRound
unfolding step_cap
next_step r =
    let moved = sub64 r.amount_rebalanced r.round.start_moved in
    let limit = step_cap r in
    let paid = u64 (r.round.max_paid + r.settings.step_ppm / 2) in
    let after = if ltb limit paid then limit else paid in
    let up = u64 (r.round.max_ppm + r.settings.step_ppm) in
    if r.settings.step_ppm == 0
    then record { price = r.round.max_ppm; probe = false; wait = true }
    else if ltb 0 moved && r.round.step_probe
    then record {
      price = if after == 0 then r.round.max_ppm else after;
      probe = false;
      wait = false;
    }
    else if ltb 0 moved
    then record { price = r.round.max_ppm; probe = false; wait = true }
    else if not r.round.priced
    then record { price = r.round.max_ppm; probe = r.round.step_probe; wait = true }
    else if ltb r.round.max_ppm limit
    then record { price = if ltb limit up then limit else up; probe = true; wait = false }
    else record { price = r.round.max_ppm; probe = true; wait = true }

-- AbstractRebalance.closeRound
unfoldable pub close_round : Run → Run
unfolding round_goal avg_ppm held_limit
close_round r =
    let moved = sub64 r.amount_rebalanced r.round.start_moved in
    let info : RoundInfo = record {
      number = r.round.number;
      max_ppm = r.round.max_ppm;
      asked = sub64 (round_goal r) r.round.start_moved / 1000;
      moved = moved / 1000;
      paid_ppm = avg_ppm (sub64 r.result.fees_paid_msat r.round.start_fees) moved;
      max_paid_ppm = r.round.max_paid;
      probe = r.round.step_probe;
      limit_ppm = held_limit r;
    } in
    if r.settings.retry_every == 0 then r else record r { history = r.history ++ info ∷ [] }

-- In slow mode, what a time limit makes of the stop of a round: another round would have followed.
unfoldable pub set_aside_stop : Run → Run
set_aside_stop r =
    let last = record r {
      result = record r.result { last_round = r.first_stop; stopped = none };
      first_stop = none;
    } in
    let some_stop : Bool = elim r.first_stop [ some _ ↦ true | none ↦ false ] in
    if ltb 0 r.settings.retry_every && some_stop then last else r

-- AbstractRebalance.timeUp
unfoldable pub time_up : Surroundings → Run → Run
unfolding note_stop held set_aside_stop
time_up s r =
    let stopped = record r { time_stopped = true; halt = true } in
    if r.time_stopped then r else note_stop (held s r) time_limit (set_aside_stop stopped)

-- AbstractRebalance.ranOut: how many candidates failed, were refused by the target and were skipped.
unfoldable pub count_gone : Map Gone → (ℕ × ℕ) × ℕ
count_gone [] = ((0, 0), 0)
count_gone ((id, why) ∷ m) =
    let ((failed, refused), skips) = count_gone m in
    elim why [
      | gone_failed ↦ ((failed + 1, refused), skips)
      | gone_refused ↦ ((failed, refused + 1), skips)
      | skipped _ ↦ ((failed, refused), skips + 1)
    ]

unfoldable pub ran_out_of : Run → StopReason
unfolding count_gone
ran_out_of r = let ((failed, refused), skips) = count_gone r.gone in ran_out failed refused skips

-- AbstractRebalance.giveUp
unfoldable pub give_up : Surroundings → Run → Run
unfolding note_stop held
give_up s r =
    let why = gave_up r.idle_rounds r.round.max_ppm r.round.cheapest in
    note_stop (held s r) why
      (record r { first_stop = none; result = record r.result { stopped = none } })

-- The target's limit of a new round: what was fired stays numbered.
unfoldable pub fresh_target : TargetLimit → TargetLimit
fresh_target t = record t {
  cap = 0;
  successes = 0;
  set_at = 0;
  probing = false;
  probe_seq = 0;
  backoff = 0;
  busy_refusals = [];
  rechecked = false;
  refused_alone = [];
  stopped = false;
}

-- AbstractRebalance.newRound up to its candidates: WaitForResult counts the round then.
unfoldable pub reset_round : ℕ → Bool → Run → Run
unfolding probe_size fresh_target
reset_round price probe r = record r {
  round = record {
    number = r.round.number + 1;
    max_ppm = price;
    goal_msat = if probe then u64 (r.amount_rebalanced + probe_size r) else 0;
    step_probe = probe;
    start_moved = r.amount_rebalanced;
    start_fees = r.result.fees_paid_msat;
    max_paid = 0;
    top_limit = 0;
    most = 0;
    left_out = false;
    cheapest = 0;
    priced = false;
  };
  fail_streak = 0;
  streak_stopped = false;
  halt = false;
  first_stop = none;
  result = record r.result { stopped = none };
  gone = [];
  retried = [];
  target = fresh_target r.target;
}

-- What FindCandidates gives a new round: the queue, and what it notes of candidates it leaves out for
-- their peer's fee.
pub record Found : Type 0 where
  pub queue : List Channel
  pub left_out : Bool
  pub priced : Bool

-- AbstractRebalance.newRound
unfoldable pub new_round : Surroundings → ℕ → Bool → Found → Run → Run
unfolding reset_round fire_candidates
new_round s price probe found r =
    let reset = reset_round price probe r in
    let ready = record reset {
      candidates = found.queue;
      round = record reset.round { left_out = found.left_out; priced = found.priced };
    } in
    fire_candidates s ready

-- The tests of AbstractRebalance.anotherRound for a run that is over.
unfoldable pub is_over : Surroundings → Run → Bool
unfolding held
is_over s r =
    r.settings.retry_every == 0
    || leb r.settings.amount r.amount_rebalanced
    || r.time_stopped
    || r.fee_stopped
    || held s r
    || s.node_stopped r.target.fire_seq

-- It notes why the round fell short, unless a probe reached its goal.
unfoldable pub note_last_round : Run → Run
unfolding round_goal ran_out_of
note_last_round r =
    let why : StopReason = elim r.first_stop [ some w ↦ w | none ↦ ran_out_of r ] in
    let probed = not (r.round.goal_msat == 0) && leb (round_goal r) r.amount_rebalanced in
    if probed then r else record r { result = record r.result { last_round = some why } }

unfoldable pub decide_round : Surroundings → Run → Run × Option NextRound
unfolding give_up next_step
decide_round s r =
    if ltb 0 r.settings.max_idle_rounds && leb r.settings.max_idle_rounds r.idle_rounds
    then (give_up s r, none)
    else (r, some (next_step r))

-- AbstractRebalance.anotherRound before its wait: the run, and the next round, if any.
unfoldable pub another_round : Surroundings → Run → Run × Option NextRound
unfolding is_over note_last_round count_idle decide_round
another_round s r =
    if is_over s r then (r, none) else decide_round s (count_idle (note_last_round r))

-- The `Stopped` of AbstractRebalance.endRun. circular-stop and circular-resume may have come since.
unfoldable pub end_run : Surroundings → Run → Run
unfolding held ran_out_of
end_run s r =
    let nothing_stopped =
      not r.target.stopped && not r.streak_stopped && not r.time_stopped && not r.fee_stopped in
    let reached = leb r.settings.amount r.amount_rebalanced in
    let ran : Option StopReason = elim r.first_stop [
      | some why ↦ some why
      | none ↦ if nothing_stopped then some (ran_out_of r) else none
    ] in
    let why : Option StopReason = elim r.result.stopped [
      | some why ↦ some why
      | none ↦ if held s r then some by_circular_stop else ran
    ] in
    record r { result = record r.result { stopped = if reached then none else why } }
