-- ===== src/Parallel/Run.antt =====
-- The state of a run (rebalance/parallel/parallel.go) and of its result (result.go).
use cln_circular.Common.{
  ℕ, Bool, ◌&&◌, ◌||◌, Option, none, some, List, ltb, ◌==◌, if◌then◌else◌, Str, Map, insert,
}
use cln_circular.Common.Int.{ℤ}
use cln_circular.Graph.Channel.{Channel}
use cln_circular.Node.Candidates.{CandidateRecord}
use cln_circular.Rebalance.Result.{Side, side_out, side_in}

-- What a run is asked for. `default_fail_streak` is the node's default, 0 without one.
pub record Settings : Type 0 where
  pub pulls : Bool
  pub amount : ℕ
  pub splits : ℕ
  pub split_amount : ℕ
  pub max_fee_msat : ℕ
  pub max_fail_streak : ℤ
  pub default_fail_streak : ℤ
  pub probe_fail_streak : ℕ
  pub retry_every : ℕ
  pub max_idle_rounds : ℕ
  pub step_ppm : ℕ
  pub cap_ppm : ℕ
  pub probe_msat : ℕ

-- RoundInfo
pub record RoundInfo : Type 0 where
  pub number : ℕ
  pub max_ppm : ℕ
  pub asked : ℕ
  pub moved : ℕ
  pub paid_ppm : ℕ
  pub max_paid_ppm : ℕ
  pub probe : Bool
  pub limit_ppm : ℕ

-- What a round decides about the run.
pub record Round : Type 0 where
  pub number : ℕ
  pub max_ppm : ℕ
  pub goal_msat : ℕ
  pub step_probe : Bool
  pub start_moved : ℕ
  pub start_fees : ℕ
  pub max_paid : ℕ
  pub top_limit : ℕ
  pub most : ℕ
  pub left_out : Bool
  pub cheapest : ℕ
  pub priced : Bool

-- What the run learned of how many splits the target channel takes at once.
pub record TargetLimit : Type 0 where
  pub cap : ℕ
  pub successes : ℕ
  pub set_at : ℕ
  pub probing : Bool
  pub probe_seq : ℕ
  pub backoff : ℕ
  pub fire_seq : ℕ
  pub fired_at : Map ℕ
  pub busy_refusals : Map ℕ
  pub rechecked : Bool
  pub refused_alone : Str
  pub stopped : Bool

-- Why the run fires no more splits: the messages of noteStop, and those of endRun.
pub data StopReason : Type 0 where
  fail_streak : ℕ → ℤ → StopReason
  fee_budget : ℕ → ℕ → StopReason
  target_full : Str → StopReason
  time_limit : StopReason
  gave_up : ℕ → ℕ → ℕ → StopReason
  by_circular_stop : StopReason
  ran_out : ℕ → ℕ → ℕ → StopReason

-- Why a candidate last left the queue.
pub data Gone : Type 0 where
  gone_failed : Gone
  gone_refused : Gone
  skipped : Str → Gone

-- Success, and the fields of the run's Result that change while it runs. `last_error` holds what
-- splitName names the split by (its channel and the alias of its peer) and the failure's message.
pub record Success : Type 0 where
  pub peer_alias : Str
  pub node_id : Str
  pub by_ppm : List (ℕ × ℕ)
  pub involving : List Str

pub record RunResult : Type 0 where
  pub rebalanced_amount : ℕ
  pub fees_paid_msat : ℕ
  pub splits_succeeded : ℕ
  pub splits_failed : ℕ
  pub successes : Map Success
  pub last_error : Option ((Str × Str) × Str)
  pub cheapest_over_max : ℕ
  pub feeratio_held : ℕ
  pub last_round : Option StopReason
  pub stopped : Option StopReason

-- A split in flight: the goroutine of launch, whose result will carry these.
pub record Flight : Type 0 where
  pub candidate : Str
  pub requested : ℕ

-- AbstractRebalance. `flights` are the goroutines whose results were not read yet, and `records`
-- the node's records of its candidates.
pub record Run : Type 0 where
  pub settings : Settings
  pub round : Round
  pub target : TargetLimit
  pub result : RunResult
  pub total_attempts : ℕ
  pub candidates : List Channel
  pub amount_rebalanced : ℕ
  pub in_flight_amount : ℕ
  pub splits_in_flight : ℕ
  pub flights : List Flight
  pub fail_streak : ℕ
  pub streak_stopped : Bool
  pub halt : Bool
  pub moved_msat : ℕ
  pub failed_at : Map ℕ
  pub gone : Map Gone
  pub held_by_stop : Bool
  pub time_stopped : Bool
  pub first_stop : Option StopReason
  pub fee_reserved : ℕ
  pub fee_stopped : Bool
  pub feeratio_skipped : Map Bool
  pub routes : Map (List Str)
  pub launched : Map Channel
  pub retried : Map Bool
  pub idle_rounds : ℕ
  pub history : List RoundInfo
  pub records : Map CandidateRecord

-- The side of the route that the candidates are on.
unfoldable pub candidate_side : Run → Side
candidate_side r = if r.settings.pulls then side_out else side_in

-- AbstractRebalance.leftQueue
unfoldable pub left_queue : Str → Gone → Run → Run
left_queue id why r = record r { gone = insert id why r.gone }

-- AbstractRebalance.noteStop: `held` is AbstractRebalance.held.
unfoldable pub note_stop : Bool → StopReason → Run → Run
note_stop held why r =
    let first : StopReason = elim r.first_stop [ some s ↦ s | none ↦ why ] in
    let stopped : Option StopReason = elim r.result.stopped [
      | some s ↦ some s
      | none ↦ if held then none else some first
    ] in
    record r { first_stop = some first; result = record r.result { stopped = stopped } }

-- AbstractRebalance.roundGoal
unfoldable pub round_goal : Run → ℕ
round_goal r =
    if r.round.goal_msat == 0 || ltb r.settings.amount r.round.goal_msat
    then r.settings.amount
    else r.round.goal_msat

-- What a run reads of its node and peers at one moment: whether circular-stop holds it and how many
-- results wait to be read, by the number of splits fired; why a channel cannot be used
-- (GetPeerChannelFromGraphChannel, CanUseChannel); what a split over it may pay at a maxppm, and
-- whether that is not worth it; our channel of a scid; and whether a peer's channels can be read.
pub record Economics : Type 0 where
  pub limit : ℕ
  pub most : ℕ

pub record Surroundings : Type 0 where
  pub now : ℕ
  pub our_id : Str
  pub node_stopped : ℕ → Bool
  pub waiting : ℕ → ℕ
  pub cannot_use : Channel → Option Str
  pub economics : ℕ → Channel → Economics
  pub not_worth : ℕ → Channel → Bool
  pub channel_of : Str → Option Channel
  pub missing : Str
  pub alias_of : Str → Str
  pub refreshes : Str → Bool

-- AbstractRebalance.held
unfoldable pub held : Surroundings → Run → Bool
held s r = r.held_by_stop && s.node_stopped r.target.fire_seq
