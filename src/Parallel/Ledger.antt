-- ===== src/Parallel/Ledger.antt =====
-- The part of a run's state that its amounts, splits and fees are counted in, and what leaves it as
-- it is: the queue, the judgements and the notes of rebalance/parallel/result.go and candidates.go.
use cln_circular.Common.{
  ℕ, ◌+◌, ◌-◌, ◌≡◌, refl, ap, ◌∙◌, Bool, true, false, ◌&&◌, ◌||◌, not, Option, none, some, List, [],
  ◌∷◌, ltb, if◌then◌else◌, Str, str_eq, lookup, ◌++◌, insert, u64,
}
use cln_circular.Graph.Channel.{Channel, channel_id}
use cln_circular.Rebalance.Result.{Result, side_out}
use cln_circular.Parallel.Run.{
  Run, Settings, Flight, Surroundings, StopReason, note_stop, left_queue, skipped,
}
use cln_circular.Parallel.Fire.{next_candidate, skip_unworthy}
use cln_circular.Parallel.Judge.{
  fail_limit, stop_streak, count_fail_streak, requeue, stop_target, target_refused_alone,
  target_failed, judge_failure, judge_candidate, same_side, add_failures, how_it_failed,
}
use cln_circular.Parallel.Target.{target_busy, target_succeeded, is_probe}
use cln_circular.Node.Candidates.{record_candidate}
use cln_circular.Parallel.Landing.{
  judged, note_success, note_failure, add_success, enqueue_candidate, route_scid, candidate_peer,
  add_success_generic, involve, hops_of,
}

pub record Ledger : Type 0 where
  pub settings : Settings
  pub max_ppm : ℕ
  pub goal_msat : ℕ
  pub rebalanced : ℕ
  pub in_flight : ℕ
  pub count : ℕ
  pub flights : List Flight
  pub reserved : ℕ
  pub fees_paid : ℕ

abbrev pub ledger : Run → Ledger
ledger r = record {
  settings = r.settings;
  max_ppm = r.round.max_ppm;
  goal_msat = r.round.goal_msat;
  rebalanced = r.amount_rebalanced;
  in_flight = r.in_flight_amount;
  count = r.splits_in_flight;
  flights = r.flights;
  reserved = r.fee_reserved;
  fees_paid = r.result.fees_paid_msat;
}

-- Both branches of a test leave the ledger as it is.
pub ledger-if :
    (b : Bool) (x y : Run) {l : Ledger}
    → ledger x ≡ l
    → ledger y ≡ l
    → ledger (if b then x else y) ≡ l
ledger-if true x y p q = p
ledger-if false x y p q = q

pub ledger-if_pair :
    {A : Type 0} (b : Bool) (x y : Run × A) {l : Ledger}
    → ledger x.0 ≡ l
    → ledger y.0 ≡ l
    → ledger (if◌then◌else◌ {A = Run × A} b x y).0 ≡ l
ledger-if_pair true x y p q = p
ledger-if_pair false x y p q = q

pub ledger-note_stop :
    (h : Bool) (why : StopReason) (r : Run) → ledger (note_stop h why r) ≡ ledger r
unfolding note_stop
ledger-note_stop h why r = refl

pub ledger-next_candidate :
    (s : Surroundings) (queue : List Channel) (r : Run)
    → ledger (next_candidate s queue r).0 ≡ ledger r
unfolding next_candidate skip_unworthy left_queue
ledger-next_candidate s [] r = refl
ledger-next_candidate s (c ∷ queue) r =
    elim (s.cannot_use c)
      as (λ o.
        ledger
          (elim o as (λ _. Run × Option Channel) [
            | some why ↦ next_candidate s queue (left_queue (channel_id c) (skipped why) r)
            | none ↦ elim (s.not_worth r.round.max_ppm c) as (λ _. Run × Option Channel) [
              | true ↦ next_candidate s queue (skip_unworthy c r)
              | false ↦ (record r { candidates = queue }, some c)
            ]
          ]).0
        ≡ ledger r) [
          | some why ↦ ledger-next_candidate s queue (left_queue (channel_id c) (skipped why) r)
          | none ↦
              elim (s.not_worth r.round.max_ppm c)
                as (λ b.
                  ledger
                    (elim b as (λ _. Run × Option Channel) [
                      | true ↦ next_candidate s queue (skip_unworthy c r)
                      | false ↦ (record r { candidates = queue }, some c)
                    ]).0
                  ≡ ledger r) [
                    | true ↦ ledger-next_candidate s queue (skip_unworthy c r)
                    | false ↦ refl
                  ]
        ]

pub ledger-requeue : (id : Str) (front : Bool) (r : Run) → ledger (requeue id front r) ≡ ledger r
unfolding requeue
ledger-requeue id front r =
    elim (lookup id r.launched)
      as (λ o.
        ledger (elim o as (λ _. Run) [
          | none ↦ r
          | some c ↦ record r {
            candidates = if front then c ∷ r.candidates else r.candidates ++ c ∷ [];
          }
        ])
        ≡ ledger r) [ none ↦ refl | some c ↦ refl ]

ledger-count_fail_streak :
    (s : Surroundings) (res : Result) (r : Run) → ledger (count_fail_streak s res r) ≡ ledger r
unfolding count_fail_streak stop_streak note_stop
ledger-count_fail_streak s res r =
    let counted = record r { fail_streak = r.fail_streak + res.attempts } in
    ledger-if res.success (record r { fail_streak = 0 })
      (elim (fail_limit r.settings r.round.step_probe) [
        | none ↦ counted
        | some limit ↦ stop_streak s limit counted
      ])
      refl
      (elim (fail_limit r.settings r.round.step_probe)
        as (λ o.
          ledger
            (elim o as (λ _. Run) [ none ↦ counted | some limit ↦ stop_streak s limit counted ])
          ≡ ledger r) [
            | none ↦ refl
            | some limit ↦
                ledger-if (ltb counted.fail_streak limit || r.streak_stopped) _ _ refl refl
          ])

ledger-target_refused_alone :
    (s : Surroundings) (res : Result) (r : Run) → ledger (target_refused_alone s res r).0 ≡ ledger r
unfolding target_refused_alone
ledger-target_refused_alone s res r =
    let rechecked = record r { target = record r.target { rechecked = true } } in
    let alone = record r { target = record r.target { refused_alone = res.candidate } } in
    let peer = if same_side res.failed_at side_out then res.out_peer else res.in_peer in
    ledger-if_pair (res.precheck && not r.target.rechecked) _ _
      (ledger-if_pair (s.refreshes peer) (requeue res.candidate true rechecked, true)
        (rechecked, false) (ledger-requeue res.candidate true rechecked) refl)
      (ledger-if_pair
        (not (str_eq r.target.refused_alone [])
          && not (str_eq r.target.refused_alone res.candidate))
        (r, false) (alone, not res.precheck || s.refreshes peer) refl refl)

ledger-target_failed :
    (s : Surroundings) (res : Result) (r : Run) → ledger (target_failed s res r) ≡ ledger r
unfolding target_failed stop_target note_stop
ledger-target_failed s res r =
    let alone = (target_refused_alone s res r).0 in
    ledger-if _ _ _
      (ledger-requeue res.candidate _
        (record r { target = (target_busy res.candidate (r.splits_in_flight - 1) r.target).0 }))
      (ledger-if _ _ _
        (ledger-if (target_refused_alone s res r).1 alone (stop_target s res alone)
          (ledger-target_refused_alone s res r) (ledger-target_refused_alone s res r))
        refl)

ledger-judge_failure :
    (s : Surroundings) (res : Result) (r : Run) → ledger (judge_failure s res r) ≡ ledger r
unfolding judge_failure
ledger-judge_failure s res r =
    let again = record r { retried = insert res.candidate true r.retried } in
    ledger-if _ _ _ (ledger-requeue res.candidate true again) (
      ledger-if _ _ _ refl
        (ledger-if _ r (target_failed s res r) refl (ledger-target_failed s res r)))

ledger-judge_candidate :
    (s : Surroundings) (res : Result) (r : Run) → ledger (judge_candidate s res r) ≡ ledger r
unfolding judge_candidate
ledger-judge_candidate s res r =
    let records = record_candidate s.now res.candidate true res.amount_msat res.fee r.records in
    let cleared = record r.target { rechecked = false; refused_alone = [] } in
    let target = target_succeeded r.settings.splits res.candidate cleared in
    let failed = judge_failure s res r in
    let unset = record failed { target = record failed.target { probe_seq = 0 } } in
    let judged =
      if is_probe res.candidate r.target && is_probe res.candidate failed.target
      then unset
      else failed in
    let kept = ledger-judge_failure s res r in
    let won = record r { records = records; target = target } in
    ledger-if (str_eq res.candidate []) r (if res.success then won else judged) refl
      (ledger-if res.success won judged refl (ledger-if _ unset failed kept kept))

pub ledger-judged : (s : Surroundings) (res : Result) (r : Run) → ledger (judged s res r) ≡ ledger r
unfolding judged left_queue
ledger-judged s res r =
    let counted = record r {
      total_attempts = u64 (r.total_attempts + res.attempts);
      failed_at = add_failures res.failed_nodes r.failed_at;
    } in
    let judged = judge_candidate s res (count_fail_streak s res counted) in
    let kept =
      ledger-judge_candidate s res (count_fail_streak s res counted)
      ∙ ledger-count_fail_streak s res counted in
    ledger-if _ judged (left_queue res.candidate (how_it_failed res judged) judged) kept kept

pub ledger-note_failure :
    (s : Surroundings) (res : Result) (r : Run) → ledger (note_failure s res r) ≡ ledger r
unfolding note_failure
ledger-note_failure s res r = refl

ledger-add_success :
    (s : Surroundings) (res : Result) (r : Run) → ledger (add_success s res r) ≡ ledger r
unfolding add_success add_success_generic
ledger-add_success s res r =
    let scid = route_scid r res in
    let peer = candidate_peer r res in
    let added = add_success_generic s scid peer res.ppm res.amount r.result in
    elim (lookup scid added.successes)
      as (λ o.
        ledger (elim o as (λ _. Run) [
          | none ↦ record r { result = added }
          | some success ↦
              let involved = record success {
                involving = involve s.our_id peer (hops_of res) success.involving;
              } in
              record r {
                result = record added { successes = insert scid involved added.successes };
              }
        ])
        ≡ ledger r) [ none ↦ refl | some success ↦ refl ]

ledger-enqueue_candidate :
    (s : Surroundings) (res : Result) (r : Run) → ledger (enqueue_candidate s res r) ≡ ledger r
unfolding enqueue_candidate left_queue
ledger-enqueue_candidate s res r =
    elim (s.channel_of (route_scid r res))
      as (λ o.
        ledger (elim o as (λ _. Run) [
          | none ↦ left_queue res.candidate (skipped s.missing) r
          | some c ↦ record r {
            routes = insert (route_scid r res) res.channels r.routes;
            candidates = c ∷ r.candidates;
          }
        ])
        ≡ ledger r) [ none ↦ refl | some c ↦ refl ]

-- A success adds its fee to what was paid.
pub ledger-note_success :
    (s : Surroundings) (res : Result) (r : Run)
    → ledger (note_success s res r)
      ≡ record (ledger r) { fees_paid = u64 (r.result.fees_paid_msat + res.fee) }
unfolding note_success
ledger-note_success s res r =
    ledger-enqueue_candidate s res _
    ∙ ap (λ (l : Ledger). record l { fees_paid = u64 (l.fees_paid + res.fee) })
        (ledger-add_success s res r)
