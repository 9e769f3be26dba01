-- ===== src/Parallel/JudgeLaws.antt =====
-- Laws of the judgements on a split's result (rebalance/parallel/result.go).
use cln_circular.Common.{
  ℕ, ◌+◌, ◌≡◌, refl, Bool, true, false, not, ◌&&◌, ◌||◌, none, some, arith, ltb, leb, if◌then◌else◌,
  Str, str_eq, lookup, lookup_or, insert, ◌++◌, [], ◌∷◌,
}
use cln_circular.Rebalance.Result.{Result, Side, side_none, side_route, side_out, side_in}
use cln_circular.Node.Candidates.{record_candidate}
use cln_circular.Parallel.Run.{Run, Surroundings, note_stop, candidate_side}
use cln_circular.Parallel.Target.{is_probe, target_succeeded}
use cln_circular.Parallel.Judge.{
  is_now, same_side, fail_limit, stop_streak, count_fail_streak, requeue, target_failed,
  judge_failure, judge_candidate,
}

streak_if :
    (b : Bool) (x y : Run) (v : Bool)
    → (b ≡ true → x.streak_stopped ≡ v)
    → (b ≡ false → y.streak_stopped ≡ v)
    → (if b then x else y).streak_stopped ≡ v
streak_if true x y v f g = f refl
streak_if false x y v f g = g refl

stop_streak_lem :
    (s : Surroundings) (limit : ℕ) (r : Run)
    → (stop_streak s limit r).streak_stopped ≡ (r.streak_stopped || leb limit r.fail_streak)
unfolding stop_streak note_stop
stop_streak_lem s limit r =
    streak_if (ltb r.fail_streak limit || r.streak_stopped) r _ _ (λ e. ground arith)
      (λ e. ground arith)

-- A failed split stops the run from firing more exactly when the payments that failed in a row, its
-- own included, reach the limit, or when it was stopped already; without a limit they never do.
pub count_fail_streak_lem :
    (s : Surroundings) (res : Result) (r : Run)
    → res.success ≡ false
    → (count_fail_streak s res r).streak_stopped
      ≡ elim (fail_limit r.settings r.round.step_probe) as (λ _. Bool) [
        | none ↦ r.streak_stopped
        | some limit ↦ r.streak_stopped || leb limit (r.fail_streak + res.attempts)
      ]
unfolding count_fail_streak
count_fail_streak_lem s res r failed =
    let counted = record r { fail_streak = r.fail_streak + res.attempts } in
    streak_if res.success (record r { fail_streak = 0 }) _ _ (λ e. ground arith)
      (λ _.
        elim (fail_limit r.settings r.round.step_probe)
          as (λ o.
            (elim o as (λ _. Run) [
              | none ↦ counted
              | some limit ↦ stop_streak s limit counted
            ]).streak_stopped
            ≡ elim o as (λ _. Bool) [
              | none ↦ r.streak_stopped
              | some limit ↦ r.streak_stopped || leb limit (r.fail_streak + res.attempts)
            ]) [ none ↦ refl | some limit ↦ stop_streak_lem s limit counted ])

stopped_if :
    (b : Bool) (x y : Run) (v : Bool)
    → (b ≡ true → x.target.stopped ≡ v)
    → (b ≡ false → y.target.stopped ≡ v)
    → (if b then x else y).target.stopped ≡ v
stopped_if true x y v f g = f refl
stopped_if false x y v f g = g refl

requeue-stopped :
    (id : Str) (front : Bool) (r : Run) → (requeue id front r).target.stopped ≡ r.target.stopped
unfolding requeue
requeue-stopped id front r =
    elim (lookup id r.launched)
      as (λ o.
        (elim o as (λ _. Run) [
          | none ↦ r
          | some c ↦ record r {
            candidates = if front then c ∷ r.candidates else r.candidates ++ c ∷ [];
          }
        ]).target.stopped
        ≡ r.target.stopped) [ none ↦ refl | some c ↦ refl ]

-- The side of a failure that is not the target's.
abbrev pub IsNotTarget : Run → Side → Type 0
IsNotTarget r side =
    (same_side side (candidate_side r) || same_side side side_route || same_side side side_none)
    ≡ true

true-false : (b : Bool) → b ≡ true → b ≡ false → ⊥
true-false b h k = ground arith

not_both : (a b c : Bool) → (a || b || c) ≡ true → (a || b) ≡ false → c ≡ false → ⊥
not_both a b c h e d = ground arith

judge_failure-stopped :
    (s : Surroundings) (res : Result) (r : Run)
    → IsNotTarget r res.failed_at
    → (judge_failure s res r).target.stopped ≡ r.target.stopped
unfolding judge_failure
judge_failure-stopped s res r h =
    let again = record r { retried = insert res.candidate true r.retried } in
    let blamed = record r { records = record_candidate s.now res.candidate false 0 0 r.records } in
    let ours = same_side res.failed_at side_out || same_side res.failed_at side_in in
    let retries = is_now res.retry && ours && not (lookup_or res.candidate false r.retried) in
    let at_candidate = same_side res.failed_at (candidate_side r) in
    let at_route = same_side res.failed_at side_route in
    let nowhere = same_side res.failed_at side_none in
    let targeted = if nowhere then r else target_failed s res r in
    let unretried = if at_candidate || at_route then blamed else targeted in
    stopped_if retries (requeue res.candidate true again) unretried r.target.stopped
      (λ _. requeue-stopped res.candidate true again)
      (λ _.
        stopped_if (at_candidate || at_route) blamed targeted r.target.stopped (λ _. refl)
          (λ e.
            stopped_if nowhere r (target_failed s res r) r.target.stopped (λ _. refl)
              (λ d. absurd (not_both at_candidate at_route nowhere h e d))))

-- A split that fails on its candidate's side, along the route or on neither side never makes the run
-- give up on its target: only a refusal by the target's side does.
pub judge_candidate-stopped :
    (s : Surroundings) (res : Result) (r : Run)
    → res.success ≡ false
    → IsNotTarget r res.failed_at
    → (judge_candidate s res r).target.stopped ≡ r.target.stopped
unfolding judge_candidate
judge_candidate-stopped s res r failed h =
    let records = record_candidate s.now res.candidate true res.amount_msat res.fee r.records in
    let cleared = record r.target { rechecked = false; refused_alone = [] } in
    let target = target_succeeded r.settings.splits res.candidate cleared in
    let won = record r { records = records; target = target } in
    let judged = judge_failure s res r in
    let unset = record judged { target = record judged.target { probe_seq = 0 } } in
    let probes = is_probe res.candidate r.target && is_probe res.candidate judged.target in
    let same = judge_failure-stopped s res r h in
    let lost = if probes then unset else judged in
    stopped_if (str_eq res.candidate []) r (if res.success then won else lost) r.target.stopped
      (λ _. refl)
      (λ _.
        stopped_if res.success won lost r.target.stopped
          (λ e. absurd (true-false res.success e failed))
          (λ _. stopped_if probes unset judged r.target.stopped (λ _. same) (λ _. same)))
