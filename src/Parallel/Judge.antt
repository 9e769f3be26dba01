-- ===== src/Parallel/Judge.antt =====
-- What a split's result tells the run of its candidate and of the target channel
-- (rebalance/parallel/result.go).
use cln_circular.Common.{
  ℕ, ◌+◌, ◌-◌, Bool, true, false, ◌&&◌, ◌||◌, not, Option, none, some, [], ◌∷◌, ◌++◌, ltb, ◌==◌,
  if◌then◌else◌, Str, str_eq, Map, lookup, lookup_or, insert,
}
use cln_circular.Common.Int.{ℤ, pos, negsuc, pos_part, ltb_ℤ}
use cln_circular.Rebalance.Result.{
  Result, Side, side_none, side_route, side_out, side_in, Retry, retry_when_free, retry_now,
}
use cln_circular.Node.Candidates.{record_candidate}
use cln_circular.Parallel.Run.{
  Run, Settings, Surroundings, Gone, gone_failed, gone_refused, fail_streak, target_full, note_stop,
  held, candidate_side,
}
use cln_circular.Parallel.Target.{is_probe, target_succeeded, target_busy}

abbrev pub same_side : Side → Side → Bool
same_side side_none side_none = true
same_side side_route side_route = true
same_side side_out side_out = true
same_side side_in side_in = true
same_side _ _ = false

abbrev pub is_now : Retry → Bool
is_now retry_now = true
is_now _ = false

abbrev is_when_free : Retry → Bool
is_when_free retry_when_free = true
is_when_free _ = false

-- AbstractRebalance.countFailedNodes
unfoldable pub add_failures : Map ℕ → Map ℕ → Map ℕ
add_failures [] m = m
add_failures ((id, n) ∷ failed) m = add_failures failed (insert id (lookup_or id 0 m + n) m)

abbrev or_if_zero : ℤ → ℤ → ℤ
or_if_zero (pos n) other = if n == 0 then other else pos n
or_if_zero (negsuc n) other = negsuc n

-- The limit of AbstractRebalance.countFailStreak: none is a limit below 0, which is never reached.
-- DEFAULT_MAX_FAIL_STREAK is 300.
unfoldable pub fail_limit : Settings → Bool → Option ℕ
fail_limit st probe =
    let limit = or_if_zero (or_if_zero st.max_fail_streak st.default_fail_streak) (pos 300) in
    let p = st.probe_fail_streak in
    if probe && ltb 0 p && (ltb_ℤ limit (pos 0) || ltb_ℤ (pos p) limit)
    then some p
    else if ltb_ℤ limit (pos 0)
    then none
    else some (pos_part limit)

-- The end of AbstractRebalance.countFailStreak, with its limit.
unfoldable pub stop_streak : Surroundings → ℕ → Run → Run
unfolding note_stop held
stop_streak s limit r =
    let stopped = record r { streak_stopped = true; halt = true } in
    if ltb r.fail_streak limit || r.streak_stopped
    then r
    else note_stop (held s r) (fail_streak r.fail_streak (pos limit)) stopped

-- AbstractRebalance.countFailStreak
unfoldable pub count_fail_streak : Surroundings → Result → Run → Run
unfolding fail_limit stop_streak
count_fail_streak s res r =
    let counted = record r { fail_streak = r.fail_streak + res.attempts } in
    if res.success
    then record r { fail_streak = 0 }
    else elim (fail_limit r.settings r.round.step_probe) [
      | none ↦ counted
      | some limit ↦ stop_streak s limit counted
    ]

-- AbstractRebalance.requeue
unfoldable pub requeue : Str → Bool → Run → Run
requeue id front r = elim (lookup id r.launched) [
  | none ↦ r
  | some c ↦ record r { candidates = if front then c ∷ r.candidates else r.candidates ++ c ∷ [] }
]

-- The target takes no more: the end of the last case of judgeCandidate.
unfoldable pub stop_target : Surroundings → Result → Run → Run
unfolding note_stop held
stop_target s res r =
    let stopped = record r { target = record r.target { stopped = true }; halt = true } in
    note_stop (held s r) (target_full res.message) stopped

-- AbstractRebalance.targetRefusedAlone: the run, and whether it can go on.
unfoldable pub target_refused_alone : Surroundings → Result → Run → Run × Bool
unfolding requeue
target_refused_alone s res r =
    let peer = if same_side res.failed_at side_out then res.out_peer else res.in_peer in
    let rechecked = record r { target = record r.target { rechecked = true } } in
    let alone = record r { target = record r.target { refused_alone = res.candidate } } in
    if res.precheck && not r.target.rechecked
    then (if s.refreshes peer
        then (requeue res.candidate true rechecked, true)
        else (rechecked, false))
    else if not (str_eq r.target.refused_alone [])
        && not (str_eq r.target.refused_alone res.candidate)
    then (r, false)
    else (alone, not res.precheck || s.refreshes peer)

-- The target channel failed the split: the last case of judgeCandidate.
unfoldable pub target_failed : Surroundings → Result → Run → Run
unfolding target_busy target_refused_alone stop_target requeue
target_failed s res r =
    let others = r.splits_in_flight - 1 in
    let (t, front) = target_busy res.candidate others r.target in
    let (alone, goes_on) = target_refused_alone s res r in
    if is_when_free res.retry && ltb 0 others
    then requeue res.candidate front (record r { target = t })
    else if is_when_free res.retry
    then (if goes_on then alone else stop_target s res alone)
    else stop_target s res r

-- The failures of AbstractRebalance.judgeCandidate, without what is deferred.
unfoldable pub judge_failure : Surroundings → Result → Run → Run
unfolding requeue target_failed candidate_side
judge_failure s res r =
    let ours = same_side res.failed_at side_out || same_side res.failed_at side_in in
    let again = record r { retried = insert res.candidate true r.retried } in
    let blamed = record_candidate s.now res.candidate false 0 0 r.records in
    if is_now res.retry && ours && not (lookup_or res.candidate false r.retried)
    then requeue res.candidate true again
    else if same_side res.failed_at (candidate_side r) || same_side res.failed_at side_route
    then record r { records = blamed }
    else if same_side res.failed_at side_none
    then r
    else target_failed s res r

-- AbstractRebalance.judgeCandidate
unfoldable pub judge_candidate : Surroundings → Result → Run → Run
unfolding judge_failure
judge_candidate s res r =
    let records = record_candidate s.now res.candidate true res.amount_msat res.fee r.records in
    let cleared = record r.target { rechecked = false; refused_alone = [] } in
    let target = target_succeeded r.settings.splits res.candidate cleared in
    let judged = judge_failure s res r in
    let unset = record judged { target = record judged.target { probe_seq = 0 } } in
    if str_eq res.candidate []
    then r
    else if res.success
    then record r { records = records; target = target }
    else if is_probe res.candidate r.target && is_probe res.candidate judged.target
    then unset
    else judged

-- AbstractRebalance.howItFailed
unfoldable pub how_it_failed : Result → Run → Gone
unfolding candidate_side
how_it_failed res r =
    if same_side res.failed_at (candidate_side r)
      || same_side res.failed_at side_route
      || same_side res.failed_at side_none
    then gone_failed
    else gone_refused
