-- ===== src/Parallel/Target.antt =====
-- How a run adapts to what its target channel takes at once (rebalance/parallel/result.go).
use cln_circular.Common.{
  ℕ, ◌+◌, ◌*◌, ◌/◌, Bool, true, false, ◌&&◌, ◌||◌, not, ltb, leb, ◌==◌, if◌then◌else◌, Str,
  lookup_or, insert,
}
use cln_circular.Parallel.Run.{TargetLimit}

-- AbstractRebalance.backoff
unfoldable pub backoff_of : TargetLimit → ℕ
backoff_of t = if ltb t.backoff 1 then 1 else t.backoff

-- AbstractRebalance.isProbe
unfoldable pub is_probe : Str → TargetLimit → Bool
is_probe id t = t.probing && not (t.probe_seq == 0) && lookup_or id 0 t.fired_at == t.probe_seq

-- AbstractRebalance.noteFired: `at_target` is how many splits in flight have not left the target.
unfoldable pub note_fired : Str → ℕ → TargetLimit → TargetLimit
note_fired id at_target t =
    let n = t.fire_seq + 1 in
    let probes = t.probing && t.probe_seq == 0 && leb t.cap (at_target + 1) in
    record t {
      fire_seq = n;
      fired_at = insert id n t.fired_at;
      probe_seq = if probes then n else t.probe_seq;
    }

-- AbstractRebalance.setTargetCap
unfoldable pub set_target_cap : ℕ → TargetLimit → TargetLimit
set_target_cap cap t = record t { cap = cap; set_at = t.fire_seq; successes = 0 }

-- The end of a probe's growth that held: the backoff halves.
unfoldable pub probe_held : TargetLimit → TargetLimit
probe_held t = record t {
  probing = false;
  probe_seq = 0;
  backoff = if ltb 1 t.backoff then t.backoff / 2 else t.backoff;
}

-- The rest of AbstractRebalance.targetSucceeded: the limit of the run's splits is `splits`.
unfoldable pub grow : ℕ → TargetLimit → TargetLimit
unfolding set_target_cap backoff_of
grow splits t =
    if not t.probing && ltb t.cap splits && leb (t.cap * backoff_of t) t.successes
    then record (set_target_cap (t.cap + 1) t) { probing = true; probe_seq = 0 }
    else t

-- AbstractRebalance.targetSucceeded
unfoldable pub target_succeeded : ℕ → Str → TargetLimit → TargetLimit
unfolding is_probe probe_held grow
target_succeeded splits id t =
    let counted = record t { successes = t.successes + 1 } in
    if t.cap == 0
    then t
    else grow splits (if is_probe id counted then probe_held counted else counted)

-- A refused growth: the run waits twice as long before the next one; maxCapBackoff is 64.
unfoldable pub probe_refused : TargetLimit → TargetLimit
unfolding backoff_of
probe_refused t = record t {
  probing = false;
  probe_seq = 0;
  backoff = if ltb t.backoff 64 then backoff_of t * 2 else t.backoff;
}

-- The limit after a busy refusal with `others` splits in flight.
unfoldable pub lower_cap : ℕ → TargetLimit → TargetLimit
unfolding probe_refused set_target_cap
lower_cap others t =
    if t.cap == 0 || ltb others t.cap
    then set_target_cap others (if t.probing then probe_refused t else t)
    else t

-- AbstractRebalance.targetBusy: the new limit, and whether the candidate goes to the front of the
-- queue; maxBusyRefusals is 3.
unfoldable pub target_busy : Str → ℕ → TargetLimit → TargetLimit × Bool
unfolding lower_cap
target_busy id others t =
    let explained = t.cap == 0 || leb (lookup_or id 0 t.fired_at) t.set_at || t.probing in
    let lowered = lower_cap others t in
    let n = lookup_or id 0 lowered.busy_refusals + 1 in
    if explained
    then (lowered, true)
    else (record lowered { busy_refusals = insert id n lowered.busy_refusals }, leb n 3)
