-- ===== src/Parallel/Params.antt =====
-- The parameters of a run (rebalance/parallel/params.go, and the setters of result.go and
-- candidates.go). Durations are in seconds.
use cln_circular.Common.{
  ℕ, ◌*◌, ◌%◌, ◌&&◌, ◌||◌, Option, none, some, ltb, ◌==◌, if◌then◌else◌, u64, max_uint64,
}
use cln_circular.Common.Int.{ℤ, pos, negsuc, pos_part, ltb_ℤ}
use cln_circular.Rebalance.Checks.{or_default}
use cln_circular.Rebalance.Split.{Defaults}

-- The parameters that pulls and pushes share, in sats when they are read and in msat after
-- setGenericDefaults.
pub record Params : Type 0 where
  pub amount : ℕ
  pub splits : ℤ
  pub split_amount : ℕ
  pub min_split : ℕ
  pub max_ppm : ℕ
  pub attempts : ℤ
  pub max_hops : ℤ

-- AbstractRebalance.setGenericDefaults
unfoldable pub set_generic_defaults : Defaults → Params → Params
unfolding or_default
set_generic_defaults d p =
    let amount = if p.amount == 0 then 400000 else p.amount in
    let split_amount = if p.split_amount == 0 then 100000 else p.split_amount in
    let min_split =
      if p.min_split == 0 || ltb split_amount p.min_split then split_amount else p.min_split in
    record {
      amount = u64 (amount * 1000);
      splits = elim p.splits [ pos n ↦ if n == 0 then pos 4 else pos n | negsuc n ↦ negsuc n ];
      split_amount = u64 (split_amount * 1000);
      min_split = u64 (min_split * 1000);
      max_ppm = if p.max_ppm == 0 then 10 else p.max_ppm;
      attempts = if ltb_ℤ (pos 0) p.attempts then p.attempts else or_default d.attempts (pos 1);
      max_hops = if ltb_ℤ (pos 0) p.max_hops then p.max_hops else or_default d.max_hops (pos 8);
    }

-- What validateGenericParameters says; it panics on a split amount of 0.
pub data Verdict : Type 0 where
  accepted less_than_split not_multiple divides_by_zero : Verdict

-- AbstractRebalance.validateGenericParameters
unfoldable pub validate_generic : Params → Verdict
validate_generic p =
    if ltb p.amount p.split_amount
    then less_than_split
    else if p.split_amount == 0
    then divides_by_zero
    else if p.amount % p.split_amount == 0
    then accepted
    else not_multiple

-- What the setters set.
pub record Limits : Type 0 where
  pub max_time : ℕ
  pub retry_every : ℕ
  pub max_fee_msat : ℕ
  pub step_ppm : ℕ
  pub cap_ppm : ℕ
  pub probe_msat : ℕ
  pub max_idle_rounds : ℕ
  pub probe_fail_streak : ℕ

abbrev or_node : ℤ → ℤ → ℤ
or_node (pos n) node_default = if n == 0 then node_default else pos n
or_node (negsuc n) node_default = negsuc n

-- AbstractRebalance.setMaxTime
unfoldable pub set_max_time : ℤ → ℤ → Limits → Limits
set_max_time node_default seconds l = record l {
  max_time = pos_part (or_node seconds node_default);
}

-- AbstractRebalance.setMaxFee
unfoldable pub set_max_fee : ℤ → ℤ → Limits → Limits
set_max_fee node_default sats l =
    let n = pos_part (or_node sats node_default) in
    record l { max_fee_msat = if ltb 18446744073709551 n then max_uint64 else u64 (n * 1000) }

-- AbstractRebalance.setRetryEvery: MIN_RETRY_EVERY is a minute, DEFAULT_SLOW_MAXTIME six hours.
unfoldable pub set_retry_every : ℤ → Limits → Limits
set_retry_every seconds l =
    let wait = pos_part seconds in
    if wait == 0 then record l { retry_every = 0 } else record l {
      retry_every = if ltb wait 60 then 60 else wait;
      max_time = if l.max_time == 0 then 21600 else l.max_time;
    }

-- AbstractRebalance.setStepping at a maxppm: none is its error. DEFAULT_STEP_RETRY_EVERY is ten
-- minutes.
unfoldable pub set_stepping : ℕ → ℤ → ℤ → ℤ → Limits → Option Limits
unfolding set_retry_every
set_stepping max_ppm step cap probe l =
    let off = record l { step_ppm = 0; cap_ppm = 0; probe_msat = 0 } in
    let on = record l {
      step_ppm = pos_part step;
      cap_ppm = pos_part cap;
      probe_msat = u64 (pos_part probe * 1000);
    } in
    if pos_part step == 0
    then some off
    else if pos_part cap == 0 || ltb (pos_part cap) max_ppm
    then none
    else some (if l.retry_every == 0 then set_retry_every (pos 600) on else on)

-- A setting that is off below 0, and that stepping gives a default of its own.
abbrev stepping_default : ℕ → ℕ → ℤ → ℕ
stepping_default step_ppm builtin (pos n) = if n == 0 && ltb 0 step_ppm then builtin else n
stepping_default step_ppm builtin (negsuc n) = 0

-- AbstractRebalance.setMaxIdleRounds
unfoldable pub set_max_idle_rounds : ℤ → Limits → Limits
set_max_idle_rounds n l = record l { max_idle_rounds = stepping_default l.step_ppm 3 n }

-- AbstractRebalance.setProbeFailStreak
unfoldable pub set_probe_fail_streak : ℤ → Limits → Limits
set_probe_fail_streak n l = record l { probe_fail_streak = stepping_default l.step_ppm 100 n }
