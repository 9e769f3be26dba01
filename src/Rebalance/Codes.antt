-- ===== src/Rebalance/Codes.antt =====
-- The failure codes of BOLT 4 that a rebalance reacts to, and when a channel's policy changed
-- (rebalance/failure.go).
use cln_circular.Common.{ℕ, ◌/◌, ◌%◌, Bool, false, ◌||◌, not, none, some, ◌==◌, if◌then◌else◌, Str}
use cln_circular.Graph.Channel.{Channel}
use cln_circular.Graph.State.{Graph, get_channel}
use cln_circular.Rebalance.Result.{Retry, retry_no, retry_when_free}

-- The cases of learnFromFailure's switch on a BOLT 4 failure code.
pub data FailureCase : Type 0 where
  liquidity_failure : FailureCase
  policy_failure : FailureCase
  channel_failure : FailureCase
  other_failure : FailureCase

unfoldable pub is_policy_code : ℕ → Bool
is_policy_code code = code == 0x100c || code == 0x100d || code == 0x100b || code == 0x100e

unfoldable pub failure_case : ℕ → FailureCase
unfolding is_policy_code
failure_case code =
    if code == 0x1007
    then liquidity_failure
    else if is_policy_code code
    then policy_failure
    else if code == 0x1014 || code == 0x4008 || code == 0x400a
    then channel_failure
    else other_failure

-- failsTheNode
unfoldable pub fails_the_node : ℕ → Bool
unfolding is_policy_code
fails_the_node code = not (is_policy_code code)

-- `code & failNodeBit != 0`
unfoldable pub has_node_bit : ℕ → Bool
has_node_bit code = code / 0x2000 % 2 == 1

-- retryWhenFreeIf
unfoldable pub retry_when_free_if : Bool → Retry
retry_when_free_if busy = if busy then retry_when_free else retry_no

-- policyChanged
unfoldable pub policy_changed : Channel → Channel → Bool
policy_changed old updated =
    not (updated.base_fee_millisatoshi == old.base_fee_millisatoshi)
    || not (updated.fee_per_millionth == old.fee_per_millionth)
    || not (updated.delay == old.delay)
    || not (updated.htlc_minimum_msat == old.htlc_minimum_msat)
    || not (updated.htlc_maximum_msat == old.htlc_maximum_msat)

-- `g.GetChannel(id)` found a channel whose policy differs from the one before.
unfoldable pub now_differs : Graph → Str → Channel → Bool
unfolding policy_changed
now_differs g id old = elim (get_channel g id) [
  | none ↦ false
  | some updated ↦ policy_changed old updated
]
