-- ===== src/Rebalance/Errors.antt =====
-- The errors that a rebalance ends with (util/error.go, rebalance/side.go, rebalance/failure.go and
-- rebalance/rebalance.go), without their texts: a wrap by `%w` that adds text is the error itself.
use cln_circular.Common.{ℕ, Bool, true, false, ◌||◌, Option, none, some, ◌==◌, if◌then◌else◌}
use cln_circular.Rebalance.Result.{
  Side, Retry, side_none, side_route, side_out, side_in, retry_no, retry_when_free,
}

-- The error values that the code compares with.
pub data Fault : Type 0 where
  send_pay_timeout temporary_failure wire_fee_insufficient : Fault
  no_peer_channel no_such_node circular_stopped no_route : Fault
  incoming_channel_depleted outgoing_channel_depleted : Fault
  no_outgoing_channel no_incoming_channel : Fault
  outgoing_channel_not_in_normal_state incoming_channel_not_in_normal_state : Fault
  incoming_peer_disconnected outgoing_peer_disconnected : Fault
  short_of_liquidity own_limit run_stopped : Fault

-- One number for each value, by which `same_fault` compares them.
abbrev fault_index : Fault → ℕ
fault_index send_pay_timeout = 0
fault_index temporary_failure = 1
fault_index wire_fee_insufficient = 2
fault_index no_peer_channel = 3
fault_index no_such_node = 4
fault_index circular_stopped = 5
fault_index no_route = 6
fault_index incoming_channel_depleted = 7
fault_index outgoing_channel_depleted = 8
fault_index no_outgoing_channel = 9
fault_index no_incoming_channel = 10
fault_index outgoing_channel_not_in_normal_state = 11
fault_index incoming_channel_not_in_normal_state = 12
fault_index incoming_peer_disconnected = 13
fault_index outgoing_peer_disconnected = 14
fault_index short_of_liquidity = 15
fault_index own_limit = 16
fault_index run_stopped = 17

-- `err == target`
abbrev pub same_fault : Fault → Fault → Bool
same_fault a b = fault_index a == fault_index b

-- `other` is an error that wraps none of the values above, such as one of lightningd's.
pub data Error : Type 0 where
  fault : Fault → Error
  other : Error
  too_expensive : ℕ → ℕ → Error  -- ErrRouteTooExpensive: FeePPM and MaxPPM
  side_error : Side → Retry → Error → Error
  in_over_max : Error → Error

-- onOut and onIn
abbrev pub on_out : Error → Retry → Error
on_out e retry = side_error side_out retry e

abbrev pub on_in : Error → Retry → Error
on_in e retry = side_error side_in retry e

-- errShortOfLiquidity wraps util.ErrTemporaryFailure.
unfoldable pub fault_is : Fault → Fault → Bool
fault_is target short_of_liquidity =
    same_fault target short_of_liquidity || same_fault target temporary_failure
fault_is target f = same_fault target f

-- errors.Is
unfoldable pub is_fault : Fault → Error → Bool
unfolding fault_is
is_fault target (fault f) = fault_is target f
is_fault target other = false
is_fault target (too_expensive fee max) = false
is_fault target (side_error side retry e) = is_fault target e
is_fault target (in_over_max e) = is_fault target e

-- errors.As with a *sideError
unfoldable pub as_side : Error → Option (Side × Retry)
as_side (side_error side retry e) = some (side, retry)
as_side (in_over_max e) = as_side e
as_side (fault f) = none
as_side other = none
as_side (too_expensive fee max) = none

-- errors.As with an ErrRouteTooExpensive: its FeePPM
unfoldable pub as_too_expensive : Error → Option ℕ
as_too_expensive (too_expensive fee max) = some fee
as_too_expensive (side_error side retry e) = as_too_expensive e
as_too_expensive (in_over_max e) = as_too_expensive e
as_too_expensive (fault f) = none
as_too_expensive other = none

abbrev pub is_too_expensive : Error → Bool
is_too_expensive e = elim (as_too_expensive e) [ none ↦ false | some _ ↦ true ]

-- errors.As with an inOverMax
unfoldable pub as_in_over_max : Error → Bool
as_in_over_max (in_over_max e) = true
as_in_over_max (side_error side retry e) = as_in_over_max e
as_in_over_max (fault f) = false
as_in_over_max other = false
as_in_over_max (too_expensive fee max) = false

-- The cases of failureSide after the first two.
unfoldable pub unmarked_side : Error → Side × Retry
unfolding is_fault as_too_expensive
unmarked_side e =
    if is_fault outgoing_channel_depleted e
    then (side_out, retry_when_free)
    else if is_fault incoming_channel_depleted e
    then (side_in, retry_when_free)
    else if is_fault outgoing_channel_not_in_normal_state e
        || is_fault outgoing_peer_disconnected e
        || is_fault no_outgoing_channel e
    then (side_out, retry_no)
    else if is_fault incoming_channel_not_in_normal_state e
        || is_fault incoming_peer_disconnected e
        || is_fault no_incoming_channel e
    then (side_in, retry_no)
    else if is_fault no_route e
        || is_fault no_such_node e
        || is_fault temporary_failure e
        || is_too_expensive e
    then (side_route, retry_no)
    else (side_none, retry_no)

-- failureSide: none is a nil error.
unfoldable pub failure_side : Option Error → Side × Retry
unfolding unmarked_side as_side
failure_side none = (side_none, retry_no)
failure_side (some e) = elim (as_side e) [ none ↦ unmarked_side e | some marked ↦ marked ]

-- isPrecheck
unfoldable pub is_precheck : Option Error → Bool
unfolding is_fault as_side
is_precheck none = false
is_precheck (some e) = elim (as_side e) [
  | some _ ↦ false
  | none ↦ is_fault outgoing_channel_depleted e || is_fault incoming_channel_depleted e
]

-- A Go pair (value, error); `hangs` is where the call does not return, since a search of it panics or
-- runs out of fuel.
pub data Outcome (A : Type 0) : Type 0 where
  ok : A → Outcome A
  err : Error → Outcome A
  hangs : Outcome A
