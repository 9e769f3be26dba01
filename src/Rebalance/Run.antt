-- ===== src/Rebalance/Run.antt =====
-- Rebalance.Run (rebalance/rebalance.go): the attempts of one rebalance, and its result.
use cln_circular.Common.{
  ℕ, zero, suc, ◌+◌, ◌/◌, Bool, false, ◌&&◌, ◌||◌, not, Option, none, some, List, [], ◌++◌, ltb,
  leb, if◌then◌else◌, Str,
}
use cln_circular.Common.Float.{Float64}
use cln_circular.Common.Int.{pos_part}
use cln_circular.Graph.Route.{Route}
use cln_circular.Graph.Scores.{Scores}
use cln_circular.Graph.Search.{Heap}
use cln_circular.Graph.State.{Graph}
use cln_circular.Rebalance.Attempt.{
  Attempted, succeeded, unsent, failed_over, hung, start, run_attempt,
}
use cln_circular.Rebalance.Errors.{
  Error, is_fault, as_too_expensive, is_too_expensive, as_in_over_max, failure_side, is_precheck,
  temporary_failure, short_of_liquidity, no_route, send_pay_timeout, wire_fee_insufficient,
  own_limit, run_stopped,
}
use cln_circular.Rebalance.Result.{Result, new_result}
use cln_circular.Rebalance.Routing.{known_route, excluded_channels, shrink}
use cln_circular.Rebalance.Split.{Rebalance, World, Progress}

-- The variables of Run beside the progress: `short` and `shortIds`.
pub record Vars (F : Type 0) : Type 0 where
  pub progress : Progress F
  pub short : Option Route
  pub short_ids : List Str

-- `err` of an attempt, and the route that it tried.
unfoldable pub error_of : Attempted → Option Error
error_of (succeeded result) = none
error_of (unsent e) = some e
error_of hung = none
error_of (failed_over route e) = some e

unfoldable pub route_short : Attempted → Option Route
unfolding is_fault
route_short (succeeded result) = none
route_short (unsent e) = none
route_short hung = none
route_short (failed_over route e) = if is_fault short_of_liquidity e then some route else none

-- There is no route within the limits.
unfoldable pub lacks_route : Error → Bool
unfolding is_fault as_too_expensive
lacks_route e = is_fault no_route e || is_too_expensive e

-- The tests after which Run breaks.
unfoldable pub ends_run : Error → Bool
unfolding lacks_route is_fault
ends_run e =
    lacks_route e
    || is_fault send_pay_timeout e
    || is_fault wire_fee_insufficient e
    || not (is_fault temporary_failure e)

unfoldable pub has_error : (Error → Bool) → Attempted → Bool
unfolding error_of
has_error test a = elim (error_of a) [ none ↦ false | some e ↦ test e ]

module _ {F : Type 0} where
  -- `short, shortIds = sent, excludedChannels(sent, exclude)`
  unfoldable pub remember_short : Attempted → Vars F → Vars F
  unfolding route_short
  remember_short a v = elim (route_short a) [
    | none ↦ v
    | some route ↦ record v {
      short = some route;
      short_ids = excluded_channels route v.progress.exclude;
    }
  ]

  -- After the retry with less: the route stays short, or is not tried again.
  unfoldable pub note_retry : Attempted → Vars F → Vars F
  unfolding route_short
  note_retry a v = elim (route_short a) [
    | none ↦ record v { short = none }
    | some route ↦ record v {
      short_ids = v.short_ids ++ excluded_channels route v.progress.exclude;
    }
  ]

-- How a turn of the loop ends: `continue` after the known route failed, or its last attempt.
pub data Turn (F : Type 0) : Type 0 where
  search_again : Vars F → Turn F
  attempted : Vars F → Attempted → Turn F

-- How Run ends; `stalled` is where it does not return: a search of it panicked or ran out of fuel, or
-- the loop ran out of turns.
pub data Ended (F : Type 0) : Type 0 where
  returned : Progress F → Result → Ended F
  stalled : Progress F → Ended F

-- What the caller of Run gets.
abbrev pub result_of : {F : Type 0} → Ended F → Option Result
result_of (returned p res) = some res
result_of (stalled p) = none

-- The result of a success.
unfoldable pub complete : {F : Type 0} → Progress F → Result → Result
complete p result = record result {
  attempts = p.payments;
  failed_nodes = p.failures;
  middle_failures = p.mid_failures;
}

unfoldable pub cheapest_of : Option Error → Option ℕ
unfolding as_too_expensive
cheapest_of none = none
cheapest_of (some e) = as_too_expensive e

abbrev pub holds : (Error → Bool) → Option Error → Bool
holds test none = false
holds test (some e) = test e

-- The result of a failure; `last` is lastErr.
unfoldable pub failure_of : {F : Type 0} → Rebalance → Progress F → Option Error → Result
unfolding new_result failure_side is_precheck is_fault cheapest_of as_in_over_max
failure_of r p last =
    let own = ltb r.max_ppm r.run_max_ppm in
    let cheapest = cheapest_of last in
    record (new_result false (r.amount / 1000) r.out_channel.destination r.in_channel.source) {
      attempts = p.payments;
      failed_nodes = p.failures;
      middle_failures = p.mid_failures;
      failed_at = (failure_side last).0;
      retry = (failure_side last).1;
      precheck = is_precheck last;
      halted = holds (is_fault run_stopped) last;
      cheapest_ppm = elim cheapest [ none ↦ 0 | some fee ↦ fee ];
      held_by_own_limit =
          (elim cheapest [ none ↦ false | some fee ↦ own && leb fee r.run_max_ppm ])
          || holds (is_fault own_limit) last;
      in_over_max = holds as_in_over_max last;
      own_limit = own;
    }

module _ (Fl : Float64) (heap : Heap) (fuel : Graph → ℕ) where
  open Fl use {F}

  -- The part of a turn after its first attempt: with no other route, less over the short one.
  unfoldable pub retry_short : World → Rebalance → Attempted → Vars F → Turn F
  unfolding note_retry
  retry_short w r a v = elim v.short [
    | none ↦ attempted v a
    | some route ↦ elim (shrink r v.progress route v.short_ids) [
      | none ↦ attempted v a
      | some (shrunk, amount) ↦
          let (p, a') =
            run_attempt Fl heap fuel w r (some shrunk) (record v.progress { amount = amount }) in
          attempted (note_retry a' (record v { progress = p })) a'
    ]
  ]

  unfoldable pub after_attempt : World → Rebalance → Attempted → Vars F → Turn F
  unfolding remember_short retry_short lacks_route
  after_attempt w r a v =
      let remembered = remember_short a v in
      if has_error lacks_route a then retry_short w r a remembered else attempted remembered a

  -- One turn of the loop; its two attempts, if it has two, read two worlds.
  unfoldable pub turn : World → World → Rebalance → Option Route → Vars F → Turn F
  unfolding after_attempt has_error
  turn w again r none v =
      let (p, a) = run_attempt Fl heap fuel w r none v.progress in
      after_attempt again r a (record v { progress = p })
  turn w again r (some known) v =
      let (p, a) = run_attempt Fl heap fuel w r (some known) v.progress in
      let v' = record v { progress = p } in
      if has_error (is_fault temporary_failure) a
      then search_again v'
      else after_attempt again r a v'

  -- The loop of Run from attempt `i` on: `turns` bounds it, and turn n reads `worlds n`.
  unfoldable pub run_loop :
      (ℕ → World × World) → Rebalance → ℕ → ℕ → ℕ → Option Route → Option Error → Vars F → Ended F
  unfolding turn ends_run complete failure_of
  run_loop worlds r zero n i known last v = stalled v.progress
  run_loop worlds r (suc turns) n i known last v =
      if leb i (pos_part r.attempts)
      then elim (turn (worlds n).0 (worlds n).1 r known v) [
        | search_again v' ↦ run_loop worlds r turns (n + 1) i none last v'
        | attempted v' (succeeded result) ↦ returned v'.progress (complete v'.progress result)
        | attempted v' hung ↦ stalled v'.progress
        | attempted v' (unsent e) ↦
            let next = run_loop worlds r turns (n + 1) (i + 1) none (some e) v' in
            if ends_run e then returned v'.progress (failure_of r v'.progress (some e)) else next
        | attempted v' (failed_over route e) ↦
            let next = run_loop worlds r turns (n + 1) (i + 1) none (some e) v' in
            if ends_run e then returned v'.progress (failure_of r v'.progress (some e)) else next
      ]
      else returned v.progress (failure_of r v.progress last)

  -- Rebalance.Run: one turn more than its attempts, for the known route, and one to end.
  unfoldable pub run : (ℕ → World × World) → Rebalance → Graph → Scores F → Ended F
  unfolding run_loop start
  run worlds r g scores =
      let p = start (worlds 0).0 r g scores in
      run_loop worlds r (pos_part r.attempts + 2) 0 1 (known_route r p) none
        (record { progress = p; short = none; short_ids = [] })
