-- ===== src/Rebalance/AttemptLaws.antt =====
-- Laws of one attempt of a rebalance (rebalance/rebalance.go, rebalance/route.go).
use cln_circular.Common.{
  ℕ, ◌+◌, ◌≤◌, ◌≡◌, ◌≢◌, refl, ap, ◌∙◌, Bool, true, false, Option, none, some, arith, if◌then◌else◌,
}
use cln_circular.Common.Float.{Float64}
use cln_circular.Common.Int.{pos_part}
use cln_circular.Graph.Fee.{max_fee_for_ppm}
use cln_circular.Graph.Route.{Route, route_fee}
use cln_circular.Graph.RouteLaws.{Found, likely-Found}
use cln_circular.Graph.Scores.{node_penalties}
use cln_circular.Graph.Search.{Heap}
use cln_circular.Graph.State.{Graph}
use cln_circular.Rebalance.Attempt.{
  Attempted, succeeded, unsent, failed_over, hung, success_of, send, conclude, try_route,
  choose_route, try_outcome, run_attempt,
}
use cln_circular.Rebalance.Checks.{check_first_hop, validate_liquidity, risk_rate}
use cln_circular.Rebalance.Errors.{Error, Outcome, ok, err, hangs}
use cln_circular.Rebalance.Result.{Result, new_result}
use cln_circular.Rebalance.Routing.{get_route, judge_search, likely_route, cheapest_route}
use cln_circular.Rebalance.Run.{lacks_route, has_error, error_of}
use cln_circular.Rebalance.Split.{
  Rebalance, World, Payment, delivered, failed_at, refused, Progress,
}
use cln_circular.Rebalance.Tally.{
  Tally, tally, learn_from_failure-Learned, tally-learn_from_success,
}
use cln_circular.Rebalance.Prices.{
  RefusesPlainly, Fits, Affordable, Fits-amount, judge_search-Affordable,
}

-- What an attempt makes of a run: the amount stays, at most one payment leaves, none where there
-- is no route, and a success moved the amount within the rate limit.
pub record Attempts {F : Type 0} (r : Rebalance) (p : Progress F) (x : Progress F × Attempted)
    : Type 0 where
  pub same_amount : x.0.amount ≡ p.amount
  pub counted : x.0.payments ≤ p.payments + 1
  pub unpaid : has_error lacks_route x.1 ≡ true → x.0.payments ≡ p.payments
  pub answered : x.1 ≢ hung
  pub paid :
      (res : Result)
      → x.1 ≡ succeeded res
      → (res.success ≡ true)
        × (res.amount_msat ≡ p.amount)
        × (res.fee ≤ max_fee_for_ppm p.amount r.max_ppm)

unsent-Attempts :
    {F : Type 0} (r : Rebalance) (p : Progress F) (e : Error) → Attempts r p (p, unsent e)
unsent-Attempts r p e = record {
  same_amount = refl;
  counted = omega arith;
  unpaid = λ _. refl;
  answered = λ h. cc;
  paid = λ res h. cc;
}

unpaid_over-Attempts :
    {F : Type 0} (r : Rebalance) (p : Progress F) (route : Route) (e : Error)
    → Attempts r p (p, failed_over route e)
unpaid_over-Attempts r p route e = record {
  same_amount = refl;
  counted = omega arith;
  unpaid = λ _. refl;
  answered = λ h. cc;
  paid = λ res h. cc;
}

-- A payment that left and failed, with an error that is not the search's.
failed-Attempts :
    {F : Type 0} (w : World) (r : Rebalance) (p q : Progress F) (route : Route) (e : Error)
    → tally q ≡ tally (send w p)
    → lacks_route e ≡ false
    → Attempts r p (q, failed_over route e)
unfolding send has_error error_of
failed-Attempts w r p q route e kept plain = record {
  same_amount = ap (λ (t : Tally). t.amount) kept;
  counted = omega (arith, ap (λ (t : Tally). t.payments) kept);
  unpaid = λ h. cc;
  answered = λ h. cc;
  paid = λ res h. cc;
}

module _ (Fl : Float64) (heap : Heap) (fuel : Graph → ℕ) where
  open Fl use {F}

  -- Whatever route the search gives, it costs no more than the rate limit allows.
  get_route-Affordable :
      (w : World) (r : Rebalance) (p : Progress F) {route : Route}
      → Fits r p.amount
      → get_route Fl heap fuel w r p ≡ ok route
      → Affordable r p.amount route
  unfolding get_route
  get_route-Affordable w r p {route} fits e =
      let x = likely_route Fl heap fuel w r p in
      let y = cheapest_route Fl heap fuel r p in
      let found : Found p.amount x =
        unfold likely_route in
        likely-Found p.graph heap (fuel p.graph) r.out_channel r.in_channel p.amount
          (Fits-amount r p.amount fits) Fl (node_penalties Fl w.now p.scores) p.exclude
          (pos_part r.max_hops) (max_fee_for_ppm p.amount r.max_ppm) (risk_rate w.defaults r) in
      let judged : judge_search r x y ≡ ok route = ground arith in
      judge_search-Affordable r p.amount x y fits found judged

  delivered-Attempts :
      (w : World) (r : Rebalance) (route : Route) (p : Progress F)
      → Affordable r p.amount route
      → Attempts r p (conclude Fl heap fuel w r route delivered (send w p))
  unfolding conclude success_of new_result has_error error_of send
  delivered-Attempts w r route p (for_amount, cheap) =
      let kept = tally-learn_from_success Fl w route (send w p) in
      record {
        same_amount = ap (λ (t : Tally). t.amount) kept;
        counted = omega (arith, ap (λ (t : Tally). t.payments) kept);
        unpaid = λ h. cc;
        answered = λ h. cc;
        paid = λ res h.
            let moved : res.amount_msat ≡ route.amount = ground arith in
            let fee : res.fee ≡ route_fee route = ground arith in
            let done : res.success ≡ true = ground arith in
            (done, moved ∙ for_amount, omega (arith, fee, cheap));
      }

  conclude-Attempts :
      (w : World) (r : Rebalance) (route : Route) (p : Progress F) (y : Payment)
      → RefusesPlainly w
      → Affordable r p.amount route
      → w.pay route ≡ y
      → Attempts r p (conclude Fl heap fuel w r route y (send w p))
  unfolding conclude
  conclude-Attempts w r route p delivered plain affordable e =
      delivered-Attempts w r route p affordable
  conclude-Attempts w r route p (failed_at failure) plain affordable e =
      let (kept, mild) = learn_from_failure-Learned Fl w r route failure (send w p) in
      failed-Attempts w r p _ route _ kept mild
  conclude-Attempts w r route p (refused error) plain affordable e =
      failed-Attempts w r p _ route error refl (plain route error e)

  try_route-Attempts :
      (w : World) (r : Rebalance) (route : Route) (p : Progress F)
      → RefusesPlainly w
      → Affordable r p.amount route
      → Attempts r p (try_route Fl heap fuel w r route p)
  unfolding try_route
  try_route-Attempts w r route p plain affordable = checked (check_first_hop w.node r route)
    where
      checked :
          (o : Option Error)
          → Attempts r p (elim o [
            | some error ↦ (p, failed_over route error)
            | none ↦ conclude Fl heap fuel w r route (w.pay route) (send w p)
          ])
      checked (some error) = unpaid_over-Attempts r p route error
      checked none = conclude-Attempts w r route p (w.pay route) plain affordable refl

  outcome-Attempts :
      (w : World) (r : Rebalance) (p : Progress F) (o : Outcome Route)
      → RefusesPlainly w
      → o ≢ hangs
      → ((route : Route) → o ≡ ok route → Affordable r p.amount route)
      → Attempts r p (try_outcome Fl heap fuel w r o p)
  unfolding try_outcome
  outcome-Attempts w r p (ok route) plain some_answer fit =
      try_route-Attempts w r route p plain (fit route refl)
  outcome-Attempts w r p (err error) plain some_answer fit = unsent-Attempts r p error
  outcome-Attempts w r p hangs plain some_answer fit = absurd (some_answer refl)

  choose_route-answers :
      (w : World) (r : Rebalance) (p : Progress F) (known : Option Route)
      → get_route Fl heap fuel w r p ≢ hangs
      → choose_route Fl heap fuel w r known p ≢ hangs
  unfolding choose_route
  choose_route-answers w r p (some x) h = λ e. cc
  choose_route-answers w r p none h = h

  choose_route-Affordable :
      (w : World) (r : Rebalance) (p : Progress F) (known : Option Route)
      → Fits r p.amount
      → ((route : Route) → known ≡ some route → Affordable r p.amount route)
      → (route : Route) → choose_route Fl heap fuel w r known p ≡ ok route
      → Affordable r p.amount route
  unfolding choose_route
  choose_route-Affordable w r p (some x) fits fit route e = fit route (ground arith)
  choose_route-Affordable w r p none fits fit route e = get_route-Affordable w r p fits e

  pub run_attempt-Attempts :
      (w : World) (r : Rebalance) (known : Option Route) (p : Progress F)
      → RefusesPlainly w
      → get_route Fl heap fuel w r p ≢ hangs
      → Fits r p.amount
      → ((route : Route) → known ≡ some route → Affordable r p.amount route)
      → Attempts r p (run_attempt Fl heap fuel w r known p)
  unfolding run_attempt
  run_attempt-Attempts w r known p plain answers fits fit =
      either w.stopped _ _ (unsent-Attempts r p _) (
        either w.halted _ _ (unsent-Attempts r p _)
          (checked (validate_liquidity w.node r p.amount)))
    where
      either :
          (b : Bool) (x y : Progress F × Attempted)
          → Attempts r p x
          → Attempts r p y
          → Attempts r p (if b then x else y)
      either true x y h k = h
      either false x y h k = k

      checked :
          (o : Option Error)
          → Attempts r p (elim o [
            | some error ↦ (p, unsent error)
            | none ↦ try_outcome Fl heap fuel w r (choose_route Fl heap fuel w r known p) p
          ])
      checked (some error) = unsent-Attempts r p error
      checked none =
          outcome-Attempts w r p (choose_route Fl heap fuel w r known p) plain
            (choose_route-answers w r p known answers)
            (choose_route-Affordable w r p known fits fit)
