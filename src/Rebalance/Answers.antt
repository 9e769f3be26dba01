-- ===== src/Rebalance/Answers.antt =====
-- Laws of getRoute (rebalance/route.go), with the fuel that its searches get.
use cln_circular.Common.{ℕ, ◌≢◌, refl, Bool, true, false, some, ltb, if◌then◌else◌}
use cln_circular.Common.Float.{Float64}
use cln_circular.Common.Int.{pos_part}
use cln_circular.Graph.Circular.{Searched, priced, least_forward_fee}
use cln_circular.Graph.Fee.{max_fee_for_ppm}
use cln_circular.Graph.Scores.{node_penalties}
use cln_circular.Graph.Search.{Heap}
use cln_circular.Graph.State.{Graph}
use cln_circular.Graph.SearchAnswers.{
  IsAnswer, search_fuel, likely_route-IsAnswer, cheapest_route-IsAnswer,
}
use cln_circular.Rebalance.Checks.{risk_rate}
use cln_circular.Rebalance.Errors.{Error, Outcome, err, hangs}
use cln_circular.Graph.Route.{Route, route_fee_ppm}
use cln_circular.Rebalance.Routing.{
  in_peer_too_dear, check_price, why_no_route, judge_search, likely_route, cheapest_route,
  get_route,
}
use cln_circular.Rebalance.Split.{Rebalance, World, Progress}

if-answers : (b : Bool) (x y : Outcome Route) → x ≢ hangs → y ≢ hangs → (if b then x else y) ≢ hangs
if-answers true x y h k = h
if-answers false x y h k = k

error-answers : (e : Error) → ◌≢◌ {A = Outcome Route} (err e) hangs
error-answers e = λ h. cc

check_price-answers : (r : Rebalance) (x : Searched) → IsAnswer x → check_price r x ≢ hangs
unfolding check_price
check_price-answers r (priced route) h =
    if-answers (ltb r.max_ppm (route_fee_ppm route)) _ _ (λ e. cc) (λ e. cc)
check_price-answers r Searched.no_route h = λ e. cc
check_price-answers r Searched.no_such_node h = λ e. cc
check_price-answers r Searched.panicked h = absurd (h.0 refl)
check_price-answers r Searched.out_of_fuel h = absurd (h.1 refl)

why_no_route-answers : (r : Rebalance) (x : Searched) → IsAnswer x → why_no_route r x ≢ hangs
unfolding why_no_route
why_no_route-answers r (priced route) h = λ e. cc
why_no_route-answers r Searched.no_route h = λ e. cc
why_no_route-answers r Searched.no_such_node h = λ e. cc
why_no_route-answers r Searched.panicked h = absurd (h.0 refl)
why_no_route-answers r Searched.out_of_fuel h = absurd (h.1 refl)

judge_search-answers :
    (r : Rebalance) (x y : Searched) → IsAnswer x → IsAnswer y → judge_search r x y ≢ hangs
unfolding judge_search
judge_search-answers r (priced route) y h k = check_price-answers r (priced route) h
judge_search-answers r Searched.no_route y h k = why_no_route-answers r y k
judge_search-answers r Searched.no_such_node y h k = check_price-answers r Searched.no_such_node h
judge_search-answers r Searched.panicked y h k = check_price-answers r Searched.panicked h
judge_search-answers r Searched.out_of_fuel y h k = check_price-answers r Searched.out_of_fuel h

-- A rebalance's searches, each with the fuel that the graph of its moment asks for.
unfoldable pub enough : Rebalance → Graph → ℕ
unfolding search_fuel
enough r g = search_fuel (pos_part r.max_hops) g

pub get_route-answers :
    (Fl : Float64) (heap : Heap) (r : Rebalance) (w : World) (p : Progress Fl.F)
    → get_route Fl heap (enough r) w r p ≢ hangs
unfolding get_route enough
get_route-answers Fl heap r w p =
    let in_fee = least_forward_fee p.graph r.in_channel (some r.out_channel) p.amount in
    if-answers (ltb (max_fee_for_ppm p.amount r.max_ppm) in_fee)
      (err (in_peer_too_dear r p.amount in_fee)) _
      (error-answers (in_peer_too_dear r p.amount in_fee))
      (judge_search-answers r _ _
        (unfold likely_route in
          likely_route-IsAnswer p.graph heap (pos_part r.max_hops) r.out_channel r.in_channel
            p.amount p.exclude Fl (node_penalties Fl w.now p.scores)
            (max_fee_for_ppm p.amount r.max_ppm) (risk_rate w.defaults r))
        (unfold cheapest_route in
          cheapest_route-IsAnswer p.graph heap (pos_part r.max_hops) r.out_channel r.in_channel
            p.amount p.exclude))
