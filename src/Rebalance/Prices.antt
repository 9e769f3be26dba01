-- ===== src/Rebalance/Prices.antt =====
-- Laws of the routes that a rebalance takes (rebalance/route.go, rebalance/rebalance.go).
use cln_circular.Common.{
  ℕ, ◌+◌, ◌*◌, ◌≤◌, ◌<◌, ◌≡◌, ◌≢◌, refl, subst, false, ◌||◌, not, Option, none, some, List, [], ◌∷◌,
  arith, ltb, if◌then◌else◌, max_uint64, u64_mod, Bool-cases, inl, inr, ◌==◌, Str,
}
use cln_circular.Graph.Circular.{Searched, priced}
use cln_circular.Graph.Fee.{fee_ppm, max_fee_for_ppm}
use cln_circular.Graph.FeeLaws.{fee_ppm-le_iff}
use cln_circular.Graph.Route.{Route, route_fee, route_fee_ppm, get_route_over_channels, can_carry}
use cln_circular.Graph.RouteLaws.{Carries, Found, get_route_over_channels-Carries}
use cln_circular.Rebalance.Errors.{Error, ok}
use cln_circular.Rebalance.Routing.{judge_search, check_price, why_no_route, known_route}
use cln_circular.Rebalance.Run.{lacks_route}
use cln_circular.Rebalance.Split.{Rebalance, World, refused, Progress}

-- The errors of lightningd are not the search's.
abbrev pub RefusesPlainly : World → Type 0
RefusesPlainly w = (route : Route) (e : Error) → w.pay route ≡ refused e → lacks_route e ≡ false

-- The amount and the rate limit of the products that MaxFeeForPPM takes fit in 64 bits.
abbrev pub Fits : Rebalance → ℕ → Type 0
Fits r amount = (0 < amount) × ((r.max_ppm + 1) * amount < u64_mod)

-- A route for the amount that costs no more than the rate limit allows.
abbrev pub Affordable : Rebalance → ℕ → Route → Type 0
Affordable r amount route =
    (route.amount ≡ amount) × (route_fee route ≤ max_fee_for_ppm amount r.max_ppm)

saturated : (amount ppm : ℕ) → 0 < amount → ppm < max_uint64 → fee_ppm max_uint64 amount ≤ ppm → ⊥
unfolding fee_ppm
saturated amount ppm ha hp h = ground arith

Fits-ppm : (r : Rebalance) (amount : ℕ) → Fits r amount → r.max_ppm < max_uint64
Fits-ppm r amount (pos, fits) = grind arith

pub Fits-amount : (r : Rebalance) (amount : ℕ) → Fits r amount → amount ≤ max_uint64
Fits-amount r amount (pos, fits) = grind arith

afford_fee :
    (fee amount ppm : ℕ)
    → 0 < amount
    → fee ≤ max_uint64
    → ppm < max_uint64
    → (ppm + 1) * amount < u64_mod
    → fee_ppm fee amount ≤ ppm
    → fee ≤ max_fee_for_ppm amount ppm
afford_fee fee amount ppm ha hf hp hm h = elim (Bool-cases (fee == max_uint64)) [
  | inl e ↦
      absurd
        (saturated amount ppm ha hp (subst (λ (f : ℕ). fee_ppm f amount ≤ ppm) (ground arith) h))
  | inr ne ↦ (fee_ppm-le_iff fee amount ppm ha (ground arith) hp hm).0 h
]

afford :
    (r : Rebalance) (amount : ℕ) (route : Route)
    → Fits r amount
    → Carries amount route
    → route_fee_ppm route ≤ r.max_ppm
    → Affordable r amount route
unfolding route_fee_ppm
afford r amount route fits (for_amount, bounded) cheap = (
  for_amount,
  afford_fee (route_fee route) amount r.max_ppm fits.0 bounded (Fits-ppm r amount fits) fits.1
      (subst (λ (a : ℕ). fee_ppm (route_fee route) a ≤ r.max_ppm) for_amount cheap),
)

-- A route that worked before is tried again only where it is still within the limits.
pub known_route-Affordable :
    {F : Type 0} (r : Rebalance) (p : Progress F) {route : Route}
    → Fits r p.amount
    → known_route r p ≡ some route
    → Affordable r p.amount route
unfolding known_route
known_route-Affordable r p {route} fits e = known r.route e
  where
    priced_again :
        (ids : List Str) (o : Option Route)
        → get_route_over_channels p.graph ids p.amount ≡ o
        → (elim o [
          | none ↦ none
          | some x ↦
              if ltb r.max_ppm (route_fee_ppm x) || not (can_carry p.graph x p.exclude)
              then none
              else some x
        ])
          ≡ some route
        → Affordable r p.amount route
    priced_again ids none found h = cc
    priced_again ids (some x) found h =
        let same : x ≡ route = ground arith in
        let cheap : route_fee_ppm x ≤ r.max_ppm = ground arith in
        subst (Affordable r p.amount) same (
          afford r p.amount x fits
            (get_route_over_channels-Carries p.graph ids p.amount (Fits-amount r p.amount fits)
              found)
            cheap)

    known :
        (ids : List Str)
        → (elim ids [
          | [] ↦ none
          | id ∷ rest ↦ elim (get_route_over_channels p.graph (id ∷ rest) p.amount) [
            | none ↦ none
            | some x ↦
                if ltb r.max_ppm (route_fee_ppm x) || not (can_carry p.graph x p.exclude)
                then none
                else some x
          ]
        ])
          ≡ some route
        → Affordable r p.amount route
    known [] h = cc
    known (id ∷ rest) h =
        priced_again (id ∷ rest) (get_route_over_channels p.graph (id ∷ rest) p.amount) refl h

without_route : (r : Rebalance) (y : Searched) {route : Route} → why_no_route r y ≢ ok route
unfolding why_no_route
without_route r (priced x) = λ e. cc
without_route r Searched.no_route = λ e. cc
without_route r Searched.no_such_node = λ e. cc
without_route r Searched.panicked = λ e. cc
without_route r Searched.out_of_fuel = λ e. cc

pub judge_search-Affordable :
    (r : Rebalance) (amount : ℕ) (x y : Searched) {route : Route}
    → Fits r amount
    → Found amount x
    → judge_search r x y ≡ ok route
    → Affordable r amount route
unfolding judge_search check_price
judge_search-Affordable r amount Searched.no_route y fits f e = absurd (without_route r y e)
judge_search-Affordable r amount (priced x) y {route} fits f e =
    let same : x ≡ route = ground arith in
    let cheap : route_fee_ppm x ≤ r.max_ppm = ground arith in
    subst (Affordable r amount) same (afford r amount x fits f cheap)
judge_search-Affordable r amount Searched.no_such_node y fits f e = cc
judge_search-Affordable r amount Searched.panicked y fits f e = cc
judge_search-Affordable r amount Searched.out_of_fuel y fits f e = cc
