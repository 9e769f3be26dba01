-- ===== src/Graph/RouteLaws.antt =====
-- Laws of pricing a list of channels as a route (graph/pathfinder.go).
use cln_circular.Common.{
  ℕ, zero, suc, ◌+◌, ◌-◌, ◌≤◌, ◌≡◌, refl, subst, Bool, true, false, Option, none, some, List, [],
  ◌∷◌, arith, ◌==◌, if◌then◌else◌, Str, Map, max_uint64,
}
use cln_circular.Common.Float.{Float64}
use cln_circular.Graph.Channel.{Channel, compute_fee}
use cln_circular.Graph.Circular.{
  Searched, priced, price_answer, search_route, try_hops, get_circular_route, likely_route_at,
  get_likely_circular_route, or_else, no_cost,
}
use cln_circular.Graph.Fee.{add_saturating, node_fee}
use cln_circular.Graph.Route.{
  Route, RouteHop, price_hops, extend, hop_before, new_route_from_channels, route_fee, route_over,
  channels_of, get_route_over_channels, last_source,
}
use cln_circular.Graph.Search.{Heap, SearchRequest, circular_request, Answer}
use cln_circular.Graph.State.{Graph, get_inbound_fee}

-- A route for the amount, whose fee is a uint64.
abbrev pub Carries : ℕ → Route → Type 0
Carries amount r = (r.amount ≡ amount) × (route_fee r ≤ max_uint64)

add_saturating-fits : (a b : ℕ) → add_saturating a b ≤ max_uint64
unfolding add_saturating
add_saturating-fits a b = ground arith

first_fits :
    (g : Graph) (c : Channel) (amount : ℕ) (next : List RouteHop) (src dst : Str)
    → amount ≤ max_uint64
    → route_fee
        (record { destination = dst; source = src; amount = amount; hops = extend g amount c next })
      ≤ max_uint64
unfolding route_fee extend hop_before
first_fits g c amount [] src dst h = ground arith
first_fits g c amount (next ∷ rest) src dst h = ground (
  arith,
  add_saturating-fits next.milli_satoshi (
      node_fee (compute_fee next.channel next.milli_satoshi) (
        get_inbound_fee g c
          (add_saturating next.milli_satoshi (compute_fee next.channel next.milli_satoshi)))),
)

-- A search returns no route, or one for the amount.
abbrev pub Found : ℕ → Searched → Type 0
Found amount (priced r) = Carries amount r
Found amount Searched.no_route = Unit {0}
Found amount Searched.no_such_node = Unit {0}
Found amount Searched.panicked = Unit {0}
Found amount Searched.out_of_fuel = Unit {0}

price_answer-Found :
    (g : Graph) (req : SearchRequest) (a : Answer)
    → req.amount ≤ max_uint64
    → Found req.amount (price_answer g req a)
unfolding price_answer new_route_from_channels price_hops
price_answer-Found g req (Answer.route []) h = tt
price_answer-Found g req (Answer.route (c ∷ cs)) h =
    (refl, first_fits g c req.amount (price_hops g req.amount cs) req.src req.dst h)
price_answer-Found g req Answer.no_route h = tt
price_answer-Found g req Answer.no_such_node h = tt
price_answer-Found g req Answer.out_of_fuel h = tt

or_else-Found :
    (amount : ℕ) (x y : Searched) → Found amount x → Found amount y → Found amount (or_else x y)
or_else-Found amount Searched.no_route y p q = q
or_else-Found amount (priced r) y p q = p
or_else-Found amount Searched.no_such_node y p q = tt
or_else-Found amount Searched.panicked y p q = tt
or_else-Found amount Searched.out_of_fuel y p q = tt

if-Found :
    (b : Bool) (amount : ℕ) (x y : Searched)
    → Found amount x
    → Found amount y
    → Found amount (if b then x else y)
if-Found true amount x y p q = p
if-Found false amount x y p q = q

module _ (g : Graph) (heap : Heap) (fuel : ℕ) where
  search_route-Found :
      (cost_of : Channel → ℕ → ℕ) (req : SearchRequest)
      → req.amount ≤ max_uint64
      → Found req.amount (search_route g heap fuel cost_of req)
  unfolding search_route
  search_route-Found cost_of req h = price_answer-Found g req _ h

  module _ (out back : Channel) (amount : ℕ) (fits : amount ≤ max_uint64) where
    try_hops-Found :
        (exclude : Map Bool) (max_fee hops left : ℕ)
        → Found amount (try_hops g heap fuel out back amount exclude max_fee hops left)
    unfolding try_hops circular_request
    try_hops-Found exclude max_fee hops zero = tt
    try_hops-Found exclude max_fee hops (suc left) =
        or_else-Found amount
          (search_route g heap fuel no_cost (circular_request out back amount exclude hops max_fee))
          _
          (search_route-Found no_cost (circular_request out back amount exclude hops max_fee) fits)
          (try_hops-Found exclude max_fee (hops + 1) left)

    pub likely-Found :
        (Fl : Float64) (penalties : Option (Map Fl.F)) (exclude : Map Bool)
        (max_hops max_fee risk_ppm : ℕ)
        → Found amount (
            get_likely_circular_route g heap fuel Fl penalties out back amount exclude max_hops
              max_fee risk_ppm)
    unfolding get_likely_circular_route likely_route_at get_circular_route circular_request
    likely-Found Fl penalties exclude max_hops max_fee risk_ppm =
        let by_fees = try_hops-Found exclude max_fee 2 (max_hops - 1) in
        if-Found (risk_ppm == 0) amount _ _ by_fees (
          or_else-Found amount
            (search_route g heap fuel _ (circular_request out back amount exclude max_hops max_fee))
            _
            (search_route-Found _ (circular_request out back amount exclude max_hops max_fee) fits)
            by_fees)

some_of_if {ℓ} :
    {A : Type ℓ} (b : Bool) (x : A) {y : A} → (if b then some x else none) ≡ some y → x ≡ y
some_of_if true x e = cc
some_of_if false x e = cc

-- A route over known channels is for the amount too.
pub get_route_over_channels-Carries :
    (g : Graph) (ids : List Str) (amount : ℕ) {r : Route}
    → amount ≤ max_uint64
    → get_route_over_channels g ids amount ≡ some r
    → Carries amount r
unfolding get_route_over_channels
get_route_over_channels-Carries g ids amount {r} h e = over (channels_of g ids) e
  where
    over :
        (o : Option (List Channel))
        → (elim o [ none ↦ none | some cs ↦ route_over g amount cs ]) ≡ some r
        → Carries amount r
    over none e = cc
    over (some []) e = unfold route_over in cc
    over (some (c ∷ cs)) e =
        unfold route_over price_hops in
        subst (Carries amount) (some_of_if _ _ e)
          (refl, first_fits g c amount (price_hops g amount cs) c.destination (last_source c cs) h)
