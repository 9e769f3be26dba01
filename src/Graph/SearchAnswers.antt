-- ===== src/Graph/SearchAnswers.antt =====
-- Laws of the fuel and the panics of the searches of graph/pathfinder.go.
use cln_circular.Common.{
  ℕ, zero, suc, ◌+◌, ◌-◌, ◌≤◌, ◌≡◌, ◌≢◌, refl, Bool, true, false, not, ◌&&◌, ◌||◌, Option, none,
  some, List, [], ◌∷◌, arith, Str, str_eq, Map, lookup_or, lookup, max_uint64, ltb, ◌==◌,
  if◌then◌else◌, u64, Bool-cases, inl, inr,
}
use cln_circular.Common.Float.{Float64}
use cln_circular.Graph.Channel.{Channel, compute_fee}
use cln_circular.Graph.Chance.{channel_cost}
use cln_circular.Graph.Circular.{
  Searched, priced, panicked, out_of_fuel, no_cost, price_answer, or_else, search_route, try_hops,
  get_circular_route, get_cheapest_circular_route, likely_route_at, get_likely_circular_route,
}
use cln_circular.Graph.Route.{new_route_from_channels, max_route_delay}
use cln_circular.Graph.Search.{
  Heap, Label, path, SearchRequest, SearchState, Turn, found, go_on, at_source, expand, turn,
  search_loop, search_channels, Answer, circular_request, final_label, lacks_node, seed, dominated,
  Expansion, path_hops, expand_all,
}
use cln_circular.Graph.SearchEnds.{count_edges, reach, product_mono, circular_search-ends}
use cln_circular.Graph.State.{Graph, Edge}

-- The most channels that run into one node.
unfoldable pub widest : Map (Map Edge) → ℕ
widest [] = 0
widest ((u, edges) ∷ m) =
    let rest = widest m in if ltb rest (count_edges edges) then count_edges edges else rest

-- The fuel that is enough for a search with at most so many hops.
unfoldable pub search_fuel : ℕ → Graph → ℕ
unfolding reach widest
search_fuel max_hops g = suc (reach (widest g.inbound) (max_hops - 1))

edges-widest : (u : Str) (m : Map (Map Edge)) → count_edges (lookup_or u [] m) ≤ widest m
unfolding widest lookup
edges-widest u [] = omega arith
edges-widest u ((v, edges) ∷ m) = ground (arith, edges-widest u m)

reach_mono : (width j k : ℕ) → j ≤ k → reach width j ≤ reach width k
unfolding reach
reach_mono width zero zero h = omega arith
reach_mono width zero (suc k) h = omega arith
reach_mono width (suc j) zero h = absurd (omega arith)
reach_mono width (suc j) (suc k) h =
    let rest = reach_mono width j k (omega arith) in
    let times = product_mono (reach width j) (reach width k) (width + 1) rest in
    omega (arith, times)

-- A search answers: it gives a route, or says that there is none.
abbrev pub IsAnswer : Searched → Type 0
IsAnswer s = (s ≢ panicked) × (s ≢ out_of_fuel)

abbrev Full : Turn → Type 0
Full (found channels) = channels ≢ []
Full (go_on st) = Unit {0}

if-Full : (b : Bool) (x y : Turn) → Full x → Full y → Full (if b then x else y)
if-Full true x y h k = h
if-Full false x y h k = k

module _ (cost_of : Channel → ℕ → ℕ) (g : Graph) (req : SearchRequest) where
  path_full : (l : Label) → path l ≢ []
  path_full l = λ e. cc

  turn-Full : (l : Label) (st : SearchState) → Full (turn cost_of g req l st)
  unfolding turn at_source
  turn-Full l st =
      let outbound = compute_fee l.channel l.amount in
      let delay = u64 (l.delay + l.channel.policy.delay) in
      let further = expand cost_of g req l outbound delay st in
      let at_end = str_eq l.channel.source req.src in
      let seen = not (str_eq l.id []) && dominated st.best l.id l.hops l.fee l.cost true in
      let rest = if at_end then at_source cost_of g req l outbound delay st else further in
      if-Full l.final (found (path l)) (if seen then go_on st else rest) (path_full l) (
        if-Full seen (go_on st) rest tt (
          if-Full at_end (at_source cost_of g req l outbound delay st) further
            (source req.first_hop) (expand_full outbound delay)))
    where
      grown :
          (next : Map (List Expansion) → SearchState) (o : Option (Map (List Expansion)))
          → Full (elim o as (λ _. Turn) [ none ↦ go_on st | some m ↦ go_on (next m) ])
      grown next none = tt
      grown next (some m) = tt

      expand_full : (outbound delay : ℕ) → Full (expand cost_of g req l outbound delay st)
      expand_full outbound delay =
          unfold expand in
          if-Full (ltb (path_hops req) (l.hops + 1) || ltb max_route_delay delay) (go_on st) _ tt (
            grown
              (λ m.
                expand_all cost_of g req l outbound delay l.channel.source
                  (lookup_or l.channel.source [] g.inbound) (record st { expanded = m }))
              _)

      joined :
          (o : Option Label)
          → Full (elim o as (λ _. Turn) [
            | none ↦ go_on st
            | some m ↦ go_on (record st { queue = m ∷ st.queue })
          ])
      joined none = tt
      joined (some m) = tt

      source :
          (o : Option Channel)
          → Full (elim o as (λ _. Turn) [
            | none ↦ found (path l)
            | some first_hop ↦
                elim (final_label cost_of g req l
                    (compute_fee l.channel l.amount)
                    (u64 (l.delay + l.channel.policy.delay))
                    first_hop)
                  as (λ _. Turn) [
                    | none ↦ go_on st
                    | some m ↦ go_on (record st { queue = m ∷ st.queue })
                  ]
          ])
      source none = path_full l
      source (some first_hop) = joined _

  module _ (heap : Heap) where
    search_loop-full :
        (fuel : ℕ) (st : SearchState) → search_loop cost_of g req heap fuel st ≢ Answer.route []
    unfolding search_loop
    search_loop-full zero st = λ e. cc
    search_loop-full (suc fuel) st = popped (heap.pop st.queue) (search_loop-full fuel)
      where
        turned :
            (t : Turn)
            → Full t
            → ((st' : SearchState) → search_loop cost_of g req heap fuel st' ≢ Answer.route [])
            → elim t [
              | found channels ↦ Answer.route channels
              | go_on st' ↦ search_loop cost_of g req heap fuel st'
            ]
              ≢ Answer.route []
        turned (found []) h ih = λ e. h refl
        turned (found (c ∷ cs)) h ih = λ e. cc
        turned (go_on st') h ih = ih st'

        popped :
            (o : Option (Label × List Label))
            → ((st' : SearchState) → search_loop cost_of g req heap fuel st' ≢ Answer.route [])
            → elim o [
              | none ↦ Answer.no_route
              | some (current, rest) ↦
                  elim (turn cost_of g req current (record st { queue = rest })) [
                    | found channels ↦ Answer.route channels
                    | go_on st' ↦ search_loop cost_of g req heap fuel st'
                  ]
            ]
              ≢ Answer.route []
        popped none ih = λ e. cc
        popped (some (l, rest)) ih =
            turned (turn cost_of g req l (record st { queue = rest }))
              (turn-Full l (record st { queue = rest })) ih

    search_channels-full : (fuel : ℕ) → search_channels cost_of g req heap fuel ≢ Answer.route []
    unfolding search_channels
    search_channels-full fuel = either (lacks_node g req)
      where
        either :
            (b : Bool)
            → (if b
                then Answer.no_such_node
                else search_loop cost_of g req heap fuel (seed cost_of g req))
              ≢ Answer.route []
        either true = λ e. cc
        either false = search_loop-full fuel (seed cost_of g req)

price_answer-IsAnswer :
    (g : Graph) (req : SearchRequest) (a : Answer)
    → a ≢ Answer.route []
    → a ≢ Answer.out_of_fuel
    → IsAnswer (price_answer g req a)
unfolding price_answer new_route_from_channels
price_answer-IsAnswer g req (Answer.route []) h k = absurd (h refl)
price_answer-IsAnswer g req (Answer.route (c ∷ cs)) h k = ((λ e. cc), (λ e. cc))
price_answer-IsAnswer g req Answer.no_route h k = ((λ e. cc), (λ e. cc))
price_answer-IsAnswer g req Answer.no_such_node h k = ((λ e. cc), (λ e. cc))
price_answer-IsAnswer g req Answer.out_of_fuel h k = absurd (k refl)

or_else-IsAnswer : (x y : Searched) → IsAnswer x → IsAnswer y → IsAnswer (or_else x y)
or_else-IsAnswer Searched.no_route y h k = k
or_else-IsAnswer (priced r) y h k = h
or_else-IsAnswer Searched.no_such_node y h k = h
or_else-IsAnswer Searched.panicked y h k = h
or_else-IsAnswer Searched.out_of_fuel y h k = h

if-IsAnswer : (b : Bool) (x y : Searched) → IsAnswer x → IsAnswer y → IsAnswer (if b then x else y)
if-IsAnswer true x y h k = h
if-IsAnswer false x y h k = k

module _ (g : Graph) (heap : Heap) (most : ℕ) (out back : Channel) (amount : ℕ)
    (exclude : Map Bool) where
  abbrev fuel : ℕ
  fuel = search_fuel most g

  circular-IsAnswer :
      (cost_of : Channel → ℕ → ℕ) (hops max_fee : ℕ)
      → hops ≤ most
      → IsAnswer
          (search_route g heap fuel cost_of (circular_request out back amount exclude hops max_fee))
  unfolding search_route search_fuel
  circular-IsAnswer cost_of hops max_fee few =
      let req = circular_request out back amount exclude hops max_fee in
      let wide = widest g.inbound in
      price_answer-IsAnswer g req (search_channels cost_of g req heap (search_fuel most g))
        (search_channels-full cost_of g req heap (search_fuel most g))
        (circular_search-ends cost_of g out back amount exclude hops max_fee wide heap
          (search_fuel most g) (λ u. edges-widest u g.inbound)
          (omega (arith, reach_mono wide (hops - 1) (most - 1) (omega arith))))

  try_hops-IsAnswer :
      (max_fee hops left : ℕ)
      → hops + left ≤ most + 1
      → IsAnswer (try_hops g heap fuel out back amount exclude max_fee hops left)
  unfolding try_hops
  try_hops-IsAnswer max_fee hops zero few = ((λ e. cc), (λ e. cc))
  try_hops-IsAnswer max_fee hops (suc left) few =
      or_else-IsAnswer _ _ (circular-IsAnswer no_cost hops max_fee (omega arith))
        (try_hops-IsAnswer max_fee (hops + 1) left (omega arith))

  get_circular_route-IsAnswer :
      (max_fee : ℕ) → IsAnswer (get_circular_route g heap fuel out back amount exclude most max_fee)
  unfolding get_circular_route
  get_circular_route-IsAnswer max_fee = elim (Bool-cases (most == 0)) [
    | inl none_left ↦
        let zero_left : most - 1 ≡ 0 = ground arith in
        rw zero_left (unfold try_hops in ((λ e. cc), (λ e. cc)))
    | inr some_left ↦ try_hops-IsAnswer max_fee 2 (most - 1) (ground arith)
  ]

  -- GetLikelyCircularRoute, with its search by cost and its fallback over the numbers of hops, gives a
  -- route or says that there is none, on every graph: with the fuel that is computed of the graph and
  -- the most hops, no search in it runs out, and none prices an empty list of channels.
  pub likely_route-IsAnswer :
      (Fl : Float64) (penalties : Option (Map Fl.F)) (max_fee risk_ppm : ℕ)
      → IsAnswer (
          get_likely_circular_route g heap fuel Fl penalties out back amount exclude most max_fee
            risk_ppm)
  unfolding get_likely_circular_route likely_route_at
  likely_route-IsAnswer Fl penalties max_fee risk_ppm =
      let by_fees = get_circular_route-IsAnswer max_fee in
      if-IsAnswer (risk_ppm == 0) _ _ by_fees (
        or_else-IsAnswer _ _
          (circular-IsAnswer (channel_cost Fl risk_ppm penalties) most max_fee (omega arith))
          by_fees)

  pub cheapest_route-IsAnswer :
      IsAnswer (get_cheapest_circular_route g heap fuel out back amount exclude most)
  unfolding get_cheapest_circular_route
  cheapest_route-IsAnswer = circular-IsAnswer no_cost most max_uint64 (omega arith)
