-- ===== src/Graph/CircularLaws.antt =====
-- Laws of the circular searches of graph/pathfinder.go.
use cln_circular.Common.{
  ℕ, zero, suc, ◌+◌, ◌-◌, ◌≤◌, ◌<◌, ◌≡◌, refl, sym, subst, ◌∙◌, Bool, true, false, some, List, [],
  ◌∷◌, arith, length, Map, if◌then◌else◌, Bool-cases, inl, inr, ◌⊎◌, ◌==◌,
}
use cln_circular.Graph.Channel.{Channel}
use cln_circular.Graph.State.{Graph}
use cln_circular.Graph.Route.{
  Route, route_fee, price_hops, extend, first_delay, max_route_delay, new_route_from_channels,
}
use cln_circular.Graph.Search.{
  Heap, SearchRequest, circular_request, lacks_node, search_channels, search_loop, seed, path,
  self_of, Label, Answer,
}
use cln_circular.Graph.SearchLaws.{Linked, EndsWith, Carried, EdgesSound, IsSound, hop_of}
use cln_circular.Graph.SearchSound.{Answered, AllGood, search_loop-Answered}
use cln_circular.Graph.Circular.{
  Searched, priced, or_else, no_cost, search_route, get_circular_route, price_answer, try_hops,
  likely_route_at,
}

-- A route that starts over `out` and comes back over `back`, linked and priced in between, within
-- the limits on hops, fees and delay, each channel between our own two usable for its amount.
pub record IsCircular (g : Graph) (req : SearchRequest) (out back : Channel) (max_hops max_fee : ℕ)
    (r : Route) : Type 0 where
  pub channels : List Channel
  pub hops : r.hops ≡ price_hops g req.amount (out ∷ channels)
  pub delivers : r.amount ≡ req.amount
  pub linked : Linked (out ∷ channels)
  pub ends : EndsWith back (out ∷ channels)
  pub short : length (out ∷ channels) ≤ max_hops
  pub cheap : route_fee r ≤ max_fee
  pub quick : first_delay r.hops ≤ max_route_delay
  pub carried : Carried g req channels

module _ (g : Graph) (edges : EdgesSound g) (out back : Channel) (amount : ℕ)
    (exclude : Map Bool) where
  module _ (cost_of : Channel → ℕ → ℕ) (max_hops max_fee : ℕ) (room : 0 < max_hops) where
    abbrev request : SearchRequest
    request = circular_request out back amount exclude max_hops max_fee

    starts : request.first_hop ≡ some out
    unfolding circular_request
    starts = refl

    src_eq : request.src ≡ out.destination
    unfolding circular_request
    src_eq = refl

    seed-AllGood : AllGood cost_of g out back request starts src_eq edges (seed cost_of g request)
    unfolding seed circular_request price_hops extend
    seed-AllGood = (
      (
        record {
          priced = refl;
          paid = omega arith;
          counted = refl;
          short = room;
          linked = tt;
          cheap = omega arith;
          quick = omega arith;
          ends = refl;
          carried = tt;
          inside = λ _. tt;
        },
        inl refl,
      ),
      tt,
    )

    module _ (heap : Heap) (fuel : ℕ) where
      Answered-if :
          (b : Bool) (a : Answer)
          → Answered cost_of g out back request starts src_eq edges a
          → Answered cost_of g out back request starts src_eq edges
              (if b then Answer.no_such_node else a)
      Answered-if true a h = tt
      Answered-if false a h = h

      answer-Answered :
          Answered cost_of g out back request starts src_eq edges
            (search_channels cost_of g request heap fuel)
      unfolding search_channels
      answer-Answered =
          Answered-if (lacks_node g request)
            (search_loop cost_of g request heap fuel (seed cost_of g request))
            (search_loop-Answered cost_of g out back request starts src_eq edges heap fuel
              (seed cost_of g request) seed-AllGood)

      -- A sound complete label prices to a circular route.
      label-IsCircular :
          (l : Label) (r : Route)
          → IsSound g request back l
          → l.channel ≡ out
          → new_route_from_channels g request.src request.dst request.amount (path l) ≡ some r
          → IsCircular g request out back max_hops max_fee r
      unfolding new_route_from_channels route_fee first_delay circular_request
      label-IsCircular l r s c e =
          let hops_eq : r.hops ≡ price_hops g amount (path l) = ground arith in
          let amount_eq : r.amount ≡ amount = ground arith in
          let whole : r.hops ≡ hop_of g request l ∷ price_hops g amount l.next =
            hops_eq ∙ s.priced in
          record {
            channels = l.next;
            hops = subst (λ x. r.hops ≡ price_hops g amount (x ∷ l.next)) c hops_eq;
            delivers = amount_eq;
            linked = subst (λ x. Linked (x ∷ l.next)) c s.linked;
            ends = subst (λ x. EndsWith back (x ∷ l.next)) c s.ends;
            short = omega (arith, s.counted, s.short);
            cheap = ground (arith, s.paid, s.cheap);
            quick = ground (arith, s.quick);
            carried = s.carried;
          }

      Answered-IsCircular :
          (a : Answer) (r : Route)
          → Answered cost_of g out back request starts src_eq edges a
          → price_answer g request a ≡ priced r
          → IsCircular g request out back max_hops max_fee r
      unfolding price_answer
      Answered-IsCircular (Answer.route channels) r (l, s, c, p) e =
          let made : new_route_from_channels g request.src request.dst request.amount channels
              ≡ some r =
            ground arith in
          label-IsCircular l r s c (
            subst (λ x. new_route_from_channels g request.src request.dst request.amount x ≡ some r)
              (sym p) made)
      Answered-IsCircular Answer.no_route r h e = absurd (cc)
      Answered-IsCircular Answer.no_such_node r h e = absurd (cc)
      Answered-IsCircular Answer.out_of_fuel r h e = absurd (cc)

      -- Whatever the costs, the order of the queue and the fuel, a route that the search returns
      -- starts over our channel `out` and ends over `back`; each channel starts where the one
      -- before it ends; it has at most `max_hops` channels; at the prices of newRouteFromChannels it
      -- costs at most `max_fee` and waits at most MAX_ROUTE_DELAY blocks; and every channel between
      -- our two is allowed, is not out of our node and can forward what the route carries over it.
      pub searched-IsCircular :
          (r : Route)
          → search_route g heap fuel cost_of request ≡ priced r
          → IsCircular g request out back max_hops max_fee r
      unfolding search_route
      searched-IsCircular r e =
          Answered-IsCircular (search_channels cost_of g request heap fuel) r answer-Answered e

  module _ (heap : Heap) (fuel max_fee : ℕ) where
    abbrev limited : ℕ → SearchRequest
    limited n = circular_request out back amount exclude n max_fee

    loosen-Carried :
        (n k : ℕ) (cs : List Channel) → Carried g (limited n) cs → Carried g (limited k) cs
    unfolding circular_request self_of
    loosen-Carried n k [] h = tt
    loosen-Carried n k (c ∷ []) h = tt
    loosen-Carried n k (c ∷ d ∷ cs) h = (
      record {
        forwards = h.0.forwards;
        channel_allowed = h.0.channel_allowed;
        node_allowed = h.0.node_allowed;
        not_ours = h.0.not_ours;
      },
      loosen-Carried n k (d ∷ cs) h.1,
    )

    -- A looser limit on the hops.
    loosen :
        (n k : ℕ) (r : Route)
        → n ≤ k
        → IsCircular g (limited n) out back n max_fee r
        → IsCircular g (limited k) out back k max_fee r
    unfolding circular_request
    loosen n k r h c = record {
      channels = c.channels;
      hops = c.hops;
      delivers = c.delivers;
      linked = c.linked;
      ends = c.ends;
      short = omega (arith, c.short);
      cheap = c.cheap;
      quick = c.quick;
      carried = loosen-Carried n k c.channels c.carried;
    }

    or_else-priced :
        (s next : Searched) (r : Route)
        → or_else s next ≡ priced r
        → (s ≡ priced r) ⊎ (next ≡ priced r)
    or_else-priced (priced q) next r e = inl e
    or_else-priced Searched.no_route next r e = inr e
    or_else-priced Searched.no_such_node next r e = inl e
    or_else-priced Searched.panicked next r e = inl e
    or_else-priced Searched.out_of_fuel next r e = inl e

    try_hops-IsCircular :
        (hops left k : ℕ) (r : Route)
        → 0 < hops
        → hops + left ≤ suc k
        → try_hops g heap fuel out back amount exclude max_fee hops left ≡ priced r
        → IsCircular g (limited k) out back k max_fee r
    unfolding try_hops
    try_hops-IsCircular hops zero k r h l e = absurd (cc)
    try_hops-IsCircular hops (suc left) k r h l e =
        elim (or_else-priced (search_route g heap fuel no_cost (limited hops))
          (try_hops g heap fuel out back amount exclude max_fee (hops + 1) left) r e) [
            | inl here ↦
                loosen hops k r (omega arith)
                  (searched-IsCircular no_cost hops max_fee h heap fuel r here)
            | inr later ↦ try_hops-IsCircular (hops + 1) left k r (omega arith) (omega arith) later
          ]

    -- A route that GetCircularRoute returns is a circular route within its limits.
    pub get_circular_route-IsCircular :
        (max_hops : ℕ) (r : Route)
        → get_circular_route g heap fuel out back amount exclude max_hops max_fee ≡ priced r
        → IsCircular g (limited max_hops) out back max_hops max_fee r
    unfolding get_circular_route
    get_circular_route-IsCircular zero r e = absurd (cc)
    get_circular_route-IsCircular (suc k) r e =
        try_hops-IsCircular 2 (suc k - 1) (suc k) r (omega arith) (omega arith) e

    -- So is one that GetLikelyCircularRoute returns, whatever it takes the channels to cost.
    pub likely_route-IsCircular :
        (cost_of : Channel → ℕ → ℕ) (max_hops risk_ppm : ℕ) (r : Route)
        → 0 < max_hops
        → likely_route_at g heap fuel cost_of out back amount exclude max_hops max_fee risk_ppm
          ≡ priced r
        → IsCircular g (limited max_hops) out back max_hops max_fee r
    unfolding likely_route_at
    likely_route-IsCircular cost_of max_hops risk_ppm r h e = elim (Bool-cases (risk_ppm == 0)) [
      | inl off ↦ get_circular_route-IsCircular max_hops r (rw off at e)
      | inr on ↦
          elim (or_else-priced (search_route g heap fuel cost_of (limited max_hops))
            (get_circular_route g heap fuel out back amount exclude max_hops max_fee) r
            (rw on at e)) [
              | inl here ↦ searched-IsCircular cost_of max_hops max_fee h heap fuel r here
              | inr later ↦ get_circular_route-IsCircular max_hops r later
            ]
    ]
