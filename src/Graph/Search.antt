-- ===== src/Graph/Search.antt =====
-- The backward route search of graph/pathfinder.go, with the order of graph/pq.go. The cost of a
-- channel is an argument here (Graph/Chance defines it); container/heap is the argument `heap`,
-- a priority queue of which the laws say that Pop takes one label out and loses none.
use cln_circular.Common.{
  ℕ, zero, suc, ◌+◌, ◌-◌, ◌≡◌, Bool, true, false, ◌&&◌, ◌||◌, not, Option, none, some, List, [],
  ◌∷◌, ◌++◌, ltb, leb, ◌==◌, if◌then◌else◌, Str, str_eq, u64, sub64, max_uint64, Map, lookup,
  lookup_or, insert, keep_if, any, All,
}
use cln_circular.Graph.Fee.{add_saturating, node_fee, inbound_fee}
use cln_circular.Graph.Channel.{Channel, compute_fee, can_forward, make_id}
use cln_circular.Graph.State.{Graph, Edge}
use cln_circular.Graph.Route.{initial_delay, max_route_delay}

-- label; `next` is the chain of the labels after it, of which only the channels are read.
pub record Label : Type 0 where
  pub channel : Channel
  pub id : Str
  pub hops : ℕ
  pub fee : ℕ
  pub cost : ℕ
  pub amount : ℕ
  pub delay : ℕ
  pub next : List Channel
  pub final : Bool

-- label.path
abbrev pub path : Label → List Channel
path l = l.channel ∷ l.next

-- labelQueue.Less
unfoldable pub less : Label → Label → Bool
less a b = if a.cost == b.cost then ltb a.hops b.hops else ltb a.cost b.cost

abbrev pub sum_of : (Label → ℕ) → List Label → ℕ
sum_of weight [] = 0
sum_of weight (l ∷ q) = weight l + sum_of weight q

-- container/heap on a labelQueue.
pub record Heap : Type 1 where
  pub pop : List Label → Option (Label × List Label)
  pub pop_empty : (q : List Label) → pop q ≡ none → q ≡ []
  pub pop_all :
      (P : Label → Type 0) (q : List Label) (l : Label) (r : List Label)
      → pop q ≡ some (l, r)
      → All P q
      → P l × All P r
  pub pop_least :
      (q : List Label) (l : Label) (r : List Label)
      → pop q ≡ some (l, r)
      → All (λ m. less m l ≡ false) r
  pub pop_sum :
      (weight : Label → ℕ) (q : List Label) (l : Label) (r : List Label)
      → pop q ≡ some (l, r)
      → sum_of weight q ≡ weight l + sum_of weight r

-- searchRequest, without the risk rate and the penalties, which the cost stands for.
pub record SearchRequest : Type 0 where
  pub src : Str
  pub dst : Str
  pub first_hop : Option Channel
  pub last_hop : Option Channel
  pub amount : ℕ
  pub max_hops : ℕ
  pub max_fee : ℕ
  pub exclude : Map Bool

pub record Mark : Type 0 where
  pub hops : ℕ
  pub fee : ℕ
  pub cost : ℕ

pub record Expansion : Type 0 where
  pub hops : ℕ
  pub fee : ℕ
  pub with_outbound : ℕ
  pub uncertainty : ℕ

pub record SearchState : Type 0 where
  pub queue : List Label
  pub best : Map (List Mark)
  pub expanded : Map (List Expansion)

-- The closure `dominated`: a popped label finds its own mark, and only another one beats it.
unfoldable pub dominated : Map (List Mark) → Str → ℕ → ℕ → ℕ → Bool → Bool
dominated best id hops fee cost popped =
    any
      (λ (m : Mark).
        leb m.hops hops
        && leb m.fee fee
        && leb m.cost cost
        && not (popped && (m.hops == hops && (m.fee == fee && m.cost == cost))))
      (lookup_or id [] best)

-- The closure `record`.
unfoldable pub record_mark : Map (List Mark) → Str → ℕ → ℕ → ℕ → Map (List Mark)
unfolding keep_if
record_mark best id hops fee cost =
    let kept =
      keep_if (λ (m : Mark). not (leb hops m.hops && leb fee m.fee && leb cost m.cost))
        (lookup_or id [] best) in
    insert id (kept ++ record { hops = hops; fee = fee; cost = cost } ∷ []) best

-- addExpansion: none where an earlier expansion makes the new one pointless.
unfoldable pub add_expansion :
    Map (List Expansion) → Str → Expansion → Option (Map (List Expansion))
unfolding keep_if
add_expansion expanded u e =
    let list = lookup_or u [] expanded in
    let kept =
      keep_if
        (λ (x : Expansion). not (
          leb e.hops x.hops
          && leb e.fee x.fee
          && leb e.with_outbound x.with_outbound
          && leb e.uncertainty x.uncertainty))
        list in
    if any
      (λ (x : Expansion).
        leb x.hops e.hops
        && leb x.fee e.fee
        && leb x.with_outbound e.with_outbound
        && leb x.uncertainty e.uncertainty)
      list
    then none
    else some (insert u (kept ++ e ∷ []) expanded)

abbrev pub is_excluded : SearchRequest → Str → Bool
is_excluded req key = lookup_or key false req.exclude

abbrev is_missing : Graph → Str → Bool
is_missing g n = elim (lookup n g.inbound) [ none ↦ true | some _ ↦ false ]

-- The first two tests of Graph.search: no channel leads into one of two distinct nodes.
unfoldable pub lacks_node : Graph → SearchRequest → Bool
lacks_node g req = (is_missing g req.dst || is_missing g req.src) && not (str_eq req.dst req.src)

-- Our own node, when the route starts and ends with our channels, and the hops that are left for
-- the channels between the peers. `pathHops--` of an int below 1 stays below 1.
unfoldable pub self_of : SearchRequest → Str
self_of req = elim req.first_hop [ none ↦ [] | some c ↦ c.source ]

unfoldable pub path_hops : SearchRequest → ℕ
path_hops req = elim req.first_hop [ none ↦ req.max_hops | some _ ↦ req.max_hops - 1 ]

-- What the loop does with a popped label: it returns a route, or goes on.
pub data Turn : Type 0 where
  found : List Channel → Turn
  go_on : SearchState → Turn

-- What a search gives. `out_of_fuel` is the model's own.
pub data Answer : Type 0 where
  route : List Channel → Answer
  no_route : Answer
  no_such_node : Answer
  out_of_fuel : Answer

module _ (cost_of : Channel → ℕ → ℕ) (g : Graph) (req : SearchRequest) where
  -- The label of a channel from `w` into the receiver, in the loop that seeds a search with no
  -- last hop: none is a `continue`.
  unfoldable pub seed_label : Map (List Mark) → Str → Str → Option Label
  seed_label best v scid =
      let id = make_id scid v req.dst in
      elim (lookup id g.channels) [
        | none ↦ none
        | some channel ↦
            let cost = cost_of channel req.amount in
            if is_excluded req id || not (can_forward channel req.amount)
            then none
            else if ltb (path_hops req) 1
                || (cost == max_uint64 || dominated best id 1 0 cost false)
            then none
            else some (record {
              channel = channel;
              id = id;
              hops = 1;
              fee = 0;
              cost = cost;
              amount = req.amount;
              delay = initial_delay;
              next = [];
              final = false;
            })
      ]

  -- Recording and pushing a label.
  unfoldable pub push : Label → SearchState → SearchState
  push l st = record st {
    queue = l ∷ st.queue;
    best = record_mark st.best l.id l.hops l.fee l.cost;
  }

  abbrev pub push_some : Option Label → SearchState → SearchState
  push_some none st = st
  push_some (some l) st = push l st

  unfoldable pub seed_edge : Str → Edge → SearchState → SearchState
  seed_edge v [] st = st
  seed_edge v (scid ∷ edge) st = seed_edge v edge (push_some (seed_label st.best v scid) st)

  unfoldable pub seed_all : Map Edge → SearchState → SearchState
  seed_all [] st = st
  seed_all ((v, edge) ∷ m) st = seed_all m (if is_excluded req v then st else seed_edge v edge st)

  abbrev empty_state : SearchState
  empty_state = record { queue = []; best = []; expanded = [] }

  unfoldable pub seed : SearchState
  unfolding seed_edge seed_all
  seed = elim req.last_hop [
    | some channel ↦ record empty_state {
      queue =
          record {
            channel = channel;
            id = [];
            hops = 1;
            fee = 0;
            cost = 0;
            amount = req.amount;
            delay = initial_delay;
            next = [];
            final = false;
          }
          ∷ [];
    }
    | none ↦ seed_all (lookup_or req.dst [] g.inbound) empty_state
  ]

  -- The label of the complete route over our first channel, if it is within the limits.
  unfoldable pub final_label : Label → ℕ → ℕ → Channel → Option Label
  final_label current outbound delay first_hop =
      let id = make_id first_hop.short_channel_id (self_of req) req.src in
      let fee =
        node_fee outbound
          (inbound_fee (lookup id g.inbound_fees) (add_saturating current.amount outbound)) in
      let total = add_saturating current.fee fee in
      if leb (current.hops + 1) req.max_hops
        && leb total req.max_fee
        && ltb total max_uint64
        && ltb (add_saturating current.amount fee) max_uint64
        && leb delay max_route_delay
      then some (record {
        channel = first_hop;
        id = [];
        hops = current.hops + 1;
        fee = total;
        cost = add_saturating current.cost fee;
        amount = u64 (current.amount + fee);
        delay = delay;
        next = path current;
        final = true;
      })
      else none

  -- The label of the channel `scid` from `w` into `u`, which forwards over `current`: none is a
  -- `continue`.
  unfoldable pub next_label : Map (List Mark) → Label → ℕ → ℕ → Str → Str → Str → Option Label
  next_label best current outbound delay u w scid =
      let id = make_id scid w u in
      elim (lookup id g.channels) [
        | none ↦ none
        | some channel ↦
            let fee =
              node_fee outbound
                (inbound_fee (lookup id g.inbound_fees) (add_saturating current.amount outbound)) in
            let total = add_saturating current.fee fee in
            let amount = add_saturating current.amount fee in
            let cost = add_saturating (add_saturating current.cost fee) (cost_of channel amount) in
            let hops = current.hops + 1 in
            if is_excluded req id
            then none
            else if ltb req.max_fee total || total == max_uint64
            then none
            else if amount == max_uint64 || not (can_forward channel amount)
            then none
            else if cost == max_uint64 || dominated best id hops total cost false
            then none
            else some (record {
              channel = channel;
              id = id;
              hops = hops;
              fee = total;
              cost = cost;
              amount = amount;
              delay = delay;
              next = path current;
              final = false;
            })
      ]

  unfoldable pub expand_edge : Label → ℕ → ℕ → Str → Str → Edge → SearchState → SearchState
  expand_edge current outbound delay u w [] st = st
  expand_edge current outbound delay u w (scid ∷ edge) st =
      expand_edge current outbound delay u w edge
        (push_some (next_label st.best current outbound delay u w scid) st)

  unfoldable pub expand_all : Label → ℕ → ℕ → Str → Map Edge → SearchState → SearchState
  expand_all current outbound delay u [] st = st
  expand_all current outbound delay u ((w, edge) ∷ m) st = expand_all current outbound delay u m (
      if is_excluded req w || (str_eq w (self_of req) || str_eq w req.dst)
      then st
      else expand_edge current outbound delay u w edge st)

  -- The branch for a label whose channel leaves the first node of the searched path.
  unfoldable pub at_source : Label → ℕ → ℕ → SearchState → Turn
  at_source current outbound delay st = elim req.first_hop [
    | none ↦ found (path current)
    | some first_hop ↦ elim (final_label current outbound delay first_hop) [
      | none ↦ go_on st
      | some l ↦ go_on (record st { queue = l ∷ st.queue })
    ]
  ]

  -- The branch for any other label.
  unfoldable pub expand : Label → ℕ → ℕ → SearchState → Turn
  unfolding add_expansion expand_edge expand_all
  expand current outbound delay st =
      let u = current.channel.source in
      let e : Expansion = record {
        hops = current.hops;
        fee = current.fee;
        with_outbound = add_saturating current.fee outbound;
        uncertainty = sub64 current.cost current.fee;
      } in
      if ltb (path_hops req) (current.hops + 1) || ltb max_route_delay delay
      then go_on st
      else elim (add_expansion st.expanded u e) [
        | none ↦ go_on st
        | some expanded ↦ go_on (
            expand_all current outbound delay u (lookup_or u [] g.inbound)
              (record st { expanded = expanded }))
      ]

  -- The body of the loop.
  unfoldable pub turn : Label → SearchState → Turn
  unfolding at_source expand
  turn current st =
      let outbound = compute_fee current.channel current.amount in
      let delay = u64 (current.delay + current.channel.policy.delay) in
      if current.final
      then found (path current)
      else if not (str_eq current.id [])
          && dominated st.best current.id current.hops current.fee current.cost true
      then go_on st
      else if str_eq current.channel.source req.src
      then at_source current outbound delay st
      else expand current outbound delay st

  module _ (heap : Heap) where
    -- `for pq.Len() > 0`, a label for each unit of fuel
    unfoldable pub search_loop : ℕ → SearchState → Answer
    search_loop zero st = out_of_fuel
    search_loop (suc fuel) st = elim (heap.pop st.queue) [
      | none ↦ no_route
      | some (current, rest) ↦ elim (turn current (record st { queue = rest })) [
        | found channels ↦ route channels
        | go_on st' ↦ search_loop fuel st'
      ]
    ]

    -- Graph.search
    unfoldable pub search_channels : ℕ → Answer
    unfolding lacks_node seed turn search_loop
    search_channels fuel = if lacks_node g req then no_such_node else search_loop fuel seed

-- The requests of GetRoute, and of GetCircularRoute and GetCheapestCircularRoute.
unfoldable pub plain_request : Str → Str → ℕ → Map Bool → ℕ → SearchRequest
plain_request src dst amount exclude max_hops = record {
  src = src;
  dst = dst;
  first_hop = none;
  last_hop = none;
  amount = amount;
  max_hops = max_hops;
  max_fee = max_uint64;
  exclude = exclude;
}

unfoldable pub circular_request : Channel → Channel → ℕ → Map Bool → ℕ → ℕ → SearchRequest
circular_request out back amount exclude max_hops max_fee = record {
  src = out.destination;
  dst = back.source;
  first_hop = some out;
  last_hop = some back;
  amount = amount;
  max_hops = max_hops;
  max_fee = max_fee;
  exclude = exclude;
}
