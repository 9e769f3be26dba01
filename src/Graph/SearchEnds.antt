-- ===== src/Graph/SearchEnds.antt =====
-- Laws of the loop of the search of graph/pathfinder.go: its fuel.
use cln_circular.Common.{
  ℕ, zero, suc, ◌+◌, ◌-◌, ◌*◌, ◌≤◌, ◌<◌, ◌≡◌, ◌≢◌, refl, ap, Bool, true, false, Option, none, some,
  List, [], ◌∷◌, arith, Str, str_eq, length, Map, lookup_or, u64, if◌then◌else◌, ltb, Option-cases,
  inl, inr, not, ◌||◌, ◌&&◌,
}
use cln_circular.Graph.Channel.{Channel, compute_fee}
use cln_circular.Graph.State.{Graph, Edge}
use cln_circular.Graph.Route.{max_route_delay}
use cln_circular.Graph.Search.{
  Heap, SearchRequest, SearchState, Label, path, sum_of, push, push_some, next_label, final_label,
  expand_edge, expand_all, at_source, expand, turn, Turn, found, go_on, is_excluded, self_of,
  path_hops, dominated, Answer, search_loop, search_channels, seed, circular_request, lacks_node,
  Expansion, Mark,
}
use cln_circular.Graph.SearchLaws.{final_facts, next_facts}

-- How many channels an adjacency entry lists.
abbrev pub count_edges : Map Edge → ℕ
count_edges [] = 0
count_edges ((w, edge) ∷ m) = length edge + count_edges m

-- How many labels a label with `k` hops to go can lead to, itself included, where at most `width`
-- channels run into a node.
unfoldable pub reach : ℕ → ℕ → ℕ
reach width zero = 1
reach width (suc k) = 1 + (width + 1) * reach width k

pub reach_pos : (width k : ℕ) → 0 < reach width k
unfolding reach
reach_pos width zero = omega arith
reach_pos width (suc k) = omega arith

pub product_mono : (a b n : ℕ) → a ≤ b → a * n ≤ b * n
product_mono a b n h = grind arith

module _ (cost_of : Channel → ℕ → ℕ) (g : Graph) (req : SearchRequest) (width : ℕ)
    (wide : (u : Str) → count_edges (lookup_or u [] g.inbound) ≤ width) where
  abbrev weight : Label → ℕ
  weight l = reach width (req.max_hops - l.hops)

  abbrev potential : SearchState → ℕ
  potential st = sum_of weight st.queue

  -- The weight of each label that a label at `h` hops leads to.
  abbrev next_weight : ℕ → ℕ
  next_weight h = reach width (req.max_hops - (h + 1))

  reach_step :
      (h : ℕ)
      → h + 1 ≤ req.max_hops
      → reach width (req.max_hops - h) ≡ 1 + (width + 1) * next_weight h
  unfolding reach
  reach_step h r =
      let e : req.max_hops - h ≡ suc (req.max_hops - (h + 1)) = omega arith in ap (reach width) e

  skip-potential :
      (b : Bool) (st x : SearchState) (n : ℕ)
      → potential x ≤ potential st + n
      → potential (if b then st else x) ≤ potential st + n
  skip-potential true st x n h = omega arith
  skip-potential false st x n h = h

  module _ (current : Label) (outbound delay : ℕ) where
    push_some-potential :
        (best : Map (List Mark)) (u w scid : Str) (st : SearchState)
        → potential (
            push_some cost_of g req
              (next_label cost_of g req best current outbound delay u w scid)
              st)
          ≤ potential st + next_weight current.hops
    unfolding push
    push_some-potential best u w scid st =
        elim (Option-cases (next_label cost_of g req best current outbound delay u w scid)) [
          | inl e ↦ rw e (omega arith)
          | inr (l, e) ↦
              let (ext, _, _, _, _) =
                next_facts g req cost_of current l outbound delay best u w scid e in
              let same : weight l ≡ next_weight current.hops =
                ap (λ n. reach width (req.max_hops - n)) ext.hops_eq in
              rw e (omega arith)
        ]

    expand_edge-potential :
        (u w : Str) (edge : Edge) (st : SearchState)
        → potential (expand_edge cost_of g req current outbound delay u w edge st)
          ≤ potential st + length edge * next_weight current.hops
    unfolding expand_edge
    expand_edge-potential u w [] st = omega arith
    expand_edge-potential u w (scid ∷ edge) st = omega (
      arith,
      push_some-potential st.best u w scid st,
      expand_edge-potential u w edge (
          push_some cost_of g req (next_label cost_of g req st.best current outbound delay u w scid)
            st),
    )

    expand_all-potential :
        (u : Str) (m : Map Edge) (st : SearchState)
        → potential (expand_all cost_of g req current outbound delay u m st)
          ≤ potential st + count_edges m * next_weight current.hops
    unfolding expand_all
    expand_all-potential u [] st = omega arith
    expand_all-potential u ((w, edge) ∷ m) st =
        let skipped = is_excluded req w || (str_eq w (self_of req) || str_eq w req.dst) in
        let entered = expand_edge cost_of g req current outbound delay u w edge st in
        omega (
          arith,
          skip-potential skipped st entered (length edge * next_weight current.hops)
              (expand_edge-potential u w edge st),
          expand_all-potential u m (if skipped then st else entered),
        )

  -- A turn that goes on leaves less than the popped label's weight more in the queue.
  abbrev Falls : Label → SearchState → Turn → Type 0
  Falls current st (found channels) = Unit
  Falls current st (go_on st') = potential st' < potential st + weight current

  Falls-if :
      (current : Label) (st : SearchState) (b : Bool) (x y : Turn)
      → (b ≡ true → Falls current st x)
      → (b ≡ false → Falls current st y)
      → Falls current st (if b then x else y)
  Falls-if current st true x y h k = h refl
  Falls-if current st false x y h k = k refl

  stays : (current : Label) (st : SearchState) → potential st < potential st + weight current
  stays current st = omega (arith, reach_pos width (req.max_hops - current.hops))

  at_source-Falls :
      (current : Label) (outbound delay : ℕ) (st : SearchState)
      → Falls current st (at_source cost_of g req current outbound delay st)
  unfolding at_source
  at_source-Falls current outbound delay st = completed req.first_hop
    where
      pushed :
          (out : Channel) (o : Option Label)
          → final_label cost_of g req current outbound delay out ≡ o
          → Falls current st
              (elim o [ none ↦ go_on st | some l ↦ go_on (record st { queue = l ∷ st.queue }) ])
      pushed out none e = stays current st
      pushed out (some l) e =
          let (ext, _, _, _, room) = final_facts g req cost_of current l outbound delay out e in
          let same : weight l ≡ next_weight current.hops =
            ap (λ n. reach width (req.max_hops - n)) ext.hops_eq in
          omega (arith, reach_step current.hops room)

      completed :
          (first : Option Channel)
          → Falls current st (elim first [
            | none ↦ found (path current)
            | some first_hop ↦ elim (final_label cost_of g req current outbound delay first_hop) [
              | none ↦ go_on st
              | some l ↦ go_on (record st { queue = l ∷ st.queue })
            ]
          ])
      completed none = tt
      completed (some out) = pushed out (final_label cost_of g req current outbound delay out) refl

  path_hops-le : path_hops req ≤ req.max_hops
  unfolding path_hops
  path_hops-le = elim (Option-cases req.first_hop) [
    | inl e ↦ ground arith
    | inr (c, e) ↦ ground arith
  ]

  expand-Falls :
      (current : Label) (outbound delay : ℕ) (st : SearchState)
      → Falls current st (expand cost_of g req current outbound delay st)
  unfolding expand
  expand-Falls current outbound delay st =
      Falls-if current st (ltb (path_hops req) (current.hops + 1) || ltb max_route_delay delay)
        (go_on st) _ (λ _. stays current st) (λ t. expanded t _)
    where
      u : Str
      u = current.channel.source

      expanded :
          (ltb (path_hops req) (current.hops + 1) || ltb max_route_delay delay) ≡ false
          → (o : Option (Map (List Expansion)))
          → Falls current st (elim o [
            | none ↦ go_on st
            | some expanded ↦ go_on (
                expand_all cost_of g req current outbound delay u
                  (lookup_or u [] g.inbound)
                  (record st { expanded = expanded }))
          ])
      expanded t none = stays current st
      expanded t (some x) =
          let room : current.hops + 1 ≤ req.max_hops = ground (arith, path_hops-le) in
          let n = next_weight current.hops in
          let grown : count_edges (lookup_or u [] g.inbound) * n ≤ width * n =
            product_mono _ _ n (wide u) in
          omega (
            arith,
            expand_all-potential current outbound delay u (lookup_or u [] g.inbound)
                (record st { expanded = x }),
            reach_step current.hops room,
          )

  turn-Falls :
      (current : Label) (st : SearchState) → Falls current st (turn cost_of g req current st)
  unfolding turn
  turn-Falls current st =
      let outbound = compute_fee current.channel current.amount in
      let delay = u64 (current.delay + current.channel.policy.delay) in
      Falls-if current st current.final (found (path current)) _ (λ _. tt)
        (λ _.
          Falls-if current st
            (not (str_eq current.id [])
              && dominated st.best current.id current.hops current.fee current.cost true)
            (go_on st) _ (λ _. stays current st)
            (λ _.
              Falls-if current st (str_eq current.channel.source req.src)
                (at_source cost_of g req current outbound delay st)
                (expand cost_of g req current outbound delay st)
                (λ _. at_source-Falls current outbound delay st)
                (λ _. expand-Falls current outbound delay st)))

  module _ (heap : Heap) where
    turned-ends :
        (current : Label) (st : SearchState) (next : SearchState → Answer) (bound : ℕ)
        → ((st' : SearchState) → potential st' < bound → next st' ≢ Answer.out_of_fuel)
        → potential st + weight current ≤ bound
        → (t : Turn) → Falls current st t
        → elim t [ found channels ↦ Answer.route channels | go_on st' ↦ next st' ]
          ≢ Answer.out_of_fuel
    turned-ends current st next bound ih h (found channels) f = λ e. cc
    turned-ends current st next bound ih h (go_on st') f = ih st' (omega arith)

    -- With more fuel than the weight of its queue, the loop ends.
    search_loop-ends :
        (fuel : ℕ) (st : SearchState)
        → potential st < fuel
        → search_loop cost_of g req heap fuel st ≢ Answer.out_of_fuel
    unfolding search_loop
    search_loop-ends zero st h = absurd (omega arith)
    search_loop-ends (suc fuel) st h =
        popped (heap.pop st.queue) (λ l r e. heap.pop_sum weight st.queue l r e)
          (search_loop-ends fuel)
      where
        popped :
            (o : Option (Label × List Label))
            → ((l : Label) (r : List Label)
                → o ≡ some (l, r)
                → potential st ≡ weight l + sum_of weight r)
            → ((st' : SearchState)
                → potential st' < fuel
                → search_loop cost_of g req heap fuel st' ≢ Answer.out_of_fuel)
            → elim o [
              | none ↦ Answer.no_route
              | some (current, rest) ↦
                  elim (turn cost_of g req current (record st { queue = rest })) [
                    | found channels ↦ Answer.route channels
                    | go_on st' ↦ search_loop cost_of g req heap fuel st'
                  ]
            ]
              ≢ Answer.out_of_fuel
        popped none keep ih = λ e. cc
        popped (some (l, r)) keep ih =
            turned-ends l (record st { queue = r }) (search_loop cost_of g req heap fuel) fuel ih
              (omega (arith, keep l r refl)) (turn cost_of g req l (record st { queue = r }))
              (turn-Falls l (record st { queue = r }))

ends-if :
    (b : Bool) (a : Answer)
    → a ≢ Answer.out_of_fuel
    → (if b then Answer.no_such_node else a) ≢ Answer.out_of_fuel
ends-if true a h = λ e. cc
ends-if false a h = h

-- The search for a circular route ends: with more fuel than the labels that its first one can lead
-- to, where at most `width` channels run into a node, it answers.
pub circular_search-ends :
    (cost_of : Channel → ℕ → ℕ) (g : Graph) (out back : Channel) (amount : ℕ) (exclude : Map Bool)
    (max_hops max_fee width : ℕ) (heap : Heap) (fuel : ℕ)
    → ((u : Str) → count_edges (lookup_or u [] g.inbound) ≤ width)
    → reach width (max_hops - 1) < fuel
    → search_channels cost_of g
        (circular_request out back amount exclude max_hops max_fee)
        heap
        fuel
      ≢ Answer.out_of_fuel
unfolding search_channels
circular_search-ends cost_of g out back amount exclude max_hops max_fee width heap fuel wide
      enough =
    let req = circular_request out back amount exclude max_hops max_fee in
    ends-if (lacks_node g req) (search_loop cost_of g req heap fuel (seed cost_of g req)) (
      search_loop-ends cost_of g req width wide heap fuel (seed cost_of g req)
        (unfold seed circular_request in omega arith))
