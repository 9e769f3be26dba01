-- ===== src/Graph/SearchLaws.antt =====
-- Laws of the labels of the search of graph/pathfinder.go.
use cln_circular.Common.{
  ℕ, ◌+◌, ◌≤◌, ◌<◌, ◌≡◌, ◌≢◌, ◌⊎◌, ap, true, false, some, List, [], ◌∷◌, arith, Str, max_uint64,
  length, Map, lookup, lookup_or, All, Option-cases, inl, inr,
}
use cln_circular.Graph.Fee.{add_saturating, node_fee, inbound_fee}
use cln_circular.Graph.Channel.{Channel, can_forward, make_id, channel_id}
use cln_circular.Graph.State.{Graph, Edge}
use cln_circular.Graph.Route.{RouteHop, hop_before, extend, price_hops, max_route_delay}
use cln_circular.Graph.Search.{
  Label, path, SearchRequest, is_excluded, self_of, final_label, next_label, Mark,
}

-- Each channel ends where the next one starts.
abbrev pub Linked : List Channel → Type 0
Linked [] = Unit
Linked (c ∷ []) = Unit
Linked (c ∷ d ∷ cs) = (c.destination ≡ d.source) × Linked (d ∷ cs)

abbrev pub EndsWith : Channel → List Channel → Type 0
EndsWith e [] = ⊥
EndsWith e (c ∷ []) = c ≡ e
EndsWith e (c ∷ d ∷ cs) = EndsWith e (d ∷ cs)

abbrev pub first_amount : List RouteHop → ℕ
first_amount [] = 0
first_amount (hop ∷ _) = hop.milli_satoshi

-- The channels that the adjacency list names are the ones that run between its nodes.
abbrev pub EdgeSound : Graph → Str → Str → Edge → Type 0
EdgeSound g u w edge =
    All
      (λ scid.
        (c : Channel)
        → lookup (make_id scid w u) g.channels ≡ some c
        → (c.source ≡ w) × (c.destination ≡ u) × (c.short_channel_id ≡ scid))
      edge

abbrev pub EdgesSound : Graph → Type 0
EdgesSound g = (u : Str) → All (λ e. EdgeSound g u e.0 e.1) (lookup_or u [] g.inbound)

module _ (g : Graph) (req : SearchRequest) where
  -- A channel of the network that the search may use for the amount.
  pub record IsUsable (c : Channel) (amount : ℕ) : Type 0 where
    pub forwards : can_forward c amount ≡ true
    pub channel_allowed : is_excluded req (channel_id c) ≡ false
    pub node_allowed : is_excluded req c.source ≡ false
    pub not_ours : c.source ≢ self_of req

  -- Every channel but the last can forward what the route carries over it.
  abbrev pub Carried : List Channel → Type 0
  Carried [] = Unit
  Carried (c ∷ []) = Unit
  Carried (c ∷ d ∷ cs) =
      IsUsable c (first_amount (price_hops g req.amount (c ∷ d ∷ cs))) × Carried (d ∷ cs)

  abbrev pub hop_of : Label → RouteHop
  hop_of l = record { channel = l.channel; milli_satoshi = l.amount; delay = l.delay }

  pub record IsSound (back : Channel) (l : Label) : Type 0 where
    pub priced : price_hops g req.amount (path l) ≡ hop_of l ∷ price_hops g req.amount l.next
    pub paid : l.amount ≡ req.amount + l.fee
    pub counted : l.hops ≡ length (path l)
    pub short : l.hops ≤ req.max_hops
    pub linked : Linked (path l)
    pub cheap : l.fee ≤ req.max_fee
    pub quick : l.delay ≤ max_route_delay
    pub ends : EndsWith back (path l)
    pub carried : Carried l.next
    pub inside : l.final ≡ false → Carried (path l)

  -- Pricing one more channel in front of a priced route.
  pub priced_step :
      (c : Channel) (current : Label) (r : RouteHop)
      → price_hops g req.amount (path current)
        ≡ hop_of current ∷ price_hops g req.amount current.next
      → hop_before g c (hop_of current) ≡ r
      → price_hops g req.amount (c ∷ path current) ≡ r ∷ price_hops g req.amount (path current)
  unfolding price_hops extend
  priced_step c current r p e =
      rw p (ap (λ x. x ∷ hop_of current ∷ price_hops g req.amount current.next) e)

  -- What the tests on a label's amount and fee give.
  saturating_sum : (a b : ℕ) → add_saturating a b < max_uint64 → add_saturating a b ≡ a + b
  unfolding add_saturating
  saturating_sum a b h = ground arith

  add_saturating_cases :
      (a b : ℕ) → (add_saturating a b ≡ max_uint64) ⊎ (add_saturating a b ≡ a + b)
  unfolding add_saturating
  add_saturating_cases a b = ground arith

  -- The fee that a node charges between the channel `id` and the channel of `current`.
  abbrev pub charge : Label → ℕ → Str → ℕ
  charge current outbound id =
      node_fee outbound
        (inbound_fee (lookup id g.inbound_fees) (add_saturating current.amount outbound))

  -- What the complete label and the label of one more channel have in common.
  pub record Extends (current l : Label) (outbound delay : ℕ) (id : Str) : Type 0 where
    pub next_eq : l.next ≡ path current
    pub hops_eq : l.hops ≡ current.hops + 1
    pub delay_eq : l.delay ≡ delay
    pub fee_eq : l.fee ≡ current.fee + charge current outbound id
    pub fee_le : l.fee ≤ req.max_fee
    pub amount_sum : l.amount ≡ current.amount + charge current outbound id
    pub amount_eq : l.amount ≡ add_saturating current.amount (charge current outbound id)

  module _ (cost_of : Channel → ℕ → ℕ) (current l : Label) (outbound delay : ℕ) where
    pub final_facts :
        (out : Channel)
        → final_label cost_of g req current outbound delay out ≡ some l
        → Extends current l outbound delay (make_id out.short_channel_id (self_of req) req.src)
          × (l.channel ≡ out)
          × (l.final ≡ true)
          × (delay ≤ max_route_delay)
          × (current.hops + 1 ≤ req.max_hops)
    unfolding final_label
    final_facts out e =
        let fee = charge current outbound (make_id out.short_channel_id (self_of req) req.src) in
        ground (arith, saturating_sum current.fee fee, saturating_sum current.amount fee)

    pub next_facts :
        (best : Map (List Mark)) (u w scid : Str)
        → next_label cost_of g req best current outbound delay u w scid ≡ some l
        → Extends current l outbound delay (make_id scid w u)
          × (lookup (make_id scid w u) g.channels ≡ some l.channel)
          × (is_excluded req (make_id scid w u) ≡ false)
          × (can_forward l.channel l.amount ≡ true)
          × (l.final ≡ false)
    unfolding next_label
    next_facts best u w scid e = elim (Option-cases (lookup (make_id scid w u) g.channels)) [
      | inl none_there ↦ absurd (ground arith)
      | inr (c, there) ↦
          let fee = charge current outbound (make_id scid w u) in
          ground
            (arith, add_saturating_cases current.fee fee, add_saturating_cases current.amount fee)
    ]
