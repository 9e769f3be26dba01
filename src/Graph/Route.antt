-- ===== src/Graph/Route.antt =====
-- graph/route.go, and how a list of channels becomes a priced route (graph/pathfinder.go).
use cln_circular.Common.{
  ℕ, ◌+◌, ◌-◌, Bool, true, false, ◌&&◌, ◌||◌, not, Option, none, some, List, [], ◌∷◌, ltb, leb,
  ◌==◌, if◌then◌else◌, Str, str_eq, str_lt, u64, sub64, ◌%◌, max_uint64, Map, lookup, lookup_or,
}
use cln_circular.Graph.Fee.{add_saturating, node_fee, fee_ppm}
use cln_circular.Graph.Channel.{Channel, compute_fee, channel_id, can_forward}
use cln_circular.Graph.State.{Graph, get_inbound_fee}

abbrev pub initial_delay : ℕ
initial_delay = 144

abbrev pub max_route_delay : ℕ
max_route_delay = 2000

pub record RouteHop : Type 0 where
  pub channel : Channel
  pub milli_satoshi : ℕ
  pub delay : ℕ

pub record Route : Type 0 where
  pub destination : Str
  pub source : Str
  pub amount : ℕ
  pub hops : List RouteHop

-- The loop body of Route.recomputeFeeAndDelay: the hop over `c`, before the hop `next`.
unfoldable pub hop_before : Graph → Channel → RouteHop → RouteHop
hop_before g c next =
    let forwarded = next.milli_satoshi in
    let outbound = compute_fee next.channel forwarded in
    let inbound = get_inbound_fee g c (add_saturating forwarded outbound) in
    record {
      channel = c;
      milli_satoshi = add_saturating forwarded (node_fee outbound inbound);
      delay = u64 (next.delay + next.channel.policy.delay);
    }

unfoldable pub extend : Graph → ℕ → Channel → List RouteHop → List RouteHop
extend g amount c [] = record { channel = c; milli_satoshi = amount; delay = initial_delay } ∷ []
extend g amount c (next ∷ rest) = hop_before g c next ∷ next ∷ rest

-- newRouteFromChannels with recomputeFeeAndDelay: the hops, priced from the last to the first.
unfoldable pub price_hops : Graph → ℕ → List Channel → List RouteHop
price_hops g amount [] = []
price_hops g amount (c ∷ cs) = extend g amount c (price_hops g amount cs)

-- newRouteFromChannels on at least one channel: with none, Go panics.
unfoldable pub new_route_from_channels : Graph → Str → Str → ℕ → List Channel → Option Route
new_route_from_channels g src dst amount [] = none
new_route_from_channels g src dst amount (c ∷ cs) = some (record {
  destination = dst;
  source = src;
  amount = amount;
  hops = price_hops g amount (c ∷ cs);
})

-- Route.Fee
unfoldable pub route_fee : Route → ℕ
route_fee r = elim r.hops [
  | [] ↦ 0
  | hop ∷ _ ↦ if ltb hop.milli_satoshi r.amount then 0 else hop.milli_satoshi - r.amount
]

-- Route.FeePPM
unfoldable pub route_fee_ppm : Route → ℕ
unfolding route_fee
route_fee_ppm r = fee_ppm (route_fee r) r.amount

-- The amount of Route.GetFeeWithoutInboundFee, from the last hop back to the second.
unfoldable pub forward_outbound : ℕ → List RouteHop → ℕ
forward_outbound amount [] = amount
forward_outbound amount (hop ∷ hops) =
    let after = forward_outbound amount hops in add_saturating after (compute_fee hop.channel after)

-- Route.GetFeeWithoutInboundFee
unfoldable pub fee_without_inbound_fee : Route → ℕ
unfolding forward_outbound
fee_without_inbound_fee r = elim r.hops [
  | [] ↦ 0
  | _ ∷ hops ↦ sub64 (forward_outbound r.amount hops) r.amount
]

-- glightning.RouteHop, what sendpay is given.
pub record LightningHop : Type 0 where
  pub id : Str
  pub short_channel_id : Str
  pub amount_msat : ℕ
  pub delay : ℕ
  pub direction : ℕ

-- Channel.GetDirection
unfoldable pub direction_of : Channel → ℕ
direction_of c = if str_lt c.source c.destination then 0 else 1

-- Route.ToLightningRoute
unfoldable pub to_lightning_route : List RouteHop → List LightningHop
unfolding direction_of
to_lightning_route [] = []
to_lightning_route (hop ∷ hops) =
    record {
      id = hop.channel.destination;
      short_channel_id = hop.channel.short_channel_id;
      amount_msat = hop.milli_satoshi;
      delay = hop.delay % 4294967296;
      direction = direction_of hop.channel;
    }
    ∷ to_lightning_route hops

-- Route.ChannelIds
unfoldable pub channel_ids : List RouteHop → List Str
channel_ids [] = []
channel_ids (hop ∷ hops) = channel_id hop.channel ∷ channel_ids hops

-- The channels of GetRouteOverChannels: none where one is gone.
unfoldable pub channels_of : Graph → List Str → Option (List Channel)
channels_of g [] = some []
channels_of g (id ∷ ids) = elim (lookup id g.channels) [
  | none ↦ none
  | some c ↦ elim (channels_of g ids) [ none ↦ none | some cs ↦ some (c ∷ cs) ]
]

-- Its checks: each channel is active, and starts where the one before it ends.
unfoldable pub follows : Channel → List Channel → Bool
follows c [] = true
follows c (d ∷ ds) = d.is_active && str_eq c.destination d.source && follows d ds

unfoldable pub within_limits : List RouteHop → Bool
within_limits [] = true
within_limits (hop ∷ hops) =
    not (hop.milli_satoshi == max_uint64)
    && leb hop.channel.min_htlc_msat hop.milli_satoshi
    && leb hop.milli_satoshi hop.channel.max_htlc_msat
    && within_limits hops

unfoldable pub first_delay : List RouteHop → ℕ
first_delay [] = 0
first_delay (hop ∷ _) = hop.delay

unfoldable pub last_source : Channel → List Channel → Str
last_source c [] = c.source
last_source c (d ∷ ds) = last_source d ds

-- The part of GetRouteOverChannels after its lookups: none is util.ErrNoRoute.
unfoldable pub route_over : Graph → ℕ → List Channel → Option Route
unfolding follows within_limits first_delay last_source
route_over g amount [] = none
route_over g amount (c ∷ cs) =
    let hops = price_hops g amount (c ∷ cs) in
    if c.is_active && follows c cs && within_limits hops && leb (first_delay hops) max_route_delay
    then some (record {
      destination = last_source c cs;
      source = c.destination;
      amount = amount;
      hops = hops;
    })
    else none

-- Graph.GetRouteOverChannels
unfoldable pub get_route_over_channels : Graph → List Str → ℕ → Option Route
unfolding channels_of route_over
get_route_over_channels g ids amount = elim (channels_of g ids) [
  | none ↦ none
  | some cs ↦ route_over g amount cs
]

-- The loop of Graph.CanCarry over the hops after the first: the last one is ours too.
unfoldable pub carries : Graph → Map Bool → List RouteHop → Bool
carries g exclude [] = true
carries g exclude (hop ∷ []) = true
carries g exclude (hop ∷ next ∷ hops) =
    let id = channel_id hop.channel in
    let rest = carries g exclude (next ∷ hops) in
    if lookup_or id false exclude || lookup_or hop.channel.source false exclude
    then false
    else elim (lookup id g.channels) [
      | none ↦ false
      | some c ↦ can_forward c hop.milli_satoshi && rest
    ]

-- Graph.CanCarry
unfoldable pub can_carry : Graph → Route → Map Bool → Bool
unfolding carries
can_carry g r exclude = elim r.hops [ [] ↦ true | _ ∷ hops ↦ carries g exclude hops ]
