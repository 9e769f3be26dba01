-- ===== src/Tests/Samples.antt =====
-- Three nodes, our channels with two of them and the channel between these two; the code is
-- graph/graph.go's.
use cln_circular.Common.{
  ◌≡◌, ◌≢◌, refl, subst, true, false, some, [], ◌∷◌, arith, Str, str_eq, str_eq_iff, str_lt, lookup,
  lookup_or, All, Bool-cases, inl, inr,
}
use cln_circular.Graph.Channel.{Policy, Channel, make_id, get_direction}
use cln_circular.Graph.State.{Graph}
use cln_circular.Graph.SearchLaws.{EdgesSound, EdgeSound}

-- Strings that the test tells apart.
pub differ : (s t : Str) → str_eq s t ≡ false → s ≢ t
differ s t h e = ground (arith, str_eq_iff s t)

abbrev pub us : Str
us = b'a' ∷ []

abbrev pub bob : Str
bob = b'b' ∷ []

abbrev pub carol : Str
carol = b'c' ∷ []

abbrev pub policy_of : Str → Str → Str → Policy
policy_of scid source destination = record {
  source = source;
  destination = destination;
  short_channel_id = scid;
  amount_msat = 1000000;
  base_fee_millisatoshi = 1;
  fee_per_millionth = 100;
  delay = 6;
  last_update = 7;
  message_flags = 1;
  channel_flags = 0;
  htlc_minimum_msat = 0;
  htlc_maximum_msat = 1000000;
  is_active = true;
}

-- A channel as NewChannel makes it, half of whose capacity is believed to be on its side.
abbrev pub channel_of : Policy → Channel
channel_of p = record {
  policy = p;
  liquidity = 500000;
  timestamp = 0;
  upper = false;
  dear = false;
  max_htlc_msat = 1000000;
  min_htlc_msat = 0;
}

abbrev pub out_channel : Channel
out_channel = channel_of (policy_of (b'1' ∷ []) us bob)

abbrev pub mid_channel : Channel
mid_channel = channel_of (policy_of (b'2' ∷ []) bob carol)

abbrev pub mid_back : Channel
mid_back = channel_of (policy_of (b'2' ∷ []) carol bob)

abbrev pub in_channel : Channel
in_channel = channel_of (policy_of (b'3' ∷ []) carol us)

abbrev pub mid_id : Str
mid_id = b'2' ∷ b'/' ∷ b'0' ∷ []

abbrev pub mid_back_id : Str
mid_back_id = b'2' ∷ b'/' ∷ b'1' ∷ []

abbrev pub network : Graph
network = record {
  channels =
      (b'1' ∷ b'/' ∷ b'0' ∷ [], out_channel)
      ∷ (mid_id, mid_channel)
      ∷ (mid_back_id, mid_back)
      ∷ (b'3' ∷ b'/' ∷ b'1' ∷ [], in_channel)
      ∷ [];
  inbound = (bob, (us, (b'1' ∷ []) ∷ []) ∷ []) ∷ (carol, (bob, (b'2' ∷ []) ∷ []) ∷ []) ∷ [];
  aliases = [];
  inbound_fees = [];
  avoid = [];
  last_decay = 0;
  fee_medians = [];
}

-- A channel that a lookup finds is the one that is there.
runs_between :
    (c d : Channel) (w u scid : Str)
    → some c ≡ some d
    → (c.source ≡ w) × (c.destination ≡ u) × (c.short_channel_id ≡ scid)
    → (d.source ≡ w) × (d.destination ≡ u) × (d.short_channel_id ≡ scid)
runs_between c d w u scid e h =
    let same : c ≡ d = ground arith in
    subst (λ (x : Channel). (x.source ≡ w) × (x.destination ≡ u) × (x.short_channel_id ≡ scid)) same
      h

abbrev EdgesInto : Str → Type 0
EdgesInto u = All (λ e. EdgeSound network u e.0 e.1) (lookup_or u [] network.inbound)

into_bob : EdgesInto bob
unfolding lookup str_eq make_id get_direction str_lt
into_bob = (((λ d e. runs_between out_channel d us bob (b'1' ∷ []) e (refl, refl, refl)), tt), tt)

into_carol : EdgesInto carol
unfolding lookup str_eq make_id get_direction str_lt
into_carol =
    (((λ d e. runs_between mid_channel d bob carol (b'2' ∷ []) e (refl, refl, refl)), tt), tt)

pub network-EdgesSound : EdgesSound network
unfolding lookup str_eq
network-EdgesSound u = elim (Bool-cases (str_eq bob u)) [
  | inl t ↦ subst EdgesInto ((str_eq_iff bob u).0 t) into_bob
  | inr t ↦ elim (Bool-cases (str_eq carol u)) [
    | inl c ↦ subst EdgesInto ((str_eq_iff carol u).0 c) into_carol
    | inr c ↦ rw (t, c) tt
  ]
]
