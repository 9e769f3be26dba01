-- ===== src/Graph/State.antt =====
-- The state of graph/graph.go's Graph and its accessors. Each method runs under its locks, so it is
-- one step; the node scores, which have a lock of their own, stand in Graph/Scores.
use cln_circular.Common.{
  ℕ, Bool, true, false, Option, none, some, List, [], ◌∷◌, if◌then◌else◌, ltb, leb, Str, Map,
  lookup, insert, delete,
}
use cln_circular.Common.Int.{ℤ}
use cln_circular.Graph.Fee.{InboundFee, inbound_fee}
use cln_circular.Graph.Channel.{Channel, channel_id}

-- Edge: the short channel ids of the channels from one node to another.
abbrev pub Edge : Type 0
Edge = List Str

pub record Graph : Type 0 where
  pub channels : Map Channel
  pub inbound : Map (Map Edge)
  pub aliases : Map Str
  pub inbound_fees : Map InboundFee
  pub avoid : Map ℕ
  pub last_decay : ℕ
  pub fee_medians : Map ℕ

-- NewGraph
unfoldable pub new_graph : Graph
new_graph = record {
  channels = [];
  inbound = [];
  aliases = [];
  inbound_fees = [];
  avoid = [];
  last_decay = 0;
  fee_medians = [];
}

-- Graph.GetChannel: none is util.ErrNoChannel.
unfoldable pub get_channel : Graph → Str → Option Channel
get_channel g id = lookup id g.channels

-- Graph.GetAlias
unfoldable pub get_alias : Graph → Str → Str
get_alias g id = elim (lookup id g.aliases) [ some alias ↦ alias | none ↦ id ]

-- Graph.SetInboundFee
unfoldable pub set_inbound_fee : Str → ℤ → ℤ → Graph → Graph
set_inbound_fee id base_fee fee_rate g = record g {
  inbound_fees = insert id (record { base_fee = base_fee; fee_rate = fee_rate }) g.inbound_fees;
}

-- Graph.DeleteInboundFee: the new graph, and whether there was one.
unfoldable pub delete_inbound_fee : Str → Graph → Graph × Bool
delete_inbound_fee id g = elim (lookup id g.inbound_fees) [
  | none ↦ (g, false)
  | some _ ↦ (record g { inbound_fees = delete id g.inbound_fees }, true)
]

-- Graph.GetInboundFee
unfoldable pub get_inbound_fee : Graph → Channel → ℕ → ℤ
get_inbound_fee g c amount = inbound_fee (lookup (channel_id c) g.inbound_fees) amount

-- Graph.Avoid: an entry is only ever extended. A missing entry reads as 0.
unfoldable pub avoid_until : Str → ℕ → Graph → Graph
avoid_until key until g =
    let old : ℕ = elim (lookup key g.avoid) [ some t ↦ t | none ↦ 0 ] in
    if ltb old until then record g { avoid = insert key until g.avoid } else g

-- Graph.Unavoid
unfoldable pub unavoid : Str → Graph → Graph
unavoid key g = record g { avoid = delete key g.avoid }

-- The loop of Graph.Avoided: the entries that stay, and the keys to exclude.
unfoldable pub split_avoided : ℕ → Map ℕ → Map ℕ × Map Bool
split_avoided now [] = ([], [])
split_avoided now ((key, until) ∷ m) =
    let (kept, exclude) = split_avoided now m in
    if leb until now then (kept, exclude) else ((key, until) ∷ kept, (key, true) ∷ exclude)

-- Graph.Avoided
unfoldable pub avoided : ℕ → Graph → Graph × Map Bool
unfolding split_avoided
avoided now g =
    let (kept, exclude) = split_avoided now g.avoid in (record g { avoid = kept }, exclude)
