-- ===== src/Node/Peers.antt =====
-- Our peers and our channels with them (node/peers.go, node/cron.go). A Peer is never changed once it
-- is published, so the pointers of the scid index are copies here, told apart by the peer's id: where
-- the code drops the entries of one pointer, here those of any copy of that peer go.
pub mod Refresh
use cln_circular.Common.{
  ℕ, ◌+◌, ◌-◌, Bool, true, false, ◌&&◌, not, Option, none, some, List, [], ◌∷◌, ◌++◌, ltb, leb,
  ◌==◌, if◌then◌else◌, Str, str_eq, Map, lookup, lookup_or, insert, delete, keep_if,
}
use cln_circular.Graph.Channel.{Policy, Channel, new_channel, get_direction}
use cln_circular.Graph.State.{Graph, get_channel}

-- The fields of glightning.PeerChannelUpdate that the code reads.
pub record Updates : Type 0 where
  pub fee_base_msat : ℕ
  pub fee_proportional_millionths : ℕ
  pub cltv_expiry_delta : ℕ
  pub htlc_minimum_msat : ℕ
  pub htlc_maximum_msat : ℕ

-- The fields of an HTLC of a channel that the code reads.
pub record Htlc : Type 0 where
  pub direction : Str
  pub amount_msat : ℕ

-- The fields of glightning.PeerChannel that the code reads; `is_normal` is
-- `State == "CHANNELD_NORMAL"`.
pub record PeerChannel : Type 0 where
  pub short_channel_id : Str
  pub peer_id : Str
  pub peer_connected : Bool
  pub is_normal : Bool
  pub to_us_msat : ℕ
  pub total_msat : ℕ
  pub spendable_msat : ℕ
  pub receivable_msat : ℕ
  pub htlcs : List Htlc
  pub local : Updates
  pub remote : Updates

-- glightning.Peer
pub record Peer : Type 0 where
  pub id : Str
  pub connected : Bool
  pub channels : List PeerChannel

-- The part of Node that PeersLock guards, with Node.Id.
pub record Peers : Type 0 where
  pub our_id : Str
  pub peers : Map Peer
  pub scid_to_peer : Map Peer
  pub peers_read_at : ℕ
  pub channels_read_at : Map ℕ
  pub connected_at : Map ℕ

-- The first channel with an scid.
unfoldable pub channel_by_scid : Str → List PeerChannel → Option PeerChannel
channel_by_scid scid [] = none
channel_by_scid scid (c ∷ cs) =
    if str_eq c.short_channel_id scid then some c else channel_by_scid scid cs

-- The second loop of GetPeerChannelFromGraphChannel.
unfoldable pub find_in_peers : Str → Map Peer → Option PeerChannel
unfolding channel_by_scid
find_in_peers scid [] = none
find_in_peers scid ((id, p) ∷ m) =
    let rest = find_in_peers scid m in
    elim (channel_by_scid scid p.channels) [ some c ↦ some c | none ↦ rest ]

-- Node.GetPeerChannelFromGraphChannel: none is util.ErrNoPeerChannel.
unfoldable pub get_peer_channel : Peers → Channel → Option PeerChannel
unfolding find_in_peers channel_by_scid
get_peer_channel n c =
    let scid = c.short_channel_id in
    let indexed : Option PeerChannel = elim (lookup scid n.scid_to_peer) [
      | none ↦ none
      | some p ↦ channel_by_scid scid p.channels
    ] in
    elim indexed [ some found ↦ some found | none ↦ find_in_peers scid n.peers ]

-- Node.GetChannelPeerFromScid: none is util.ErrNoPeerChannel.
unfoldable pub get_channel_peer : Peers → Str → Option Peer
get_channel_peer n scid = lookup scid n.scid_to_peer

-- Node.IsPeerConnected
unfoldable pub is_peer_connected : Peers → PeerChannel → Bool
unfolding get_channel_peer
is_peer_connected n c = elim (get_channel_peer n c.short_channel_id) [
  | some p ↦ p.connected
  | none ↦ c.peer_connected
]

-- Node.HasPeer
unfoldable pub has_peer : Peers → Str → Bool
has_peer n id = elim (lookup id n.peers) [ none ↦ false | some _ ↦ true ]

-- The loop of Node.GetBestPeerChannel: the first of the channels with the highest score.
unfoldable pub best_of :
    (PeerChannel → ℕ) → List PeerChannel → Option (PeerChannel × ℕ) → Option (PeerChannel × ℕ)
best_of metric [] best = best
best_of metric (c ∷ cs) best = best_of metric cs (elim best [
  | none ↦ some (c, metric c)
  | some (b, score) ↦ if ltb score (metric c) then some (c, metric c) else some (b, score)
])

-- Node.GetBestPeerChannel
unfoldable pub get_best_peer_channel : Peers → Str → (PeerChannel → ℕ) → Option PeerChannel
unfolding best_of
get_best_peer_channel n id metric =
    let channels : List PeerChannel = elim (lookup id n.peers) [
      | none ↦ []
      | some p ↦ p.channels
    ] in
    elim (best_of metric channels none) [ none ↦ none | some (c, score) ↦ some c ]

-- Node.ConvertPeerChannelToGraphChannel at the time `now`
unfoldable pub convert_peer_channel : ℕ → Str → PeerChannel → Bool → Channel
unfolding new_channel
convert_peer_channel now our_id c outgoing =
    let updates = if outgoing then c.local else c.remote in
    let theirs = if leb c.to_us_msat c.total_msat then c.total_msat - c.to_us_msat else 0 in
    new_channel
      (record {
        source = if outgoing then our_id else c.peer_id;
        destination = if outgoing then c.peer_id else our_id;
        short_channel_id = c.short_channel_id;
        amount_msat = c.total_msat;
        base_fee_millisatoshi = updates.fee_base_msat;
        fee_per_millionth = updates.fee_proportional_millionths;
        delay = updates.cltv_expiry_delta;
        last_update = now;
        message_flags = 0;
        channel_flags = 0;
        htlc_minimum_msat = updates.htlc_minimum_msat;
        htlc_maximum_msat = updates.htlc_maximum_msat;
        is_active = c.is_normal && c.peer_connected;
      })
      (if outgoing then c.to_us_msat else theirs) now

-- Node.GetGraphChannelFromPeerChannel
unfoldable pub get_graph_channel : ℕ → Peers → Graph → PeerChannel → Str → Channel
unfolding get_channel convert_peer_channel
get_graph_channel now n g c direction =
    elim (get_channel g (c.short_channel_id ++ b'/' ∷ direction)) [
      | some known ↦ known
      | none ↦
          convert_peer_channel now n.our_id c (str_eq direction (get_direction n.our_id c.peer_id))
    ]

-- Node.GetOutgoingChannelFromScid and Node.GetIncomingChannelFromScid: none is
-- util.ErrNoPeerChannel, ErrNoOutgoingChannel or ErrNoIncomingChannel.
unfoldable pub get_channel_from_scid : ℕ → Bool → Peers → Graph → Str → Option Channel
unfolding get_channel_peer get_channel channel_by_scid convert_peer_channel
get_channel_from_scid now outgoing n g scid = elim (get_channel_peer n scid) [
  | none ↦ none
  | some p ↦
      let direction =
        if outgoing then get_direction n.our_id p.id else get_direction p.id n.our_id in
      elim (get_channel g (scid ++ b'/' ∷ direction)) [
        | some known ↦ some known
        | none ↦ elim (channel_by_scid scid p.channels) [
          | none ↦ none
          | some c ↦ some (convert_peer_channel now n.our_id c outgoing)
        ]
      ]
]

-- The first loop of Node.replacePeer: `p == old` compares pointers.
unfoldable pub drop_peer : Str → Map Peer → Map Peer
drop_peer id [] = []
drop_peer id ((scid, p) ∷ m) =
    let rest = drop_peer id m in if str_eq p.id id then rest else (scid, p) ∷ rest

-- Its second loop, which setPeers has too.
unfoldable pub index_channels : Peer → List PeerChannel → Map Peer → Map Peer
index_channels p [] m = m
index_channels p (c ∷ cs) m =
    index_channels p cs (if str_eq c.short_channel_id [] then m else insert c.short_channel_id p m)

-- Node.replacePeer
unfoldable pub replace_peer : Peer → Peer → Peers → Peers
unfolding drop_peer index_channels
replace_peer old p n = record n {
  scid_to_peer = index_channels p p.channels (drop_peer old.id n.scid_to_peer);
  peers = insert p.id p n.peers;
}

-- Node.setConnected
unfoldable pub set_connected : ℕ → Str → Bool → Peers → Peers
unfolding replace_peer
set_connected now id connected n = elim (lookup id n.peers) [
  | none ↦ n
  | some old ↦ record (replace_peer old (record old { connected = connected }) n) {
    connected_at = insert id now n.connected_at;
  }
]

-- OnConnect and OnDisconnect: the id inside the event's object, or else the one beside it.
unfoldable pub on_connection : ℕ → Str → Str → Bool → Peers → Peers
unfolding set_connected
on_connection now nested top connected =
    set_connected now (if str_eq nested [] then top else nested) connected
