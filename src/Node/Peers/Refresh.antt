-- ===== src/Node/Peers/Refresh.antt =====
-- How the peers follow what lightningd lists, and the graph our own channels (node/cron.go).
use cln_circular.Common.{
  ℕ, Bool, true, false, ◌||◌, not, none, some, List, [], ◌∷◌, ◌++◌, leb, if◌then◌else◌, Str, str_eq,
  Map, lookup, lookup_or, insert, keep_if,
}
use cln_circular.Graph.Channel.{Channel, channel_id, get_direction}
use cln_circular.Graph.State.{Graph}
use cln_circular.Graph.Topology.{add_edge, fill_limits}
use cln_circular.Node.Peers.{
  Peer, PeerChannel, Peers, convert_peer_channel, index_channels, replace_peer,
}

-- The peers of listpeers, without channels.
unfoldable pub fresh_peers : List Peer → Map Peer → Map Peer
fresh_peers [] m = m
fresh_peers (p ∷ ps) m = fresh_peers ps (insert p.id (record p { channels = [] }) m)

-- The open channels of listpeerchannels, each with its peer, whose connection is the channel's.
unfoldable pub add_channels : List PeerChannel → Map Peer → Map Peer
add_channels [] m = m
add_channels (c ∷ cs) m =
    let peer : Peer = elim (lookup c.peer_id m) [
      | some p ↦ p
      | none ↦ record { id = c.peer_id; connected = c.peer_connected; channels = [] }
    ] in
    let joined = record peer { channels = peer.channels ++ c ∷ []; connected = c.peer_connected } in
    add_channels cs (if c.is_normal then insert c.peer_id joined m else m)

-- The loop over connectedAt: a connection that changed after the read is kept.
unfoldable pub keep_connections : ℕ → Map Peer → Map ℕ → Map Peer → Map ℕ × Map Peer
keep_connections read_at old [] fresh = ([], fresh)
keep_connections read_at old ((id, at) ∷ m) fresh =
    let kept : Map Peer = elim (lookup id old) [
      | none ↦ fresh
      | some before ↦ elim (lookup id fresh) [
        | none ↦ fresh
        | some p ↦ insert id (record p { connected = before.connected }) fresh
      ]
    ] in
    let stale = leb at read_at in
    let (times, fresh') = keep_connections read_at old m (if stale then fresh else kept) in
    (if stale then times else (id, at) ∷ times, fresh')

-- The loop over channelsReadAt: channels that were read again since are kept.
unfoldable pub keep_channels : ℕ → Map Peer → Map ℕ → Map Peer → Map ℕ × Map Peer
keep_channels read_at old [] fresh = ([], fresh)
keep_channels read_at old ((id, at) ∷ m) fresh =
    let kept : Map Peer = elim (lookup id old) [
      | none ↦ fresh
      | some before ↦ elim (lookup id fresh) [
        | none ↦ insert id before fresh
        | some p ↦ insert id (record p { channels = before.channels }) fresh
      ]
    ] in
    let stale = leb at read_at in
    let (times, fresh') = keep_channels read_at old m (if stale then fresh else kept) in
    (if stale then times else (id, at) ∷ times, fresh')

-- The last loop of setPeers: the index of the fresh peers, and their channels.
unfoldable pub index_peers : Map Peer → Map Peer → Map Peer
unfolding index_channels
index_peers [] m = m
index_peers ((id, p) ∷ ps) m = index_peers ps (index_channels p p.channels m)

unfoldable pub channels_of : Map Peer → List PeerChannel
channels_of [] = []
channels_of ((id, p) ∷ ps) = p.channels ++ channels_of ps

-- Node.setPeers for what was read at `read_at`: the open channels, or nil after a later refresh.
unfoldable pub set_peers : List Peer → List PeerChannel → ℕ → Peers → Peers × List PeerChannel
unfolding fresh_peers add_channels keep_connections keep_channels index_peers channels_of
set_peers listed channels read_at n =
    let fresh = add_channels channels (fresh_peers listed []) in
    let (connected, fresh') = keep_connections read_at n.peers n.connected_at fresh in
    let (reread, peers) = keep_channels read_at n.peers n.channels_read_at fresh' in
    if leb read_at n.peers_read_at then (n, []) else (
      record n {
        peers = peers;
        scid_to_peer = index_peers peers [];
        peers_read_at = read_at;
        connected_at = connected;
        channels_read_at = reread;
      },
      channels_of peers,
    )

-- One of our channels in the graph: in the adjacency list, and with what lightningd says of it.
unfoldable pub add_own : Channel → Graph → Graph
unfolding add_edge fill_limits
add_own c g = record g {
  inbound = add_edge c g.inbound;
  channels = insert (channel_id c) (fill_limits c) g.channels;
}

-- Node.addLocalChannelsToGraph
unfoldable pub add_local_channels : ℕ → Str → List PeerChannel → Graph → Graph
unfolding add_own convert_peer_channel
add_local_channels now our_id [] g = g
add_local_channels now our_id (c ∷ cs) g =
    let both =
      add_own (convert_peer_channel now our_id c false)
        (add_own (convert_peer_channel now our_id c true) g) in
    add_local_channels now our_id cs
      (if not c.is_normal || str_eq c.short_channel_id [] then g else both)

-- Node.refreshPeers for what lightningd lists.
unfoldable pub refresh_peers : ℕ → List Peer → List PeerChannel → ℕ → Peers → Graph → Peers × Graph
unfolding set_peers add_local_channels
refresh_peers now listed channels read_at n g =
    let (n', open_channels) = set_peers listed channels read_at n in
    (n', add_local_channels now n.our_id open_channels g)

-- Node.setPeerChannels
unfoldable pub set_peer_channels : ℕ → Str → List PeerChannel → ℕ → Peers → Graph → Peers × Graph
unfolding replace_peer add_local_channels
set_peer_channels now id channels read_at n g = elim (lookup id n.peers) [
  | none ↦ (n, g)
  | some old ↦
      let peer = record old { channels = keep_if (λ c. c.is_normal) channels } in
      let replaced = record (replace_peer old peer n) {
        channels_read_at = insert id read_at n.channels_read_at;
      } in
      if leb read_at n.peers_read_at || leb read_at (lookup_or id 0 n.channels_read_at)
      then (n, g)
      else (replaced, add_local_channels now n.our_id peer.channels g)
]

-- Node.localChannelIds
unfoldable pub ids_of : Str → Str → List PeerChannel → Map Bool → Map Bool
ids_of our_id peer [] ids = ids
ids_of our_id peer (c ∷ cs) ids =
    let scid = c.short_channel_id in
    ids_of our_id peer cs (
      if str_eq scid []
      then ids
      else insert (scid ++ b'/' ∷ get_direction peer our_id) true
          (insert (scid ++ b'/' ∷ get_direction our_id peer) true ids))

unfoldable pub local_channel_ids : Str → Map Peer → Map Bool → Map Bool
unfolding ids_of
local_channel_ids our_id [] ids = ids
local_channel_ids our_id ((id, p) ∷ ps) ids =
    local_channel_ids our_id ps (ids_of our_id p.id p.channels ids)
