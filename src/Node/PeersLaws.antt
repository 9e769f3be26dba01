-- ===== src/Node/PeersLaws.antt =====
-- Laws of setConnected and replacePeer (node/peers.go, node/cron.go).
use cln_circular.Common.{
  ℕ, ◌≡◌, refl, Bool, some, List, [], ◌∷◌, arith, Str, str_eq, str_eq_iff, Map, lookup, insert,
  lookup-insert, AllValues, AllValues-insert, Option-cases, Bool-cases, inl, inr, zero, suc, false,
  ap, sym, subst, ◌∙◌, get_elem?, if◌then◌else◌,
}
use cln_circular.Node.Peers.{
  Peer, PeerChannel, Peers, drop_peer, index_channels, replace_peer, set_connected,
  is_peer_connected, get_channel_peer,
}

-- Every entry of the scid index is the peer as it is now, and each peer stands under its id.
pub record IsIndexed (n : Peers) : Type 0 where
  pub current : AllValues (λ q. lookup q.id n.peers ≡ some q) n.scid_to_peer
  pub keyed : (id : Str) (p : Peer) → lookup id n.peers ≡ some p → p.id ≡ id

drop_peer-current :
    (id : Str) (p : Peer) (peers m : Map Peer)
    → p.id ≡ id
    → AllValues (λ q. lookup q.id peers ≡ some q) m
    → AllValues (λ q. lookup q.id (insert id p peers) ≡ some q) (drop_peer id m)
unfolding drop_peer
drop_peer-current id p peers [] e h = tt
drop_peer-current id p peers ((scid, q) ∷ m) e h =
    let rest = drop_peer-current id p peers m e h.1 in
    elim (Bool-cases (str_eq q.id id)) [
      | inl same ↦ rw same rest
      | inr apart ↦ rw apart (
          (
            ground
                (arith, lookup-insert id q.id p peers, str_eq_iff id q.id, str_eq_iff q.id id, h.0),
            rest,
          ))
    ]

index_channels-current :
    (p : Peer) (cs : List PeerChannel) (peers m : Map Peer)
    → lookup p.id peers ≡ some p
    → AllValues (λ q. lookup q.id peers ≡ some q) m
    → AllValues (λ q. lookup q.id peers ≡ some q) (index_channels p cs m)
unfolding index_channels
index_channels-current p [] peers m e h = h
index_channels-current p (c ∷ cs) peers m e h = elim (Bool-cases (str_eq c.short_channel_id [])) [
  | inl empty ↦ rw empty (index_channels-current p cs peers m e h)
  | inr full ↦ rw full (
      index_channels-current p cs peers (insert c.short_channel_id p m) e
        (AllValues-insert (λ q. lookup q.id peers ≡ some q) c.short_channel_id p m h e))
]

found_itself : (id : Str) (p : Peer) (peers : Map Peer) → lookup id (insert id p peers) ≡ some p
found_itself id p peers = ground (arith, lookup-insert id id p peers, str_eq_iff id id)

-- A connect or disconnect event leaves no entry of the index behind on an older copy of its peer.
pub set_connected-IsIndexed :
    (now : ℕ) (id : Str) (connected : Bool) (n : Peers)
    → IsIndexed n
    → IsIndexed (set_connected now id connected n)
unfolding set_connected replace_peer
set_connected-IsIndexed now id connected n h = elim (Option-cases (lookup id n.peers)) [
  | inl absent ↦ rw (set_connected, absent) h
  | inr (old, known) ↦
      rw (set_connected, known)
        (let p : Peer = record old { connected = connected } in
          record {
            current =
                index_channels-current p p.channels (insert p.id p n.peers)
                  (drop_peer old.id n.scid_to_peer) (found_itself p.id p n.peers)
                  (drop_peer-current old.id p n.peers n.scid_to_peer refl h.current);
            keyed = λ other q found. ground (
              arith,
              lookup-insert p.id other p n.peers,
              str_eq_iff p.id other,
              h.keyed other q,
              found,
            );
          })
]

-- What the index has of a peer stays as the channels of this peer are indexed.
index_channels-stays :
    (p : Peer) (cs : List PeerChannel) (scid : Str) (m : Map Peer)
    → lookup scid m ≡ some p
    → lookup scid (index_channels p cs m) ≡ some p
unfolding index_channels
index_channels-stays p [] scid m h = h
index_channels-stays p (c ∷ cs) scid m h = elim (Bool-cases (str_eq c.short_channel_id [])) [
  | inl empty ↦ rw empty (index_channels-stays p cs scid m h)
  | inr full ↦ rw full (
      index_channels-stays p cs scid (insert c.short_channel_id p m)
        (ground (arith, lookup-insert c.short_channel_id scid p m, h)))
]

index_channels-finds :
    (p : Peer) (cs : List PeerChannel) (k : ℕ) (c : PeerChannel) (m : Map Peer)
    → get_elem? cs k ≡ some c
    → str_eq c.short_channel_id [] ≡ false
    → lookup c.short_channel_id (index_channels p cs m) ≡ some p
unfolding index_channels
index_channels-finds p [] k c m e full = cc
index_channels-finds p (d ∷ cs) zero c m e full =
    let same : d ≡ c = ground arith in
    let named : str_eq d.short_channel_id [] ≡ false =
      ap (λ (x : PeerChannel). str_eq x.short_channel_id []) same ∙ full in
    let scid = c.short_channel_id in
    let put : lookup scid (insert d.short_channel_id p m) ≡ some p =
      ap (λ (x : PeerChannel). lookup scid (insert x.short_channel_id p m)) same
      ∙ found_itself scid p m in
    rw named (index_channels-stays p cs scid (insert d.short_channel_id p m) put)
index_channels-finds p (d ∷ cs) (suc k) c m e full =
    index_channels-finds p cs k c
      (if str_eq d.short_channel_id [] then m else insert d.short_channel_id p m) e full

set_connected-known :
    (now : ℕ) (id : Str) (connected : Bool) (n : Peers) (p : Peer)
    → lookup id n.peers ≡ some p
    → set_connected now id connected n
      ≡ record (replace_peer p (record p { connected = connected }) n) {
        connected_at = insert id now n.connected_at;
      }
unfolding set_connected
set_connected-known now id connected n p known = rw (set_connected, known) refl

-- After a connect or disconnect event of a known peer, each channel of it that has an scid counts as
-- connected or not as the event says, and the time of the event is noted for the peer.
pub set_connected-reaches :
    (now : ℕ) (id : Str) (connected : Bool) (n : Peers) (p : Peer) (k : ℕ) (c : PeerChannel)
    → lookup id n.peers ≡ some p
    → get_elem? p.channels k ≡ some c
    → str_eq c.short_channel_id [] ≡ false
    → (is_peer_connected (set_connected now id connected n) c ≡ connected)
      × (lookup id (set_connected now id connected n).connected_at ≡ some now)
unfolding is_peer_connected get_channel_peer replace_peer
set_connected-reaches now id connected n p k c known listed full =
    let p' : Peer = record p { connected = connected } in
    let found =
      index_channels-finds p' p.channels k c (drop_peer p.id n.scid_to_peer) listed full in
    subst
      (λ (n' : Peers).
        (is_peer_connected n' c ≡ connected) × (lookup id n'.connected_at ≡ some now))
      (sym (set_connected-known now id connected n p known))
      (
        ground (arith, found),
        ground (arith, lookup-insert id id now n.connected_at, str_eq_iff id id),
      )
