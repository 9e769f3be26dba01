-- ===== src/Graph/Topology.antt =====
-- How the graph follows gossip (graph/graph.go, graph/fees.go): its channels, its adjacency list and
-- its marks. A loop over a Go map goes over the entries in the order of the association list.
use cln_circular.Common.{
  ℕ, zero, suc, ◌+◌, ◌*◌, ◌/◌, ◌%◌, Bool, true, false, ◌&&◌, ◌||◌, Option, none, some, List, [],
  ◌∷◌, ◌++◌, ltb, leb, ◌==◌, if◌then◌else◌, Str, str_eq, u64, Map, lookup, lookup_or, insert,
  delete, length, get_elem?, any,
}
use cln_circular.Graph.Channel.{Policy, Channel, new_channel, make_id, channel_id}
use cln_circular.Graph.State.{Graph, Edge, unavoid}

-- The scids listed from one node to another; a missing entry reads as the empty edge.
abbrev pub edge_of : Map (Map Edge) → Str → Str → Edge
edge_of inbound dst src = lookup_or src [] (lookup_or dst [] inbound)

-- `g.Inbound[dst][src] = edge`, after `allocate`.
unfoldable pub set_edge : Str → Str → Edge → Map (Map Edge) → Map (Map Edge)
set_edge dst src edge inbound = insert dst (insert src edge (lookup_or dst [] inbound)) inbound

abbrev pub lists : Str → Edge → Bool
lists scid edge = any (λ s. str_eq s scid) edge

-- Graph.AddChannel on the adjacency list.
unfoldable pub add_edge : Channel → Map (Map Edge) → Map (Map Edge)
unfolding set_edge
add_edge c inbound =
    let edge = edge_of inbound c.destination c.source in
    set_edge c.destination c.source
      (if lists c.short_channel_id edge then edge else edge ++ c.short_channel_id ∷ []) inbound

-- Graph.AddChannel on the channel: limits that are 0 are read from the policy.
unfoldable pub fill_limits : Channel → Channel
fill_limits c = record c {
  max_htlc_msat = if c.max_htlc_msat == 0 then c.policy.htlc_maximum_msat else c.max_htlc_msat;
  min_htlc_msat = if c.min_htlc_msat == 0 then c.policy.htlc_minimum_msat else c.min_htlc_msat;
}

-- Graph.isDear: DearFactor is 2 and dearMinGap 50.
unfoldable pub is_dear : Map ℕ → Channel → Bool
is_dear medians c = elim (lookup c.source medians) [
  | none ↦ false
  | some median ↦
      leb (u64 (2 * u64 (median + 1))) (u64 (c.fee_per_millionth + 1))
      && leb (u64 (median + 50)) c.fee_per_millionth
]

abbrev pub policy_id : Policy → Str
policy_id p = make_id p.short_channel_id p.source p.destination

-- The channel that refreshChannels and ApplyChannelUpdate put in place of a known one.
unfoldable pub renew : Map ℕ → Policy → Channel → Channel
unfolding is_dear new_channel
renew medians p old =
    let c = record (new_channel p old.liquidity old.timestamp) { upper = old.upper } in
    record c { dear = is_dear medians c }

-- The body of the loop of refreshChannels.
unfoldable pub refresh_channel : Policy → Graph → Graph
unfolding add_edge fill_limits renew
refresh_channel p g =
    let id = policy_id p in
    elim (lookup id g.channels) [
      | none ↦
          let c = new_channel p (p.amount_msat / 2) 0 in
          record g {
            channels = insert id (fill_limits c) g.channels;
            inbound = add_edge c g.inbound;
          }
      | some old ↦
          let renewed = record g { channels = insert id (renew g.fee_medians p old) g.channels } in
          if ltb p.last_update old.last_update
          then g
          else if ltb old.last_update p.last_update
          then unavoid id renewed
          else renewed
    ]

-- Graph.RefreshChannels
unfoldable pub refresh_channels : List Policy → Graph → Graph
unfolding refresh_channel
refresh_channels [] g = g
refresh_channels (p ∷ ps) g = refresh_channels ps (refresh_channel p g)

-- remove: the last element takes the place of element i. On an empty list Go panics.
abbrev last_or : Str → List Str → Str
last_or d [] = d
last_or d (x ∷ xs) = last_or x xs

abbrev drop_last : List Str → List Str
drop_last [] = []
drop_last (x ∷ []) = []
drop_last (x ∷ y ∷ xs) = x ∷ drop_last (y ∷ xs)

abbrev set_at : List Str → ℕ → Str → List Str
set_at [] i v = []
set_at (x ∷ xs) zero v = v ∷ xs
set_at (x ∷ xs) (suc i) v = x ∷ set_at xs i v

unfoldable pub remove : List Str → ℕ → List Str
remove s i = drop_last (set_at s i (last_or [] s))

-- The index at which the loop of DeleteChannel stops.
unfoldable pub index_of : Str → Edge → Option ℕ
index_of scid [] = none
index_of scid (s ∷ edge) =
    let later : Option ℕ = elim (index_of scid edge) [ none ↦ none | some i ↦ some (i + 1) ] in
    if str_eq s scid then some 0 else later

-- Graph.DeleteChannel
unfoldable pub delete_channel : Channel → Graph → Graph
unfolding remove index_of set_edge
delete_channel c g =
    let edge = edge_of g.inbound c.destination c.source in
    let g' = record g { channels = delete (channel_id c) g.channels } in
    elim (index_of c.short_channel_id edge) [
      | none ↦ g'
      | some i ↦ record g' { inbound = set_edge c.destination c.source (remove edge i) g.inbound }
    ]

-- The loop of SyncChannels that removes what the snapshot does not list.
unfoldable pub drop_unlisted : Map Bool → Map Bool → ℕ → Map Channel → Graph → Graph × ℕ
unfolding delete_channel
drop_unlisted listed keep as_of [] g = (g, 0)
drop_unlisted listed keep as_of ((id, c) ∷ m) g =
    let stays = lookup_or id false listed || lookup_or id false keep || leb as_of c.last_update in
    let (g', removed) =
      drop_unlisted listed keep as_of m (if stays then g else delete_channel c g) in
    (g', if stays then removed else removed + 1)

unfoldable pub list_ids : List Policy → Map Bool
list_ids [] = []
list_ids (p ∷ ps) = insert (policy_id p) true (list_ids ps)

-- How many channels of the graph are not in `keep`.
unfoldable pub count_others : Map Bool → Map Channel → ℕ
count_others keep [] = 0
count_others keep ((id, c) ∷ m) =
    let n = count_others keep m in if lookup_or id false keep then n else n + 1

-- Graph.SyncChannels: none for the result -1, on a snapshot with less than half of the others.
unfoldable pub sync_channels : List Policy → Map Bool → ℕ → Graph → Graph × Option ℕ
unfolding refresh_channels drop_unlisted list_ids count_others
sync_channels ps keep as_of g =
    let refreshed = refresh_channels ps g in
    if ltb (length ps) (count_others keep g.channels / 2)
    then (refreshed, none)
    else (let (g', removed) = drop_unlisted (list_ids ps) keep as_of refreshed.channels refreshed in
        (g', some removed))

-- ChannelUpdate
pub record ChannelUpdate : Type 0 where
  pub channel_id : Str
  pub timestamp : ℕ
  pub message_flags : ℕ
  pub channel_flags : ℕ
  pub cltv_delta : ℕ
  pub htlc_minimum_msat : ℕ
  pub htlc_maximum_msat : ℕ
  pub base_fee_msat : ℕ
  pub fee_ppm : ℕ

-- The policy that ApplyChannelUpdate writes over the old one; `& 1` and `& 2` of a byte.
unfoldable pub updated_policy : ChannelUpdate → Policy → Policy
updated_policy u old = record old {
  last_update = u.timestamp;
  message_flags = u.message_flags;
  channel_flags = u.channel_flags;
  is_active = u.channel_flags / 2 % 2 == 0;
  delay = u.cltv_delta;
  base_fee_millisatoshi = u.base_fee_msat;
  fee_per_millionth = u.fee_ppm;
  htlc_minimum_msat = u.htlc_minimum_msat;
  htlc_maximum_msat =
      if u.message_flags % 2 == 0 then old.htlc_maximum_msat else u.htlc_maximum_msat;
}

-- An update of a known channel: only a newer one counts.
unfoldable pub update_known : ChannelUpdate → Graph → Channel → Graph × Bool
unfolding updated_policy renew
update_known u g old =
    let c = renew g.fee_medians (updated_policy u old.policy) old in
    if leb u.timestamp old.last_update
    then (g, false)
    else (unavoid u.channel_id (record g { channels = insert u.channel_id c g.channels }), true)

-- Graph.ApplyChannelUpdate: the graph, and whether the channel was updated.
unfoldable pub apply_channel_update : ChannelUpdate → Graph → Graph × Bool
unfolding update_known
apply_channel_update u g = elim (lookup u.channel_id g.channels) [
  | none ↦ (g, false)
  | some old ↦ update_known u g old
]

-- Graph.PruneChannels: PRUNING_INTERVAL is 14 days, and `now` time.Now().Unix(). The inbound fees
-- are pruned by prune_inbound_fees.
unfoldable pub prune_old : ℕ → Map Channel → Graph → Graph
unfolding delete_channel
prune_old now [] g = g
prune_old now ((id, c) ∷ m) g =
    prune_old now m (if ltb (u64 (c.last_update + 1209600)) now then delete_channel c g else g)

-- The scid of "scid/direction": what stands before the last '/', if there is one.
unfoldable pub scid_of : Str → Option Str
scid_of [] = none
scid_of (b ∷ s) = elim (scid_of s) [
  | some front ↦ some (b ∷ front)
  | none ↦ if b == b'/' then some [] else none
]

unfoldable pub live_scids : Map Channel → Map Bool
unfolding scid_of
live_scids [] = []
live_scids ((id, c) ∷ m) =
    let rest = live_scids m in elim (scid_of id) [ none ↦ rest | some scid ↦ insert scid true rest ]

unfoldable pub keep_live {ℓ} : {V : Type ℓ} → Map Bool → Map V → Map V
keep_live live [] = []
keep_live live ((key, v) ∷ m) =
    let rest = keep_live live m in
    elim (scid_of key) [
      | none ↦ (key, v) ∷ rest
      | some scid ↦ if lookup_or scid false live then (key, v) ∷ rest else rest
    ]

-- Graph.pruneInboundFees
unfoldable pub prune_inbound_fees : Graph → Graph
unfolding live_scids keep_live
prune_inbound_fees g = record g { inbound_fees = keep_live (live_scids g.channels) g.inbound_fees }

unfoldable pub prune_channels : ℕ → Graph → Graph
unfolding prune_old prune_inbound_fees
prune_channels now g = prune_inbound_fees (prune_old now g.channels g)

-- The rates that MarkDearChannels collects of each node's active channels, and the median of a
-- sorted list of them.
unfoldable pub collect_rates : Map Channel → Map (List ℕ)
collect_rates [] = []
collect_rates ((id, c) ∷ m) =
    let rest = collect_rates m in
    if c.is_active
    then insert c.source (c.fee_per_millionth ∷ lookup_or c.source [] rest) rest
    else rest

unfoldable pub insert_sorted : ℕ → List ℕ → List ℕ
insert_sorted a [] = a ∷ []
insert_sorted a (b ∷ l) = let rest = insert_sorted a l in if leb a b then a ∷ b ∷ l else b ∷ rest

unfoldable pub sort_rates : List ℕ → List ℕ
unfolding insert_sorted
sort_rates [] = []
sort_rates (a ∷ l) = insert_sorted a (sort_rates l)

unfoldable pub medians_of : Map (List ℕ) → Map ℕ
unfolding sort_rates
medians_of [] = []
medians_of ((node, r) ∷ m) =
    let rest = medians_of m in
    let median : ℕ = elim (get_elem? (sort_rates r) (length r / 2)) [ none ↦ 0 | some x ↦ x ] in
    if ltb (length r) 3 then rest else insert node median rest

unfoldable pub mark_all : Map ℕ → Map Channel → Map Channel × ℕ
mark_all medians [] = ([], 0)
mark_all medians ((id, c) ∷ m) =
    let (rest, n) = mark_all medians m in
    let d = is_dear medians c in ((id, record c { dear = d }) ∷ rest, if d then n + 1 else n)

-- Graph.MarkDearChannels: dearMinChannels is 3.
unfoldable pub mark_dear_channels : Graph → Graph × ℕ
unfolding collect_rates medians_of mark_all is_dear
mark_dear_channels g =
    let medians = medians_of (collect_rates g.channels) in
    let (channels, n) = mark_all medians g.channels in
    (record g { channels = channels; fee_medians = medians }, n)
