-- ===== src/Parallel/Candidates.antt =====
-- The candidates of a run, in the order it tries them (FindCandidates of
-- rebalance/parallel/candidates.go).
use cln_circular.Common.{
  ℕ, Bool, Option, none, some, List, [], ◌∷◌, ◌++◌, if◌then◌else◌, Str, str_eq, str_lt, Map, lookup,
}
use cln_circular.Common.Float.{Float64}
use cln_circular.Graph.Channel.{Channel, channel_id, compute_fee_ppm, get_direction, make_id}
use cln_circular.Graph.State.{Graph, get_channel}
use cln_circular.Node.Candidates.{CandidateRecord}
use cln_circular.Node.Peers.{Peer, PeerChannel, Peers, get_graph_channel}
use cln_circular.Node.Ranking.{rank_candidates}
use cln_circular.Parallel.Run.{Round}

-- The loop of GetCandidatesList over the list of a call.
unfoldable pub known_peers : Peers → List Str → List Peer
known_peers n [] = []
known_peers n (id ∷ ids) =
    let rest = known_peers n ids in elim (lookup id n.peers) [ none ↦ rest | some p ↦ p ∷ rest ]

unfoldable pub peers_of : Map Peer → List Peer
peers_of [] = []
peers_of ((id, p) ∷ m) = p ∷ peers_of m

-- AbstractRebalance.GetCandidatesList
unfoldable pub get_candidates_list : Peers → Option (List Str) → List Peer
unfolding known_peers peers_of
get_candidates_list n none = peers_of n.peers
get_candidates_list n (some ids) = known_peers n ids

-- What FindCandidates reads: `is_good` is IsGoodCandidate, which may mark the round, and `outgoing`
-- whether candidates are channels from us (GetCandidateDirection).
pub record Finding : Type 0 where
  pub now : ℕ
  pub node : Peers
  pub graph : Graph
  pub outgoing : Bool
  pub is_good : PeerChannel → Round → Bool × Round

unfoldable pub candidate_direction : Finding → Str → Str
candidate_direction f id =
    if f.outgoing then get_direction f.node.our_id id else get_direction id f.node.our_id

-- The channels of a peer, with those that were found before it.
unfoldable pub find_among :
    Finding → Str → List PeerChannel → Map Channel × Round → Map Channel × Round
unfolding candidate_direction
find_among f id [] (found, round) = (found, round)
find_among f id (c ∷ cs) (found, round) =
    let (good, round') = f.is_good c round in
    let candidate = get_graph_channel f.now f.node f.graph c (candidate_direction f id) in
    let key = channel_id candidate in
    let with_it : Map Channel = elim (lookup key found) [
      | none ↦ found ++ (key, candidate) ∷ []
      | some _ ↦ found
    ] in
    find_among f id cs (if good then with_it else found, round')

unfoldable pub find_all : Finding → Str → List Peer → Map Channel × Round → Map Channel × Round
unfolding find_among
find_all f exclude [] x = x
find_all f exclude (p ∷ ps) x =
    find_all f exclude ps (if str_eq p.id exclude then x else find_among f p.id p.channels x)

-- sort.Strings, by insertion
unfoldable pub insert_id : Str → List Str → List Str
insert_id id [] = id ∷ []
insert_id id (other ∷ ids) =
    let rest = insert_id id ids in if str_lt other id then other ∷ rest else id ∷ other ∷ ids

unfoldable pub sort_ids : List Str → List Str
unfolding insert_id
sort_ids [] = []
sort_ids (id ∷ ids) = insert_id id (sort_ids ids)

unfoldable pub ids_of : Map Channel → List Str
ids_of [] = []
ids_of ((id, c) ∷ m) = id ∷ ids_of m

unfoldable pub pick : Map Channel → List Str → List Channel
pick found [] = []
pick found (id ∷ ids) =
    let rest = pick found ids in elim (lookup id found) [ none ↦ rest | some c ↦ c ∷ rest ]

module _ (Fl : Float64) where
  open Fl use {F, of_ℕ, sub}

  -- AbstractRebalance.ownFeeCost
  unfoldable pub own_fee_cost : Str → ℕ → Graph → Channel → F
  own_fee_cost our_id split_amount g c =
      let ours = str_eq c.source our_id in
      let peer = if ours then c.destination else c.source in
      elim (get_channel g (make_id c.short_channel_id our_id peer)) [
        | none ↦ of_ℕ 0
        | some own ↦
            let ppm = of_ℕ (compute_fee_ppm own split_amount) in
            if ours then ppm else sub (of_ℕ 0) ppm
      ]

  -- The loop over ids that fills the map of costs.
  unfoldable pub cost_of : Str → ℕ → Graph → Map Channel → Str → F
  unfolding own_fee_cost
  cost_of our_id split_amount g found id = elim (lookup id found) [
    | none ↦ of_ℕ 0
    | some c ↦ own_fee_cost our_id split_amount g c
  ]

  -- AbstractRebalance.FindCandidates: the queue, with its marks on the round. It gives ErrNoCandidates
  -- where the queue is empty.
  unfoldable pub find_candidates :
      Finding → Str → Option (List Str) → ℕ → Map CandidateRecord → Round → List Channel × Round
  unfolding get_candidates_list find_all sort_ids ids_of cost_of pick
  find_candidates f exclude listed split_amount records round =
      let (found, round') = find_all f exclude (get_candidates_list f.node listed) ([], round) in
      let cost = cost_of f.node.our_id split_amount f.graph found in
      (pick found (rank_candidates Fl f.now cost records (sort_ids (ids_of found))), round')
