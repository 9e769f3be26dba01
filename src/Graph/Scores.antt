-- ===== src/Graph/Scores.antt =====
-- The failure scores of nodes (graph/nodes.go): a score fades by half every half life, counts the
-- payments that the node failed in the middle of a route, and halves when it forwards one.
use cln_circular.Common.{
  ℕ, ◌+◌, ◌-◌, Bool, false, Option, none, some, [], ◌∷◌, leb, ◌==◌, if◌then◌else◌, Str, Map, lookup,
  insert, delete,
}
use cln_circular.Common.Float.{Float64}

-- NodeScore, over the type of float64.
pub record NodeScore (F : Type 0) : Type 0 where
  pub score : F
  pub at : ℕ

-- The part of Graph that nodeScoresLock guards. `half_life` is in nanoseconds; 0 turns it off.
pub record Scores (F : Type 0) : Type 0 where
  pub half_life : ℕ
  pub nodes : Map (NodeScore F)

-- Graph.SetNodeMemory
unfoldable pub set_node_memory : {F : Type 0} → ℕ → Scores F → Scores F
set_node_memory half_life s = record s {
  half_life = half_life;
  nodes = if half_life == 0 then [] else s.nodes;
}

-- Graph.ApplyNodeScores on what is saved, entry by entry, and how many were applied.
unfoldable pub apply_scores : {F : Type 0} → Map (NodeScore F) → Scores F → Scores F × ℕ
apply_scores [] s = (s, 0)
apply_scores ((id, saved) ∷ m) s =
    let known : Bool = elim (lookup id s.nodes) [ none ↦ false | some old ↦ leb saved.at old.at ] in
    let taken = apply_scores m (record s { nodes = insert id saved s.nodes }) in
    if known then apply_scores m s else (taken.0, taken.1 + 1)

unfoldable pub apply_node_scores : {F : Type 0} → Map (NodeScore F) → Scores F → Scores F × ℕ
unfolding apply_scores
apply_node_scores saved s = if s.half_life == 0 then (s, 0) else apply_scores saved s

module _ (Fl : Float64) where
  open Fl use {F, of_ℕ, to_ℕ, ratio, add, mul, div, pow, lt}

  -- Graph.fadedLocked; the age counts seconds, and a score from the future does not fade.
  unfoldable pub faded_score : ℕ → ℕ → NodeScore F → F
  faded_score half_life now s =
      let age = div (of_ℕ (now - s.at)) (div (of_ℕ half_life) (of_ℕ 1000000000)) in
      if half_life == 0
      then of_ℕ 0
      else if leb now s.at
      then s.score
      else mul s.score (pow (ratio 1 2) age)

  -- Graph.changeNode: a node without a score has the zero NodeScore.
  unfoldable pub change_node : ℕ → Str → (F → F) → Scores F → Scores F
  unfolding faded_score
  change_node now id change s =
      let old : NodeScore F = elim (lookup id s.nodes) [
        | none ↦ record { score = of_ℕ 0; at = 0 }
        | some known ↦ known
      ] in
      let score = change (faded_score s.half_life now old) in
      if s.half_life == 0
      then s
      else if lt score (ratio 1 2)
      then record s { nodes = delete id s.nodes }
      else record s { nodes = insert id (record { score = score; at = now }) s.nodes }

  -- Graph.NodeFailed
  unfoldable pub node_failed : ℕ → Str → Scores F → Scores F
  unfolding change_node
  node_failed now id = change_node now id (λ score. add score (of_ℕ 1))

  -- Graph.NodeForwarded
  unfoldable pub node_forwarded : ℕ → Str → Scores F → Scores F
  unfolding change_node
  node_forwarded now id = change_node now id (λ score. div score (of_ℕ 2))

  -- The loop of NodeScores and NodeScoresNow: the scores that are still worth keeping, faded.
  unfoldable pub live_scores : ℕ → ℕ → Map (NodeScore F) → Map (NodeScore F)
  unfolding faded_score
  live_scores half_life now [] = []
  live_scores half_life now ((id, s) ∷ m) =
      let rest = live_scores half_life now m in
      let score = faded_score half_life now s in
      if lt score (ratio 1 2) then rest else (id, record { score = score; at = now }) ∷ rest

  -- The entries that NodeScores leaves: those that are worth keeping, as they were.
  unfoldable pub kept_scores : ℕ → ℕ → Map (NodeScore F) → Map (NodeScore F)
  unfolding faded_score
  kept_scores half_life now [] = []
  kept_scores half_life now ((id, s) ∷ m) =
      let rest = kept_scores half_life now m in
      if lt (faded_score half_life now s) (ratio 1 2) then rest else (id, s) ∷ rest

  -- Graph.NodeScores: what is left, and what is saved.
  unfoldable pub node_scores : ℕ → Scores F → Scores F × Map (NodeScore F)
  unfolding kept_scores live_scores
  node_scores now s = (
    record s { nodes = kept_scores s.half_life now s.nodes },
    live_scores s.half_life now s.nodes,
  )

  -- Graph.NodeScoresNow
  unfoldable pub node_scores_now : ℕ → Scores F → Map (NodeScore F)
  unfolding live_scores
  node_scores_now now s = live_scores s.half_life now s.nodes

  -- The loop of Graph.nodePenalties: NODE_SCORE_MAX is 250 and NODE_SCORE_SCALE 50.
  unfoldable pub penalties_of : ℕ → ℕ → Map (NodeScore F) → Map F
  unfolding faded_score
  penalties_of half_life now [] = []
  penalties_of half_life now ((id, s) ∷ m) =
      let score = faded_score half_life now s in
      (id, div (if lt (of_ℕ 250) score then of_ℕ 250 else score) (of_ℕ 50))
      ∷ penalties_of half_life now m

  -- Graph.nodePenalties: none is a nil map.
  unfoldable pub node_penalties : ℕ → Scores F → Option (Map F)
  unfolding penalties_of
  node_penalties now s = elim s.nodes [
    | [] ↦ none
    | entry ∷ m ↦ some (penalties_of s.half_life now (entry ∷ m))
  ]
