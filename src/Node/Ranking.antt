-- ===== src/Node/Ranking.antt =====
-- The order in which a run tries its candidates (RankCandidates of node/candidates.go), over any
-- float64 whose numbers here are no NaN.
use cln_circular.Common.{
  ℕ, ◌+◌, Bool, true, false, List, [], ◌∷◌, ltb, if◌then◌else◌, Str, u64, Map,
}
use cln_circular.Common.Float.{Float64}
use cln_circular.Node.Candidates.{CandidateRecord, candidate_record, backing_off}

pub record Ranked (F : Type 0) : Type 0 where
  pub backoff : Bool
  pub rate : F
  pub ppm : F
  pub has_price : Bool

module _ (Fl : Float64) where
  open Fl use {F, of_ℕ, add, mul, div, lt}

  -- CandidateRecord.successRate
  unfoldable pub success_rate : CandidateRecord → F
  success_rate r =
      div (of_ℕ (u64 (r.successes + 1))) (of_ℕ (u64 (u64 (r.successes + r.failures) + 2)))

  -- The first loop of RankCandidates
  unfoldable pub rank_of : ℕ → (Str → F) → Map CandidateRecord → Str → Ranked F
  unfolding success_rate
  rank_of now cost records id =
      let r = candidate_record id records in
      let paid = div (mul (of_ℕ r.fee_msat) (of_ℕ 1000000)) (of_ℕ r.amount_msat) in
      record {
        backoff = backing_off now r;
        rate = success_rate r;
        ppm = if ltb 0 r.amount_msat then add (cost id) paid else cost id;
        has_price = ltb 0 r.amount_msat;
      }

  -- The comparison of its sort, once neither or both back off.
  unfoldable pub better : Ranked F → Ranked F → Bool
  better a b =
      if lt b.rate a.rate
      then true
      else if lt a.rate b.rate
      then false
      else if a.has_price
      then (if b.has_price then lt a.ppm b.ppm else true)
      else if b.has_price
      then false
      else lt a.ppm b.ppm

  unfoldable pub before : Ranked F → Ranked F → Bool
  unfolding better
  before a b =
      if a.backoff
      then (if b.backoff then better a b else false)
      else if b.backoff
      then true
      else better a b

  -- sort.SliceStable, by insertion: a later id goes after those that it is not before.
  unfoldable pub insert_ranked : (Str → Ranked F) → Str → List Str → List Str
  unfolding before
  insert_ranked rank id [] = id ∷ []
  insert_ranked rank id (other ∷ ids) =
      let rest = insert_ranked rank id ids in
      if before (rank other) (rank id) then other ∷ rest else id ∷ other ∷ ids

  unfoldable pub sort_ranked : (Str → Ranked F) → List Str → List Str
  unfolding insert_ranked
  sort_ranked rank [] = []
  sort_ranked rank (id ∷ ids) = insert_ranked rank id (sort_ranked rank ids)

  -- Node.RankCandidates at the time `now`
  unfoldable pub rank_candidates : ℕ → (Str → F) → Map CandidateRecord → List Str → List Str
  unfolding sort_ranked rank_of
  rank_candidates now cost records ids = sort_ranked (rank_of now cost records) ids
