-- ===== src/Tests/Ranks.antt =====
-- Three candidates, of which one just failed (node/candidates.go).
use cln_circular.Common.{◌≡◌, refl, true, List, [], ◌∷◌, Str, str_eq, lookup, Map}
use cln_circular.Node.Candidates.{CandidateRecord, no_record, candidate_record, backing_off}
use cln_circular.Node.Ranking.{
  rank_candidates, sort_ranked, insert_ranked, before, better, rank_of, success_rate,
}
use cln_circular.Node.RankingLaws.{IsBackedOffLast, count, rank_candidates-IsBackedOffLast}
use cln_circular.Tests.Rebalances.{whole_numbers}

abbrev records : Map CandidateRecord
records =
    (b'1' ∷ [], record no_record { failures = 1; last_failure = 500; failing = true })
    ∷ (b'2' ∷ [], record no_record { successes = 3; amount_msat = 100000; fee_msat = 20 })
    ∷ []

abbrev three : List Str
three = (b'1' ∷ []) ∷ (b'3' ∷ []) ∷ (b'2' ∷ []) ∷ []

ranks :
    rank_candidates whole_numbers 600 (λ id. 0) records three
    ≡ (b'2' ∷ []) ∷ (b'3' ∷ []) ∷ (b'1' ∷ []) ∷ []
unfolding rank_candidates sort_ranked insert_ranked before better rank_of success_rate
    candidate_record backing_off lookup str_eq
ranks = refl

rank_candidates-IsBackedOffLast_example :
    let ranked = rank_candidates whole_numbers 600 (λ id. 0) records three in
    IsBackedOffLast (λ id. backing_off 600 (candidate_record id records)) ranked
    × ((id : Str) → count id ranked ≡ count id three)
rank_candidates-IsBackedOffLast_example =
    rank_candidates-IsBackedOffLast whole_numbers 600 (λ id. 0) records three
