-- ===== src/Node/RankingLaws.antt =====
-- Laws of RankCandidates (node/candidates.go).
use cln_circular.Common.{
  ℕ, ◌+◌, ◌≡◌, refl, ap, ◌∙◌, Bool, true, List, [], ◌∷◌, arith, if◌then◌else◌, Str, str_eq, Map,
  All, Bool-cases, inl, inr,
}
use cln_circular.Common.Float.{Float64}
use cln_circular.Node.Candidates.{CandidateRecord, candidate_record, backing_off}
use cln_circular.Node.Ranking.{Ranked, rank_of, before, insert_ranked, sort_ranked, rank_candidates}

-- After a candidate that backs off there are only such.
abbrev pub IsBackedOffLast : (Str → Bool) → List Str → Type 0
IsBackedOffLast off [] = Unit {0}
IsBackedOffLast off (id ∷ ids) =
    (off id ≡ true → All (λ other. off other ≡ true) ids) × IsBackedOffLast off ids

-- How often an id is in a list.
abbrev pub count : Str → List Str → ℕ
count id [] = 0
count id (other ∷ ids) = (if str_eq id other then 1 else 0) + count id ids

module _ (Fl : Float64) (rank : Str → Ranked Fl.F) where
  abbrev off : Str → Bool
  off id = (rank id).backoff

  insert_ranked-All :
      (id : Str) (ids : List Str)
      → off id ≡ true
      → All (λ other. off other ≡ true) ids
      → All (λ other. off other ≡ true) (insert_ranked Fl rank id ids)
  unfolding insert_ranked
  insert_ranked-All id [] h hs = (h, tt)
  insert_ranked-All id (other ∷ ids) h (o, os) =
      elim (Bool-cases (before Fl (rank other) (rank id))) [
        | inl e ↦ rw e (o, insert_ranked-All id ids h os)
        | inr e ↦ rw e (h, (o, os))
      ]

  insert_ranked-IsBackedOffLast :
      (id : Str) (ids : List Str)
      → IsBackedOffLast off ids
      → IsBackedOffLast off (insert_ranked Fl rank id ids)
  unfolding insert_ranked
  insert_ranked-IsBackedOffLast id [] h = ((λ e. tt), tt)
  insert_ranked-IsBackedOffLast id (other ∷ ids) (last, rest) =
      elim (Bool-cases (before Fl (rank other) (rank id))) [
        | inl e ↦ rw e (
          (λ o. insert_ranked-All id ids (unfold before in ground arith) (last o)),
          insert_ranked-IsBackedOffLast id ids rest,
        )
        | inr e ↦ rw e (
          (λ o. let also : off other ≡ true = unfold before in ground arith in (also, last also)),
          (last, rest),
        )
      ]

  sort_ranked-IsBackedOffLast : (ids : List Str) → IsBackedOffLast off (sort_ranked Fl rank ids)
  unfolding sort_ranked
  sort_ranked-IsBackedOffLast [] = tt
  sort_ranked-IsBackedOffLast (id ∷ ids) =
      insert_ranked-IsBackedOffLast id (sort_ranked Fl rank ids) (sort_ranked-IsBackedOffLast ids)

  count-insert_ranked :
      (x id : Str) (ids : List Str) → count x (insert_ranked Fl rank id ids) ≡ count x (id ∷ ids)
  unfolding insert_ranked
  count-insert_ranked x id [] = refl
  count-insert_ranked x id (other ∷ ids) = ground (arith, count-insert_ranked x id ids)

  count-sort_ranked : (x : Str) (ids : List Str) → count x (sort_ranked Fl rank ids) ≡ count x ids
  unfolding sort_ranked
  count-sort_ranked x [] = refl
  count-sort_ranked x (id ∷ ids) =
      count-insert_ranked x id (sort_ranked Fl rank ids)
      ∙ ap (λ n. (if str_eq x id then 1 else 0) + n) (count-sort_ranked x ids)

-- However the candidates did and whatever they cost, the ranking has each of them as often as it was
-- given, and every one that backs off after all those that do not.
pub rank_candidates-IsBackedOffLast :
    (Fl : Float64) (now : ℕ) (cost : Str → Fl.F) (records : Map CandidateRecord) (ids : List Str)
    → (let ranked = rank_candidates Fl now cost records ids in
        IsBackedOffLast (λ id. backing_off now (candidate_record id records)) ranked
        × ((id : Str) → count id ranked ≡ count id ids))
unfolding rank_candidates rank_of
rank_candidates-IsBackedOffLast Fl now cost records ids = (
  sort_ranked-IsBackedOffLast Fl (rank_of Fl now cost records) ids,
  λ id. count-sort_ranked Fl (rank_of Fl now cost records) id ids,
)
