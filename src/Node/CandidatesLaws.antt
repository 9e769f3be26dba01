-- ===== src/Node/CandidatesLaws.antt =====
-- Laws of the records of our candidates (node/candidates.go).
use cln_circular.Common.{
  ℕ, ◌+◌, ◌≤◌, ◌<◌, ◌≡◌, refl, Bool, true, false, none, some, [], ◌∷◌, arith, leb, ltb,
  if◌then◌else◌, Str, str_eq_iff, u64, Map, lookup, insert, lookup-insert, AllValues,
  AllValues-lookup, AllValues-insert, ap,
}
use cln_circular.Node.Candidates.{
  CandidateRecord, no_record, candidate_record, backing_off, forget, note_result, record_candidate,
  restore_candidates,
}

-- A record counts at most candidateMemory results.
abbrev pub IsRemembered : CandidateRecord → Type 0
IsRemembered r = r.successes + r.failures ≤ 50

few_if :
    (b : Bool) (x y : CandidateRecord)
    → (b ≡ true → x.successes + x.failures < 50)
    → (b ≡ false → y.successes + y.failures < 50)
    → (if b then x else y).successes + (if b then x else y).failures < 50
few_if true x y f g = f refl
few_if false x y f g = g refl

forget-few :
    (r : CandidateRecord) → IsRemembered r → (forget r).successes + (forget r).failures < 50
unfolding forget
forget-few r h =
    few_if (leb 50 (u64 (r.successes + r.failures))) _ r (λ t. omega arith) (λ t. ground arith)

note_result-IsRemembered :
    (now : ℕ) (success : Bool) (amount fee : ℕ) (r : CandidateRecord)
    → r.successes + r.failures < 50
    → IsRemembered (note_result now success amount fee r)
unfolding note_result
note_result-IsRemembered now true amount fee r h = omega arith
note_result-IsRemembered now false amount fee r h = omega arith

remembered :
    (id : Str) (m : Map CandidateRecord)
    → AllValues IsRemembered m
    → IsRemembered (candidate_record id m)
unfolding candidate_record
remembered id m h =
    elim (lookup id m)
        as (λ o.
          lookup id m ≡ o
          → IsRemembered (elim o as (λ _. CandidateRecord) [ some v ↦ v | none ↦ no_record ])) [
            | none ↦ (λ _. omega arith)
            | some r ↦ (λ e. AllValues-lookup IsRemembered id m h e)
          ]
      refl

-- No record ever counts more than 50 results: the halving makes room before each one.
pub record_candidate-IsRemembered :
    (now : ℕ) (id : Str) (success : Bool) (amount fee : ℕ) (m : Map CandidateRecord)
    → AllValues IsRemembered m
    → AllValues IsRemembered (record_candidate now id success amount fee m)
unfolding record_candidate
record_candidate-IsRemembered now id success amount fee m h =
    AllValues-insert IsRemembered id _ m h (
      note_result-IsRemembered now success amount fee (forget (candidate_record id m))
        (forget-few (candidate_record id m) (remembered id m h)))

found :
    (id : Str) (r : CandidateRecord) (m : Map CandidateRecord) → lookup id (insert id r m) ≡ some r
found id r m = ground (arith, lookup-insert id id r m, str_eq_iff id id)

-- A candidate whose split just failed is tried after the others for the next 30 minutes, and one
-- whose split just succeeded is not.
pub record_candidate-backing_off :
    (now later : ℕ) (id : Str) (success : Bool) (amount fee : ℕ) (m : Map CandidateRecord)
    → backing_off later (candidate_record id (record_candidate now id success amount fee m))
      ≡ (if success then false else ltb later (now + 1800))
unfolding record_candidate candidate_record backing_off note_result
record_candidate-backing_off now later id true amount fee m =
    ap (λ o. backing_off later (elim o as (λ _. CandidateRecord) [ some v ↦ v | none ↦ no_record ]))
      (found id (note_result now true amount fee (forget (candidate_record id m))) m)
record_candidate-backing_off now later id false amount fee m =
    ap (λ o. backing_off later (elim o as (λ _. CandidateRecord) [ some v ↦ v | none ↦ no_record ]))
      (found id (note_result now false amount fee (forget (candidate_record id m))) m)

missed :
    (j id : Str) (new : CandidateRecord) (m : Map CandidateRecord) {r : CandidateRecord}
    → lookup j m ≡ none
    → lookup id m ≡ some r
    → lookup id (insert j new m) ≡ some r
missed j id new m d e = ground (arith, lookup-insert j id new m, str_eq_iff j id)

-- A record made since the start is kept when the saved ones are restored.
pub restore_candidates-keeps :
    (list m : Map CandidateRecord) (id : Str) {r : CandidateRecord}
    → lookup id m ≡ some r
    → lookup id (restore_candidates list m) ≡ some r
unfolding restore_candidates
restore_candidates-keeps [] m id {r} e = e
restore_candidates-keeps ((j, new) ∷ list) m id {r} e =
    elim (lookup j m)
        as (λ o.
          lookup j m ≡ o
          → lookup id (
              restore_candidates list
                (elim o as (λ _. Map CandidateRecord) [ some _ ↦ m | none ↦ insert j new m ]))
            ≡ some r) [
              | some _ ↦ (λ _. restore_candidates-keeps list m id {r = r} e)
              | none ↦ (λ d.
                  restore_candidates-keeps list (insert j new m) id {r = r} (missed j id new m d e))
            ]
      refl
