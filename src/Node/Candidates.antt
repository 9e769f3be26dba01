-- ===== src/Node/Candidates.antt =====
-- How our channels did as candidates of earlier splits (node/candidates.go). Each method runs under
-- the records' lock, so it is one step. `now` is time.Now().Unix().
use cln_circular.Common.{
  ℕ, ◌+◌, ◌/◌, Bool, true, false, ◌&&◌, none, some, [], ◌∷◌, leb, ltb, if◌then◌else◌, Str, u64, Map,
  lookup, lookup_or, insert,
}

pub record CandidateRecord : Type 0 where
  pub successes : ℕ
  pub failures : ℕ
  pub last_success : ℕ
  pub last_failure : ℕ
  pub failing : Bool
  pub amount_msat : ℕ
  pub fee_msat : ℕ

abbrev pub no_record : CandidateRecord
no_record = record {
  successes = 0;
  failures = 0;
  last_success = 0;
  last_failure = 0;
  failing = false;
  amount_msat = 0;
  fee_msat = 0;
}

-- candidateRecords.get and Node.CandidateRecord
unfoldable pub candidate_record : Str → Map CandidateRecord → CandidateRecord
candidate_record id m = lookup_or id no_record m

-- CandidateRecord.backingOff: candidateBackoff is 30 minutes. `now - last_failure < 1800` on int64.
unfoldable pub backing_off : ℕ → CandidateRecord → Bool
backing_off now r = r.failing && ltb now (r.last_failure + 1800)

-- The halving in RecordCandidate: candidateMemory is 50.
unfoldable pub forget : CandidateRecord → CandidateRecord
forget r =
    let halved = record r {
      successes = r.successes / 2;
      failures = r.failures / 2;
      amount_msat = r.amount_msat / 2;
      fee_msat = r.fee_msat / 2;
    } in
    if leb 50 (u64 (r.successes + r.failures)) then halved else r

unfoldable pub note_result : ℕ → Bool → ℕ → ℕ → CandidateRecord → CandidateRecord
note_result now true amount fee r = record r {
  successes = u64 (r.successes + 1);
  last_success = now;
  failing = false;
  amount_msat = u64 (r.amount_msat + amount);
  fee_msat = u64 (r.fee_msat + fee);
}
note_result now false amount fee r = record r {
  failures = u64 (r.failures + 1);
  last_failure = now;
  failing = true;
}

-- Node.RecordCandidate
unfoldable pub record_candidate : ℕ → Str → Bool → ℕ → ℕ → Map CandidateRecord → Map CandidateRecord
unfolding candidate_record forget note_result
record_candidate now id success amount fee m =
    insert id (note_result now success amount fee (forget (candidate_record id m))) m

-- Node.restoreCandidates: what was recorded since the start is newer.
unfoldable pub restore_candidates : Map CandidateRecord → Map CandidateRecord → Map CandidateRecord
restore_candidates [] m = m
restore_candidates ((id, r) ∷ list) m =
    restore_candidates list (elim (lookup id m) [ some _ ↦ m | none ↦ insert id r m ])

-- Node.pruneCandidates: the records that stay, and how many were removed.
unfoldable pub prune_candidates : Map Bool → Map CandidateRecord → Map CandidateRecord × ℕ
prune_candidates open_ids [] = ([], 0)
prune_candidates open_ids ((id, r) ∷ m) =
    let (kept, removed) = prune_candidates open_ids m in
    if lookup_or id false open_ids then ((id, r) ∷ kept, removed) else (kept, removed + 1)
