-- ===== src/Parallel/Start.antt =====
-- Laws of the state of a run before its first split (rebalance/parallel/parallel.go).
use cln_circular.Common.{
  ◌<◌, ◌≡◌, sym, ap, ◌∙◌, [], arith, ◌==◌, length, max_uint64, u64_mod, leb, Bool-cases, inl, inr,
}
use cln_circular.Parallel.Run.{Run, Settings}
use cln_circular.Parallel.Ledger.{ledger}
use cln_circular.Parallel.Accounts.{IsBalanced, IsInBudget, worst_total, total}
use cln_circular.Parallel.Reach.{IsSafe}

-- A run that has fired nothing yet.
pub record IsUnstarted (settings : Settings) (r : Run) : Type 0 where
  pub asked : r.settings ≡ settings
  pub fits : settings.amount < u64_mod
  pub nothing_moved : r.amount_rebalanced ≡ 0
  pub nothing_asked : r.in_flight_amount ≡ 0
  pub none_counted : r.splits_in_flight ≡ 0
  pub none_flying : r.flights ≡ []
  pub nothing_reserved : r.fee_reserved ≡ 0
  pub nothing_paid : r.result.fees_paid_msat ≡ 0

unstarted-IsBalanced : (st : Settings) (r : Run) → IsUnstarted st r → IsBalanced (ledger r)
unstarted-IsBalanced st r h =
    let amount = ap (λ (s : Settings). s.amount) h.asked in
    let count : length r.flights ≡ 0 = ap length h.none_flying in
    let asked : total r.flights ≡ 0 = ap total h.none_flying in
    record {
      fits = omega (arith, h.fits, amount);
      counted = h.none_counted ∙ sym count;
      summed = h.nothing_asked ∙ sym asked;
      within = omega (arith, h.nothing_moved, asked);
      few = omega (arith, count);
    }

unstarted-IsInBudget :
    (st : Settings) (r : Run)
    → IsUnstarted st r
    → 0 < st.max_fee_msat
    → st.max_fee_msat < max_uint64
    → IsInBudget (ledger r)
unstarted-IsInBudget st r h some_budget finite =
    let fee = ap (λ (s : Settings). s.max_fee_msat) h.asked in
    let worst : worst_total r.round.max_ppm r.flights ≡ 0 =
      ap (worst_total r.round.max_ppm) h.none_flying in
    record {
      limited = omega (arith, some_budget, fee);
      finite = omega (arith, finite, fee);
      reserved = h.nothing_reserved ∙ sym worst;
      within = omega (arith, h.nothing_paid, h.nothing_reserved);
    }

-- A run that has fired nothing yet is safe, with a fee budget or without.
pub unstarted-IsSafe : (st : Settings) (r : Run) → IsUnstarted st r → IsSafe st r
unstarted-IsSafe st r h = record {
  asked = h.asked;
  balanced = unstarted-IsBalanced st r h;
  in_budget = elim (Bool-cases (st.max_fee_msat == 0)) [
    | inl free ↦ inl (inl (ground arith))
    | inr set ↦ elim (Bool-cases (leb max_uint64 st.max_fee_msat)) [
      | inl endless ↦ inl (inr (ground arith))
      | inr finite ↦ inr (unstarted-IsInBudget st r h (ground arith) (ground arith))
    ]
  ];
}
