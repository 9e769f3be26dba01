-- ===== src/Parallel/Splits.antt =====
-- The splits of a run as rebalances (newSplit and launch of rebalance/parallel/parallel.go), with
-- laws of their results.
use cln_circular.Common.{
  ℕ, ◌+◌, ◌*◌, ◌≤◌, ◌<◌, ◌≡◌, refl, Bool, ◌&&◌, some, [], arith, ltb, if◌then◌else◌, Str, lookup_or,
  u64_mod, get_elem?, Bool-cases, inl, inr,
}
use cln_circular.Common.Float.{Float64}
use cln_circular.Common.Int.{ℤ, pos, pos_part, ltb_ℤ}
use cln_circular.Graph.Channel.{Channel}
use cln_circular.Graph.Fee.{max_fee_for_ppm}
use cln_circular.Graph.FeeLaws.{max_fee_for_ppm_mono}
use cln_circular.Graph.Scores.{Scores}
use cln_circular.Graph.Search.{Heap}
use cln_circular.Graph.State.{Graph}
use cln_circular.Rebalance.Answers.{enough}
use cln_circular.Rebalance.Prices.{RefusesPlainly, Fits}
use cln_circular.Rebalance.Result.{Result}
use cln_circular.Rebalance.Run.{Ended, run, returned, stalled, result_of}
use cln_circular.Rebalance.RunLaws.{run-Returns, Returns, Moves, known_tries}
use cln_circular.Rebalance.Split.{Rebalance, World}
use cln_circular.Parallel.Landing.{land}
use cln_circular.Parallel.Reach.{Step, landed}
use cln_circular.Parallel.Run.{Run, Flight, Surroundings}

-- The settings of a run that only its splits read.
pub record SplitSettings : Type 0 where
  pub attempts : ℤ
  pub max_hops : ℤ
  pub max_node_fails : ℤ
  pub risk_ppm : ℤ
  pub min_split : ℕ
  pub has_ratio : Bool

-- AbstractRebalance.newSplit with the limit of its economics.
unfoldable pub new_split : SplitSettings → Run → Channel → Channel → Channel → ℕ → ℕ → Rebalance
new_split st r out back candidate amount limit =
    let streak = r.settings.probe_fail_streak in
    record {
      out_channel = out;
      in_channel = back;
      amount = amount;
      max_ppm = limit;
      attempts =
          if r.round.step_probe && ltb 0 streak && ltb_ℤ (pos streak) st.attempts
          then pos streak
          else st.attempts;
      max_hops = st.max_hops;
      min_amount = if ltb amount st.min_split then amount else st.min_split;
      route = lookup_or candidate.short_channel_id [] r.routes;
      max_node_fails = st.max_node_fails;
      risk_ppm = st.risk_ppm;
      run_max_ppm = if st.has_ratio && ltb limit r.round.max_ppm then r.round.max_ppm else 0;
    }

-- What the goroutine of launch adds to the result before it sends it.
unfoldable pub answer : Str → ℕ → Result → Result
answer candidate amount res = record res { requested = amount; candidate = candidate }

-- A result of a rebalance moves no more than the split asked for, and costs no more than the split
-- may at the run's own rate limit.
answer-limits :
    (b : Rebalance) (most max_ppm : ℕ) (res : Result)
    → Moves b most res
    → 0 < b.amount
    → b.max_ppm ≤ max_ppm
    → (max_ppm + 1) * b.amount < u64_mod
    → (res.amount_msat ≤ b.amount) × (res.fee ≤ max_fee_for_ppm b.amount max_ppm)
answer-limits b most max_ppm res (few, moved, failed) ha hp fits = elim (Bool-cases res.success) [
  | inl done ↦
      let (asked, cheap) = moved done in
      let dearer =
        max_fee_for_ppm_mono res.amount_msat b.amount b.max_ppm max_ppm asked.0 asked.1 hp fits in
      (asked.1, omega arith)
  | inr failure ↦ omega (arith, failed failure)
]

-- The result of a rebalance that ends.
Returns-result :
    {F : Type 0} (b : Rebalance) (most : ℕ) (x : Ended F)
    → Returns b most x
    → (res : Result) × (result_of x ≡ some res) × Moves b most res
Returns-result b most (returned p res) h = (res, refl, h)
Returns-result b most (stalled p) h = absurd h

-- A split in flight lands, where `r'` is the run that fired it, for more than nothing, a limit of at
-- most the run's maxppm, and an amount whose product with maxppm + 1 fits in a uint64: with the fuel
-- that its graphs ask for, and in whatever worlds lightningd refuses payments with no error of the
-- search, its rebalance returns a result, and reading that is one step of Parallel.Reach.
pub run-lands :
    (Fl : Float64) (heap : Heap) (st : SplitSettings) (r' : Run) (out back candidate : Channel)
    (amount limit : ℕ) (worlds : ℕ → World × World) (g : Graph) (scores : Scores Fl.F)
    (s : Surroundings) (k : ℕ) {r : Run} {f : Flight}
    → ((n : ℕ) → RefusesPlainly (worlds n).0 × RefusesPlainly (worlds n).1)
    → 0 < amount
    → limit ≤ r.round.max_ppm
    → (r.round.max_ppm + 1) * amount < u64_mod
    → get_elem? r.flights k ≡ some f
    → f.requested ≡ amount
    → (let b = new_split st r' out back candidate amount limit in
        (res : Result) × (result_of (run Fl heap (enough b) worlds b g scores) ≡ some res)
        × Step r (land s k (answer f.candidate amount res) r))
unfolding answer new_split
run-lands Fl heap st r' out back candidate amount limit worlds g scores s k {r} {f} plain ha hp fits
      flight asked =
    let b = new_split st r' out back candidate amount limit in
    let within : Fits b amount = (ha, grind arith) in
    let most = pos_part b.attempts + known_tries b in
    let ends = run-Returns Fl heap b within worlds plain g scores in
    let (res, e, moves) = Returns-result b most (run Fl heap (enough b) worlds b g scores) ends in
    let (delivered, paid) = answer-limits b most r.round.max_ppm res moves ha hp fits in
    (res, e, landed s k (answer f.candidate amount res) flight asked delivered paid)
