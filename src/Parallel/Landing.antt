-- ===== src/Parallel/Landing.antt =====
-- A split's result, from RebalanceResultChan to the splits fired after it
-- (rebalance/parallel/result.go, and EnqueueCandidate and AddSuccess of pull.go and push.go).
use cln_circular.Common.{
  ℕ, zero, suc, ◌+◌, ◌-◌, Bool, ◌&&◌, ◌||◌, not, none, some, List, [], ◌∷◌, ◌++◌, ltb, ◌==◌,
  if◌then◌else◌, Str, str_eq, u64, sub64, lookup, lookup_or, insert, any,
}
use cln_circular.Rebalance.Result.{Result, PrettyHop}
use cln_circular.Parallel.Run.{Run, RunResult, Success, Flight, Surroundings, skipped, left_queue}
use cln_circular.Parallel.Fire.{release_fee, fire_candidates}
use cln_circular.Parallel.Judge.{add_failures, count_fail_streak, judge_candidate, how_it_failed}

abbrev first_scid : List PrettyHop → Str
first_scid [] = []
first_scid (hop ∷ _) = hop.short_channel_id

abbrev last_scid : List PrettyHop → Str
last_scid [] = []
last_scid (hop ∷ []) = hop.short_channel_id
last_scid (_ ∷ hop ∷ hops) = last_scid (hop ∷ hops)

abbrev pub hops_of : Result → List PrettyHop
hops_of res = elim res.route [ some hops ↦ hops | none ↦ [] ]

-- The scid of the candidate, by the route of a success: its first hop in a pull, its last in a push.
unfoldable pub route_scid : Run → Result → Str
route_scid r res = if r.settings.pulls then first_scid (hops_of res) else last_scid (hops_of res)

abbrev pub candidate_peer : Run → Result → Str
candidate_peer r res = if r.settings.pulls then res.out_peer else res.in_peer

-- `ByPPM[ppm] += amount`
unfoldable pub add_ppm : ℕ → ℕ → List (ℕ × ℕ) → List (ℕ × ℕ)
add_ppm ppm amount [] = (ppm, amount) ∷ []
add_ppm ppm amount ((p, a) ∷ m) =
    let rest = add_ppm ppm amount m in if p == ppm then (p, u64 (a + amount)) ∷ m else (p, a) ∷ rest

-- AbstractRebalance.AddSuccessGeneric
unfoldable pub add_success_generic : Surroundings → Str → Str → ℕ → ℕ → RunResult → RunResult
unfolding add_ppm
add_success_generic s scid node ppm amount result =
    let new : Success = record {
      peer_alias = s.alias_of node;
      node_id = node;
      by_ppm = [];
      involving = [];
    } in
    let old = lookup_or scid new result.successes in
    let added = record old { by_ppm = add_ppm ppm amount old.by_ppm } in
    record result {
      rebalanced_amount = u64 (result.rebalanced_amount + amount);
      successes = insert scid added result.successes;
    }

-- The loop of AbstractRebalance.addInvolving
unfoldable pub involve : Str → Str → List PrettyHop → List Str → List Str
involve ours peer [] ids = ids
involve ours peer (hop ∷ hops) ids =
    let known =
      str_eq hop.id []
      || str_eq hop.id ours
      || str_eq hop.id peer
      || any (λ i. str_eq i hop.id) ids in
    involve ours peer hops (if known then ids else ids ++ hop.id ∷ [])

-- AddSuccess
unfoldable pub add_success : Surroundings → Result → Run → Run
unfolding add_success_generic involve route_scid
add_success s res r =
    let scid = route_scid r res in
    let peer = candidate_peer r res in
    let added = add_success_generic s scid peer res.ppm res.amount r.result in
    elim (lookup scid added.successes) [
      | none ↦ record r { result = added }
      | some success ↦
          let involved = record success {
            involving = involve s.our_id peer (hops_of res) success.involving;
          } in
          record r { result = record added { successes = insert scid involved added.successes } }
    ]

-- EnqueueCandidate
unfoldable pub enqueue_candidate : Surroundings → Result → Run → Run
unfolding route_scid left_queue
enqueue_candidate s res r = elim (s.channel_of (route_scid r res)) [
  | none ↦ left_queue res.candidate (skipped s.missing) r
  | some c ↦ record r {
    routes = insert (route_scid r res) res.channels r.routes;
    candidates = c ∷ r.candidates;
  }
]

-- A success, in the loop of waitForRound.
unfoldable pub note_success : Surroundings → Result → Run → Run
unfolding add_success enqueue_candidate
note_success s res r =
    let added = add_success s res r in
    let counted = record added {
      result = record added.result {
        splits_succeeded = added.result.splits_succeeded + 1;
        fees_paid_msat = u64 (added.result.fees_paid_msat + res.fee);
      };
      round = record added.round {
        max_paid = if ltb added.round.max_paid res.ppm then res.ppm else added.round.max_paid;
      };
      moved_msat = u64 (added.moved_msat + res.amount_msat);
    } in
    enqueue_candidate s res counted

-- priceHeld
unfoldable pub price_held : Result → Bool
price_held res =
    not res.own_limit && (ltb 0 res.cheapest_ppm || res.in_over_max || ltb 0 res.middle_failures)

abbrev pub least_known : ℕ → ℕ → ℕ
least_known p known = if ltb 0 p && (known == 0 || ltb p known) then p else known

abbrev before_slash : Str → Str
before_slash [] = []
before_slash (b ∷ s) = let rest = before_slash s in if b == b'/' then [] else b ∷ rest

-- AbstractRebalance.splitName: the scid of the candidate and the alias of its peer.
unfoldable pub split_name : Surroundings → Result → Run → Str × Str
split_name s res r = (before_slash res.candidate, s.alias_of (candidate_peer r res))

-- A failure, in the loop of waitForRound.
unfoldable pub note_failure : Surroundings → Result → Run → Run
unfolding price_held split_name
note_failure s res r =
    let says = not (str_eq res.message []) && not res.halted in
    let result = r.result in
    let round = r.round in
    record r {
      result = record result {
        splits_failed = if res.halted then result.splits_failed else result.splits_failed + 1;
        feeratio_held =
            if res.held_by_own_limit then result.feeratio_held + 1 else result.feeratio_held;
        cheapest_over_max = least_known res.cheapest_ppm result.cheapest_over_max;
        last_error = if says then some (split_name s res r, res.message) else result.last_error;
      };
      round = record round {
        priced = price_held res || round.priced;
        cheapest = least_known res.cheapest_ppm round.cheapest;
      };
    }

-- The flights but the k-th: its result was read.
unfoldable pub remove_flight : ℕ → List Flight → List Flight
remove_flight k [] = []
remove_flight zero (f ∷ fs) = fs
remove_flight (suc k) (f ∷ fs) = f ∷ remove_flight k fs

-- AbstractRebalance.UpdateAmounts
unfoldable pub update_amounts : Result → Run → Run
unfolding release_fee
update_amounts res r =
    let released = release_fee res.requested r in
    record released {
      in_flight_amount = sub64 r.in_flight_amount res.requested;
      splits_in_flight = r.splits_in_flight - 1;
      amount_rebalanced =
          if res.success then u64 (r.amount_rebalanced + res.amount_msat) else r.amount_rebalanced;
    }

-- What waitForRound counts and judges of a result before its amounts.
unfoldable pub judged : Surroundings → Result → Run → Run
unfolding count_fail_streak judge_candidate add_failures left_queue how_it_failed
judged s res r =
    let counted = record r {
      total_attempts = u64 (r.total_attempts + res.attempts);
      failed_at = add_failures res.failed_nodes r.failed_at;
    } in
    let judged = judge_candidate s res (count_fail_streak s res counted) in
    if res.success || str_eq res.candidate []
    then judged
    else left_queue res.candidate (how_it_failed res judged) judged

-- The result of the k-th flight, up to its amounts.
unfoldable pub settle : Surroundings → ℕ → Result → Run → Run
unfolding judged note_success note_failure update_amounts remove_flight
settle s k res r =
    let read = record r { flights = remove_flight k r.flights } in
    let noted = judged s res read in
    update_amounts res (if res.success then note_success s res noted else note_failure s res noted)

-- The body of the loop of AbstractRebalance.waitForRound, on the result of the k-th flight.
unfoldable pub land : Surroundings → ℕ → Result → Run → Run
unfolding settle fire_candidates
land s k res r = fire_candidates s (settle s k res r)
