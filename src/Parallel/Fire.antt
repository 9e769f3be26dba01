-- ===== src/Parallel/Fire.antt =====
-- Firing splits within the amount, the splits at once and the fee budget
-- (rebalance/parallel/candidates.go, and launch of parallel.go).
use cln_circular.Common.{
  ℕ, zero, suc, ◌+◌, ◌-◌, Bool, true, false, ◌&&◌, ◌||◌, not, Option, none, some, List, [], ◌∷◌,
  ltb, leb, ◌==◌, if◌then◌else◌, Str, u64, sub64, insert, length,
}
use cln_circular.Graph.Fee.{add_saturating, max_fee_for_ppm}
use cln_circular.Graph.Channel.{Channel, channel_id}
use cln_circular.Parallel.Run.{
  Run, Round, Surroundings, skipped, fee_budget, left_queue, note_stop, round_goal, held,
}
use cln_circular.Parallel.Target.{note_fired}

-- AbstractRebalance.worstFee
unfoldable pub worst_fee : Run → ℕ → ℕ
worst_fee r amount = max_fee_for_ppm amount r.round.max_ppm

-- AbstractRebalance.withinBudget, the test
unfoldable pub within_budget : Run → ℕ → Bool
unfolding worst_fee
within_budget r amount =
    r.settings.max_fee_msat == 0
    || leb
        (add_saturating (add_saturating r.result.fees_paid_msat r.fee_reserved)
          (worst_fee r amount))
        r.settings.max_fee_msat

-- AbstractRebalance.reserveFee
unfoldable pub reserve_fee : ℕ → Run → Run
unfolding worst_fee
reserve_fee amount r =
    if ltb 0 r.settings.max_fee_msat
    then record r { fee_reserved = add_saturating r.fee_reserved (worst_fee r amount) }
    else r

-- AbstractRebalance.releaseFee
unfoldable pub release_fee : ℕ → Run → Run
unfolding worst_fee
release_fee amount r =
    let worst = worst_fee r amount in
    if r.settings.max_fee_msat == 0
    then r
    else if ltb worst r.fee_reserved
    then record r { fee_reserved = r.fee_reserved - worst }
    else record r { fee_reserved = 0 }

-- notWorthIt: the reason for which GetNextCandidate notes such a candidate
abbrev pub not_worth_it : Str
not_worth_it =
    b'n' ∷ b'o' ∷ b't' ∷ b' ' ∷ b'w' ∷ b'o' ∷ b'r' ∷ b't' ∷ b'h' ∷ b' ' ∷ b'i' ∷ b't' ∷ b' ' ∷ b'a'
    ∷ b't' ∷ b' ' ∷ b'f' ∷ b'e' ∷ b'e' ∷ b'r' ∷ b'a' ∷ b't' ∷ b'i' ∷ b'o' ∷ []

unfoldable pub skip_unworthy : Channel → Run → Run
unfolding left_queue
skip_unworthy c r =
    let gone = left_queue (channel_id c) (skipped not_worth_it) r in
    record gone { feeratio_skipped = insert (channel_id c) true r.feeratio_skipped }

-- AbstractRebalance.GetNextCandidate over the queue: the run with the rest of it.
unfoldable pub next_candidate : Surroundings → List Channel → Run → Run × Option Channel
unfolding left_queue skip_unworthy
next_candidate s [] r = (record r { candidates = [] }, none)
next_candidate s (c ∷ queue) r = elim (s.cannot_use c) [
  | some why ↦ next_candidate s queue (left_queue (channel_id c) (skipped why) r)
  | none ↦ elim (s.not_worth r.round.max_ppm c) [
    | true ↦ next_candidate s queue (skip_unworthy c r)
    | false ↦ (record r { candidates = queue }, some c)
  ]
]

-- What newSplit notes of the highest limits of the round.
unfoldable pub note_limits : Surroundings → Channel → Round → Round
note_limits s c round =
    let e = s.economics round.max_ppm c in
    record round {
      top_limit = if ltb round.top_limit e.limit then e.limit else round.top_limit;
      most = if ltb round.most e.most then e.most else round.most;
    }

-- The part of AbstractRebalance.launch that changes the run.
unfoldable pub launch : Surroundings → Channel → ℕ → Run → Run
unfolding note_limits
launch s c amount r = record r {
  launched = insert (channel_id c) c r.launched;
  round = note_limits s c r.round;
  flights = record { candidate = channel_id c; requested = amount } ∷ r.flights;
}

-- The condition of the loop of FireCandidates, and the amount of the next split.
unfoldable pub can_fire : Run → Bool
unfolding round_goal
can_fire r =
    ltb (u64 (r.amount_rebalanced + r.in_flight_amount)) (round_goal r)
    && ltb r.splits_in_flight r.settings.splits
    && not r.target.stopped
    && not r.streak_stopped
    && not r.time_stopped
    && not r.fee_stopped
    && (r.target.cap == 0 || ltb r.splits_in_flight r.target.cap)

unfoldable pub next_amount : Run → ℕ
unfolding round_goal
next_amount r =
    let left = sub64 (sub64 (round_goal r) r.amount_rebalanced) r.in_flight_amount in
    if ltb r.settings.split_amount left then r.settings.split_amount else left

-- The rest of the loop's body, once it has a candidate.
unfoldable pub fire : Surroundings → Channel → ℕ → Run → Run
unfolding launch reserve_fee
fire s c amount r =
    let at_target = r.splits_in_flight - s.waiting (r.target.fire_seq + 1) in
    let noted = record r {
      target = note_fired (channel_id c) at_target r.target;
      held_by_stop = false;
    } in
    let launched = launch s c amount (reserve_fee amount noted) in
    record launched {
      in_flight_amount = u64 (r.in_flight_amount + amount);
      splits_in_flight = r.splits_in_flight + 1;
    }

-- The next split did not fit in the fee budget.
unfoldable pub over_budget : Surroundings → ℕ → Run → Run
unfolding note_stop held worst_fee
over_budget s amount r =
    let stopped = record r { fee_stopped = true } in
    let why = fee_budget r.result.fees_paid_msat (worst_fee r amount) in
    if r.splits_in_flight == 0 then note_stop (held s r) why stopped else r

-- The end of the loop's body, on what GetNextCandidate gives.
unfoldable pub fire_next : Surroundings → ℕ → Run × Option Channel → Run × Bool
unfolding fire
fire_next s amount (r, none) = (r, false)
fire_next s amount (r, some c) = (fire s c amount r, true)

-- The loop's body after its tests: of the fee budget, of circular-stop, and the loop's condition.
unfoldable pub fire_in_budget : Surroundings → Run → Bool → Run × Bool
unfolding over_budget next_candidate fire_next
fire_in_budget s r false = (over_budget s (next_amount r) r, false)
fire_in_budget s r true = fire_next s (next_amount r) (next_candidate s r.candidates r)

unfoldable pub fire_unless_stopped : Surroundings → Run → Bool → Run × Bool
unfolding fire_in_budget
fire_unless_stopped s r true = (record r { held_by_stop = true }, false)
fire_unless_stopped s r false = fire_in_budget s r (within_budget r (next_amount r))

unfoldable pub fire_while : Surroundings → Run → Bool → Run × Bool
unfolding fire_unless_stopped
fire_while s r false = (r, false)
fire_while s r true = fire_unless_stopped s r (s.node_stopped r.target.fire_seq)

-- The body of the loop of AbstractRebalance.FireCandidates, and whether it goes on.
unfoldable pub fire_step : Surroundings → Run → Run × Bool
unfolding fire_while can_fire next_amount within_budget
fire_step s r = fire_while s r (can_fire r)

unfoldable pub fire_loop : Surroundings → ℕ → Run → Run
unfolding fire_step
fire_loop s zero r = r
fire_loop s (suc n) r = elim (fire_step s r).1 [
  | true ↦ fire_loop s n (fire_step s r).0
  | false ↦ (fire_step s r).0
]

-- AbstractRebalance.FireCandidates: every split takes a candidate out of the queue, so its length
-- bounds the loop.
unfoldable pub fire_candidates : Surroundings → Run → Run
unfolding fire_loop
fire_candidates s r = fire_loop s (suc (length r.candidates)) r
