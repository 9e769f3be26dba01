-- ===== src/Parallel/Idle.antt =====
-- Laws of FireCandidates (rebalance/parallel/candidates.go).
use cln_circular.Common.{
  ℕ, zero, suc, ◌≤◌, ◌<◌, ◌≡◌, refl, sym, subst, Bool, true, false, Option, none, some, List, [],
  ◌∷◌, arith, ltb, ◌==◌, if◌then◌else◌, length, Bool-cases, inl, inr,
}
use cln_circular.Graph.Channel.{Channel, channel_id}
use cln_circular.Parallel.Run.{Run, Surroundings, note_stop, held, fee_budget, skipped, left_queue}
use cln_circular.Parallel.Fire.{
  within_budget, next_candidate, skip_unworthy, can_fire, next_amount, fire, over_budget, fire_step,
  fire_next, fire_in_budget, fire_unless_stopped, fire_while, fire_loop, fire_candidates, launch,
  reserve_fee, worst_fee,
}

-- Why no more splits are fired: the loop's condition fails, circular-stop holds the run, the next
-- split does not fit in the fee budget, or no candidate is left.
pub data IsIdle (s : Surroundings) (r : Run) : Type 0 where
  condition : can_fire r ≡ false → IsIdle s r
  stopped : s.node_stopped r.target.fire_seq ≡ true → r.held_by_stop ≡ true → IsIdle s r
  over : within_budget r (next_amount r) ≡ false → IsIdle s r
  no_candidate : r.candidates ≡ [] → IsIdle s r

-- What a step of the loop leaves: a run that fires no more, or a shorter queue.
abbrev Progress : Surroundings → ℕ → Run × Bool → Type 0
Progress s n (r, true) = length r.candidates < n
Progress s n (r, false) = IsIdle s r

-- What GetNextCandidate leaves of the queue.
abbrev Shorter : ℕ → Run × Option Channel → Type 0
Shorter n (r, some _) = length r.candidates < n
Shorter n (r, none) = r.candidates ≡ []

Shorter-mono : (n m : ℕ) (o : Run × Option Channel) → n ≤ m → Shorter n o → Shorter m o
Shorter-mono n m (r, some _) h k = omega arith
Shorter-mono n m (r, none) h k = k

next_candidate-Shorter :
    (s : Surroundings) (queue : List Channel) (r : Run)
    → Shorter (length queue) (next_candidate s queue r)
unfolding next_candidate
next_candidate-Shorter s [] r = refl
next_candidate-Shorter s (c ∷ queue) r =
    let later = λ (r' : Run).
      Shorter-mono (length queue) (suc (length queue)) (next_candidate s queue r') (omega arith)
        (next_candidate-Shorter s queue r') in
    elim (s.cannot_use c)
      as (λ o. Shorter (suc (length queue)) (elim o as (λ _. Run × Option Channel) [
        | some why ↦ next_candidate s queue (left_queue (channel_id c) (skipped why) r)
        | none ↦ elim (s.not_worth r.round.max_ppm c) as (λ _. Run × Option Channel) [
          | true ↦ next_candidate s queue (skip_unworthy c r)
          | false ↦ (record r { candidates = queue }, some c)
        ]
      ])) [
        | some why ↦ later (left_queue (channel_id c) (skipped why) r)
        | none ↦
            elim (s.not_worth r.round.max_ppm c)
              as (λ b. Shorter (suc (length queue)) (elim b as (λ _. Run × Option Channel) [
                | true ↦ next_candidate s queue (skip_unworthy c r)
                | false ↦ (record r { candidates = queue }, some c)
              ])) [ true ↦ later (skip_unworthy c r) | false ↦ omega arith ]
      ]

candidates-fire :
    (s : Surroundings) (c : Channel) (amount : ℕ) (r : Run)
    → (fire s c amount r).candidates ≡ r.candidates
unfolding fire launch reserve_fee worst_fee
candidates-fire s c amount r = elim (Bool-cases (ltb 0 r.settings.max_fee_msat)) [
  | inl t ↦ rw t refl
  | inr t ↦ rw t refl
]

fire_next-Progress :
    (s : Surroundings) (n amount : ℕ) (o : Run × Option Channel)
    → Shorter n o
    → Progress s n (fire_next s amount o)
unfolding fire_next
fire_next-Progress s n amount (r, none) h = no_candidate h
fire_next-Progress s n amount (r, some c) h =
    subst (λ q. length q < n) (sym (candidates-fire s c amount r)) h

fee_stopped-can_fire : (r : Run) → r.fee_stopped ≡ true → can_fire r ≡ false
unfolding can_fire
fee_stopped-can_fire r h = ground arith

IsIdle-if :
    (s : Surroundings) (b : Bool) (x y : Run)
    → IsIdle s x
    → IsIdle s y
    → IsIdle s (if b then x else y)
IsIdle-if s true x y h k = h
IsIdle-if s false x y h k = k

over_budget-IsIdle :
    (s : Surroundings) (r : Run)
    → within_budget r (next_amount r) ≡ false
    → IsIdle s (over_budget s (next_amount r) r)
unfolding over_budget note_stop
over_budget-IsIdle s r e =
    let ended =
      note_stop (held s r) (fee_budget r.result.fees_paid_msat (worst_fee r (next_amount r)))
        (record r { fee_stopped = true }) in
    IsIdle-if s (r.splits_in_flight == 0) ended r (condition (fee_stopped-can_fire ended refl))
      (over e)

fire_in_budget-Progress :
    (s : Surroundings) (r : Run) (b : Bool)
    → within_budget r (next_amount r) ≡ b
    → Progress s (length r.candidates) (fire_in_budget s r b)
unfolding fire_in_budget
fire_in_budget-Progress s r false e = over_budget-IsIdle s r e
fire_in_budget-Progress s r true e =
    fire_next-Progress s (length r.candidates) (next_amount r) (next_candidate s r.candidates r)
      (next_candidate-Shorter s r.candidates r)

fire_unless_stopped-Progress :
    (s : Surroundings) (r : Run) (b : Bool)
    → s.node_stopped r.target.fire_seq ≡ b
    → Progress s (length r.candidates) (fire_unless_stopped s r b)
unfolding fire_unless_stopped
fire_unless_stopped-Progress s r true e = stopped e refl
fire_unless_stopped-Progress s r false e =
    fire_in_budget-Progress s r (within_budget r (next_amount r)) refl

fire_while-Progress :
    (s : Surroundings) (r : Run) (b : Bool)
    → can_fire r ≡ b
    → Progress s (length r.candidates) (fire_while s r b)
unfolding fire_while
fire_while-Progress s r false e = condition e
fire_while-Progress s r true e =
    fire_unless_stopped-Progress s r (s.node_stopped r.target.fire_seq) refl

fire_step-Progress : (s : Surroundings) (r : Run) → Progress s (length r.candidates) (fire_step s r)
unfolding fire_step
fire_step-Progress s r = fire_while-Progress s r (can_fire r) refl

-- One step, and the loop on a shorter queue.
go_on :
    (s : Surroundings) (n : ℕ) (r : Run) (o : Run × Bool)
    → Progress s (length r.candidates) o
    → ((r' : Run) → length r'.candidates < length r.candidates → IsIdle s (fire_loop s n r'))
    → IsIdle s (elim o.1 as (λ _. Run) [ true ↦ fire_loop s n o.0 | false ↦ o.0 ])
go_on s n r (r', true) k rest = rest r' k
go_on s n r (r', false) k rest = k

fire_loop-IsIdle :
    (s : Surroundings) (n : ℕ) (r : Run) → length r.candidates < n → IsIdle s (fire_loop s n r)
unfolding fire_loop
fire_loop-IsIdle s zero r h = absurd (omega arith)
fire_loop-IsIdle s (suc n) r h =
    go_on s n r (fire_step s r) (fire_step-Progress s r)
      (λ r' k. fire_loop-IsIdle s n r' (omega arith))

-- Firing splits always comes to an end, and only where no further split can be fired: the amount,
-- the splits at once or the target's limit is reached, the run was stopped, circular-stop holds it,
-- the next split does not fit in the fee budget, or no candidate is left.
pub fire_candidates-IsIdle : (s : Surroundings) (r : Run) → IsIdle s (fire_candidates s r)
unfolding fire_candidates
fire_candidates-IsIdle s r = fire_loop-IsIdle s (suc (length r.candidates)) r (omega arith)
