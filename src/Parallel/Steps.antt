-- ===== src/Parallel/Steps.antt =====
-- Laws of prices, probes and idle rounds (rebalance/parallel/result.go).
use cln_circular.Common.{
  ℕ, ◌+◌, ◌*◌, ◌/◌, ◌≤◌, ◌<◌, ◌≡◌, ◌⊎◌, refl, Bool, true, false, not, ◌&&◌, ◌||◌, Bool-cases, arith,
  ltb, ◌==◌, if◌then◌else◌, u64_mod, max_uint64, inl, inr,
}
use Prim.Native.Nat.{min}
use cln_circular.Parallel.Run.{Run, round_goal}
use cln_circular.Graph.FeeLaws.{div-le_iff}
use cln_circular.Parallel.Rounds.{
  held_limit, avg_ppm, step_cap, at_top, idle_at_top, count_idle, probe_size, next_step,
  reset_round,
}

-- The average rate of a fee is its exact rate rounded down, capped at the largest uint64 (and 0
-- where nothing moved).
pub avg_ppm_exact :
    (fee moved : ℕ)
    → fee < u64_mod
    → 0 < moved
    → moved < u64_mod
    → avg_ppm fee moved ≡ min max_uint64 (fee * 1000000 / moved)
unfolding avg_ppm
avg_ppm_exact fee moved f p m =
    let bound = div-le_iff (fee * 1000000) moved max_uint64 p in ground (arith, bound.0, bound.1)

-- The next round's price never goes above what stepping may reach, nor above where it was.
pub next_step-price-le :
    (r : Run) → r.round.max_ppm ≤ r.settings.cap_ppm → (next_step r).price ≤ r.settings.cap_ppm
unfolding next_step step_cap
next_step-price-le r h = ground arith

-- What a probe tries is no more than what is left, and something as long as something is left and a
-- split moves something: so a probe's goal lies above what was moved and within the run's amount.
pub reset_round-goal :
    (price : ℕ) (r : Run)
    → r.amount_rebalanced < r.settings.amount
    → r.settings.amount < u64_mod
    → 0 < r.settings.split_amount
    → (r.amount_rebalanced < round_goal (reset_round price true r))
      × (round_goal (reset_round price true r) ≤ r.settings.amount)
unfolding reset_round round_goal probe_size
reset_round-goal price r a b c = (ground arith, ground arith)

-- What countIdle does with the count of idle rounds: one more for a round that moved nothing at the
-- most that the run can pay although it priced a candidate, or held some back at its own limit; none
-- for one that moved something, or that ran lower than it could with a limit or a candidate left
-- out; and the same for what had nothing to tell.
pub data Counted (r : Run) : Run → Type 0 where
  one_more :
      {r' : Run}
      → r'.idle_rounds ≡ r.idle_rounds + 1
      → at_top r ≡ true
      → r.amount_rebalanced ≤ r.round.start_moved
      → (r.round.priced ≡ true) ⊎ (0 < held_limit r)
      → Counted r r'
  over_again :
      {r' : Run}
      → r'.idle_rounds ≡ 0
      → (r.round.start_moved < r.amount_rebalanced)
        ⊎ ((at_top r ≡ false) × ((0 < r.round.top_limit) ⊎ (r.round.left_out ≡ true)))
      → Counted r r'
  as_it_is :
      {r' : Run}
      → r'.idle_rounds ≡ r.idle_rounds
      → r.amount_rebalanced ≤ r.round.start_moved
      → ((at_top r ≡ true) × (r.round.priced ≡ false) × (held_limit r ≡ 0))
        ⊎ ((at_top r ≡ false) × (r.round.top_limit ≡ 0) × (r.round.left_out ≡ false))
      → Counted r r'

Counted-if :
    (r : Run) (b : Bool) (x y : Run)
    → (b ≡ true → Counted r x)
    → (b ≡ false → Counted r y)
    → Counted r (if b then x else y)
Counted-if r true x y f g = f refl
Counted-if r false x y f g = g refl

or-cases : (a b : Bool) → (a || b) ≡ true → (a ≡ true) ⊎ (b ≡ true)
or-cases true b h = inl refl
or-cases false b h = inr h

idle_at_top-true :
    (r : Run)
    → idle_at_top r ≡ true
    → (at_top r ≡ true)
      × (r.amount_rebalanced ≤ r.round.start_moved)
      × ((r.round.priced ≡ true) ⊎ (0 < held_limit r))
unfolding idle_at_top
idle_at_top-true r h =
    let told : (r.round.priced || ltb 0 (held_limit r)) ≡ true = ground arith in
    (
      ground arith,
      ground arith,
      elim (or-cases r.round.priced (ltb 0 (held_limit r)) told) [
        | inl priced ↦ inl priced
        | inr held ↦ inr (ground arith)
      ],
    )

-- A round at the top that moved nothing is idle, or had nothing to tell.
idle_at_top-false :
    (r : Run)
    → idle_at_top r ≡ false
    → at_top r ≡ true
    → r.amount_rebalanced ≤ r.round.start_moved
    → (at_top r ≡ true) × (r.round.priced ≡ false) × (held_limit r ≡ 0)
unfolding idle_at_top
idle_at_top-false r h top still = (top, ground arith, ground arith)

-- What happened, when a round moved nothing below the top.
below_top :
    (r : Run)
    → (r.round.top_limit == 0 && not r.round.left_out) ≡ false
    → (0 < r.round.top_limit) ⊎ (r.round.left_out ≡ true)
below_top r h = elim (Bool-cases r.round.left_out) [
  | inl out ↦ inr out
  | inr none_out ↦ inl (ground arith)
]

-- A round counts as idle just where it moved nothing at the most that the run can pay and something
-- was priced or held back; the count starts over just where the round moved something, or ran below
-- that price with a candidate that had a limit or was left out; else it stays.
pub count_idle-Counted : (r : Run) → Counted r (count_idle r)
unfolding count_idle
count_idle-Counted r =
    let more = record r { idle_rounds = r.idle_rounds + 1 } in
    let reset = record r { idle_rounds = 0 } in
    let moved = ltb r.round.start_moved r.amount_rebalanced in
    let nothing = r.round.top_limit == 0 && not r.round.left_out in
    let below = not (at_top r) in
    Counted-if r (idle_at_top r) more
      (if moved then reset else if nothing then r else if below then reset else r)
      (λ t. let (top, still, told) = idle_at_top-true r t in one_more refl top still told)
      (λ idle.
        Counted-if r moved reset (if nothing then r else if below then reset else r)
          (λ t. over_again refl (inl (ground arith)))
          (λ u.
            let still : r.amount_rebalanced ≤ r.round.start_moved = ground arith in
            elim (Bool-cases (at_top r)) [
              | inl top ↦
                  let quiet = idle_at_top-false r idle top still in
                  Counted-if r nothing r (if below then reset else r)
                    (λ _. as_it_is refl still (inl quiet))
                    (λ _.
                      Counted-if r below reset r (λ t. absurd (ground arith))
                        (λ _. as_it_is refl still (inl quiet)))
              | inr low ↦
                  Counted-if r nothing r (if below then reset else r)
                    (λ t. as_it_is refl still (inr (low, ground arith, ground arith)))
                    (λ t.
                      Counted-if r below reset r (λ _. over_again refl (inr (low, below_top r t)))
                        (λ b. absurd (ground arith)))
            ]))
