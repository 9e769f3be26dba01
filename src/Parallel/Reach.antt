-- ===== src/Parallel/Reach.antt =====
-- The events of a run as a step relation, and laws of the states it reaches (WaitForResult of
-- rebalance/parallel/result.go).
use cln_circular.Common.{
  ℕ, ◌+◌, ◌≤◌, ◌≡◌, ◌⊎◌, inl, inr, refl, sym, ap, ◌∙◌, subst, Bool, true, none, some, [], arith,
  ◌==◌, length, get_elem?, max_uint64,
}
use cln_circular.Graph.Fee.{max_fee_for_ppm}
use cln_circular.Rebalance.Result.{Result}
use cln_circular.Parallel.Run.{
  Run, Settings, Flight, Surroundings, note_stop, held, time_limit, gave_up,
}
use cln_circular.Parallel.Landing.{land}
use cln_circular.Parallel.Rounds.{
  time_up, close_round, another_round, count_idle, give_up, NextRound, next_step, new_round,
  reset_round, Found, set_aside_stop, is_over, note_last_round, decide_round,
}
use cln_circular.Parallel.Ledger.{Ledger, ledger, ledger-if, ledger-if_pair, ledger-note_stop}
use cln_circular.Parallel.Accounts.{
  IsBalanced, IsInBudget, worst_total, fire_candidates-IsBalanced, fire_candidates-IsInBudget,
  fire_candidates-settings,
}
use cln_circular.Parallel.Landed.{land-IsBalanced, land-IsInBudget, land-settings}

-- One event of a run: a split in flight gives its result, which delivers and pays no more than it
-- may; the time limit comes; or, with nothing in flight, the next round starts.
pub data Step : Run → Run → Type 0 where
  landed :
      (s : Surroundings) (k : ℕ) (res : Result) {r : Run} {f : Flight}
      → get_elem? r.flights k ≡ some f
      → f.requested ≡ res.requested
      → res.amount_msat ≤ res.requested
      → res.fee ≤ max_fee_for_ppm res.requested r.round.max_ppm
      → Step r (land s k res r)
  timed_out : (s : Surroundings) {r : Run} → Step r (time_up s r)
  next_round :
      (s s' : Surroundings) (found : Found) (n : NextRound) {r : Run}
      → r.flights ≡ []
      → (another_round s (close_round r)).1 ≡ some n
      → Step r (new_round s' n.price n.probe found (another_round s (close_round r)).0)

pub data Reaches : Run → Run → Type 0 where
  start : {r : Run} → Reaches r r
  after : {r r' r'' : Run} → Reaches r r' → Step r' r'' → Reaches r r''

-- A run without a fee budget: none was set, or one that no sum of fees exceeds in 64 bits.
abbrev pub HasNoBudget : Settings → Type 0
HasNoBudget settings = (settings.max_fee_msat ≡ 0) ⊎ (max_uint64 ≤ settings.max_fee_msat)

pub record IsSafe (settings : Settings) (r : Run) : Type 0 where
  pub asked : r.settings ≡ settings
  pub balanced : IsBalanced (ledger r)
  pub in_budget : HasNoBudget settings ⊎ IsInBudget (ledger r)

keep_budget : {A B C : Type 0} → (B → C) → A ⊎ B → A ⊎ C
keep_budget f (inl a) = inl a
keep_budget f (inr b) = inr (f b)

ledger-time_up : (s : Surroundings) (r : Run) → ledger (time_up s r) ≡ ledger r
unfolding time_up set_aside_stop
ledger-time_up s r =
    let stopped = record r { time_stopped = true; halt = true } in
    ledger-if r.time_stopped r (note_stop (held s r) time_limit (set_aside_stop stopped)) refl (
      ledger-note_stop (held s r) time_limit (set_aside_stop stopped)
      ∙ ledger-if _
          (record stopped {
            result = record r.result { last_round = r.first_stop; stopped = none };
            first_stop = none;
          })
          stopped refl refl)

ledger-close_round : (r : Run) → ledger (close_round r) ≡ ledger r
unfolding close_round
ledger-close_round r = ledger-if (r.settings.retry_every == 0) r _ refl refl

ledger-count_idle : (r : Run) → ledger (count_idle r) ≡ ledger r
unfolding count_idle
ledger-count_idle r =
    let more = record r { idle_rounds = r.idle_rounds + 1 } in
    let over = record r { idle_rounds = 0 } in
    ledger-if _ more _ refl
      (ledger-if _ over _ refl (ledger-if _ r _ refl (ledger-if _ over r refl refl)))

ledger-give_up : (s : Surroundings) (r : Run) → ledger (give_up s r) ≡ ledger r
unfolding give_up
ledger-give_up s r =
    ledger-note_stop (held s r) (gave_up r.idle_rounds r.round.max_ppm r.round.cheapest)
      (record r { first_stop = none; result = record r.result { stopped = none } })

ledger-counted : (r : Run) → ledger (count_idle (note_last_round r)) ≡ ledger r
unfolding note_last_round
ledger-counted r = ledger-count_idle (note_last_round r) ∙ ledger-if _ r _ refl refl

ledger-another_round : (s : Surroundings) (r : Run) → ledger (another_round s r).0 ≡ ledger r
unfolding another_round decide_round
ledger-another_round s r =
    let counted = count_idle (note_last_round r) in
    ledger-if_pair (is_over s r) (r, none) (decide_round s counted) refl
      (ledger-if_pair _ (give_up s counted, none) (counted, some (next_step counted))
        (ledger-give_up s counted ∙ ledger-counted r) (ledger-counted r))

-- A new round starts with the same amounts: with nothing in flight, its new limit changes no account.
new_round-IsSafe :
    (st : Settings) (s : Surroundings) (price : ℕ) (probe : Bool) (found : Found) (r : Run)
    → r.flights ≡ []
    → IsSafe st r
    → IsSafe st (new_round s price probe found r)
unfolding new_round reset_round
new_round-IsSafe st s price probe found r e h =
    let reset = reset_round price probe r in
    let ready = record reset {
      candidates = found.queue;
      round = record reset.round { left_out = found.left_out; priced = found.priced };
    } in
    let in_budget : IsInBudget (ledger r) → IsInBudget (ledger ready) = λ b. record {
      limited = b.limited;
      finite = b.finite;
      reserved =
          b.reserved
          ∙ subst (λ fs. worst_total r.round.max_ppm fs ≡ worst_total price fs) (sym e) refl;
      within = b.within;
    } in
    let balanced : IsBalanced (ledger ready) = record {
      fits = h.balanced.fits;
      counted = h.balanced.counted;
      summed = h.balanced.summed;
      within = h.balanced.within;
      few = h.balanced.few;
    } in
    record {
      asked = fire_candidates-settings s ready ∙ h.asked;
      balanced = fire_candidates-IsBalanced s ready balanced;
      in_budget = keep_budget (λ b. fire_candidates-IsInBudget s ready (in_budget b)) h.in_budget;
    }

-- A change that leaves the ledger as it is.
same-IsSafe : (st : Settings) (r r' : Run) → ledger r' ≡ ledger r → IsSafe st r → IsSafe st r'
same-IsSafe st r r' e h = record {
  asked = ap (λ (l : Ledger). l.settings) e ∙ h.asked;
  balanced = subst IsBalanced (sym e) h.balanced;
  in_budget = keep_budget (subst IsInBudget (sym e)) h.in_budget;
}

Step-IsSafe : (st : Settings) {r r' : Run} → Step r r' → IsSafe st r → IsSafe st r'
Step-IsSafe st (landed s k res {r = r} {f = f} flight asked delivered paid) h = record {
  asked = land-settings s k res r flight asked ∙ h.asked;
  balanced = land-IsBalanced s k res r flight asked h.balanced delivered;
  in_budget = keep_budget (λ b. land-IsInBudget s k res r flight asked b paid) h.in_budget;
}
Step-IsSafe st (timed_out s {r = r}) h = same-IsSafe st r (time_up s r) (ledger-time_up s r) h
Step-IsSafe st (next_round s s' found n {r = r} e _) h =
    let closed = (another_round s (close_round r)).0 in
    let path = ledger-another_round s (close_round r) ∙ ledger-close_round r in
    let none_left = ap (λ (l : Ledger). l.flights) path ∙ e in
    new_round-IsSafe st s' n.price n.probe found closed none_left (same-IsSafe st r closed path h)

-- Every run reached from one whose accounts are balanced and in their budget, over any results,
-- time limit and rounds, is so too, with the same settings.
pub Reaches-IsSafe : (st : Settings) {r r' : Run} → Reaches r r' → IsSafe st r → IsSafe st r'
Reaches-IsSafe st start h = h
Reaches-IsSafe st (after path step) h = Step-IsSafe st step (Reaches-IsSafe st path h)

-- From a state whose accounts are balanced, and in their fee budget if the run has one, every state
-- that a run reaches has moved no more than its amount and has no more splits in flight than it may;
-- and, unless it has no budget (0, or 2^64 - 1 and more), what it paid, with the most that its splits
-- in flight can still pay, is within it.
pub Reaches-limits :
    (st : Settings) {r r' : Run}
    → Reaches r r'
    → IsSafe st r
    → (r'.amount_rebalanced ≤ st.amount)
      × (HasNoBudget st
          ⊎ (r'.result.fees_paid_msat + worst_total r'.round.max_ppm r'.flights ≤ st.max_fee_msat))
      × (length r'.flights ≤ st.splits)
Reaches-limits st {r = r} {r' = r'} path h =
    let safe = Reaches-IsSafe st path h in
    let amount = ap (λ (s : Settings). s.amount) safe.asked in
    let fee = ap (λ (s : Settings). s.max_fee_msat) safe.asked in
    let splits = ap (λ (s : Settings). s.splits) safe.asked in
    let kept : IsInBudget (ledger r')
        → r'.result.fees_paid_msat + worst_total r'.round.max_ppm r'.flights ≤ st.max_fee_msat =
      λ b.
        let within = b.within in
        let reserved = b.reserved in omega (arith, within, reserved, fee) in
    (
      omega (arith, safe.balanced.within, amount),
      keep_budget kept safe.in_budget,
      omega (arith, safe.balanced.few, splits),
    )
