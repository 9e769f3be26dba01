-- ===== src/Parallel/Accounts.antt =====
-- Laws of the amounts and the fee budget as a run fires splits
-- (rebalance/parallel/candidates.go, result.go).
use cln_circular.Common.{
  ℕ, zero, suc, ◌+◌, ◌≤◌, ◌<◌, ◌≡◌, refl, sym, ap, ◌∙◌, subst, Bool, true, false, Option, none,
  some, List, [], ◌∷◌, arith, ltb, leb, ◌==◌, if◌then◌else◌, Str, u64, u64_mod, max_uint64, length,
  Bool-cases, inl, inr,
}
use cln_circular.Graph.Fee.{add_saturating, max_fee_for_ppm}
use cln_circular.Graph.Channel.{Channel, channel_id}
use cln_circular.Parallel.Run.{Run, Flight, Surroundings, round_goal, note_stop}
use cln_circular.Parallel.Fire.{
  within_budget, worst_fee, reserve_fee, next_candidate, can_fire, next_amount, fire, over_budget,
  fire_step, fire_next, fire_in_budget, fire_unless_stopped, fire_while, fire_loop, fire_candidates,
  launch,
}
use cln_circular.Parallel.Ledger.{Ledger, ledger, ledger-if, ledger-next_candidate}

-- What the splits in flight ask for, and the most that they can pay.
abbrev pub total : List Flight → ℕ
total [] = 0
total (f ∷ fs) = f.requested + total fs

abbrev pub worst_total : ℕ → List Flight → ℕ
worst_total ppm [] = 0
worst_total ppm (f ∷ fs) = max_fee_for_ppm f.requested ppm + worst_total ppm fs

-- The counters agree with the splits in flight, and these can complete the amount at most.
pub record IsBalanced (l : Ledger) : Type 0 where
  pub fits : l.settings.amount < u64_mod
  pub counted : l.count ≡ length l.flights
  pub summed : l.in_flight ≡ total l.flights
  pub within : l.rebalanced + total l.flights ≤ l.settings.amount
  pub few : length l.flights ≤ l.settings.splits

-- What is paid and what is reserved for the splits in flight fit in the run's fee budget.
pub record IsInBudget (l : Ledger) : Type 0 where
  pub limited : 0 < l.settings.max_fee_msat
  pub finite : l.settings.max_fee_msat < max_uint64
  pub reserved : l.reserved ≡ worst_total l.max_ppm l.flights
  pub within : l.fees_paid + l.reserved ≤ l.settings.max_fee_msat

pub max_fee_for_ppm-fits : (amount ppm : ℕ) → max_fee_for_ppm amount ppm ≤ max_uint64
unfolding max_fee_for_ppm
max_fee_for_ppm-fits amount ppm = ground arith

-- The ledger after a split is fired.
abbrev charge : Str → ℕ → Ledger → Ledger
charge id amount l = record l {
  in_flight = u64 (l.in_flight + amount);
  count = l.count + 1;
  flights = record { candidate = id; requested = amount } ∷ l.flights;
  reserved =
      if ltb 0 l.settings.max_fee_msat
      then add_saturating l.reserved (max_fee_for_ppm amount l.max_ppm)
      else l.reserved;
}

ledger-reserve_fee :
    (amount : ℕ) (r : Run)
    → ledger (reserve_fee amount r) ≡ record (ledger r) {
      reserved =
          if ltb 0 r.settings.max_fee_msat
          then add_saturating r.fee_reserved (max_fee_for_ppm amount r.round.max_ppm)
          else r.fee_reserved;
    }
unfolding reserve_fee worst_fee
ledger-reserve_fee amount r =
    elim (ltb 0 r.settings.max_fee_msat)
      as (λ b.
        ledger (
          if b
          then record r { fee_reserved = add_saturating r.fee_reserved (worst_fee r amount) }
          else r)
        ≡ record (ledger r) {
          reserved =
              if b
              then add_saturating r.fee_reserved (max_fee_for_ppm amount r.round.max_ppm)
              else r.fee_reserved;
        }) [ true ↦ refl | false ↦ refl ]

ledger-fire :
    (s : Surroundings) (c : Channel) (amount : ℕ) (r : Run)
    → ledger (fire s c amount r) ≡ charge (channel_id c) amount (ledger r)
unfolding fire launch reserve_fee worst_fee
ledger-fire s c amount r = elim (Bool-cases (ltb 0 r.settings.max_fee_msat)) [
  | inl t ↦ rw t refl
  | inr t ↦ rw t refl
]

-- The condition of the loop, on the ledger.
can_fire-room :
    (r : Run)
    → can_fire r ≡ true
    → IsBalanced (ledger r)
    → (r.amount_rebalanced + total r.flights + next_amount r ≤ r.settings.amount)
      × (length r.flights < r.settings.splits)
unfolding can_fire next_amount round_goal
can_fire-room r t h = (ground (arith, h.fits, h.summed, h.within), ground (arith, h.counted))

charge-IsBalanced :
    (id : Str) (amount : ℕ) (l : Ledger)
    → IsBalanced l
    → l.rebalanced + total l.flights + amount ≤ l.settings.amount
    → length l.flights < l.settings.splits
    → IsBalanced (charge id amount l)
charge-IsBalanced id amount l h room few = record {
  fits = h.fits;
  counted = omega (arith, h.counted);
  summed = omega (arith, h.summed, h.fits);
  within = omega arith;
  few = omega arith;
}

-- A split that fits in the budget leaves no sum of it capped.
fits_budget :
    (paid reserved worst limit : ℕ)
    → paid + reserved ≤ limit
    → limit < max_uint64
    → worst ≤ max_uint64
    → leb (add_saturating (add_saturating paid reserved) worst) limit ≡ true
    → (paid + reserved + worst ≤ limit) × (add_saturating reserved worst ≡ reserved + worst)
unfolding add_saturating
fits_budget paid reserved worst limit h m w t = (ground arith, ground arith)

charge-IsInBudget :
    (id : Str) (amount : ℕ) (l : Ledger)
    → IsInBudget l
    → leb
        (add_saturating (add_saturating l.fees_paid l.reserved) (max_fee_for_ppm amount l.max_ppm))
        l.settings.max_fee_msat
      ≡ true
    → IsInBudget (charge id amount l)
charge-IsInBudget id amount l h t =
    let worst = max_fee_for_ppm amount l.max_ppm in
    let (room, exact) =
      fits_budget l.fees_paid l.reserved worst l.settings.max_fee_msat h.within h.finite
        (max_fee_for_ppm-fits amount l.max_ppm) t in
    record {
      limited = h.limited;
      finite = h.finite;
      reserved = ground (arith, h.limited, h.reserved, exact);
      within = ground (arith, h.limited, room, exact);
    }

over_budget-ledger :
    (s : Surroundings) (amount : ℕ) (r : Run) → ledger (over_budget s amount r) ≡ ledger r
unfolding over_budget note_stop
over_budget-ledger s amount r = ledger-if (r.splits_in_flight == 0) _ r refl refl

-- A property of the ledger that a split fired within the loop's conditions keeps.
abbrev Survives : (Ledger → Type 0) → Type 0
Survives P =
    (r : Run) (id : Str)
    → can_fire r ≡ true
    → within_budget r (next_amount r) ≡ true
    → P (ledger r)
    → P (charge id (next_amount r) (ledger r))

module _ (P : Ledger → Type 0) (s : Surroundings) (survives : Survives P) where
  fire_next-keeps :
      (r : Run) (found : Run × Option Channel)
      → can_fire r ≡ true
      → within_budget r (next_amount r) ≡ true
      → ledger found.0 ≡ ledger r
      → P (ledger r)
      → P (ledger (fire_next s (next_amount r) found).0)
  unfolding fire_next
  fire_next-keeps r (r', none) t b e h = subst P (sym e) h
  fire_next-keeps r (r', some c) t b e h =
      let charged = survives r (channel_id c) t b h in
      let path =
        ledger-fire s c (next_amount r) r' ∙ ap (charge (channel_id c) (next_amount r)) e in
      subst P (sym path) charged

  fire_in_budget-keeps :
      (r : Run) (b : Bool)
      → can_fire r ≡ true
      → within_budget r (next_amount r) ≡ b
      → P (ledger r)
      → P (ledger (fire_in_budget s r b).0)
  unfolding fire_in_budget
  fire_in_budget-keeps r false t e h = subst P (sym (over_budget-ledger s (next_amount r) r)) h
  fire_in_budget-keeps r true t e h =
      let path = ledger-next_candidate s r.candidates r in
      fire_next-keeps r (next_candidate s r.candidates r) t e path h

  fire_unless_stopped-keeps :
      (r : Run) (b : Bool)
      → can_fire r ≡ true
      → P (ledger r)
      → P (ledger (fire_unless_stopped s r b).0)
  unfolding fire_unless_stopped
  fire_unless_stopped-keeps r true t h = h
  fire_unless_stopped-keeps r false t h =
      fire_in_budget-keeps r (within_budget r (next_amount r)) t refl h

  fire_while-keeps :
      (r : Run) (b : Bool) → can_fire r ≡ b → P (ledger r) → P (ledger (fire_while s r b).0)
  unfolding fire_while
  fire_while-keeps r false e h = h
  fire_while-keeps r true e h = fire_unless_stopped-keeps r (s.node_stopped r.target.fire_seq) e h

  fire_step-keeps : (r : Run) → P (ledger r) → P (ledger (fire_step s r).0)
  unfolding fire_step
  fire_step-keeps r h = fire_while-keeps r (can_fire r) refl h

  fire_loop-keeps : (n : ℕ) (r : Run) → P (ledger r) → P (ledger (fire_loop s n r))
  unfolding fire_loop
  fire_loop-keeps zero r h = h
  fire_loop-keeps (suc n) r h =
      elim (fire_step s r).1
        as (λ b. P (
          ledger (elim b as (λ _. Run) [
            | true ↦ fire_loop s n (fire_step s r).0
            | false ↦ (fire_step s r).0
          ]))) [
            | true ↦ fire_loop-keeps n (fire_step s r).0 (fire_step-keeps r h)
            | false ↦ fire_step-keeps r h
          ]

IsBalanced-survives : Survives IsBalanced
IsBalanced-survives r id t b h =
    let (room, few) = can_fire-room r t h in
    charge-IsBalanced id (next_amount r) (ledger r) h room few

within_budget-leb :
    (r : Run) (amount : ℕ)
    → 0 < r.settings.max_fee_msat
    → within_budget r amount ≡ true
    → leb
        (add_saturating
          (add_saturating r.result.fees_paid_msat r.fee_reserved)
          (max_fee_for_ppm amount r.round.max_ppm))
        r.settings.max_fee_msat
      ≡ true
unfolding within_budget worst_fee
within_budget-leb r amount h t = ground arith

IsInBudget-survives : Survives IsInBudget
IsInBudget-survives r id t b h =
    charge-IsInBudget id (next_amount r) (ledger r) h
      (within_budget-leb r (next_amount r) h.limited b)

-- Firing splits keeps the accounts balanced: with those in flight, the run never asks for more than
-- its amount, nor for more splits at once than it may have.
pub fire_candidates-IsBalanced :
    (s : Surroundings) (r : Run) → IsBalanced (ledger r) → IsBalanced (ledger (fire_candidates s r))
unfolding fire_candidates
fire_candidates-IsBalanced s r h =
    fire_loop-keeps IsBalanced s IsBalanced-survives (suc (length r.candidates)) r h

-- Firing splits keeps the run in its fee budget: what it paid, and the most that every split in
-- flight can pay, stay within the budget.
pub fire_candidates-IsInBudget :
    (s : Surroundings) (r : Run) → IsInBudget (ledger r) → IsInBudget (ledger (fire_candidates s r))
unfolding fire_candidates
fire_candidates-IsInBudget s r h =
    fire_loop-keeps IsInBudget s IsInBudget-survives (suc (length r.candidates)) r h

pub fire_candidates-settings :
    (s : Surroundings) (r : Run) → (fire_candidates s r).settings ≡ r.settings
unfolding fire_candidates
fire_candidates-settings s r =
    fire_loop-keeps (λ l. l.settings ≡ r.settings) s (λ _ _ _ _ h. h) (suc (length r.candidates)) r
      refl
