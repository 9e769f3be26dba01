-- ===== src/Parallel/Landed.antt =====
-- Laws of reading a split's result (rebalance/parallel/result.go): amounts and fee budget.
use cln_circular.Common.{
  ℕ, zero, suc, ◌+◌, ◌-◌, ◌≤◌, ◌≡◌, refl, sym, ap, ◌∙◌, subst, Bool, true, false, some, List, [],
  ◌∷◌, arith, ltb, ◌==◌, if◌then◌else◌, u64, sub64, length, get_elem?, Bool-cases, inl, inr,
}
use cln_circular.Graph.Fee.{max_fee_for_ppm}
use cln_circular.Rebalance.Result.{Result}
use cln_circular.Parallel.Run.{Run, Flight, Surroundings}
use cln_circular.Parallel.Fire.{worst_fee, release_fee}
use cln_circular.Parallel.Landing.{
  remove_flight, update_amounts, settle, judged, note_success, note_failure, land,
}
use cln_circular.Parallel.Ledger.{
  Ledger, ledger, ledger-judged, ledger-note_success, ledger-note_failure,
}
use cln_circular.Parallel.Accounts.{
  IsBalanced, IsInBudget, total, worst_total, fire_candidates-IsBalanced,
  fire_candidates-IsInBudget, fire_candidates-settings,
}

abbrev release : ℕ → Ledger → ℕ
release worst l =
    if l.settings.max_fee_msat == 0
    then l.reserved
    else if ltb worst l.reserved
    then l.reserved - worst
    else 0

-- The ledger after the k-th split's result.
abbrev discharge : ℕ → Result → Ledger → Ledger
discharge k res l = record l {
  in_flight = sub64 l.in_flight res.requested;
  count = l.count - 1;
  flights = remove_flight k l.flights;
  reserved = release (max_fee_for_ppm res.requested l.max_ppm) l;
  rebalanced = if res.success then u64 (l.rebalanced + res.amount_msat) else l.rebalanced;
  fees_paid = if res.success then u64 (l.fees_paid + res.fee) else l.fees_paid;
}

abbrev update : Result → Ledger → Ledger
update res l = record l {
  in_flight = sub64 l.in_flight res.requested;
  count = l.count - 1;
  reserved = release (max_fee_for_ppm res.requested l.max_ppm) l;
  rebalanced = if res.success then u64 (l.rebalanced + res.amount_msat) else l.rebalanced;
}

ledger-update_amounts :
    (res : Result) (r : Run) → ledger (update_amounts res r) ≡ update res (ledger r)
unfolding update_amounts release_fee worst_fee
ledger-update_amounts res r = elim (Bool-cases (r.settings.max_fee_msat == 0)) [
  | inl t ↦ rw t refl
  | inr t ↦ elim (Bool-cases (ltb (max_fee_for_ppm res.requested r.round.max_ppm) r.fee_reserved)) [
    | inl u ↦ rw (t, u) refl
    | inr u ↦ rw (t, u) refl
  ]
]

abbrev pay : Bool → Result → Ledger → Ledger
pay b res l = record l { fees_paid = if b then u64 (l.fees_paid + res.fee) else l.fees_paid }

ledger-noted :
    (b : Bool) (s : Surroundings) (res : Result) (r : Run)
    → ledger (if b then note_success s res r else note_failure s res r) ≡ pay b res (ledger r)
ledger-noted true s res r = ledger-note_success s res r
ledger-noted false s res r = ledger-note_failure s res r

ledger-settle :
    (s : Surroundings) (k : ℕ) (res : Result) (r : Run)
    → ledger (settle s k res r) ≡ discharge k res (ledger r)
unfolding settle
ledger-settle s k res r =
    let read = record r { flights = remove_flight k r.flights } in
    let noted = judged s res read in
    ledger-update_amounts res
      (if res.success then note_success s res noted else note_failure s res noted)
    ∙ ap (update res)
        (ledger-noted res.success s res noted ∙ ap (pay res.success res) (ledger-judged s res read))

-- What a list of flights loses with its k-th.
remove_flight-total :
    (k : ℕ) (fs : List Flight) {f : Flight}
    → get_elem? fs k ≡ some f
    → (total fs ≡ f.requested + total (remove_flight k fs))
      × (length fs ≡ suc (length (remove_flight k fs)))
unfolding remove_flight
remove_flight-total k [] {f} e = cc
remove_flight-total zero (g ∷ fs) {f} e =
    let same : g ≡ f = ground arith in
    (subst (λ x. g.requested + total fs ≡ x.requested + total fs) same refl, refl)
remove_flight-total (suc k) (g ∷ fs) {f} e =
    let rest = remove_flight-total k fs {f = f} e in (omega (arith, rest.0), omega (arith, rest.1))

remove_flight-worst :
    (ppm k : ℕ) (fs : List Flight) {f : Flight}
    → get_elem? fs k ≡ some f
    → worst_total ppm fs ≡ max_fee_for_ppm f.requested ppm + worst_total ppm (remove_flight k fs)
unfolding remove_flight
remove_flight-worst ppm k [] {f} e = cc
remove_flight-worst ppm zero (g ∷ fs) {f} e =
    let same : g ≡ f = ground arith in
    subst
      (λ x.
        max_fee_for_ppm g.requested ppm + worst_total ppm fs
        ≡ max_fee_for_ppm x.requested ppm + worst_total ppm fs)
      same refl
remove_flight-worst ppm (suc k) (g ∷ fs) {f} e =
    let rest = remove_flight-worst ppm k fs {f = f} e in omega (arith, rest)

discharge-IsBalanced :
    (k : ℕ) (res : Result) (l : Ledger) {f : Flight}
    → IsBalanced l
    → get_elem? l.flights k ≡ some f
    → f.requested ≡ res.requested
    → res.amount_msat ≤ res.requested
    → IsBalanced (discharge k res l)
discharge-IsBalanced k res l {f} h e q d =
    let (sum, len) = remove_flight-total k l.flights {f = f} e in
    record {
      fits = h.fits;
      counted = omega (arith, h.counted, len);
      summed = omega (arith, h.summed, h.fits, h.within, sum, q);
      within = ground (arith, h.within, h.fits, sum, q, d);
      few = omega (arith, h.few, len);
    }

discharge-IsInBudget :
    (k : ℕ) (res : Result) (l : Ledger) {f : Flight}
    → IsInBudget l
    → get_elem? l.flights k ≡ some f
    → f.requested ≡ res.requested
    → res.fee ≤ max_fee_for_ppm res.requested l.max_ppm
    → IsInBudget (discharge k res l)
discharge-IsInBudget k res l {f} h e q d =
    let sum = remove_flight-worst l.max_ppm k l.flights {f = f} e in
    let same = ap (λ a. max_fee_for_ppm a l.max_ppm) q in
    record {
      limited = h.limited;
      finite = h.finite;
      reserved = ground (arith, h.limited, h.reserved, sum, same);
      within = ground (arith, h.limited, h.reserved, h.within, h.finite, sum, same, d);
    }

module _ (s : Surroundings) (k : ℕ) (res : Result) (r : Run) {f : Flight}
    (flight : get_elem? r.flights k ≡ some f) (asked : f.requested ≡ res.requested) where
  -- The result of a split in flight that delivers no more than it was asked for keeps the accounts
  -- balanced, with the splits fired after it: what was moved and what is in flight stay within the
  -- run's amount, and the counters are those of the splits in flight.
  pub land-IsBalanced :
      IsBalanced (ledger r) → res.amount_msat ≤ res.requested → IsBalanced (ledger (land s k res r))
  unfolding land
  land-IsBalanced h delivered =
      let settled = discharge-IsBalanced k res (ledger r) {f = f} h flight asked delivered in
      fire_candidates-IsBalanced s (settle s k res r)
        (subst IsBalanced (sym (ledger-settle s k res r)) settled)

  -- The result of a split in flight that pays no more than its limit allows keeps the run in its fee
  -- budget, with the splits fired after it.
  pub land-IsInBudget :
      IsInBudget (ledger r)
      → res.fee ≤ max_fee_for_ppm res.requested r.round.max_ppm
      → IsInBudget (ledger (land s k res r))
  unfolding land
  land-IsInBudget h paid =
      let settled = discharge-IsInBudget k res (ledger r) {f = f} h flight asked paid in
      fire_candidates-IsInBudget s (settle s k res r)
        (subst IsInBudget (sym (ledger-settle s k res r)) settled)

  pub land-settings : (ledger (land s k res r)).settings ≡ r.settings
  unfolding land
  land-settings =
      fire_candidates-settings s (settle s k res r)
      ∙ ap (λ (l : Ledger). l.settings) (ledger-settle s k res r)
