-- ===== src/Rebalance/Turns.antt =====
-- Laws of one turn of a rebalance (Run and shrink of rebalance/rebalance.go).
use cln_circular.Common.{
  ℕ, ◌+◌, ◌*◌, ◌/◌, ◌≤◌, ◌<◌, ◌≡◌, ◌≢◌, ◌⊎◌, inl, inr, refl, sym, subst, ap, ◌∙◌, Bool, true, false,
  Option, none, some, List, arith, if◌then◌else◌, Str, Option-cases,
}
use cln_circular.Common.Float.{Float64}
use cln_circular.Graph.Fee.{max_fee_for_ppm}
use cln_circular.Graph.Route.{Route, channel_ids, get_route_over_channels, route_fee}
use cln_circular.Graph.RouteLaws.{get_route_over_channels-Carries}
use cln_circular.Graph.Search.{Heap}
use cln_circular.Graph.State.{Graph}
use cln_circular.Rebalance.Attempt.{Attempted, succeeded, hung, run_attempt}
use cln_circular.Rebalance.AttemptLaws.{Attempts, run_attempt-Attempts}
use cln_circular.Rebalance.Prices.{RefusesPlainly, Fits, Fits-amount, Affordable}
use cln_circular.Rebalance.Errors.{hangs, is_fault, temporary_failure}
use cln_circular.Rebalance.Result.{Result}
use cln_circular.Rebalance.Routing.{get_route, shrink, can_shrink_to}
use cln_circular.Rebalance.Run.{
  Vars, Turn, search_again, attempted, remember_short, note_retry, lacks_route, has_error,
  retry_short, after_attempt, turn,
}
use cln_circular.Rebalance.Split.{Rebalance, World, Progress}

-- What is sent: all that was asked for, or, where the caller set a minimum, no less than that.
abbrev pub IsAsked : Rebalance → ℕ → Type 0
IsAsked r amount =
    (0 < amount)
    × (amount ≤ r.amount)
    × ((amount ≡ r.amount) ⊎ ((0 < r.min_amount) × (r.min_amount ≤ amount)))

Fits-mono : (r : Rebalance) (amount : ℕ) → Fits r r.amount → IsAsked r amount → Fits r amount
Fits-mono r amount fits asked = (asked.0, grind arith)

-- What shrink gives: a smaller amount that is still enough, and a route within the limits for it.
shrink-IsAsked :
    {F : Type 0} (r : Rebalance) (p : Progress F) (route : Route) (ids : List Str) {x : Route × ℕ}
    → Fits r r.amount
    → IsAsked r p.amount
    → shrink r p route ids ≡ some x
    → IsAsked r x.1 × Affordable r x.1 x.0
unfolding shrink can_shrink_to
shrink-IsAsked r p route ids {x} fits asked e =
    elim (Option-cases (get_route_over_channels p.graph (channel_ids route.hops) half)) [
      | inl gone ↦ absurd (let none_left : none ≡ some x = ground arith in cc)
      | inr (shrunk, found) ↦
          let same : (shrunk, half) ≡ x = ground arith in
          let enough : (0 < r.min_amount) × (r.min_amount ≤ half) × (0 < half) = ground arith in
          let cheap : route_fee shrunk ≤ max_fee_for_ppm half r.max_ppm = ground arith in
          let less : half ≤ p.amount = omega arith in
          let fewer : half ≤ r.amount = omega (arith, asked) in
          let is_asked : IsAsked r half = (enough.2, fewer, inr (enough.0, enough.1)) in
          let carries =
            get_route_over_channels-Carries p.graph (channel_ids route.hops) half
              (Fits-amount r half (Fits-mono r half fits is_asked)) found in
          subst (λ (y : Route × ℕ). IsAsked r y.1 × Affordable r y.1 y.0) same
            (is_asked, (carries.0, cheap))
    ]
  where
    half : ℕ
    half = p.amount / 2 / 1000 * 1000

-- What a turn keeps: the amount is one that may be sent, and at most one payment left.
abbrev pub Keeps : {F : Type 0} → Rebalance → Vars F → Vars F → Type 0
Keeps r v v' = IsAsked r v'.progress.amount × (v'.progress.payments ≤ v.progress.payments + 1)

-- A success moved the amount within the rate limit.
abbrev pub Pays : {F : Type 0} → Rebalance → Vars F → Attempted → Type 0
Pays r v a =
    (res : Result)
    → a ≡ succeeded res
    → (res.success ≡ true)
      × (res.amount_msat ≡ v.progress.amount)
      × (res.fee ≤ max_fee_for_ppm v.progress.amount r.max_ppm)

-- Whether the turn tries a route that worked before.
abbrev pub spare : Option Route → ℕ
spare none = 0
spare (some _) = 1

abbrev pub TurnKeeps : {F : Type 0} → Rebalance → ℕ → Vars F → Turn F → Type 0
TurnKeeps r known v (search_again v') = Keeps r v v' × (0 < known)
TurnKeeps r known v (attempted v' a) = Keeps r v v' × Pays r v' a × (a ≢ hung)

progress-remember_short :
    {F : Type 0} (a : Attempted) (v : Vars F) → (remember_short a v).progress ≡ v.progress
unfolding remember_short
progress-remember_short a v = ground arith

progress-note_retry :
    {F : Type 0} (a : Attempted) (v : Vars F) → (note_retry a v).progress ≡ v.progress
unfolding note_retry
progress-note_retry a v = ground arith

-- An attempt that starts from what may be sent keeps the turn's promises, whatever else is noted.
attempted-Keeps :
    {F : Type 0} (r : Rebalance) (known : ℕ) (base v' : Vars F) (p : Progress F)
    (x : Progress F × Attempted)
    → Attempts r p x
    → IsAsked r p.amount
    → p.payments ≡ base.progress.payments
    → v'.progress ≡ x.0
    → TurnKeeps r known base (attempted v' x.1)
attempted-Keeps {F} r known base v' p x at asked same e =
    subst
      (λ (q : Progress F).
        (IsAsked r q.amount × (q.payments ≤ base.progress.payments + 1))
        × ((res : Result)
            → x.1 ≡ succeeded res
            → (res.success ≡ true)
              × (res.amount_msat ≡ q.amount)
              × (res.fee ≤ max_fee_for_ppm q.amount r.max_ppm))
        × (x.1 ≢ hung))
      (sym e)
      (
        (subst (IsAsked r) (sym at.same_amount) asked, omega (arith, at.counted, same)),
        λ res h.
            subst
              (λ (n : ℕ).
                (res.success ≡ true)
                × (res.amount_msat ≡ n)
                × (res.fee ≤ max_fee_for_ppm n r.max_ppm))
              (sym at.same_amount) (at.paid res h),
        at.answered,
      )

if-Keeps :
    {F : Type 0} (r : Rebalance) (known : ℕ) (base : Vars F) (b : Bool) (x y : Turn F)
    → (b ≡ true → TurnKeeps r known base x)
    → (b ≡ false → TurnKeeps r known base y)
    → TurnKeeps r known base (if b then x else y)
if-Keeps r known base true x y h k = h refl
if-Keeps r known base false x y h k = k refl

module _ (Fl : Float64) (heap : Heap) (fuel : Graph → ℕ) (r : Rebalance) (fits : Fits r r.amount)
    (answers : (w : World) (p : Progress Fl.F) → get_route Fl heap fuel w r p ≢ hangs) where
  open Fl use {F}

  -- An attempt over a route that is given, or over one that the search finds.
  attempt :
      (w : World) (known : Option Route) (p : Progress F)
      → RefusesPlainly w
      → IsAsked r p.amount
      → ((route : Route) → known ≡ some route → Affordable r p.amount route)
      → Attempts r p (run_attempt Fl heap fuel w r known p)
  attempt w known p plain asked fit =
      run_attempt-Attempts Fl heap fuel w r known p plain (answers w p)
        (Fits-mono r p.amount fits asked) fit

  retry_short-Keeps :
      (w : World) (a : Attempted) (base v : Vars F) (known : ℕ)
      → RefusesPlainly w
      → IsAsked r v.progress.amount
      → v.progress.payments ≡ base.progress.payments
      → TurnKeeps r known base (attempted v a)
      → TurnKeeps r known base (retry_short Fl heap fuel w r a v)
  unfolding retry_short
  retry_short-Keeps w a base v known plain asked same kept = short v.short
    where
      shrunk :
          (route : Route) (o : Option (Route × ℕ))
          → shrink r v.progress route v.short_ids ≡ o
          → TurnKeeps r known base (elim o [
            | none ↦ attempted v a
            | some (less, amount) ↦
                let (p, a') =
                  run_attempt Fl heap fuel w r
                    (some less)
                    (record v.progress { amount = amount }) in
                attempted (note_retry a' (record v { progress = p })) a'
          ])
      shrunk route none e = kept
      shrunk route (some (less, amount)) e =
          let p = record v.progress { amount = amount } in
          let x = run_attempt Fl heap fuel w r (some less) p in
          let (fine, fit) = shrink-IsAsked r v.progress route v.short_ids fits asked e in
          attempted-Keeps r known base (note_retry x.1 (record v { progress = x.0 })) p x
            (attempt w (some less) p plain fine
              (λ y h. subst (Affordable r amount) (ground arith) fit))
            fine same (progress-note_retry x.1 (record v { progress = x.0 }))

      short :
          (s : Option Route)
          → TurnKeeps r known base (elim s [
            | none ↦ attempted v a
            | some route ↦ elim (shrink r v.progress route v.short_ids) [
              | none ↦ attempted v a
              | some (less, amount) ↦
                  let (p, a') =
                    run_attempt Fl heap fuel w r
                      (some less)
                      (record v.progress { amount = amount }) in
                  attempted (note_retry a' (record v { progress = p })) a'
            ]
          ])
      short none = kept
      short (some route) = shrunk route (shrink r v.progress route v.short_ids) refl

  after_attempt-Keeps :
      (w : World) (known : ℕ) (v : Vars F) (x : Progress F × Attempted)
      → RefusesPlainly w
      → IsAsked r v.progress.amount
      → Attempts r v.progress x
      → TurnKeeps r known v (after_attempt Fl heap fuel w r x.1 (record v { progress = x.0 }))
  unfolding after_attempt
  after_attempt-Keeps w known v x plain asked at =
      let v' = remember_short x.1 (record v { progress = x.0 }) in
      let same = progress-remember_short x.1 (record v { progress = x.0 }) in
      let kept = attempted-Keeps r known v v' v.progress x at asked refl same in
      if-Keeps r known v (has_error lacks_route x.1) (retry_short Fl heap fuel w r x.1 v')
        (attempted v' x.1)
        (λ h.
          retry_short-Keeps w x.1 v v' known plain kept.0.0
            (ap (λ (q : Progress F). q.payments) same ∙ at.unpaid h) kept)
        (λ h. kept)

  pub turn-Keeps :
      (w again : World) (known : Option Route) (v : Vars F)
      → RefusesPlainly w
      → RefusesPlainly again
      → IsAsked r v.progress.amount
      → ((route : Route) → known ≡ some route → Affordable r v.progress.amount route)
      → TurnKeeps r (spare known) v (turn Fl heap fuel w again r known v)
  unfolding turn
  turn-Keeps w again none v plain plain' asked fit =
      let x = run_attempt Fl heap fuel w r none v.progress in
      after_attempt-Keeps again 0 v x plain' asked (attempt w none v.progress plain asked fit)
  turn-Keeps w again (some known) v plain plain' asked fit =
      let x = run_attempt Fl heap fuel w r (some known) v.progress in
      let at = attempt w (some known) v.progress plain asked fit in
      if-Keeps r 1 v (has_error (is_fault temporary_failure) x.1)
        (search_again (record v { progress = x.0 }))
        (after_attempt Fl heap fuel again r x.1 (record v { progress = x.0 }))
        (λ h. ((subst (IsAsked r) (sym at.same_amount) asked, at.counted), omega arith))
        (λ h. after_attempt-Keeps again 1 v x plain' asked at)
