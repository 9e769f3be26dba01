-- ===== src/Rebalance/RunLaws.antt =====
-- Laws of Run (rebalance/rebalance.go).
use cln_circular.Common.{
  ℕ, zero, suc, ◌+◌, ◌≤◌, ◌<◌, ◌≡◌, ◌≢◌, inl, refl, sym, subst, Bool, true, false, Option, none,
  some, [], arith, leb, if◌then◌else◌,
}
use cln_circular.Common.Float.{Float64}
use cln_circular.Common.Int.{pos_part}
use cln_circular.Graph.Fee.{max_fee_for_ppm}
use cln_circular.Graph.Route.{Route}
use cln_circular.Graph.Scores.{Scores}
use cln_circular.Graph.Search.{Heap}
use cln_circular.Graph.State.{Graph}
use cln_circular.Rebalance.Attempt.{succeeded, unsent, failed_over, hung, start}
use cln_circular.Rebalance.Answers.{enough, get_route-answers}
use cln_circular.Rebalance.Prices.{RefusesPlainly, Fits, Affordable, known_route-Affordable}
use cln_circular.Rebalance.Errors.{Error, hangs}
use cln_circular.Rebalance.Result.{Result, new_result}
use cln_circular.Rebalance.Routing.{known_route, get_route}
use cln_circular.Rebalance.Run.{
  Vars, Turn, search_again, attempted, Ended, returned, stalled, turn, run_loop, run, ends_run,
  complete, failure_of,
}
use cln_circular.Rebalance.Split.{Rebalance, World, Progress}
use cln_circular.Rebalance.Turns.{IsAsked, Keeps, Pays, spare, TurnKeeps, turn-Keeps}

-- What the caller gets: a result after `most` payments at most, and of a success that it moved an
-- amount that may be sent, within the rate limit; of a failure that nothing was moved or paid.
abbrev pub Moves : Rebalance → ℕ → Result → Type 0
Moves r most res =
    (res.attempts ≤ most)
    × (res.success ≡ true
        → IsAsked r res.amount_msat × (res.fee ≤ max_fee_for_ppm res.amount_msat r.max_ppm))
    × (res.success ≡ false → (res.amount_msat ≡ 0) × (res.fee ≡ 0))

-- A run that ends with such a result.
abbrev pub Returns : {F : Type 0} → Rebalance → ℕ → Ended F → Type 0
Returns r most (returned p res) = Moves r most res
Returns r most (stalled p) = ⊥

-- 1 where the caller gave a route that worked before.
abbrev pub known_tries : Rebalance → ℕ
known_tries r = elim r.route [ [] ↦ 0 | _ ↦ 1 ]

spare-known_route :
    {F : Type 0} (r : Rebalance) (p : Progress F) → spare (known_route r p) ≤ known_tries r
unfolding known_route
spare-known_route r p = ground arith

spare-le-one : (known : Option Route) → spare known ≤ 1
spare-le-one none = omega arith
spare-le-one (some _) = omega arith

module _ (Fl : Float64) (heap : Heap) (fuel : Graph → ℕ) (r : Rebalance) (fits : Fits r r.amount)
    (answers : (w : World) (p : Progress Fl.F) → get_route Fl heap fuel w r p ≢ hangs) where
  open Fl use {F}

  if-Returns :
      (b : Bool) (most : ℕ) (x y : Ended F)
      → (b ≡ true → Returns r most x)
      → (b ≡ false → Returns r most y)
      → Returns r most (if b then x else y)
  if-Returns true most x y h k = h refl
  if-Returns false most x y h k = k refl

  failure-Moves :
      (p : Progress F) (last : Option Error) (most : ℕ)
      → p.payments ≤ most
      → Moves r most (failure_of r p last)
  unfolding failure_of new_result
  failure-Moves p last most h = (h, λ e. cc, λ _. (refl, refl))

  complete-Moves :
      (v v' : Vars F) (res : Result) (most : ℕ)
      → Keeps r v v'
      → Pays r v' (succeeded res)
      → v.progress.payments + 1 ≤ most
      → Moves r most (complete v'.progress res)
  unfolding complete
  complete-Moves v v' res most kept pays h =
      let (done, moved, cheap) = pays res refl in
      (
        omega (arith, kept.1),
        λ _. (
          subst (IsAsked r) (sym moved) kept.0,
          subst (λ (n : ℕ). res.fee ≤ max_fee_for_ppm n r.max_ppm) (sym moved) cheap,
        ),
        λ e. cc,
      )

  -- The end of a turn: `search` is the loop after a known route failed, `next` after an attempt.
  turn_end-Returns :
      (search : Vars F → Ended F) (next : Error → Vars F → Ended F) (known most : ℕ) (v : Vars F)
      (t : Turn F)
      → TurnKeeps r known v t
      → v.progress.payments + 1 ≤ most
      → ((v' : Vars F) → Keeps r v v' → 0 < known → Returns r most (search v'))
      → ((e : Error) (v' : Vars F) → Keeps r v v' → Returns r most (next e v'))
      → Returns r most (elim t [
        | search_again v' ↦ search v'
        | attempted v' (succeeded result) ↦ returned v'.progress (complete v'.progress result)
        | attempted v' hung ↦ stalled v'.progress
        | attempted v' (unsent e) ↦
            if ends_run e
            then returned v'.progress (failure_of r v'.progress (some e))
            else next e v'
        | attempted v' (failed_over route e) ↦
            if ends_run e
            then returned v'.progress (failure_of r v'.progress (some e))
            else next e v'
      ])
  turn_end-Returns search next known most v (search_again v') kept h hs hn = hs v' kept.0 kept.1
  turn_end-Returns search next known most v (attempted v' (succeeded res)) kept h hs hn =
      complete-Moves v v' res most kept.0 kept.1 h
  turn_end-Returns search next known most v (attempted v' hung) kept h hs hn = absurd (kept.2 refl)
  turn_end-Returns search next known most v (attempted v' (unsent e)) kept h hs hn =
      if-Returns (ends_run e) most (returned v'.progress (failure_of r v'.progress (some e)))
        (next e v') (λ _. failure-Moves v'.progress (some e) most (omega (arith, kept.0.1)))
        (λ _. hn e v' kept.0)
  turn_end-Returns search next known most v (attempted v' (failed_over route e)) kept h hs hn =
      if-Returns (ends_run e) most (returned v'.progress (failure_of r v'.progress (some e)))
        (next e v') (λ _. failure-Moves v'.progress (some e) most (omega (arith, kept.0.1)))
        (λ _. hn e v' kept.0)

  module _ (worlds : ℕ → World × World)
      (plain : (n : ℕ) → RefusesPlainly (worlds n).0 × RefusesPlainly (worlds n).1) where
    -- `extra` is 1 if the run started with a route that worked before.
    run_loop-Returns :
        (extra turns n i : ℕ) (known : Option Route) (last : Option Error) (v : Vars F)
        → i ≤ pos_part r.attempts + 1
        → pos_part r.attempts + 1 + spare known < i + turns
        → v.progress.payments + spare known + 1 ≤ i + extra
        → IsAsked r v.progress.amount
        → ((route : Route) → known ≡ some route → Affordable r v.progress.amount route)
        → Returns r
            (pos_part r.attempts + extra)
            (run_loop Fl heap fuel worlds r turns n i known last v)
    unfolding run_loop
    run_loop-Returns extra zero n i known last v hi ht hp asked fit = absurd (omega arith)
    run_loop-Returns extra (suc turns) n i known last v hi ht hp asked fit =
        let most = pos_part r.attempts + extra in
        let t = turn Fl heap fuel (worlds n).0 (worlds n).1 r known v in
        if-Returns (leb i (pos_part r.attempts)) most _
          (returned v.progress (failure_of r v.progress last))
          (λ more.
            turn_end-Returns (λ v'. run_loop Fl heap fuel worlds r turns (n + 1) i none last v')
              (λ e v'. run_loop Fl heap fuel worlds r turns (n + 1) (i + 1) none (some e) v')
              (spare known) most v t
              (turn-Keeps Fl heap fuel r fits answers (worlds n).0 (worlds n).1 known v (plain n).0
                (plain n).1 asked fit)
              (ground arith)
              (λ v' kept tried.
                run_loop-Returns extra turns (n + 1) i none last v' hi (ground arith)
                  (ground (arith, kept.1)) kept.0 (λ route e. absurd (cc)))
              (λ e v' kept.
                run_loop-Returns extra turns (n + 1) (i + 1) none (some e) v' (ground arith)
                  (ground arith) (ground (arith, kept.1)) kept.0 (λ route e'. absurd (cc))))
          (λ ended. failure-Moves v.progress last most (ground arith))

    run-Moves :
        (g : Graph) (scores : Scores F)
        → Returns r (pos_part r.attempts + known_tries r) (run Fl heap fuel worlds r g scores)
    unfolding run start
    run-Moves g scores =
        let p = start (worlds 0).0 r g scores in
        let v : Vars F = record { progress = p; short = none; short_ids = [] } in
        run_loop-Returns (known_tries r) (pos_part r.attempts + 2) 0 1 (known_route r p) none v
          (omega arith) (omega (arith, spare-le-one (known_route r p)))
          (omega (arith, spare-known_route r p)) (fits.0, omega arith, inl refl)
          (λ route e. known_route-Affordable r p fits e)

-- A rebalance ends with a result, whatever the worlds of its attempts are in which lightningd refuses
-- a payment with no error of the search, for an amount above 0 whose product with maxppm + 1 fits in
-- a uint64, and with the fuel that its graphs ask for: after one payment at most for each attempt and
-- one for the route that worked before. A success moved the amount asked for, or at least the minimum
-- that the caller set, for a fee within its rate limit; a failure moved and paid nothing.
pub run-Returns :
    (Fl : Float64) (heap : Heap) (r : Rebalance)
    → Fits r r.amount
    → (worlds : ℕ → World × World)
    → ((n : ℕ) → RefusesPlainly (worlds n).0 × RefusesPlainly (worlds n).1)
    → (g : Graph) (scores : Scores Fl.F)
    → Returns r (pos_part r.attempts + known_tries r) (run Fl heap (enough r) worlds r g scores)
run-Returns Fl heap r fits worlds plain g scores =
    run-Moves Fl heap (enough r) r fits (get_route-answers Fl heap r) worlds plain g scores
