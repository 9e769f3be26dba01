-- ===== src/Rebalance/Tally.antt =====
-- Laws of learnFromFailure and learnFromSuccess (rebalance/failure.go): amounts and counters.
use cln_circular.Common.{
  ℕ, ◌+◌, ◌≡◌, refl, Bool, true, false, Option, none, some, List, [], ◌∷◌, if◌then◌else◌, Str, ◌∙◌,
  ◌==◌, length, arith,
}
use cln_circular.Common.Float.{Float64}
use cln_circular.Graph.Channel.{Channel, channel_id}
use cln_circular.Graph.Route.{Route, RouteHop}
use cln_circular.Rebalance.Codes.{
  FailureCase, liquidity_failure, policy_failure, channel_failure, other_failure, failure_case,
}
use cln_circular.Rebalance.Errors.{
  Error, fault, is_fault, fault_is, as_too_expensive, temporary_failure,
}
use cln_circular.Rebalance.Failure.{
  avoid, exclude_erring, learn_shortage, in_fee_failure, refresh_policy, learn_policy, learn_closed,
  learn_other, react, blame_node, learn_before, hop_from, learn_at_hop, learn_from_failure,
  thank_nodes, learn_forwarded, learn_from_success,
}
use cln_circular.Rebalance.Run.{lacks_route}
use cln_circular.Rebalance.Split.{Rebalance, World, PaymentErrorData, Progress}

-- The amount and the payments of a run.
pub record Tally : Type 0 where
  pub amount : ℕ
  pub payments : ℕ

abbrev pub tally : {F : Type 0} → Progress F → Tally
tally p = record { amount = p.amount; payments = p.payments }

-- A fact about both branches of a test.
if_both {ℓ κ} :
    {A : Type ℓ} (P : A → Type κ) (b : Bool) (x y : A) → P x → P y → P (if b then x else y)
if_both P true x y p q = p
if_both P false x y p q = q

program : Unit {0}
unfolding lacks_route is_fault fault_is as_too_expensive
program = tt

module _ {F : Type 0} where
  -- What was learned left the tally of `p` as it is, and does not blame the search.
  abbrev pub Learned : Progress F → Progress F × Error → Type 0
  Learned p x = (tally x.0 ≡ tally p) × (lacks_route x.1 ≡ false)

  tally-avoid :
      (w : World) (r : Rebalance) (key : Str) (p : Progress F) → tally (avoid w r key p) ≡ tally p
  unfolding avoid
  tally-avoid w r key p = ground arith

  tally-exclude_erring :
      (e : PaymentErrorData) (p : Progress F) → tally (exclude_erring e p) ≡ tally p
  unfolding exclude_erring
  tally-exclude_erring e p = ground arith

  shortage-Learned :
      (w : World) (r : Rebalance) (k : ℕ) (hop : RouteHop) (e : PaymentErrorData) (p : Progress F)
      → Learned p (learn_shortage w r k hop e p)
  unfolding learn_shortage program
  shortage-Learned w r k hop e p = ground arith

  in_fee-Learned :
      (w : World) (r : Rebalance) (hop : RouteHop) (code : ℕ) (p : Progress F)
      → Learned p (in_fee_failure w r hop code p)
  unfolding in_fee_failure program
  in_fee-Learned w r hop code p = ground arith

  tally-refresh_policy :
      (w : World) (old : Channel) (p : Progress F) → tally (refresh_policy w old p).0 ≡ tally p
  unfolding refresh_policy
  tally-refresh_policy w old p = ground arith

  policy-Learned :
      (w : World) (r : Rebalance) (hop : RouteHop) (p : Progress F)
      → Learned p (learn_policy w r hop p)
  unfolding learn_policy program
  policy-Learned w r hop p =
      let read = (refresh_policy w hop.channel p).0 in
      let kept = tally-refresh_policy w hop.channel p in
      ground (arith, kept, tally-avoid w r (channel_id hop.channel) read)

  other-Learned :
      (w : World) (r : Rebalance) (k : ℕ) (b : Bool) (hop : RouteHop) (e : PaymentErrorData)
      (p : Progress F)
      → Learned p (learn_other w r k b hop e p)
  unfolding learn_other program
  other-Learned w r k b hop e p =
      ground (arith, tally-avoid w r e.erring_node p, tally-avoid w r (channel_id hop.channel) p)

  react-Learned :
      (w : World) (r : Rebalance) (c : FailureCase) (k : ℕ) (b : Bool) (hop : RouteHop)
      (e : PaymentErrorData) (p : Progress F)
      → Learned p (react w r c k b hop e p)
  unfolding react program
  react-Learned w r liquidity_failure k b hop e p = ground (arith, shortage-Learned w r k hop e p)
  react-Learned w r policy_failure k b hop e p =
      ground (arith, in_fee-Learned w r hop e.fail_code p, policy-Learned w r hop p)
  react-Learned w r channel_failure k b hop e p = unfold learn_closed in ground arith
  react-Learned w r other_failure k b hop e p = other-Learned w r k b hop e p

module _ (Fl : Float64) where
  open Fl use {F}

  tally-blame_node :
      (w : World) (k : ℕ) (e : PaymentErrorData) (p : Progress F)
      → tally (blame_node Fl w k e p) ≡ tally p
  unfolding blame_node
  tally-blame_node w k e p = ground arith

  at_hop-Learned :
      (w : World) (r : Rebalance) (route : Route) (k : ℕ) (hop : RouteHop) (e : PaymentErrorData)
      (p : Progress F)
      → Learned p (learn_at_hop Fl w r route k hop e p)
  unfolding learn_at_hop
  at_hop-Learned w r route k hop e p =
      let own = k + 1 == length route.hops in
      let blamed = if own then p else blame_node Fl w k e p in
      let carried = record blamed { graph = learn_before w.now k route.hops blamed.graph } in
      let kept : tally blamed ≡ tally p =
        if_both (λ (q : Progress F). tally q ≡ tally p) own p (blame_node Fl w k e p) refl
          (tally-blame_node w k e p) in
      let (same, plain) = react-Learned w r (failure_case e.fail_code) k own hop e carried in
      (same ∙ kept, plain)

  -- What is learned from a failure changes neither the amount nor the counter of payments, and its
  -- error never says that there is no route.
  pub learn_from_failure-Learned :
      (w : World) (r : Rebalance) (route : Route) (e : PaymentErrorData) (p : Progress F)
      → Learned p (learn_from_failure Fl w r route e p)
  unfolding learn_from_failure program
  learn_from_failure-Learned w r route e p =
      ground (arith, past (hop_from e.erring_node 0 route.hops))
    where
      past :
          (o : Option (ℕ × RouteHop))
          → Learned p (elim o [
            | none ↦ (avoid w r e.erring_node (exclude_erring e p), fault temporary_failure)
            | some (k, hop) ↦ learn_at_hop Fl w r route k hop e (exclude_erring e p)
          ])
      past none =
          (tally-avoid w r e.erring_node (exclude_erring e p) ∙ tally-exclude_erring e p, refl)
      past (some (k, hop)) =
          let (same, plain) = at_hop-Learned w r route k hop e (exclude_erring e p) in
          (same ∙ tally-exclude_erring e p, plain)

  tally-thank_nodes :
      (w : World) (hops : List RouteHop) (p : Progress F)
      → tally (thank_nodes Fl w hops p) ≡ tally p
  unfolding thank_nodes
  tally-thank_nodes w [] p = refl
  tally-thank_nodes w (hop ∷ hops) p = tally-thank_nodes w hops _

  pub tally-learn_from_success :
      (w : World) (route : Route) (p : Progress F)
      → tally (learn_from_success Fl w route p) ≡ tally p
  unfolding learn_from_success
  tally-learn_from_success w route p = kept route.hops
    where
      kept :
          (hops : List RouteHop)
          → tally (elim hops [
            | [] ↦ p
            | _ ∷ rest ↦
                thank_nodes Fl w rest (record p { graph = learn_forwarded w.now rest p.graph })
          ])
            ≡ tally p
      kept [] = refl
      kept (_ ∷ rest) = tally-thank_nodes w rest _
