-- ===== src/Rebalance/Blame.antt =====
-- Laws of learnFromFailure (rebalance/failure.go) and failureSide (rebalance/side.go): blame.
use cln_circular.Common.{
  ℕ, ◌+◌, ◌≡◌, inl, inr, refl, Bool, true, false, ◌&&◌, Option, none, some, arith, ltb, ◌==◌,
  if◌then◌else◌, str_eq, length, Bool-cases, not, Str, str_eq_iff, lookup_or, lookup-insert, subst,
}
use cln_circular.Common.Float.{Float64}
use cln_circular.Common.Int.{pos, ltb_ℤ}
use cln_circular.Graph.Belief.{learn_upper_bound}
use cln_circular.Graph.Channel.{channel_id}
use cln_circular.Graph.State.{Graph}
use cln_circular.Rebalance.Checks.{max_node_fails}
use cln_circular.Graph.Route.{Route, RouteHop}
use cln_circular.Rebalance.Codes.{
  FailureCase, liquidity_failure, policy_failure, channel_failure, other_failure, failure_case,
  retry_when_free_if, has_node_bit,
}
use cln_circular.Rebalance.Errors.{
  Error, fault, temporary_failure, other, on_out, is_fault, fault_is, as_side, failure_side,
  unmarked_side, as_too_expensive,
}
use cln_circular.Rebalance.Failure.{
  avoid, exclude_erring, learn_shortage, drained_node, in_fee_failure, learn_policy, learn_closed,
  learn_other, react, hop_from, learn_at_hop, learn_from_failure, count_node_failure, exclude_key,
  blame_node, learn_before,
}
use cln_circular.Rebalance.Result.{Side, side_none, side_route, side_out, side_in}
use cln_circular.Rebalance.Split.{Rebalance, World, PaymentErrorData, Progress}

-- Where a payment failed: before it left us, at our node at its end, at a node off the route, at an
-- out-peer that is to blame for it, further on, or at the in-peer, whose channel to us is the last
-- hop.
pub data Place : Type 0 where
  our_channel our_node off_route out_peer on_the_way in_peer : Place

-- The out-peer is to blame when it lacked liquidity as often as a node may in a run, and for a
-- failure of the node that is none of the known ones.
unfoldable pub blames_peer :
    {F : Type 0} → World → Rebalance → FailureCase → PaymentErrorData → Progress F → Bool
blames_peer w r liquidity_failure e p =
    not (ltb_ℤ (pos (lookup_or e.erring_node 0 p.node_failures + 1)) (max_node_fails w.defaults r))
blames_peer w r policy_failure e p = false
blames_peer w r channel_failure e p = false
blames_peer w r other_failure e p = has_node_bit e.fail_code

unfoldable pub place_at : ℕ → ℕ → Bool → Place
place_at k hops to_blame =
    if k + 1 == hops then in_peer else if k == 1 && to_blame then out_peer else on_the_way

unfoldable pub place_of :
    {F : Type 0} → World → Rebalance → Route → PaymentErrorData → Progress F → Place
unfolding place_at blames_peer
place_of w r route e p =
    let ours = str_eq e.erring_node w.node.our_id in
    let past : Place = elim (hop_from e.erring_node 0 route.hops) [
      | none ↦ off_route
      | some (k, hop) ↦
          place_at k (length route.hops) (blames_peer w r (failure_case e.fail_code) e p)
    ] in
    if ours && e.erring_index == 0 && ltb 0 (length route.hops)
    then our_channel
    else if ours
    then our_node
    else past

abbrev blamed_side : Error → Side
blamed_side e = (failure_side (some e)).0

-- The blame that fits each place.
abbrev pub Blames : Place → Error → Type 0
Blames our_channel e = blamed_side e ≡ side_out
Blames our_node e = (blamed_side e ≡ side_none) × (is_fault temporary_failure e ≡ false)
Blames off_route e = (blamed_side e ≡ side_route) × (is_fault temporary_failure e ≡ true)
Blames out_peer e = blamed_side e ≡ side_out
Blames on_the_way e = (blamed_side e ≡ side_route) × (is_fault temporary_failure e ≡ true)
Blames in_peer e = blamed_side e ≡ side_in

program : Unit {0}
unfolding failure_side unmarked_side is_fault fault_is as_side as_too_expensive
program = tt

module _ {F : Type 0} (w : World) (r : Rebalance) where
  react-in_peer :
      (c : FailureCase) (k : ℕ) (hop : RouteHop) (e : PaymentErrorData) (p : Progress F)
      → Blames in_peer (react w r c k true hop e p).1
  unfolding react program
  react-in_peer liquidity_failure k hop e p = refl
  react-in_peer policy_failure k hop e p = unfold in_fee_failure in ground arith
  react-in_peer channel_failure k hop e p = refl
  react-in_peer other_failure k hop e p = unfold learn_other in refl

  count_of :
      (e : PaymentErrorData) (id : Str) (g : Graph) (p : Progress F)
      → lookup_or e.erring_node 0
          (count_node_failure e.erring_node (exclude_key id (record p { graph = g }))).node_failures
        ≡ lookup_or e.erring_node 0 p.node_failures + 1
  unfolding count_node_failure exclude_key
  count_of e id g p =
      let n = e.erring_node in
      ground (
        arith,
        str_eq_iff n n,
        lookup-insert n n (lookup_or n 0 p.node_failures + 1) p.node_failures,
      )

  react-on_the_way :
      (c : FailureCase) (k : ℕ) (hop : RouteHop) (e : PaymentErrorData) (p : Progress F)
      → (k == 1 && blames_peer w r c e p) ≡ false
      → Blames on_the_way (react w r c k false hop e p).1
  unfolding react program blames_peer
  react-on_the_way liquidity_failure k hop e p h =
      let id = channel_id hop.channel in
      let counted = count_of e id (learn_upper_bound w.now id hop.milli_satoshi p.graph) p in
      unfold learn_shortage drained_node in ground (arith, counted)
  react-on_the_way policy_failure k hop e p h = unfold learn_policy in (refl, refl)
  react-on_the_way channel_failure k hop e p h = unfold learn_closed in (refl, refl)
  react-on_the_way other_failure k hop e p h = unfold learn_other in ground arith

  react-out_peer :
      (c : FailureCase) (hop : RouteHop) (e : PaymentErrorData) (p : Progress F)
      → blames_peer w r c e p ≡ true
      → Blames out_peer (react w r c 1 false hop e p).1
  unfolding react program blames_peer
  react-out_peer liquidity_failure hop e p h =
      let id = channel_id hop.channel in
      let counted = count_of e id (learn_upper_bound w.now id hop.milli_satoshi p.graph) p in
      unfold learn_shortage drained_node in ground (arith, counted)
  react-out_peer policy_failure hop e p h = cc
  react-out_peer channel_failure hop e p h = cc
  react-out_peer other_failure hop e p h = unfold learn_other in ground arith

  react-Blames :
      (c : FailureCase) (k hops : ℕ) (hop : RouteHop) (e : PaymentErrorData) (p : Progress F)
      → Blames (place_at k hops (blames_peer w r c e p)) (react w r c k (k + 1 == hops) hop e p).1
  unfolding place_at
  react-Blames c k hops hop e p = elim (Bool-cases (k + 1 == hops)) [
    | inl last ↦ rw last (react-in_peer c k hop e p)
    | inr more ↦ elim (Bool-cases (k == 1 && blames_peer w r c e p)) [
      | inl first ↦
          let one : k ≡ 1 = ground arith in
          let blamed : blames_peer w r c e p ≡ true = ground arith in
          rw (more, one, blamed) (react-out_peer c hop e p blamed)
      | inr later ↦ rw (more, later) (react-on_the_way c k hop e p later)
    ]
  ]

blames_peer-counts :
    {F : Type 0} (w : World) (r : Rebalance) (c : FailureCase) (e : PaymentErrorData)
    (q p : Progress F)
    → q.node_failures ≡ p.node_failures
    → blames_peer w r c e q ≡ blames_peer w r c e p
unfolding blames_peer
blames_peer-counts w r liquidity_failure e q p h = ground arith
blames_peer-counts w r policy_failure e q p h = refl
blames_peer-counts w r channel_failure e q p h = refl
blames_peer-counts w r other_failure e q p h = refl

if_Blames :
    {F : Type 0} (b : Bool) (here there : Place) (x y : Progress F × Error)
    → Blames here x.1
    → Blames there y.1
    → Blames (if b then here else there) ((if◌then◌else◌ {A = Progress F × Error} b x y).1)
if_Blames true here there x y h k = h
if_Blames false here there x y h k = k

-- What comes before the switch leaves the counts of the nodes' failures as they are.
before-node_failures :
    (Fl : Float64) (w : World) (k : ℕ) (b : Bool) (e : PaymentErrorData) (p : Progress Fl.F)
    → (if b then exclude_erring e p else blame_node Fl w k e (exclude_erring e p)).node_failures
      ≡ p.node_failures
unfolding exclude_erring exclude_key blame_node
before-node_failures Fl w k b e p = ground arith

-- The error of a failed payment blames what it should: our out channel for what never left us, for
-- what our out-peer lacked the liquidity to forward as often as a node may in a run, and for a
-- failure of the out-peer's node that is none of the known ones; our in channel for what the in-peer
-- failed; neither for a refusal by our own node. A failure anywhere else, and any other of our
-- out-peer, blames the route only, and lets another attempt be made.
pub learn_from_failure-Blames :
    (Fl : Float64) (w : World) (r : Rebalance) (route : Route) (e : PaymentErrorData)
    (p : Progress Fl.F)
    → Blames (place_of w r route e p) (learn_from_failure Fl w r route e p).1
unfolding place_of learn_from_failure program
learn_from_failure-Blames Fl w r route e p =
    if_Blames (ours && e.erring_index == 0 && ltb 0 (length route.hops)) our_channel _
      (p, on_out other (retry_when_free_if (e.fail_code == 0x1007))) _ refl
      (if_Blames ours our_node _ (p, other) _ (refl, refl)
        (past (hop_from e.erring_node 0 route.hops)))
  where
    ours : Bool
    ours = str_eq e.erring_node w.node.our_id

    past :
        (o : Option (ℕ × RouteHop))
        → Blames
            (elim o [
              | none ↦ off_route
              | some (k, hop) ↦
                  place_at k (length route.hops) (blames_peer w r (failure_case e.fail_code) e p)
            ])
            ((elim o as (λ _. Progress Fl.F × Error) [
              | none ↦ (avoid w r e.erring_node (exclude_erring e p), fault temporary_failure)
              | some (k, hop) ↦ learn_at_hop Fl w r route k hop e (exclude_erring e p)
            ]).1)
    past none = unfold program in (refl, refl)
    past (some (k, hop)) =
        unfold learn_at_hop in
        let in_channel = k + 1 == length route.hops in
        let excluded = exclude_erring e p in
        let blamed : Progress Fl.F =
          if in_channel then excluded else blame_node Fl w k e excluded in
        let q : Progress Fl.F = record blamed {
          graph = learn_before w.now k route.hops blamed.graph;
        } in
        let c = failure_case e.fail_code in
        let kept : q.node_failures ≡ p.node_failures = before-node_failures Fl w k in_channel e p in
        subst
          (λ to_blame.
            Blames (place_at k (length route.hops) to_blame) (react w r c k in_channel hop e q).1)
          (blames_peer-counts w r c e q p kept) (react-Blames w r c k (length route.hops) hop e q)
