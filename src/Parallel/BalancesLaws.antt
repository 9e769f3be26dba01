-- ===== src/Parallel/BalancesLaws.antt =====
-- Laws of CanUseChannel and room (rebalance/parallel/pull.go and push.go).
use native.Mathlib.Nat.{mul-div_cancel, div-mul-le_self, le-div_iff_mul-le}
use cln_circular.Common.{
  ℕ, ◌+◌, ◌*◌, ◌/◌, ◌≤◌, ◌<◌, ◌≡◌, ap, ◌∙◌, ◌||◌, none, arith, ◌==◌, if◌then◌else◌, u64_mod,
}
use cln_circular.Common.Float.{Float64}
use cln_circular.Graph.Fee.{add_saturating, max_fee_for_ppm}
use cln_circular.Node.Peers.{PeerChannel, Peers}
use cln_circular.Parallel.Balances.{
  Usage, sub_saturating, whole_splits, local_balance, remote_balance, pull_cost, kept_by,
  pull_can_use, pull_room, push_can_use, push_room,
}

-- How much a run may move over a channel: draining it in whole splits, each at its full cost, leaves
-- what it keeps; it is nothing exactly when not even one split fits.
pub record IsRoom (kept cost split balance room : ℕ) : Type 0 where
  pub keeps : kept ≤ balance → room / split * cost + kept ≤ balance
  pub empty : balance < kept + cost → room ≡ 0
  pub one : kept + cost ≤ balance → split ≤ room

whole_splits-IsRoom :
    (kept cost split balance : ℕ)
    → 0 < split
    → 0 < cost
    → IsRoom kept cost split balance (whole_splits (sub_saturating balance kept) split cost)
unfolding whole_splits sub_saturating
whole_splits-IsRoom kept cost split balance hs hc =
    let room = sub_saturating balance kept in
    let count = room / cost in
    let whole : (if split == 0 || cost == 0 then room else count * split) ≡ count * split =
      ground arith in
    let most = div-mul-le_self room cost in
    rw whole (record {
      keeps = λ h. rw (mul-div_cancel count hs) (ground arith);
      empty = λ h.
          let none_fits : count ≡ 0 = grind arith in ap (λ k. k * split) none_fits ∙ omega arith;
      one = λ h.
          let fits : 1 ≤ count =
            (le-div_iff_mul-le {k = cost} {x = 1} {y = room} hc).1 (ground arith) in
          grind arith;
    })

add_saturating-fits : (a b : ℕ) → a + b < u64_mod → add_saturating a b ≡ a + b
unfolding add_saturating
add_saturating-fits a b h = ground arith

positive-add_saturating : (a b : ℕ) → 0 < a → 0 < add_saturating a b
unfolding add_saturating
positive-add_saturating a b h = ground arith

module _ (Fl : Float64) (u : Usage Fl.F) (n : Peers) (c : PeerChannel)
    (some_split : 0 < u.split_amount) where
  -- What a pull may drain from a channel leaves what the channel keeps, each split with the most that
  -- it can cost, and is nothing when not even one split fits; and a channel that CanUseChannel lets
  -- a split use has room for a whole one. For a cost and what is kept that add up to a uint64.
  pub pull_room-CanUse :
      kept_by Fl u c + pull_cost u < u64_mod
      → IsRoom (kept_by Fl u c) (pull_cost u) u.split_amount (local_balance c) (pull_room Fl u c)
        × (pull_can_use Fl u n c ≡ none → u.split_amount ≤ pull_room Fl u c)
  unfolding pull_room pull_can_use
  pull_room-CanUse fits =
      let room =
        whole_splits-IsRoom (kept_by Fl u c) (pull_cost u) u.split_amount (local_balance c)
          some_split
          (unfold pull_cost in
            positive-add_saturating u.split_amount (max_fee_for_ppm u.split_amount u.max_ppm)
              some_split) in
      let sum = add_saturating-fits (kept_by Fl u c) (pull_cost u) fits in
      (room, λ h. room.one (ground (arith, h, sum)))

  -- The same of what a push may fill of a channel, in the peer's balance.
  pub push_room-CanUse :
      kept_by Fl u c + u.split_amount < u64_mod
      → IsRoom (kept_by Fl u c) u.split_amount u.split_amount (remote_balance c) (push_room Fl u c)
        × (push_can_use Fl u n c ≡ none → u.split_amount ≤ push_room Fl u c)
  unfolding push_room push_can_use
  push_room-CanUse fits =
      let room =
        whole_splits-IsRoom (kept_by Fl u c) u.split_amount u.split_amount (remote_balance c)
          some_split some_split in
      let sum = add_saturating-fits (kept_by Fl u c) u.split_amount fits in
      (room, λ h. room.one (ground (arith, h, sum)))
