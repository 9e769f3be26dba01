-- ===== src/Parallel/Balances.antt =====
-- Which of our channels a run can use, and how much of them (rebalance/parallel/pull.go, push.go and
-- params.go), over any float64.
use cln_circular.Common.{
  ℕ, ◌-◌, ◌*◌, ◌/◌, Bool, true, false, ◌&&◌, ◌||◌, not, Option, none, some, List, [], ◌∷◌, ltb, leb,
  ◌==◌, if◌then◌else◌, Str, str_eq, u64,
}
use cln_circular.Common.Float.{Float64}
use cln_circular.Graph.Channel.{Channel, compute_fee_ppm}
use cln_circular.Graph.Circular.{least_forward_fee}
use cln_circular.Graph.Fee.{add_saturating, max_fee_for_ppm}
use cln_circular.Graph.State.{Graph}
use cln_circular.Node.Peers.{Htlc, PeerChannel, Peers, is_peer_connected, get_channel_from_scid}
use cln_circular.Parallel.Run.{Round}

-- subSaturating
unfoldable pub sub_saturating : ℕ → ℕ → ℕ
sub_saturating a b = if ltb a b then 0 else a - b

-- The loop of htlcsInFlight
unfoldable pub sum_htlcs : Str → List Htlc → ℕ → ℕ
sum_htlcs direction [] total = total
sum_htlcs direction (h ∷ hs) total =
    sum_htlcs direction hs
      (if str_eq h.direction direction then add_saturating total h.amount_msat else total)

-- htlcsInFlight
unfoldable pub htlcs_in_flight : PeerChannel → Str → ℕ
unfolding sum_htlcs
htlcs_in_flight c direction = sum_htlcs direction c.htlcs 0

unfoldable pub local_balance : PeerChannel → ℕ
unfolding sub_saturating htlcs_in_flight
local_balance c = sub_saturating c.to_us_msat (htlcs_in_flight c (b'o' ∷ b'u' ∷ b't' ∷ []))

unfoldable pub remote_balance : PeerChannel → ℕ
unfolding sub_saturating htlcs_in_flight
remote_balance c =
    sub_saturating (sub_saturating c.total_msat c.to_us_msat) (htlcs_in_flight c (b'i' ∷ b'n' ∷ []))

-- wholeSplits
unfoldable pub whole_splits : ℕ → ℕ → ℕ → ℕ
whole_splits room split each = if split == 0 || each == 0 then room else room / each * split

-- The settings of a pull or push that the checks read: `keep_amount` and `keep_percent` are
-- depleteuptoamount (msat) and depleteuptopercent, or filluptoamount and filluptopercent, and
-- `own_ppm` is maxoutppm or minoutppm.
pub record Usage (F : Type 0) : Type 0 where
  pub target_channel : Channel
  pub split_amount : ℕ
  pub max_ppm : ℕ
  pub keep_amount : ℕ
  pub keep_percent : F
  pub own_ppm : ℕ

pub data Unusable : Type 0 where
  depleted filled not_normal outgoing_disconnected incoming_disconnected : Unusable

-- What a split of a pull takes out of our balance at most, and one of a push out of the peer's.
unfoldable pub pull_cost : {F : Type 0} → Usage F → ℕ
pull_cost u = add_saturating u.split_amount (max_fee_for_ppm u.split_amount u.max_ppm)

module _ (Fl : Float64) where
  open Fl use {F, of_ℕ, to_ℕ, mul}

  -- What a channel keeps: the lower of the amount and the share of its capacity.
  unfoldable pub kept_by : Usage F → PeerChannel → ℕ
  kept_by u c =
      let share = to_ℕ (mul (of_ℕ c.total_msat) u.keep_percent) in
      if ltb u.keep_amount share then u.keep_amount else share

  -- RebalancePull.CanUseChannel
  unfoldable pub pull_can_use : Usage F → Peers → PeerChannel → Option Unusable
  unfolding kept_by local_balance pull_cost
  pull_can_use u n c =
      if ltb (local_balance c) (add_saturating (kept_by u c) (pull_cost u))
        || ltb c.spendable_msat (pull_cost u)
      then some depleted
      else if not c.is_normal
      then some not_normal
      else if not (is_peer_connected n c)
      then some outgoing_disconnected
      else none

  -- RebalancePush.CanUseChannel
  unfoldable pub push_can_use : Usage F → Peers → PeerChannel → Option Unusable
  unfolding kept_by remote_balance
  push_can_use u n c =
      if ltb (remote_balance c) (add_saturating (kept_by u c) u.split_amount)
        || ltb c.receivable_msat u.split_amount
      then some filled
      else if not c.is_normal
      then some not_normal
      else if not (is_peer_connected n c)
      then some incoming_disconnected
      else none

  -- RebalancePull.room and RebalancePush.room
  unfoldable pub pull_room : Usage F → PeerChannel → ℕ
  unfolding kept_by local_balance pull_cost whole_splits sub_saturating
  pull_room u c =
      whole_splits (sub_saturating (local_balance c) (kept_by u c)) u.split_amount (pull_cost u)

  unfoldable pub push_room : Usage F → PeerChannel → ℕ
  unfolding kept_by remote_balance whole_splits sub_saturating
  push_room u c =
      whole_splits (sub_saturating (remote_balance c) (kept_by u c)) u.split_amount u.split_amount

-- The parameters of a pull or a push that `Usage` has, as the call gives them; `listed` is whether an
-- outlist or inlist is given.
pub record Asked (F : Type 0) : Type 0 where
  pub listed : Bool
  pub own_ppm : ℕ
  pub keep_percent : F
  pub keep_amount : ℕ

module _ (Fl : Float64) where
  open Fl use {F, of_ℕ, ratio, le, lt}

  -- RebalancePull.prepare and RebalancePull.setDefaults: what they make of the parameters.
  unfoldable pub pull_defaults : Asked F → Asked F
  pull_defaults a =
      let ppm = if a.listed then 9223372036854775808 else a.own_ppm in
      record a {
        own_ppm = if ppm == 0 then 50 else ppm;
        keep_percent = if le a.keep_percent (of_ℕ 0) then ratio 2 10 else a.keep_percent;
        keep_amount = u64 ((if a.keep_amount == 0 then 1000000 else a.keep_amount) * 1000);
      }

  -- RebalancePush.prepare and RebalancePush.setDefaults
  unfoldable pub push_defaults : Asked F → Asked F
  push_defaults a =
      let ppm = if a.listed then 0 else a.own_ppm in
      record a {
        own_ppm = if ppm == 0 then 50 else ppm;
        keep_percent = if le a.keep_percent (of_ℕ 0) then ratio 8 10 else a.keep_percent;
        keep_amount = u64 ((if a.keep_amount == 0 then 10000000 else a.keep_amount) * 1000);
      }

  -- The test of depleteuptopercent and filluptopercent in validateParameters.
  unfoldable pub is_percent : Asked F → Bool
  is_percent a = not (lt (of_ℕ 1) a.keep_percent) && not (lt a.keep_percent (of_ℕ 0))

-- RebalancePull.IsGoodCandidate at the time `now`
unfoldable pub pull_is_good : {F : Type 0} → ℕ → Usage F → Peers → Graph → PeerChannel → Bool
unfolding get_channel_from_scid
pull_is_good now u n g c =
    c.is_normal
    && is_peer_connected n c
    && (elim (get_channel_from_scid now true n g c.short_channel_id) [
      | none ↦ false
      | some out ↦ leb (compute_fee_ppm out u.split_amount) u.own_ppm
    ])

-- RebalancePush.inPeerFeeFits
unfoldable pub in_peer_fee_fits : {F : Type 0} → Usage F → Graph → Channel → Round → Bool × Round
in_peer_fee_fits u g back round =
    if leb (least_forward_fee g back (some u.target_channel) u.split_amount)
      (max_fee_for_ppm u.split_amount u.max_ppm)
    then (true, round)
    else (false, record round { priced = true; left_out = true })

-- RebalancePush.IsGoodCandidate
unfoldable pub push_is_good :
    {F : Type 0} → ℕ → Usage F → Peers → Graph → PeerChannel → Round → Bool × Round
unfolding get_channel_from_scid in_peer_fee_fits
push_is_good now u n g c round = elim (get_channel_from_scid now false n g c.short_channel_id) [
  | none ↦ (false, round)
  | some back ↦
      let (fits, round') = in_peer_fee_fits u g back round in
      let dear : Bool = elim (get_channel_from_scid now true n g c.short_channel_id) [
        | none ↦ false
        | some out ↦ ltb u.own_ppm (compute_fee_ppm out u.split_amount)
      ] in
      (fits && dear, round')
]
