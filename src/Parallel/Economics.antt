-- ===== src/Parallel/Economics.antt =====
-- What a split over a candidate may pay with a fee ratio (rebalance/parallel/economics.go), over any
-- float64.
use cln_circular.Common.{
  ℕ, Bool, true, false, ◌&&◌, ◌||◌, not, Option, none, some, List, [], ◌∷◌, ltb, leb, ◌==◌,
  if◌then◌else◌, Str, str_eq, Map, lookup, insert,
}
use cln_circular.Common.Float.{Float64}
use cln_circular.Graph.Channel.{Channel, compute_fee_ppm, make_id}
use cln_circular.Graph.Circular.{least_forward_fee}
use cln_circular.Graph.Fee.{max_fee_for_ppm}
use cln_circular.Graph.State.{Graph, get_channel}

-- MAX_PPM_LIMIT
abbrev pub max_ppm_limit : ℕ
max_ppm_limit = 1000000000

-- earning: `earned` is whether its basis is "earned".
pub record Earning : Type 0 where
  pub ppm : ℕ
  pub earned : Bool

-- economics
pub record SplitEconomics : Type 0 where
  pub limit : ℕ
  pub earn : Earning
  pub drain : ℕ
  pub most : ℕ

-- What the economics of a run read of it: `forwards` is readForwards, none an error.
pub record Pricing (F : Type 0) : Type 0 where
  pub our_id : Str
  pub target_channel : Channel
  pub split_amount : ℕ
  pub max_ppm : ℕ
  pub fee_ratio : F
  pub forwards : Str → Option (ℕ × ℕ)

module _ {F : Type 0} where
  -- AbstractRebalance.ourFeePPM: 0 where the graph does not know the channel.
  unfoldable pub our_fee_ppm : Pricing F → Graph → Str → Str → ℕ
  our_fee_ppm p g scid peer = elim (get_channel g (make_id scid p.our_id peer)) [
    | none ↦ 0
    | some ours ↦ compute_fee_ppm ours p.split_amount
  ]

  -- AbstractRebalance.keepEarning, without the map: EARN_MIN_VOLUME_MSAT is 100000000.
  unfoldable pub earning_of : Pricing F → Graph → Str → Str → Earning
  unfolding our_fee_ppm
  earning_of p g scid peer =
      let current : Earning = record { ppm = our_fee_ppm p g scid peer; earned = false } in
      elim (p.forwards scid) [
        | none ↦ current
        | some (ppm, volume) ↦
            if leb 100000000 volume then record { ppm = ppm; earned = true } else current
      ]

  -- AbstractRebalance.earns: what is kept for the run, or read and kept.
  unfoldable pub earns : Pricing F → Graph → Str → Str → Map Earning → Earning × Map Earning
  unfolding earning_of
  earns p g scid peer kept = elim (lookup scid kept) [
    | some e ↦ (e, kept)
    | none ↦ let e = earning_of p g scid peer in (e, insert scid e kept)
  ]

  -- The channel that a split over the candidate fills, and the one that it drains.
  unfoldable pub filled_by : Pricing F → Channel → Channel
  filled_by p candidate = if str_eq candidate.source p.our_id then p.target_channel else candidate

  unfoldable pub drained_by : Pricing F → Channel → Channel
  drained_by p candidate = if str_eq candidate.source p.our_id then candidate else p.target_channel

-- `min(most, maxppm)`
unfoldable pub cap_limit : ℕ → ℕ → ℕ
cap_limit max_ppm most = if ltb max_ppm most then max_ppm else most

module _ (Fl : Float64) where
  open Fl use {F, of_ℕ, to_ℕ, mul, sub, lt, le}

  abbrev pub has_ratio : Pricing F → Bool
  has_ratio p = lt (of_ℕ 0) p.fee_ratio

  -- What ratio × earned − drain comes to: 0 if it is not worth it.
  unfoldable pub most_of : F → ℕ → ℕ → ℕ
  most_of ratio earned drain =
      let limit = sub (mul ratio (of_ℕ earned)) (of_ℕ drain) in
      if not (le (of_ℕ 1) limit)
      then 0
      else if lt (of_ℕ max_ppm_limit) limit
      then max_ppm_limit
      else to_ℕ limit

  -- AbstractRebalance.splitEconomics, and what is kept of the earnings.
  unfoldable pub split_economics :
      Pricing F → Graph → Channel → Map Earning → SplitEconomics × Map Earning
  unfolding earns filled_by drained_by most_of cap_limit our_fee_ppm
  split_economics p g candidate kept =
      let filled = filled_by p candidate in
      let drained = drained_by p candidate in
      let (earn, kept') = earns p g filled.short_channel_id filled.source kept in
      let drain = our_fee_ppm p g drained.short_channel_id drained.destination in
      let most = most_of p.fee_ratio earn.ppm drain in
      if has_ratio p
      then (
        record { limit = cap_limit p.max_ppm most; earn = earn; drain = drain; most = most },
        kept',
      )
      else (
        record {
          limit = p.max_ppm;
          earn = record { ppm = 0; earned = false };
          drain = 0;
          most = 0;
        },
        kept,
      )

  -- The end of AbstractRebalance.notWorth, with a ratio: the in-peer alone charges more than the
  -- split's own limit, and no more than the run's.
  unfoldable pub in_peer_over : Pricing F → Graph → Channel → ℕ → Bool
  unfolding filled_by drained_by
  in_peer_over p g candidate limit =
      let in_fee =
        least_forward_fee g (filled_by p candidate) (some (drained_by p candidate))
          p.split_amount in
      ltb limit p.max_ppm
      && ltb (max_fee_for_ppm p.split_amount limit) in_fee
      && leb in_fee (max_fee_for_ppm p.split_amount p.max_ppm)

  -- AbstractRebalance.notWorth: whether its reason is not "".
  unfoldable pub not_worth :
      Pricing F → Graph → Channel → Map Earning → (SplitEconomics × Map Earning) × Bool
  unfolding split_economics in_peer_over
  not_worth p g candidate kept =
      let (e, kept') = split_economics p g candidate kept in
      ((e, kept'), has_ratio p && (e.limit == 0 || in_peer_over p g candidate e.limit))

  -- The channels of AbstractRebalance.prefetchEarnings, each read and kept in turn.
  unfoldable pub keep_earnings : Pricing F → Graph → List Channel → Map Earning → Map Earning
  unfolding earning_of
  keep_earnings p g [] kept = kept
  keep_earnings p g (c ∷ cs) kept =
      keep_earnings p g cs
        (insert c.short_channel_id (earning_of p g c.short_channel_id c.source) kept)

  -- AbstractRebalance.prefetchEarnings
  unfoldable pub prefetch_earnings : Pricing F → Graph → List Channel → Map Earning → Map Earning
  unfolding keep_earnings
  prefetch_earnings p g candidates kept =
      if not (has_ratio p)
      then kept
      else keep_earnings p g
          (if str_eq p.target_channel.destination p.our_id
            then p.target_channel ∷ []
            else candidates)
          kept
