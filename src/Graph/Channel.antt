-- ===== src/Graph/Channel.antt =====
-- One direction of a channel (graph/channel.go, util/util.go) and the ids of channels.
use cln_circular.Common.{
  ℕ, ◌-◌, ◌/◌, Bool, false, ◌&&◌, ◌||◌, not, none, some, [], ◌∷◌, ◌++◌, ltb, leb, ◌==◌,
  if◌then◌else◌, Str, str_lt, length, get_elem?, take,
}
use cln_circular.Graph.Fee.{proportional_fee, fee_ppm}

-- The fields of glightning.Channel that the code reads: a channel's policy.
pub record Policy : Type 0 where
  pub source : Str
  pub destination : Str
  pub short_channel_id : Str
  pub amount_msat : ℕ
  pub base_fee_millisatoshi : ℕ
  pub fee_per_millionth : ℕ
  pub delay : ℕ
  pub last_update : ℕ
  pub message_flags : ℕ
  pub channel_flags : ℕ
  pub htlc_minimum_msat : ℕ
  pub htlc_maximum_msat : ℕ
  pub is_active : Bool

-- Channel: the policy, and what is believed of its liquidity.
pub record Channel : Type 0 where
  pub policy : Policy
  pub open policy use *
  pub liquidity : ℕ
  pub timestamp : ℕ
  pub upper : Bool
  pub dear : Bool
  pub max_htlc_msat : ℕ
  pub min_htlc_msat : ℕ

-- NewChannel
unfoldable pub new_channel : Policy → ℕ → ℕ → Channel
new_channel p liquidity timestamp = record {
  policy = p;
  liquidity = liquidity;
  timestamp = timestamp;
  upper = false;
  dear = false;
  max_htlc_msat = p.htlc_maximum_msat;
  min_htlc_msat = p.htlc_minimum_msat;
}

-- Channel.ComputeFee
unfoldable pub compute_fee : Channel → ℕ → ℕ
compute_fee c amount = proportional_fee c.base_fee_millisatoshi c.fee_per_millionth amount

-- Channel.ComputeFeePPM
unfoldable pub compute_fee_ppm : Channel → ℕ → ℕ
unfolding compute_fee
compute_fee_ppm c amount = fee_ppm (compute_fee c amount) amount

-- util.GetDirection: "0" or "1".
unfoldable pub get_direction : Str → Str → Str
get_direction from to = if str_lt from to then b'0' ∷ [] else b'1' ∷ []

-- scid + "/" + direction, as the code builds ids from two nodes.
unfoldable pub make_id : Str → Str → Str → Str
unfolding get_direction
make_id scid from to = scid ++ b'/' ∷ get_direction from to

-- The id of a channel.
unfoldable pub channel_id : Channel → Str
unfolding make_id
channel_id c = make_id c.short_channel_id c.source c.destination

abbrev byte_at : Str → ℕ → ℕ
byte_at s i = elim (get_elem? s i) [ some b ↦ b | none ↦ 0 ]

-- OppositeChannelId
unfoldable pub opposite_channel_id : Str → Str
opposite_channel_id id =
    let n = length id in
    if ltb n 2 || not (byte_at id (n - 2) == b'/')
    then id
    else if byte_at id (n - 1) == b'0'
    then take (n - 1) id ++ b'1' ∷ []
    else take (n - 1) id ++ b'0' ∷ []

-- The limit of Channel.CanForward: a bound that loosens after a failure never admits more than
-- half of the capacity.
unfoldable pub forward_limit : Channel → ℕ
forward_limit c =
    if c.upper && ltb (c.amount_msat / 2) c.liquidity then c.amount_msat / 2 else c.liquidity

-- Channel.CanForward
unfoldable pub can_forward : Channel → ℕ → Bool
unfolding forward_limit
can_forward c amount =
    c.is_active
    && leb amount (forward_limit c)
    && leb amount c.max_htlc_msat
    && leb c.min_htlc_msat amount

-- Channel.ResetLiquidity at the time `now`
unfoldable pub reset_liquidity : ℕ → Channel → Channel
reset_liquidity now c = record c { liquidity = c.amount_msat / 2; upper = false; timestamp = now }

-- Channel.learned (graph/beliefs.go)
unfoldable pub learned : Channel → Bool
learned c = not (c.timestamp == 0) && (c.upper || not (c.liquidity == c.amount_msat / 2))
