-- ===== src/Graph/Belief.antt =====
-- What payments teach about liquidity (graph/graph.go, graph/beliefs.go). `now` is time.Now().Unix().
use cln_circular.Common.{
  ℕ, ◌+◌, ◌-◌, ◌/◌, Bool, true, false, ◌&&◌, ◌||◌, not, Option, none, some, [], ◌∷◌, ltb, leb, ◌==◌,
  if◌then◌else◌, Str, Map, lookup, insert, sub64, u64,
}
use cln_circular.Common.Float.{Float64}
use cln_circular.Graph.Fee.{add_saturating}
use cln_circular.Graph.Channel.{Channel, opposite_channel_id, reset_liquidity, learned}
use cln_circular.Graph.State.{Graph}

-- `if c, ok := g.Channels[id]; ok { ... }` with a change of the channel in place.
unfoldable pub on_channel : Str → (Channel → Channel) → Graph → Graph
on_channel id f g = elim (lookup id g.channels) [
  | none ↦ g
  | some c ↦ record g { channels = insert id (f c) g.channels }
]

-- The two halves of LearnUpperBound: on the failing direction, and on the other.
unfoldable pub bound_above : ℕ → ℕ → Channel → Channel
bound_above now amount c =
    if leb amount c.liquidity
    then record c { liquidity = amount - 1; upper = true; timestamp = now }
    else record c { timestamp = now }

unfoldable pub raise_to_rest : ℕ → ℕ → Channel → Channel
raise_to_rest now amount c =
    if ltb amount c.amount_msat && ltb c.liquidity (c.amount_msat - amount)
    then record c { liquidity = c.amount_msat - amount; upper = false; timestamp = now }
    else record c { timestamp = now }

-- Graph.LearnUpperBound
unfoldable pub learn_upper_bound : ℕ → Str → ℕ → Graph → Graph
unfolding on_channel
learn_upper_bound now id amount g =
    if amount == 0
    then g
    else on_channel (opposite_channel_id id) (raise_to_rest now amount)
        (on_channel id (bound_above now amount) g)

-- The two halves of LearnLowerBound.
unfoldable pub raise_to : ℕ → ℕ → Channel → Channel
raise_to now amount c =
    if ltb c.liquidity amount
    then record c { liquidity = amount; upper = false; timestamp = now }
    else record c { timestamp = now }

unfoldable pub bound_by_rest : ℕ → ℕ → Channel → Channel
bound_by_rest now amount c =
    let rest = if ltb amount c.amount_msat then c.amount_msat - amount else 0 in
    if ltb rest c.liquidity
    then record c { liquidity = rest; upper = true; timestamp = now }
    else record c { timestamp = now }

-- Graph.LearnLowerBound
unfoldable pub learn_lower_bound : ℕ → Str → ℕ → Graph → Graph
unfolding on_channel
learn_lower_bound now id amount g =
    on_channel (opposite_channel_id id) (bound_by_rest now amount)
      (on_channel id (raise_to now amount) g)

-- The two halves of LearnPayment: a channel used up keeps 1, since 0 means unusable.
unfoldable pub take_out : ℕ → ℕ → Channel → Channel
take_out now amount c =
    let short = ltb c.liquidity amount in
    let left = (if short then amount else c.liquidity) - amount in
    record c {
      liquidity = if left == 0 then 1 else left;
      upper = if short then false else c.upper;
      timestamp = now;
    }

unfoldable pub put_in : ℕ → ℕ → Channel → Channel
put_in now amount c =
    let sum = add_saturating c.liquidity amount in
    record c { liquidity = if ltb c.amount_msat sum then c.amount_msat else sum; timestamp = now }

-- Graph.LearnPayment
unfoldable pub learn_payment : ℕ → Str → ℕ → Graph → Graph
unfolding on_channel
learn_payment now id amount g =
    on_channel (opposite_channel_id id) (put_in now amount) (on_channel id (take_out now amount) g)

-- Graph.MarkUnusable
unfoldable pub mark_unusable : ℕ → Str → Graph → Graph
unfolding on_channel
mark_unusable now id =
    on_channel id (λ c. record c { liquidity = 0; upper = false; timestamp = now })

-- A loop over the channels that may change each in place and counts those that it does.
unfoldable pub sweep : (Channel → Option Channel) → Map Channel → Map Channel × ℕ
sweep f [] = ([], 0)
sweep f ((id, c) ∷ m) =
    let (rest, n) = sweep f m in
    elim (f c) [ none ↦ ((id, c) ∷ rest, n) | some c' ↦ ((id, c') ∷ rest, n + 1) ]

-- The body of RefreshLiquidity's loop; `threshold` is int64(refreshThreshold.Seconds()).
unfoldable pub expire : ℕ → ℕ → Channel → Option Channel
expire now threshold c =
    if ltb (c.timestamp + threshold) now then some (reset_liquidity now c) else none

-- Graph.RefreshLiquidity
unfoldable pub refresh_liquidity : ℕ → ℕ → Graph → Graph × ℕ
unfolding sweep
refresh_liquidity now threshold g =
    let (channels, hits) = sweep (expire now threshold) g.channels in
    (record g { channels = channels }, hits)

-- Belief: what is saved of a channel across restarts.
pub record Belief : Type 0 where
  pub liquidity : ℕ
  pub timestamp : ℕ
  pub upper : Bool

-- Graph.Beliefs
unfoldable pub beliefs_of : Map Channel → Map Belief
beliefs_of [] = []
beliefs_of ((id, c) ∷ m) =
    let rest = beliefs_of m in
    if learned c
    then (id, record { liquidity = c.liquidity; timestamp = c.timestamp; upper = c.upper }) ∷ rest
    else rest

-- The test of ApplyBeliefs that skips a belief.
unfoldable pub is_stale : ℕ → Belief → Channel → Bool
is_stale since b c =
    ltb b.timestamp since || leb b.timestamp c.timestamp || ltb c.amount_msat b.liquidity

-- Graph.ApplyBeliefs: the graph, and how many were applied.
unfoldable pub apply_beliefs : Map Belief → ℕ → Graph → Graph × ℕ
unfolding is_stale
apply_beliefs [] since g = (g, 0)
apply_beliefs ((id, b) ∷ m) since g = elim (lookup id g.channels) [
  | none ↦ apply_beliefs m since g
  | some c ↦
      let skipped = apply_beliefs m since g in
      let c' = record c { liquidity = b.liquidity; timestamp = b.timestamp; upper = b.upper } in
      let (g', n) = apply_beliefs m since (record g { channels = insert id c' g.channels }) in
      if is_stale since b c then skipped else (g', n + 1)
]

module _ (Fl : Float64) where
  open Fl use {F, of_ℕ, to_ℕ, ratio, mul, div, pow}

  -- uint64(float64(distance) * keep), where keep is 0.5 to the elapsed half lives
  unfoldable pub faded : ℕ → ℕ → ℕ → ℕ
  faded half_life elapsed distance =
      let keep = pow (ratio 1 2) (div (of_ℕ elapsed) (div (of_ℕ half_life) (of_ℕ 1000000000))) in
      to_ℕ (mul (of_ℕ distance) keep)

  -- The body of DecayLiquidity's loop, for a channel that it does not skip.
  unfoldable pub fade : ℕ → ℕ → Channel → Channel
  unfolding faded
  fade half_life elapsed c =
      let capacity = c.amount_msat in
      let def = capacity / 2 in
      if c.upper
      then (let l =
            if ltb c.liquidity capacity
            then sub64 capacity (faded half_life elapsed (capacity - c.liquidity))
            else c.liquidity in
          if leb capacity l || leb (capacity - l) (capacity / 1024)
          then record c { liquidity = def; upper = false }
          else record c { liquidity = l })
      else if ltb def c.liquidity
      then record c { liquidity = u64 (def + faded half_life elapsed (c.liquidity - def)) }
      else record c { liquidity = sub64 def (faded half_life elapsed (def - c.liquidity)) }

  -- The whole body: what it skips, and the time that counts.
  unfoldable pub decay : ℕ → ℕ → ℕ → Channel → Option Channel
  unfolding fade
  decay now last half_life c =
      let from = if ltb c.timestamp last then last else c.timestamp in
      let elapsed = now - from in
      if c.timestamp == 0
      then none
      else if elapsed == 0 || (c.liquidity == c.amount_msat / 2 && not c.upper) || c.liquidity == 0
      then none
      else some (fade half_life elapsed c)

  -- Graph.DecayLiquidity: halfLife in nanoseconds
  unfoldable pub decay_liquidity : ℕ → ℕ → Graph → Graph × ℕ
  unfolding decay sweep
  decay_liquidity now half_life g =
      let (channels, moved) = sweep (decay now g.last_decay half_life) g.channels in
      if half_life == 0 then (g, 0) else (record g { channels = channels; last_decay = now }, moved)
