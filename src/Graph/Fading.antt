-- ===== src/Graph/Fading.antt =====
-- How beliefs fade (DecayLiquidity of graph/beliefs.go), for any float64 whose product with a power
-- of a half is no larger than the number, as holds below 2 ^ 53.
use cln_circular.Common.{ℕ, ◌-◌, ◌/◌, ◌≤◌, ◌<◌, ◌≡◌, true, false, arith, ◌⊎◌}
use Prim.Native.Nat.{min, max}
use cln_circular.Common.Float.{Float64}
use cln_circular.Graph.Channel.{Channel}
use cln_circular.Graph.Belief.{faded, fade}

module _ (Fl : Float64) where
  -- Multiplying by a power of a half does not grow a number that float64 holds exactly.
  abbrev pub Shrinks : Type 0
  Shrinks = (half_life elapsed n : ℕ) → n ≤ 9007199254740992 → faded Fl half_life elapsed n ≤ n

  module _ (s : Shrinks) (half_life elapsed : ℕ) (c : Channel)
      (b : c.amount_msat ≤ 9007199254740992) (h : c.liquidity ≤ c.amount_msat) where
    gap-le : (n : ℕ) → n ≤ c.amount_msat → faded Fl half_life elapsed n ≤ n
    gap-le n k = s half_life elapsed n (omega arith)

    -- An estimate moves toward half the capacity and does not pass it.
    pub fade_estimate :
        c.upper ≡ false
        → ((fade Fl half_life elapsed c).upper ≡ false)
          × (min (c.amount_msat / 2) c.liquidity ≤ (fade Fl half_life elapsed c).liquidity)
          × ((fade Fl half_life elapsed c).liquidity ≤ max (c.amount_msat / 2) c.liquidity)
    unfolding fade
    fade_estimate u = ground (
      arith,
      gap-le (c.liquidity - c.amount_msat / 2) (omega arith),
      gap-le (c.amount_msat / 2 - c.liquidity) (omega arith),
    )

    -- A bound loosens, staying below the capacity, or becomes the default estimate.
    pub fade_bound :
        c.upper ≡ true
        → (((fade Fl half_life elapsed c).upper ≡ true)
            × (c.liquidity ≤ (fade Fl half_life elapsed c).liquidity)
            × ((fade Fl half_life elapsed c).liquidity < c.amount_msat))
          ⊎ (((fade Fl half_life elapsed c).upper ≡ false)
              × ((fade Fl half_life elapsed c).liquidity ≡ c.amount_msat / 2))
    unfolding fade
    fade_bound u = ground (arith, gap-le (c.amount_msat - c.liquidity) (omega arith))

    fade-le : (fade Fl half_life elapsed c).liquidity ≤ c.amount_msat
    unfolding fade
    fade-le = ground (
      arith,
      gap-le (c.amount_msat - c.liquidity) (omega arith),
      gap-le (c.liquidity - c.amount_msat / 2) (omega arith),
      gap-le (c.amount_msat / 2 - c.liquidity) (omega arith),
    )
