-- ===== src/Node/Earned.antt =====
-- What a channel's forwards earned (node/earned.go), over any float64 for their times.
use cln_circular.Common.{
  ℕ, ◌+◌, ◌-◌, Bool, ◌&&◌, not, Option, none, some, List, [], ◌∷◌, ltb, leb, ◌==◌, if◌then◌else◌,
  Str, Map, lookup, insert, u64, max_uint64, mul64_hi, mul64_lo, div64,
}
use cln_circular.Common.Float.{Float64}

-- EARN_CACHE_TTL in seconds
abbrev pub earn_cache_ttl : ℕ
earn_cache_ttl = 600

-- The fields of glightning.Forwarding that the code reads; `settled` is `Status == "settled"`.
pub record Forwarding (F : Type 0) : Type 0 where
  pub settled : Bool
  pub resolved_time : F
  pub received_time : F
  pub fee_msat : ℕ
  pub out_msat : ℕ

-- earnedEntry: the times in seconds.
pub record EarnedEntry : Type 0 where
  pub ppm : ℕ
  pub volume : ℕ
  pub since : ℕ
  pub at : ℕ

-- The end of EarnedPPM: fees as parts per million of what was carried.
unfoldable pub rate_of : ℕ → ℕ → ℕ × ℕ
rate_of fees volume =
    if volume == 0
    then (0, 0)
    else if leb volume (mul64_hi fees 1000000)
    then (max_uint64, volume)
    else (div64 (mul64_hi fees 1000000) (mul64_lo fees 1000000) volume, volume)

module _ (Fl : Float64) where
  open Fl use {F, of_ℕ, lt, le}

  -- The forwards that count: settled, and resolved (or else received) no earlier than `since`.
  unfoldable pub counts : ℕ → Forwarding F → Bool
  counts since f =
      let zero_time = le f.resolved_time (of_ℕ 0) && le (of_ℕ 0) f.resolved_time in
      let at = if zero_time then f.received_time else f.resolved_time in
      f.settled && not (lt at (of_ℕ since))

  -- The loop of EarnedPPM
  unfoldable pub sum_forwards : ℕ → List (Forwarding F) → ℕ → ℕ → ℕ × ℕ
  unfolding counts
  sum_forwards since [] fees volume = (fees, volume)
  sum_forwards since (f ∷ fs) fees volume =
      let counted = counts since f in
      sum_forwards since fs (if counted then u64 (fees + f.fee_msat) else fees)
        (if counted then u64 (volume + f.out_msat) else volume)

  -- EarnedPPM
  unfoldable pub earned_ppm : ℕ → List (Forwarding F) → ℕ × ℕ
  unfolding sum_forwards rate_of
  earned_ppm since fs = let (fees, volume) = sum_forwards since fs 0 0 in rate_of fees volume

  -- The test of Node.Earned for what it keeps of a channel.
  unfoldable pub is_fresh : ℕ → ℕ → EarnedEntry → Bool
  is_fresh now since e =
      ltb (now - e.at) earn_cache_ttl
      && ltb (e.since - since) earn_cache_ttl
      && ltb (since - e.since) earn_cache_ttl

  -- Node.Earned: `listed` is listforwards of the channel, none an error.
  unfoldable pub earned :
      ℕ
      → Str
      → ℕ
      → Option (List (Forwarding F))
      → Map EarnedEntry
      → Option (ℕ × ℕ) × Map EarnedEntry
  unfolding earned_ppm is_fresh
  earned now scid since listed cache =
      let read : Option (ℕ × ℕ) × Map EarnedEntry = elim listed [
        | none ↦ (none, cache)
        | some fs ↦
            let (ppm, volume) = earned_ppm since fs in
            let entry : EarnedEntry = record {
              ppm = ppm;
              volume = volume;
              since = since;
              at = now;
            } in
            (some (ppm, volume), insert scid entry cache)
      ] in
      elim (lookup scid cache) [
        | none ↦ read
        | some e ↦ if is_fresh now since e then (some (e.ppm, e.volume), cache) else read
      ]
