-- ===== src/Parallel/TargetLaws.antt =====
-- Laws of the limit that a run learns for its target channel (rebalance/parallel/result.go).
use Prim.Native.Nat.{min}
use cln_circular.Common.{
  ℕ, ◌+◌, ◌*◌, ◌/◌, ◌≤◌, ◌≡◌, ◌⊎◌, refl, Bool, true, false, not, ◌&&◌, ◌||◌, arith, ltb, leb, ◌==◌,
  if◌then◌else◌, Str, lookup_or, insert,
}
use cln_circular.Parallel.Run.{TargetLimit}
use cln_circular.Parallel.Target.{
  backoff_of, is_probe, note_fired, set_target_cap, probe_held, grow, target_succeeded,
  probe_refused, lower_cap, target_busy,
}

-- The backoff is unset, or a power of two up to maxCapBackoff.
abbrev pub IsBackoff : ℕ → Type 0
IsBackoff b = (b ≡ 0) ⊎ (b ≡ 1) ⊎ (b ≡ 2) ⊎ (b ≡ 4) ⊎ (b ≡ 8) ⊎ (b ≡ 16) ⊎ (b ≡ 32) ⊎ (b ≡ 64)

pub record IsCapped (splits : ℕ) (t : TargetLimit) : Type 0 where
  pub cap : t.cap ≤ splits
  pub backoff : IsBackoff t.backoff
  pub set_before : t.set_at ≤ t.fire_seq
  pub probe_fired : t.probe_seq ≤ t.fire_seq

IsCapped-if :
    (splits : ℕ) (b : Bool) (x y : TargetLimit)
    → (b ≡ true → IsCapped splits x)
    → (b ≡ false → IsCapped splits y)
    → IsCapped splits (if b then x else y)
IsCapped-if splits true x y f g = f refl
IsCapped-if splits false x y f g = g refl

halved : (b : ℕ) → IsBackoff b → IsBackoff (if ltb 1 b then b / 2 else b)
halved b h = ground arith

doubled : (b : ℕ) → IsBackoff b → IsBackoff (if ltb b 64 then (if ltb b 1 then 1 else b) * 2 else b)
doubled b h = ground arith

grow-IsCapped : (splits : ℕ) (t : TargetLimit) → IsCapped splits t → IsCapped splits (grow splits t)
unfolding grow set_target_cap
grow-IsCapped splits t h =
    IsCapped-if splits (not t.probing && ltb t.cap splits && leb (t.cap * backoff_of t) t.successes)
      (record (set_target_cap (t.cap + 1) t) { probing = true; probe_seq = 0 }) t
      (λ e. record {
        cap = ground arith;
        backoff = h.backoff;
        set_before = omega arith;
        probe_fired = omega arith;
      })
      (λ _. h)

probe_held-IsCapped :
    (splits : ℕ) (t : TargetLimit) → IsCapped splits t → IsCapped splits (probe_held t)
unfolding probe_held
probe_held-IsCapped splits t h = record {
  cap = h.cap;
  backoff = halved t.backoff h.backoff;
  set_before = h.set_before;
  probe_fired = omega arith;
}

-- A success keeps the target's limit within the splits of the run, and the backoff a power of two up
-- to 64.
pub target_succeeded-IsCapped :
    (splits : ℕ) (id : Str) (t : TargetLimit)
    → IsCapped splits t
    → IsCapped splits (target_succeeded splits id t)
unfolding target_succeeded
target_succeeded-IsCapped splits id t h =
    let counted = record t { successes = t.successes + 1 } in
    let counted_h : IsCapped splits counted = record {
      cap = h.cap;
      backoff = h.backoff;
      set_before = h.set_before;
      probe_fired = h.probe_fired;
    } in
    let judged = if is_probe id counted then probe_held counted else counted in
    IsCapped-if splits (t.cap == 0) t (grow splits judged) (λ _. h)
      (λ _. grow-IsCapped splits judged (
        IsCapped-if splits (is_probe id counted) (probe_held counted) counted
          (λ _. probe_held-IsCapped splits counted counted_h) (λ _. counted_h)))

-- Firing a split numbers it after all the others, and keeps the limits.
pub note_fired-IsCapped :
    (splits : ℕ) (id : Str) (at_target : ℕ) (t : TargetLimit)
    → IsCapped splits t
    → IsCapped splits (note_fired id at_target t)
unfolding note_fired
note_fired-IsCapped splits id at_target t h = record {
  cap = h.cap;
  backoff = h.backoff;
  set_before = omega (arith, h.set_before);
  probe_fired = ground (arith, h.probe_fired);
}

lower_cap-IsCapped :
    (splits others : ℕ) (t : TargetLimit)
    → others ≤ splits
    → IsCapped splits t
    → IsCapped splits (lower_cap others t)
unfolding lower_cap probe_refused backoff_of set_target_cap
lower_cap-IsCapped splits others t le h =
    let refused = if t.probing then probe_refused t else t in
    let base =
      IsCapped-if splits t.probing (probe_refused t) t
        (λ _. record {
          cap = h.cap;
          backoff = doubled t.backoff h.backoff;
          set_before = h.set_before;
          probe_fired = omega arith;
        })
        (λ _. h) in
    IsCapped-if splits (t.cap == 0 || ltb others t.cap) (set_target_cap others refused) t
      (λ _. record {
        cap = le;
        backoff = base.backoff;
        set_before = omega arith;
        probe_fired = base.probe_fired;
      })
      (λ _. h)

cap_if :
    (b : Bool) (x y : TargetLimit) (n : ℕ)
    → (b ≡ true → x.cap ≡ n)
    → (b ≡ false → y.cap ≡ n)
    → (if b then x else y).cap ≡ n
cap_if true x y n f g = f refl
cap_if false x y n f g = g refl

lower_cap-cap :
    (others : ℕ) (t : TargetLimit)
    → (lower_cap others t).cap ≡ (if t.cap == 0 then others else min t.cap others)
unfolding lower_cap set_target_cap
lower_cap-cap others t =
    cap_if (t.cap == 0 || ltb others t.cap)
      (set_target_cap others (if t.probing then probe_refused t else t)) t
      (if t.cap == 0 then others else min t.cap others) (λ e. ground arith) (λ e. ground arith)

busy_cap :
    (b : Bool) (x y : TargetLimit × Bool) (n : ℕ)
    → x.0.cap ≡ n
    → y.0.cap ≡ n
    → (if◌then◌else◌ {A = TargetLimit × Bool} b x y).0.cap ≡ n
busy_cap true x y n f g = f
busy_cap false x y n f g = g

busy_IsCapped :
    (splits : ℕ) (b : Bool) (x y : TargetLimit × Bool)
    → IsCapped splits x.0
    → IsCapped splits y.0
    → IsCapped splits (if◌then◌else◌ {A = TargetLimit × Bool} b x y).0
busy_IsCapped splits true x y f g = f
busy_IsCapped splits false x y f g = g

-- After the target refused a split as busy, with `others` splits still in flight, its limit is what
-- it was or `others`, whichever is less (`others` without a limit); so it is above 0 if `others` is.
pub target_busy-cap :
    (id : Str) (others : ℕ) (t : TargetLimit)
    → (target_busy id others t).0.cap ≡ (if t.cap == 0 then others else min t.cap others)
unfolding target_busy
target_busy-cap id others t =
    let lowered = lower_cap others t in
    let n = lookup_or id 0 lowered.busy_refusals + 1 in
    let noted = record lowered { busy_refusals = insert id n lowered.busy_refusals } in
    busy_cap (t.cap == 0 || leb (lookup_or id 0 t.fired_at) t.set_at || t.probing) (lowered, true)
      (noted, leb n 3) _ (lower_cap-cap others t) (lower_cap-cap others t)

-- A busy refusal keeps the target's limit within the run's splits, and the backoff a power of two up
-- to 64.
pub target_busy-IsCapped :
    (splits : ℕ) (id : Str) (others : ℕ) (t : TargetLimit)
    → others ≤ splits
    → IsCapped splits t
    → IsCapped splits (target_busy id others t).0
unfolding target_busy
target_busy-IsCapped splits id others t le h =
    let lowered = lower_cap others t in
    let n = lookup_or id 0 lowered.busy_refusals + 1 in
    let noted = record lowered { busy_refusals = insert id n lowered.busy_refusals } in
    let low = lower_cap-IsCapped splits others t le h in
    busy_IsCapped splits (t.cap == 0 || leb (lookup_or id 0 t.fired_at) t.set_at || t.probing)
      (lowered, true) (noted, leb n 3) low
      (record {
        cap = low.cap;
        backoff = low.backoff;
        set_before = low.set_before;
        probe_fired = low.probe_fired;
      })
