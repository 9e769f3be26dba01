-- ===== src/Graph/BeliefLaws.antt =====
-- Laws of learning from payments (graph/graph.go, graph/beliefs.go).
use cln_circular.Common.{
  ℕ, ◌+◌, ◌-◌, ◌≤◌, ◌<◌, ◌≡◌, ◌≢◌, sym, subst, false, Option, none, some, arith, Str, str_eq,
  str_eq_iff, lookup, insert, lookup-insert, AllValues, AllValues-lookup, AllValues-insert,
  Option-cases, Bool-cases, ◌==◌, inl, inr, u64_mod, if◌then◌else◌,
}
use Prim.Native.Nat.{min, max}
use cln_circular.Graph.FeeLaws.{add_saturating_lem}
use cln_circular.Graph.Channel.{Channel, opposite_channel_id, can_forward}
use cln_circular.Graph.State.{Graph}
use cln_circular.Graph.Belief.{
  on_channel, bound_above, raise_to_rest, learn_upper_bound, raise_to, bound_by_rest,
  learn_lower_bound, take_out, put_in, learn_payment, mark_unusable,
}

-- What a lookup gives after a change of one channel in place.
pub lookup-on_channel :
    (id j : Str) (f : Channel → Channel) (g : Graph)
    → lookup j (on_channel id f g).channels ≡ (
        if str_eq id j
        then elim (lookup id g.channels) as (λ _. Option Channel) [
          | none ↦ none
          | some c ↦ some (f c)
        ]
        else lookup j g.channels)
unfolding on_channel
lookup-on_channel id j f g = elim (Option-cases (lookup id g.channels)) [
  | inl e ↦ ground (arith, str_eq_iff id j)
  | inr (c, e) ↦ ground (arith, lookup-insert id j (f c) g.channels)
]

-- Two changes, of a channel and of another one, seen at each of them.
two_changes :
    (id op : Str) (f h : Channel → Channel) (g : Graph) {c : Channel}
    → id ≢ op
    → lookup id g.channels ≡ some c
    → lookup id (on_channel op h (on_channel id f g)).channels ≡ some (f c)
two_changes id op f h g {c} n e = ground (
  arith,
  str_eq_iff op id,
  str_eq_iff id id,
  lookup-on_channel op id h (on_channel id f g),
  lookup-on_channel id id f g,
)

other_change :
    (id op : Str) (f h : Channel → Channel) (g : Graph) {d : Channel}
    → id ≢ op
    → lookup op g.channels ≡ some d
    → lookup op (on_channel op h (on_channel id f g)).channels ≡ some (h d)
other_change id op f h g {d} n e = ground (
  arith,
  str_eq_iff id op,
  str_eq_iff op op,
  lookup-on_channel op op h (on_channel id f g),
  lookup-on_channel id op f g,
)

-- After a channel failed to forward an amount above 0 for lack of liquidity, its belief is below
-- that amount and no higher than before, so the search no longer sends that much or more over it.
pub learn_upper_bound-blocks :
    (now : ℕ) (id : Str) (amount a : ℕ) (g : Graph) {c : Channel}
    → 0 < amount
    → amount ≤ a
    → id ≢ opposite_channel_id id
    → lookup id g.channels ≡ some c
    → (c' : Channel) × (lookup id (learn_upper_bound now id amount g).channels ≡ some c')
      × (c'.liquidity < amount)
      × (c'.liquidity ≤ c.liquidity)
      × (can_forward c' a ≡ false)
unfolding learn_upper_bound bound_above can_forward
learn_upper_bound-blocks now id amount a g {c} h k n e = (
  bound_above now amount c,
  ground (
    arith,
    two_changes id (opposite_channel_id id) (bound_above now amount) (raise_to_rest now amount) g n
        e,
  ),
  ground arith,
  ground arith,
  ground arith,
)

-- The same failure raises the belief about the other direction to at least the rest of its
-- capacity, and never lowers it.
pub learn_upper_bound-opposite :
    (now : ℕ) (id : Str) (amount : ℕ) (g : Graph) {d : Channel}
    → 0 < amount
    → id ≢ opposite_channel_id id
    → lookup (opposite_channel_id id) g.channels ≡ some d
    → (d' : Channel) × (lookup (opposite_channel_id id) (learn_upper_bound now id amount g).channels
        ≡ some d')
      × (d.liquidity ≤ d'.liquidity)
      × (d.amount_msat ≤ d'.liquidity + amount)
unfolding learn_upper_bound raise_to_rest
learn_upper_bound-opposite now id amount g {d} h n e = (
  raise_to_rest now amount d,
  ground (
    arith,
    other_change id (opposite_channel_id id) (bound_above now amount) (raise_to_rest now amount) g n
        e,
  ),
  ground arith,
  ground arith,
)

-- After a channel forwarded an amount, it is believed to hold at least that, and the other
-- direction at most the rest of the capacity; the first belief never falls, the second never rises.
pub learn_lower_bound_lem :
    (now : ℕ) (id : Str) (amount : ℕ) (g : Graph) {c d : Channel}
    → id ≢ opposite_channel_id id
    → lookup id g.channels ≡ some c
    → lookup (opposite_channel_id id) g.channels ≡ some d
    → (c' : Channel) × (d' : Channel) × (lookup id (learn_lower_bound now id amount g).channels
        ≡ some c')
      × (lookup (opposite_channel_id id) (learn_lower_bound now id amount g).channels ≡ some d')
      × (c'.liquidity ≡ max c.liquidity amount)
      × (d'.liquidity ≡ min d.liquidity (d.amount_msat - amount))
unfolding learn_lower_bound raise_to bound_by_rest
learn_lower_bound_lem now id amount g {c} {d} n e k = (
  raise_to now amount c,
  bound_by_rest now amount d,
  ground (
    arith,
    two_changes id (opposite_channel_id id) (raise_to now amount) (bound_by_rest now amount) g n e,
  ),
  ground (
    arith,
    other_change id (opposite_channel_id id) (raise_to now amount) (bound_by_rest now amount) g n k,
  ),
  ground arith,
  ground arith,
)

-- After a payment the channel holds its amount less, but at least 1, so that it does not read as
-- unusable, and the other direction that much more, within its capacity.
pub learn_payment_lem :
    (now : ℕ) (id : Str) (amount : ℕ) (g : Graph) {c d : Channel}
    → id ≢ opposite_channel_id id
    → lookup id g.channels ≡ some c
    → lookup (opposite_channel_id id) g.channels ≡ some d
    → amount < u64_mod
    → d.liquidity < u64_mod
    → d.amount_msat < u64_mod
    → (c' : Channel) × (d' : Channel) × (lookup id (learn_payment now id amount g).channels
        ≡ some c')
      × (lookup (opposite_channel_id id) (learn_payment now id amount g).channels ≡ some d')
      × (c'.liquidity ≡ max 1 (c.liquidity - amount))
      × (d'.liquidity ≡ min d.amount_msat (d.liquidity + amount))
unfolding learn_payment take_out put_in
learn_payment_lem now id amount g {c} {d} n e k ha hl hc = (
  take_out now amount c,
  put_in now amount d,
  ground (
    arith,
    two_changes id (opposite_channel_id id) (take_out now amount) (put_in now amount) g n e,
  ),
  ground (
    arith,
    other_change id (opposite_channel_id id) (take_out now amount) (put_in now amount) g n k,
  ),
  ground arith,
  ground (arith, add_saturating_lem d.liquidity amount hl ha),
)

-- A lesson from a payment, as the rebalances give them.
pub data Lesson : Type 0 where
  short_of : Str → ℕ → Lesson
  forwarded : Str → ℕ → Lesson
  paid : Str → ℕ → Lesson
  unusable : Str → Lesson

unfoldable pub learn : ℕ → Lesson → Graph → Graph
learn now (short_of id amount) = learn_upper_bound now id amount
learn now (forwarded id amount) = learn_lower_bound now id amount
learn now (paid id amount) = learn_payment now id amount
learn now (unusable id) = mark_unusable now id

-- Every belief is within its channel's capacity.
abbrev pub FitsCapacity : Graph → Type 0
FitsCapacity g = AllValues (λ (c : Channel). c.liquidity ≤ c.amount_msat) g.channels

-- No channel forwards more than its capacity, and one that pays has a capacity.
abbrev pub IsPossible : Lesson → Graph → Type 0
IsPossible (forwarded id amount) g =
    (c : Channel) → lookup id g.channels ≡ some c → amount ≤ c.amount_msat
IsPossible (paid id amount) g = (c : Channel) → lookup id g.channels ≡ some c → 0 < c.amount_msat
IsPossible _ g = Unit

on_channel-AllValues :
    (P : Channel → Type 0) (id : Str) (f : Channel → Channel) (g : Graph)
    → ((c : Channel) → lookup id g.channels ≡ some c → P c → P (f c))
    → AllValues P g.channels
    → AllValues P (on_channel id f g).channels
unfolding on_channel
on_channel-AllValues P id f g keep h = elim (Option-cases (lookup id g.channels)) [
  | inl e ↦
      let same : on_channel id f g ≡ g = rw (e, on_channel) in
      subst (λ x. AllValues P x.channels) (sym same) h
  | inr (c, e) ↦
      let same : on_channel id f g ≡ record g { channels = insert id (f c) g.channels } =
        rw (e, on_channel) in
      subst (λ x. AllValues P x.channels) (sym same)
        (AllValues-insert P id (f c) g.channels h (keep c e (AllValues-lookup P id g.channels h e)))
]

on_channel-FitsCapacity :
    (id : Str) (f : Channel → Channel) (g : Graph)
    → ((c : Channel) → c.liquidity ≤ c.amount_msat → (f c).liquidity ≤ (f c).amount_msat)
    → FitsCapacity g
    → FitsCapacity (on_channel id f g)
on_channel-FitsCapacity id f g keep = on_channel-AllValues _ id f g (λ c _ h. keep c h)

-- Every lesson from a payment that can have happened keeps every belief within its channel's
-- capacity.
pub learn-FitsCapacity :
    (now : ℕ) (l : Lesson) (g : Graph)
    → IsPossible l g
    → FitsCapacity g
    → FitsCapacity (learn now l g)
unfolding learn learn_upper_bound learn_lower_bound learn_payment mark_unusable bound_above
    raise_to_rest raise_to bound_by_rest take_out put_in
learn-FitsCapacity now (short_of id amount) g p h = elim (Bool-cases (amount == 0)) [
  | inl e ↦ rw e h
  | inr e ↦ rw e (
      on_channel-FitsCapacity _ _ _ (λ c k. ground arith)
        (on_channel-FitsCapacity _ _ _ (λ c k. ground arith) h))
]
learn-FitsCapacity now (forwarded id amount) g p h =
    on_channel-FitsCapacity _ _ _ (λ c k. ground arith)
      (on_channel-AllValues _ _ _ _ (λ c e k. ground (arith, p c e)) h)
learn-FitsCapacity now (paid id amount) g p h =
    on_channel-FitsCapacity _ _ _ (λ c k. ground arith)
      (on_channel-AllValues _ _ _ _ (λ c e k. ground (arith, p c e)) h)
learn-FitsCapacity now (unusable id) g p h = on_channel-FitsCapacity _ _ _ (λ c k. ground arith) h
