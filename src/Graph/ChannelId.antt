-- ===== src/Graph/ChannelId.antt =====
-- Laws of the ids "scid/direction" of channels (graph/graph.go, util/util.go).
use cln_circular.Common.{
  ℕ, suc, ◌+◌, ◌-◌, ◌≡◌, ◌≢◌, sym, subst, ap, some, [], ◌∷◌, ◌++◌, arith, ◌==◌, if◌then◌else◌, Str,
  str_lt_asymm, str_lt_total, length, get_elem?, take, length-append, Bool-cases, inl, inr,
}
use mathlib.Core.List.{append_assoc}
use cln_circular.Graph.Channel.{make_id, opposite_channel_id}

get_elem?-append : (s t : Str) (i : ℕ) → get_elem? (s ++ t) (length s + i) ≡ get_elem? t i
get_elem?-append [] t i = let e : 0 + i ≡ i = omega arith in rw e
get_elem?-append (a ∷ s) t i =
    let e : suc (length s) + i ≡ suc (length s + i) = omega arith in rw e (get_elem?-append s t i)

take-append : (s t : Str) (n : ℕ) → take (length s + n) (s ++ t) ≡ s ++ take n t
take-append [] t n = let e : 0 + n ≡ n = omega arith in rw e
take-append (a ∷ s) t n =
    let e : suc (length s) + n ≡ suc (length s + n) = omega arith in
    rw e (ap (◌∷◌ a) (take-append s t n))

ends :
    (s : Str) (d : ℕ)
    → (if d == b'0' then (s ++ b'/' ∷ []) ++ b'1' ∷ [] else (s ++ b'/' ∷ []) ++ b'0' ∷ [])
      ≡ s ++ b'/' ∷ (if d == b'0' then b'1' else b'0') ∷ []
ends s d = elim (Bool-cases (d == b'0')) [
  | inl e ↦ rw (e, append_assoc)
  | inr e ↦ rw (e, append_assoc)
]

-- On an id that ends in "/d" the opposite replaces the last byte.
opposite-append :
    (s : Str) (d : ℕ)
    → opposite_channel_id (s ++ b'/' ∷ d ∷ []) ≡ s ++ b'/' ∷ (if d == b'0' then b'1' else b'0') ∷ []
unfolding opposite_channel_id
opposite-append s d =
    let t : Str = b'/' ∷ d ∷ [] in
    let n = length (s ++ t) in
    let len : n ≡ length s + 2 = length-append s t in
    let at_slash : n - 2 ≡ length s + 0 = omega arith in
    let at_end : n - 1 ≡ length s + 1 = omega arith in
    let slash : get_elem? (s ++ t) (n - 2) ≡ some b'/' =
      subst (λ i. get_elem? (s ++ t) i ≡ some b'/') (sym at_slash) (get_elem?-append s t 0) in
    let digit : get_elem? (s ++ t) (n - 1) ≡ some d =
      subst (λ i. get_elem? (s ++ t) i ≡ some d) (sym at_end) (get_elem?-append s t 1) in
    let start : take (n - 1) (s ++ t) ≡ s ++ b'/' ∷ [] =
      subst (λ i. take i (s ++ t) ≡ s ++ b'/' ∷ []) (sym at_end) (take-append s t 1) in
    ground (arith, ends s d)

-- The opposite of the id of a channel from one node to another is the id of the channel between
-- the same nodes the other way round.
pub opposite-make_id :
    (scid from to : Str)
    → from ≢ to
    → opposite_channel_id (make_id scid from to) ≡ make_id scid to from
unfolding make_id
opposite-make_id scid from to h = ground (
  arith,
  opposite-append scid b'0',
  opposite-append scid b'1',
  str_lt_asymm from to,
  str_lt_asymm to from,
  str_lt_total from to,
)
