-- ===== src/Graph/SearchSound.antt =====
-- Laws of the queue of the search of graph/pathfinder.go.
use cln_circular.Common.{
  ℕ, zero, suc, ◌+◌, ◌≤◌, ◌≡◌, ◌≢◌, ◌⊎◌, refl, sym, subst, ap, ◌∙◌, Bool, true, false, Option, none,
  some, List, [], ◌∷◌, arith, Str, str_eq, str_eq_iff, u64, length, Map, lookup, lookup_or, All,
  ltb, not, ◌||◌, ◌&&◌, if◌then◌else◌, Bool-cases, inl, inr,
}
use mathlib.Core.Bool.{false≢true}
use cln_circular.Graph.Channel.{Channel, compute_fee, make_id, channel_id}
use cln_circular.Graph.State.{Graph, Edge, get_inbound_fee}
use cln_circular.Graph.Route.{hop_before, price_hops, max_route_delay}
use cln_circular.Graph.Search.{
  Label, path, SearchRequest, SearchState, is_excluded, self_of, path_hops, final_label, next_label,
  Mark, push, push_some, expand_edge, expand_all, at_source, expand, turn, Turn, found, go_on, Heap,
  search_loop, Answer, route, no_route, dominated, Expansion,
}
use cln_circular.Graph.SearchLaws.{
  Linked, EndsWith, first_amount, EdgeSound, EdgesSound, IsUsable, Carried, hop_of, IsSound,
  priced_step, Extends, final_facts, next_facts,
}

module _ (g : Graph) (req : SearchRequest) (back : Channel) (current l : Label) (outbound delay : ℕ)
    (id : Str) where
  module _ (sound : IsSound g req back current) (e : Extends g req current l outbound delay id)
      (priced_out : outbound ≡ compute_fee current.channel current.amount)
      (delayed : delay ≡ u64 (current.delay + current.channel.policy.delay))
      (named : channel_id l.channel ≡ id) where
    hop_eq : hop_before g l.channel (hop_of g req current) ≡ hop_of g req l
    unfolding hop_before get_inbound_fee
    hop_eq = ground (arith, e.amount_eq, e.delay_eq)

    priced : price_hops g req.amount (path l) ≡ hop_of g req l ∷ price_hops g req.amount l.next
    priced =
        subst
          (λ n.
            price_hops g req.amount (l.channel ∷ n) ≡ hop_of g req l ∷ price_hops g req.amount n)
          (sym e.next_eq) (priced_step g req l.channel current (hop_of g req l) sound.priced hop_eq)

    inside_of :
        IsUsable g req l.channel l.amount → Carried g req (path current) → Carried g req (path l)
    inside_of u k =
        subst
          (λ n.
            first_amount (price_hops g req.amount (l.channel ∷ n)) ≡ l.amount
            → Carried g req (l.channel ∷ n))
          (sym e.next_eq) (λ q. (subst (IsUsable g req l.channel) (sym q) u, k))
          (ap first_amount priced)

    -- A label that extends a sound one within the limits is sound.
    pub extended-IsSound :
        current.final ≡ false
        → l.channel.destination ≡ current.channel.source
        → current.hops + 1 ≤ req.max_hops
        → delay ≤ max_route_delay
        → (l.final ≡ true) ⊎ IsUsable g req l.channel l.amount
        → IsSound g req back l
    extended-IsSound nf joined room quick usable = record {
      priced = priced;
      paid = omega (arith, sound.paid, e.fee_eq, e.amount_sum);
      counted = omega (arith, ap length e.next_eq, sound.counted, e.hops_eq);
      short = omega (arith, e.hops_eq);
      linked = subst (λ n. Linked (l.channel ∷ n)) (sym e.next_eq) (joined, sound.linked);
      cheap = e.fee_le;
      quick = omega (arith, e.delay_eq);
      ends = subst (λ n. EndsWith back (l.channel ∷ n)) (sym e.next_eq) sound.ends;
      carried = subst (λ n. Carried g req n) (sym e.next_eq) (sound.inside nf);
      inside = λ still. elim usable [
        | inl done ↦ absurd (false≢true (sym still ∙ done))
        | inr u ↦ inside_of u (sound.inside nf)
      ];
    }

module _ (cost_of : Channel → ℕ → ℕ) (g : Graph) (out back : Channel) (req : SearchRequest)
    (starts : req.first_hop ≡ some out) (src_eq : req.src ≡ out.destination)
    (edges : EdgesSound g) where
  self_eq : self_of req ≡ out.source
  unfolding self_of
  self_eq = rw starts

  -- The label that completes a route at the first node.
  final-IsSound :
      (current l : Label)
      → IsSound g req back current
      → current.final ≡ false
      → current.channel.source ≡ req.src
      → final_label cost_of g req current
          (compute_fee current.channel current.amount)
          (u64 (current.delay + current.channel.policy.delay))
          out
        ≡ some l
      → IsSound g req back l × (l.channel ≡ out) × (l.final ≡ true)
  unfolding channel_id
  final-IsSound current l sound nf here e =
      let outbound = compute_fee current.channel current.amount in
      let delay = u64 (current.delay + current.channel.policy.delay) in
      let (ext, channel_eq, done, quick, room) =
        final_facts g req cost_of current l outbound delay out e in
      let id = make_id out.short_channel_id (self_of req) req.src in
      let named : channel_id l.channel ≡ id = rw (channel_eq, self_eq, src_eq, channel_id) in
      (
        extended-IsSound g req back current l outbound delay id sound ext refl refl named nf
            (rw channel_eq (sym src_eq ∙ sym here)) room quick (inl done),
        channel_eq,
        done,
      )

  -- The label of one more channel of the network.
  next-IsSound :
      (best : Map (List Mark)) (current l : Label) (w scid : Str)
      → IsSound g req back current
      → current.final ≡ false
      → is_excluded req w ≡ false
      → w ≢ self_of req
      → current.hops + 1 ≤ req.max_hops
      → u64 (current.delay + current.channel.policy.delay) ≤ max_route_delay
      → ((c : Channel)
          → lookup (make_id scid w current.channel.source) g.channels ≡ some c
          → (c.source ≡ w) × (c.destination ≡ current.channel.source) × (c.short_channel_id ≡ scid))
      → next_label cost_of g req best current
          (compute_fee current.channel current.amount)
          (u64 (current.delay + current.channel.policy.delay))
          current.channel.source
          w
          scid
        ≡ some l
      → IsSound g req back l × (l.final ≡ false)
  unfolding channel_id
  next-IsSound best current l w scid sound nf allowed other room quick edge e =
      let outbound = compute_fee current.channel current.amount in
      let delay = u64 (current.delay + current.channel.policy.delay) in
      let u = current.channel.source in
      let (ext, there, free, fits, more) =
        next_facts g req cost_of current l outbound delay best u w scid e in
      let id = make_id scid w u in
      let (from, to, short_id) = edge l.channel there in
      let named : channel_id l.channel ≡ id = rw (from, to, short_id, channel_id) in
      let usable : IsUsable g req l.channel l.amount = record {
        forwards = fits;
        channel_allowed = rw named free;
        node_allowed = rw from allowed;
        not_ours = rw from other;
      } in
      (
        extended-IsSound g req back current l outbound delay id sound ext refl refl named nf to room
            quick (inr usable),
        more,
      )

  -- A label in the queue: sound, and over our first channel if it is complete.
  abbrev pub IsGood : Label → Type 0
  IsGood l = IsSound g req back l × ((l.final ≡ false) ⊎ (l.channel ≡ out))

  abbrev pub AllGood : SearchState → Type 0
  AllGood st = All IsGood st.queue

  push_some-AllGood :
      (o : Option Label) (st : SearchState)
      → ((l : Label) → o ≡ some l → IsGood l)
      → AllGood st
      → AllGood (push_some cost_of g req o st)
  unfolding push
  push_some-AllGood none st keep h = h
  push_some-AllGood (some l) st keep h = (keep l refl, h)

  module _ (current : Label) (sound : IsSound g req back current) (nf : current.final ≡ false)
      (room : current.hops + 1 ≤ req.max_hops)
      (quick : u64 (current.delay + current.channel.policy.delay) ≤ max_route_delay) where
    abbrev out_fee : ℕ
    out_fee = compute_fee current.channel current.amount

    abbrev next_delay : ℕ
    next_delay = u64 (current.delay + current.channel.policy.delay)

    expand_edge-AllGood :
        (w : Str) (edge : Edge) (st : SearchState)
        → is_excluded req w ≡ false
        → w ≢ self_of req
        → EdgeSound g current.channel.source w edge
        → AllGood st
        → AllGood
            (expand_edge cost_of g req current out_fee next_delay current.channel.source w edge st)
    unfolding expand_edge
    expand_edge-AllGood w [] st a o e h = h
    expand_edge-AllGood w (scid ∷ edge) st a o e h = expand_edge-AllGood w edge _ a o e.1 (
        push_some-AllGood _ st
          (λ l q.
            let (s, f) = next-IsSound st.best current l w scid sound nf a o room quick e.0 q in
            (s, inl f))
          h)

    expand_all-AllGood :
        (m : Map Edge) (st : SearchState)
        → All (λ e. EdgeSound g current.channel.source e.0 e.1) m
        → AllGood st
        → AllGood (expand_all cost_of g req current out_fee next_delay current.channel.source m st)
    unfolding expand_all
    expand_all-AllGood [] st e h = h
    expand_all-AllGood ((w, edge) ∷ m) st e h =
        expand_all-AllGood m _ e.1 (entered (Bool-cases skipped))
      where
        skipped : Bool
        skipped = is_excluded req w || (str_eq w (self_of req) || str_eq w req.dst)

        entered :
            (skipped ≡ true) ⊎ (skipped ≡ false)
            → AllGood (
                if skipped
                then st
                else expand_edge cost_of g req current out_fee next_delay current.channel.source w
                    edge st)
        entered (inl t) = rw t h
        entered (inr t) = rw t (
            expand_edge-AllGood w edge st (ground arith)
              (λ p. ground (arith, str_eq_iff w (self_of req))) e.0 h)

  -- What a turn of the loop leaves: a queue of good labels, or the channels of a complete one.
  abbrev pub After : Turn → Type 0
  After (found channels) =
      (l : Label) × IsSound g req back l × (l.channel ≡ out) × (path l ≡ channels)
  After (go_on st) = AllGood st

  After-if :
      (b : Bool) (x y : Turn)
      → (b ≡ true → After x)
      → (b ≡ false → After y)
      → After (if b then x else y)
  After-if true x y h k = h refl
  After-if false x y h k = k refl

  pushed-After :
      (o : Option Label) (st : SearchState)
      → ((l : Label) → o ≡ some l → IsGood l)
      → AllGood st
      → After (elim o [ none ↦ go_on st | some l ↦ go_on (record st { queue = l ∷ st.queue }) ])
  pushed-After none st keep h = h
  pushed-After (some l) st keep h = (keep l refl, h)

  completed-After :
      (current : Label) (st : SearchState) (first : Option Channel)
      → first ≡ some out
      → IsSound g req back current
      → current.final ≡ false
      → current.channel.source ≡ req.src
      → AllGood st
      → After (elim first [
        | none ↦ found (path current)
        | some first_hop ↦
            elim (final_label cost_of g req current
              (compute_fee current.channel current.amount)
              (u64 (current.delay + current.channel.policy.delay))
              first_hop) [ none ↦ go_on st | some l ↦ go_on (record st { queue = l ∷ st.queue }) ]
      ])
  completed-After current st none e sound nf here h = absurd (cc)
  completed-After current st (some f) e sound nf here h =
      let same : f ≡ out = ground arith in
      pushed-After _ st
        (λ l q.
          let (s, c, _) = final-IsSound current l sound nf here (
            subst
              (λ x.
                final_label cost_of g req current (compute_fee current.channel current.amount)
                  (u64 (current.delay + current.channel.policy.delay)) x
                ≡ some l)
              same q) in
          (s, inr c))
        h

  at_source-After :
      (current : Label) (st : SearchState)
      → IsSound g req back current
      → current.final ≡ false
      → current.channel.source ≡ req.src
      → AllGood st
      → After (
          at_source cost_of g req current
            (compute_fee current.channel current.amount)
            (u64 (current.delay + current.channel.policy.delay))
            st)
  unfolding at_source
  at_source-After current st sound nf here h =
      completed-After current st req.first_hop starts sound nf here h

  path_hops-le : path_hops req ≤ req.max_hops
  unfolding path_hops
  path_hops-le = rw starts (omega arith)

  -- The expansions that are recorded do not matter for soundness.
  expanded-After :
      (current : Label) (st : SearchState) (o : Option (Map (List Expansion)))
      → IsSound g req back current
      → current.final ≡ false
      → current.hops + 1 ≤ req.max_hops
      → u64 (current.delay + current.channel.policy.delay) ≤ max_route_delay
      → AllGood st
      → After (elim o [
        | none ↦ go_on st
        | some expanded ↦ go_on (
            expand_all cost_of g req current
              (compute_fee current.channel current.amount)
              (u64 (current.delay + current.channel.policy.delay))
              current.channel.source
              (lookup_or current.channel.source [] g.inbound)
              (record st { expanded = expanded }))
      ])
  expanded-After current st none sound nf room quick h = h
  expanded-After current st (some expanded) sound nf room quick h =
      expand_all-AllGood current sound nf room quick (lookup_or current.channel.source [] g.inbound)
        (record st { expanded = expanded }) (edges current.channel.source) h

  expand-After :
      (current : Label) (st : SearchState)
      → IsSound g req back current
      → current.final ≡ false
      → AllGood st
      → After (
          expand cost_of g req current
            (compute_fee current.channel current.amount)
            (u64 (current.delay + current.channel.policy.delay))
            st)
  unfolding expand
  expand-After current st sound nf h =
      let delay = u64 (current.delay + current.channel.policy.delay) in
      elim (Bool-cases (ltb (path_hops req) (current.hops + 1) || ltb max_route_delay delay)) [
        | inl t ↦ rw t h
        | inr t ↦
            let room : current.hops + 1 ≤ req.max_hops = ground (arith, path_hops-le) in
            let quick : delay ≤ max_route_delay = ground arith in
            rw t (expanded-After current st _ sound nf room quick h)
      ]

  turn-After :
      (current : Label) (st : SearchState)
      → IsGood current
      → AllGood st
      → After (turn cost_of g req current st)
  unfolding turn
  turn-After current st (sound, kind) h =
      After-if current.final _ _
        (λ done.
          let first : current.channel ≡ out = elim kind [
            | inl nf ↦ absurd (false≢true (sym nf ∙ done))
            | inr c ↦ c
          ] in
          (current, sound, first, refl))
        (λ nf.
          After-if
            (not (str_eq current.id [])
              && dominated st.best current.id current.hops current.fee current.cost true)
            (go_on st) _ (λ _. h)
            (λ _.
              After-if (str_eq current.channel.source req.src)
                (at_source cost_of g req current (compute_fee current.channel current.amount)
                  (u64 (current.delay + current.channel.policy.delay)) st)
                (expand cost_of g req current (compute_fee current.channel current.amount)
                  (u64 (current.delay + current.channel.policy.delay)) st)
                (λ at.
                  at_source-After current st sound nf
                    ((str_eq_iff current.channel.source req.src).0 at) h)
                (λ _. expand-After current st sound nf h)))

  -- The channels of an answer are those of a sound, complete label.
  abbrev pub Answered : Answer → Type 0
  Answered (route channels) =
      (l : Label) × IsSound g req back l × (l.channel ≡ out) × (path l ≡ channels)
  Answered _ = Unit

  module _ (next : SearchState → Answer)
      (ih : (st : SearchState) → AllGood st → Answered (next st)) where
    turned :
        (t : Turn)
        → After t
        → Answered (elim t [ found channels ↦ route channels | go_on st' ↦ next st' ])
    turned (found channels) a = a
    turned (go_on st') a = ih st' a

    popped :
        (st : SearchState) (o : Option (Label × List Label))
        → ((l : Label) (r : List Label) → o ≡ some (l, r) → IsGood l × All IsGood r)
        → Answered (elim o [
          | none ↦ no_route
          | some (current, rest) ↦ elim (turn cost_of g req current (record st { queue = rest })) [
            | found channels ↦ route channels
            | go_on st' ↦ next st'
          ]
        ])
    popped st none keep = tt
    popped st (some (l, r)) keep =
        let (a, b) = keep l r refl in
        turned (turn cost_of g req l (record st { queue = r }))
          (turn-After l (record st { queue = r }) a b)

  module _ (heap : Heap) where
    pub search_loop-Answered :
        (fuel : ℕ) (st : SearchState)
        → AllGood st
        → Answered (search_loop cost_of g req heap fuel st)
    unfolding search_loop
    search_loop-Answered zero st h = tt
    search_loop-Answered (suc fuel) st h =
        popped (search_loop cost_of g req heap fuel) (search_loop-Answered fuel) st
          (heap.pop st.queue) (λ l r e. heap.pop_all IsGood st.queue l r e h)
