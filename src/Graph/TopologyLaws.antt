-- ===== src/Graph/TopologyLaws.antt =====
-- Laws of ApplyChannelUpdate (graph/graph.go): two updates of a channel.
use cln_circular.Common.{
  ℕ, ◌%◌, ◌<◌, ◌≤◌, ◌≡◌, ◌⊎◌, subst, refl, sym, ap, ◌∙◌, true, false, Option, none, some, arith,
  leb, ◌==◌, if◌then◌else◌, Str, str_eq, str_eq_iff, Map, lookup, le→leb, Option-cases, Bool-cases,
  inl, inr,
}
use cln_circular.Graph.Channel.{Channel, new_channel}
use cln_circular.Graph.State.{Graph}
use cln_circular.Graph.Topology.{ChannelUpdate, updated_policy, renew, apply_channel_update}
use cln_circular.Graph.Updates.{after_update, after_old, after_new, lookup-twice, lookup-unknown}

lt→not_leb : (a b : ℕ) → a < b → leb b a ≡ false
lt→not_leb a b h = ground arith

-- Two updates of a channel, the second one newer and with a limit of its own, in either order.
after-commute :
    (medians : Map ℕ) (u v : ChannelUpdate) (old : Channel)
    → u.timestamp < v.timestamp
    → (v.message_flags % 2 == 0) ≡ false
    → after_update medians v (after_update medians u old)
      ≡ after_update medians u (after_update medians v old)
unfolding renew updated_policy new_channel
after-commute medians u v old lt f = elim (Bool-cases (leb v.timestamp old.last_update)) [
  | inl t ↦
      let s : leb u.timestamp old.last_update ≡ true = ground arith in
      let p = after_old medians u old s in
      let q = after_old medians v old t in
      ap (after_update medians v) p ∙ q ∙ sym p ∙ ap (after_update medians u) (sym q)
  | inr t ↦
      let q = after_new medians v old t in
      let newer = renew medians (updated_policy v old.policy) old in
      let stays = after_old medians u newer (le→leb u.timestamp v.timestamp (omega arith)) in
      elim (Bool-cases (leb u.timestamp old.last_update)) [
        | inl s ↦
            let p = after_old medians u old s in
            ap (after_update medians v) p ∙ q ∙ sym stays ∙ ap (after_update medians u) (sym q)
        | inr s ↦
            let p = after_new medians u old s in
            let first = renew medians (updated_policy u old.policy) old in
            let again = after_new medians v first (lt→not_leb u.timestamp v.timestamp lt) in
            let same : renew medians (updated_policy v first.policy) first ≡ newer = rw f refl in
            ap (after_update medians v) p
            ∙ again
            ∙ same
            ∙ sym stays
            ∙ ap (after_update medians u) (sym q)
      ]
]

-- A channel keeps what was believed of its liquidity, and has the policy of an update unless what it
-- had was as new.
pub record Continues (v : ChannelUpdate) (old c : Channel) : Type 0 where
  pub liquidity : c.liquidity ≡ old.liquidity
  pub learned : c.timestamp ≡ old.timestamp
  pub bound : c.upper ≡ old.upper
  pub policy :
      ((v.timestamp ≤ old.last_update) × (c ≡ old))
      ⊎ ((old.last_update < v.timestamp)
          × (c.last_update ≡ v.timestamp)
          × (c.base_fee_millisatoshi ≡ v.base_fee_msat)
          × (c.fee_per_millionth ≡ v.fee_ppm)
          × (c.delay ≡ v.cltv_delta)
          × (c.policy.htlc_minimum_msat ≡ v.htlc_minimum_msat)
          × (c.policy.htlc_maximum_msat ≡ v.htlc_maximum_msat))

-- What a channel that was there, or was not, has become.
abbrev pub Follows : ChannelUpdate → Option Channel → Option Channel → Type 0
Follows v none after = after ≡ none
Follows v (some old) after = (c : Channel) × (after ≡ some c) × Continues v old c

Continues-renew :
    (medians : Map ℕ) (v : ChannelUpdate) (old : Channel)
    → old.last_update < v.timestamp
    → (v.message_flags % 2 == 0) ≡ false
    → Continues v old (renew medians (updated_policy v old.policy) old)
unfolding renew updated_policy new_channel
Continues-renew medians v old newer f = record {
  liquidity = refl;
  learned = refl;
  bound = refl;
  policy = inr (newer, refl, refl, refl, refl, refl, rw f refl);
}

-- The older update, if it comes last, changes nothing.
Continues-after :
    (medians : Map ℕ) (u v : ChannelUpdate) (old : Channel)
    → u.timestamp < v.timestamp
    → (v.message_flags % 2 == 0) ≡ false
    → Continues v old (after_update medians u (after_update medians v old))
unfolding renew updated_policy new_channel
Continues-after medians u v old lt f = elim (Bool-cases (leb v.timestamp old.last_update)) [
  | inl t ↦
      let s : leb u.timestamp old.last_update ≡ true = ground arith in
      let p = after_old medians v old t in
      let same : after_update medians u (after_update medians v old) ≡ old =
        ap (after_update medians u) p ∙ after_old medians u old s in
      let late : v.timestamp ≤ old.last_update = ground arith in
      record {
        liquidity = ap (λ (c : Channel). c.liquidity) same;
        learned = ap (λ (c : Channel). c.timestamp) same;
        bound = ap (λ (c : Channel). c.upper) same;
        policy = inl (late, same);
      }
  | inr t ↦
      let newer = renew medians (updated_policy v old.policy) old in
      let stays = after_old medians u newer (le→leb u.timestamp v.timestamp (omega arith)) in
      let same : after_update medians u (after_update medians v old) ≡ newer =
        ap (after_update medians u) (after_new medians v old t) ∙ stays in
      subst (Continues v old) (sym same) (Continues-renew medians v old (ground arith) f)
]

-- Two updates of a channel leave the graph's channels the same in whatever order they come, when the
-- newer one carries its own maximum HTLC: a channel that was not known is not known after, and one
-- that was keeps what was believed of its liquidity, and ends with the policy of the newer update,
-- unless its own was as new.
pub apply_channel_update-converges :
    (u v : ChannelUpdate) (g : Graph) (j : Str)
    → u.channel_id ≡ v.channel_id
    → u.timestamp < v.timestamp
    → (v.message_flags % 2 == 0) ≡ false
    → (lookup j (apply_channel_update v (apply_channel_update u g).0).0.channels
        ≡ lookup j (apply_channel_update u (apply_channel_update v g).0).0.channels)
      × Follows v
          (lookup v.channel_id g.channels)
          (lookup v.channel_id (apply_channel_update v (apply_channel_update u g).0).0.channels)
apply_channel_update-converges u v g j ids lt f =
    let ended =
      lookup v.channel_id (apply_channel_update v (apply_channel_update u g).0).0.channels in
    elim (Option-cases (lookup v.channel_id g.channels)) [
      | inl e' ↦
          let e = ap (λ i. lookup i g.channels) ids ∙ e' in
          let after_u = lookup-unknown u g v.channel_id e ∙ e' in
          let after_v = lookup-unknown v g u.channel_id e' ∙ e in
          let missing : Follows v none ended =
            lookup-unknown v (apply_channel_update u g).0 v.channel_id after_u ∙ after_u in
          (
            lookup-unknown v (apply_channel_update u g).0 j after_u
                ∙ lookup-unknown u g j e
                ∙ sym (lookup-unknown v g j e')
                ∙ sym (lookup-unknown u (apply_channel_update v g).0 j after_v),
            subst (λ o. Follows v o ended) (sym e') missing,
          )
      | inr (old, e') ↦
          let e = ap (λ i. lookup i g.channels) ids ∙ e' in
          let last = after_update g.fee_medians u (after_update g.fee_medians v old) in
          let commuted = after-commute g.fee_medians u v old lt f in
          let first : (i : Str)
              → lookup i (apply_channel_update v (apply_channel_update u g).0).0.channels
                ≡ (if str_eq v.channel_id i then some last else lookup i g.channels) =
            λ i.
              lookup-twice u v g old i ids e
              ∙ ap (λ c. if str_eq u.channel_id i then some c else lookup i g.channels) commuted
              ∙ ap (λ k. if str_eq k i then some last else lookup i g.channels) ids in
          let here : (if str_eq v.channel_id v.channel_id
                then some last
                else lookup v.channel_id g.channels)
              ≡ some last =
            ground (arith, str_eq_iff v.channel_id v.channel_id) in
          let known : Follows v (some old) ended =
            (last, first v.channel_id ∙ here, Continues-after g.fee_medians u v old lt f) in
          (
            first j ∙ sym (lookup-twice v u g old j (sym ids) e'),
            subst (λ o. Follows v o ended) (sym e') known,
          )
    ]
