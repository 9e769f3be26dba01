-- ===== src/Graph/Updates.antt =====
-- Laws of a single ApplyChannelUpdate (graph/graph.go): what a lookup gives after it.
use cln_circular.Common.{
  ℕ, ◌≡◌, refl, sym, ap, ◌∙◌, Bool, true, false, Option, none, some, arith, leb, if◌then◌else◌, Str,
  str_eq, str_eq_iff, Map, lookup, insert, lookup-insert,
}
use cln_circular.Graph.Channel.{Channel}
use cln_circular.Graph.State.{Graph, unavoid}
use cln_circular.Graph.Topology.{
  ChannelUpdate, updated_policy, renew, update_known, apply_channel_update,
}

-- A channel after an update of it.
abbrev pub after_update : Map ℕ → ChannelUpdate → Channel → Channel
after_update medians u old =
    if leb u.timestamp old.last_update then old else renew medians (updated_policy u old.policy) old

same_lookup :
    (id j : Str) (m : Map Channel) (c d : Channel)
    → lookup id m ≡ some c
    → d ≡ c
    → lookup j m ≡ (if str_eq id j then some d else lookup j m)
same_lookup id j m c d e h = ground (arith, str_eq_iff id j)

missing_lookup :
    (id j : Str) (m : Map Channel)
    → lookup id m ≡ none
    → lookup j m ≡ (if str_eq id j then none else lookup j m)
missing_lookup id j m e = ground (arith, str_eq_iff id j)

graph_if :
    (b : Bool) (x y : Graph × Bool) (j : Str) (m : Option Channel)
    → (b ≡ true → lookup j x.0.channels ≡ m)
    → (b ≡ false → lookup j y.0.channels ≡ m)
    → lookup j (if◌then◌else◌ {A = Graph × Bool} b x y).0.channels ≡ m
graph_if true x y j m f g = f refl
graph_if false x y j m f g = g refl

pub after_old :
    (medians : Map ℕ) (u : ChannelUpdate) (old : Channel)
    → leb u.timestamp old.last_update ≡ true
    → after_update medians u old ≡ old
after_old medians u old t = rw t refl

pub after_new :
    (medians : Map ℕ) (u : ChannelUpdate) (old : Channel)
    → leb u.timestamp old.last_update ≡ false
    → after_update medians u old ≡ renew medians (updated_policy u old.policy) old
after_new medians u old t = rw t refl

lookup-update_known :
    (u : ChannelUpdate) (g : Graph) (old : Channel) (j : Str)
    → lookup u.channel_id g.channels ≡ some old
    → lookup j (update_known u g old).0.channels ≡ (
        if str_eq u.channel_id j
        then some (after_update g.fee_medians u old)
        else lookup j g.channels)
unfolding update_known unavoid
lookup-update_known u g old j e =
    let c = renew g.fee_medians (updated_policy u old.policy) old in
    let to : Option Channel =
      if str_eq u.channel_id j
      then some (after_update g.fee_medians u old)
      else lookup j g.channels in
    graph_if (leb u.timestamp old.last_update) (g, false)
      (unavoid u.channel_id (record g { channels = insert u.channel_id c g.channels }), true) j to
      (λ t.
        same_lookup u.channel_id j g.channels old (after_update g.fee_medians u old) e
          (after_old g.fee_medians u old t))
      (λ t.
        lookup-insert u.channel_id j c g.channels
        ∙ ap (λ d. if str_eq u.channel_id j then some d else lookup j g.channels)
            (sym (after_new g.fee_medians u old t)))

-- What a lookup gives after an update.
lookup-apply_channel_update :
    (u : ChannelUpdate) (g : Graph) (j : Str)
    → lookup j (apply_channel_update u g).0.channels ≡ (
        if str_eq u.channel_id j
        then elim (lookup u.channel_id g.channels) as (λ _. Option Channel) [
          | none ↦ none
          | some old ↦ some (after_update g.fee_medians u old)
        ]
        else lookup j g.channels)
unfolding apply_channel_update
lookup-apply_channel_update u g j =
    elim (lookup u.channel_id g.channels)
        as (λ o.
          lookup u.channel_id g.channels ≡ o
          → lookup j
              (elim o as (λ _. Graph × Bool) [
                | none ↦ (g, false)
                | some old ↦ update_known u g old
              ]).0.channels
            ≡ (if str_eq u.channel_id j
                then elim o as (λ _. Option Channel) [
                  | none ↦ none
                  | some old ↦ some (after_update g.fee_medians u old)
                ]
                else lookup j g.channels)) [
                  | none ↦ (λ e. missing_lookup u.channel_id j g.channels e)
                  | some old ↦ (λ e. lookup-update_known u g old j e)
                ]
      refl

known_after :
    (u : ChannelUpdate) (g : Graph) (old : Channel) (j : Str)
    → lookup u.channel_id g.channels ≡ some old
    → lookup j (apply_channel_update u g).0.channels ≡ (
        if str_eq u.channel_id j
        then some (after_update g.fee_medians u old)
        else lookup j g.channels)
known_after u g old j e =
    lookup-apply_channel_update u g j
    ∙ ap
        (λ (o : Option Channel).
          if str_eq u.channel_id j
          then elim o as (λ _. Option Channel) [
            | none ↦ none
            | some c ↦ some (after_update g.fee_medians u c)
          ]
          else lookup j g.channels)
        e

medians_if :
    (b : Bool) (x y : Graph × Bool) (m : Map ℕ)
    → x.0.fee_medians ≡ m
    → y.0.fee_medians ≡ m
    → (if◌then◌else◌ {A = Graph × Bool} b x y).0.fee_medians ≡ m
medians_if true x y m f g = f
medians_if false x y m f g = g

medians-apply_channel_update :
    (u : ChannelUpdate) (g : Graph) → (apply_channel_update u g).0.fee_medians ≡ g.fee_medians
unfolding apply_channel_update update_known unavoid
medians-apply_channel_update u g =
    elim (lookup u.channel_id g.channels)
      as (λ o.
        (elim o as (λ _. Graph × Bool) [
          | none ↦ (g, false)
          | some old ↦ update_known u g old
        ]).0.fee_medians
        ≡ g.fee_medians) [
          | none ↦ refl
          | some old ↦ medians_if (leb u.timestamp old.last_update) _ _ _ refl refl
        ]

joined :
    (id id' j : Str) (a b c d : Option Channel) (x y : Channel)
    → id ≡ id'
    → a ≡ (if str_eq id' j then some x else b)
    → x ≡ y
    → b ≡ (if str_eq id j then c else d)
    → a ≡ (if str_eq id j then some y else d)
joined id id' j a b c d x y ids p e q = ground (arith, ap (λ i. str_eq i j) ids)

-- What a lookup gives after two updates of one known channel.
pub lookup-twice :
    (u v : ChannelUpdate) (g : Graph) (old : Channel) (j : Str)
    → u.channel_id ≡ v.channel_id
    → lookup u.channel_id g.channels ≡ some old
    → lookup j (apply_channel_update v (apply_channel_update u g).0).0.channels ≡ (
        if str_eq u.channel_id j
        then some (after_update g.fee_medians v (after_update g.fee_medians u old))
        else lookup j g.channels)
lookup-twice u v g old j ids e =
    let g1 = (apply_channel_update u g).0 in
    let first = after_update g.fee_medians u old in
    let e1 : lookup v.channel_id g1.channels ≡ some first =
      ground (arith, known_after u g old v.channel_id e, str_eq_iff u.channel_id v.channel_id) in
    let same = ap (λ m. after_update m v first) (medians-apply_channel_update u g) in
    joined u.channel_id v.channel_id j _ (lookup j g1.channels) (some first) (lookup j g.channels)
      (after_update g1.fee_medians v first) (after_update g.fee_medians v first) ids
      (known_after v g1 first j e1) same (known_after u g old j e)

pub lookup-unknown :
    (u : ChannelUpdate) (g : Graph) (j : Str)
    → lookup u.channel_id g.channels ≡ none
    → lookup j (apply_channel_update u g).0.channels ≡ lookup j g.channels
lookup-unknown u g j e =
    let path =
      lookup-apply_channel_update u g j
      ∙ ap
          (λ (o : Option Channel).
            if str_eq u.channel_id j
            then elim o as (λ _. Option Channel) [
              | none ↦ none
              | some c ↦ some (after_update g.fee_medians u c)
            ]
            else lookup j g.channels)
          e in
    path ∙ sym (missing_lookup u.channel_id j g.channels e)
