-- ===== src/Graph/AvoidLaws.antt =====
-- Laws of what later rebalances avoid (graph/beliefs.go).
use cln_circular.Common.{
  ℕ, ◌≡◌, refl, ap, ◌∙◌, subst, Bool, true, false, Option, none, some, [], ◌∷◌, leb, if◌then◌else◌,
  Str, str_eq, str_eq_iff, Map, lookup, Bool-cases, inl, inr,
}
use cln_circular.Graph.State.{Graph, split_avoided, avoided}

-- A map holds each key once.
abbrev pub HoldsOnce : Map ℕ → Type 0
HoldsOnce [] = Unit
HoldsOnce ((key, until) ∷ m) = (lookup key m ≡ none) × HoldsOnce m

-- What is left of an entry at a time.
abbrev pub still {ℓ} : {V : Type ℓ} → ℕ → V → Option ℕ → Option V
still now v none = none
still now v (some until) = if leb until now then none else some v

abbrev pub unexpired : ℕ → Option ℕ → Option ℕ
unexpired now none = none
unexpired now (some until) = if leb until now then none else some until

split_if :
    (b : Bool) (x y : Map ℕ × Map Bool) (key : Str) (p : Option ℕ) (q : Option Bool)
    → (b ≡ true → (lookup key x.0 ≡ p) × (lookup key x.1 ≡ q))
    → (b ≡ false → (lookup key y.0 ≡ p) × (lookup key y.1 ≡ q))
    → (lookup key (if◌then◌else◌ {A = Map ℕ × Map Bool} b x y).0 ≡ p)
      × (lookup key (if◌then◌else◌ {A = Map ℕ × Map Bool} b x y).1 ≡ q)
split_if true x y key p q f g = f refl
split_if false x y key p q f g = g refl

split_avoided_lem :
    (now : ℕ) (m : Map ℕ) (key : Str)
    → HoldsOnce m
    → (lookup key (split_avoided now m).0 ≡ unexpired now (lookup key m))
      × (lookup key (split_avoided now m).1 ≡ still now true (lookup key m))
unfolding split_avoided lookup
split_avoided_lem now [] key h = (refl, refl)
split_avoided_lem now ((k, until) ∷ m) key h =
    let rest = split_avoided_lem now m key h.1 in
    let (kept, exclude) = split_avoided now m in
    split_if (leb until now) (kept, exclude) ((k, until) ∷ kept, (k, true) ∷ exclude) key _ _
      (λ t. elim (Bool-cases (str_eq k key)) [
        | inl s ↦
            let gone = subst (λ x. lookup x m ≡ none) ((str_eq_iff k key).0 s) h.0 in
            rw (s, t) (rest.0 ∙ ap (unexpired now) gone, rest.1 ∙ ap (still now true) gone)
        | inr s ↦ rw s rest
      ])
      (λ t. elim (Bool-cases (str_eq k key)) [ inl s ↦ rw (s, t) (refl, refl) | inr s ↦ rw s rest ])

-- A search leaves out exactly the keys whose time to avoid is still to come, and the others are
-- forgotten.
pub avoided_lem :
    (now : ℕ) (g : Graph) (key : Str)
    → HoldsOnce g.avoid
    → (lookup key (avoided now g).0.avoid ≡ unexpired now (lookup key g.avoid))
      × (lookup key (avoided now g).1 ≡ still now true (lookup key g.avoid))
unfolding avoided
avoided_lem now g key h = split_avoided_lem now g.avoid key h
