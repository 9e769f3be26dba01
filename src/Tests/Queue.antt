-- ===== src/Tests/Queue.antt =====
-- A queue that gives the least label of graph/pq.go's order, in the place of container/heap.
use cln_circular.Common.{
  ℕ, ◌+◌, ◌≡◌, refl, true, false, Option, none, some, List, [], ◌∷◌, arith, All, All-mono,
  if◌then◌else◌, subst, ap,
}
use cln_circular.Graph.Search.{Heap, Label, less, sum_of}

abbrev keep_less : Label → Option (Label × List Label) → Label × List Label
keep_less l none = (l, [])
keep_less l (some (m, r)) = if less m l then (m, l ∷ r) else (l, m ∷ r)

abbrev take_least : List Label → Option (Label × List Label)
take_least [] = none
take_least (l ∷ q) = some (keep_less l (take_least q))

-- A relation between a queue's least label and the others, and how it passes to a longer queue.
module _ (R : Label → List Label → Type 0) (alone : (x : Label) → R x [])
    (before : (x m : Label) (s : List Label) → less m x ≡ true → R m s → R m (x ∷ s))
    (after : (x m : Label) (s : List Label) → less m x ≡ false → R m s → R x (m ∷ s)) where
  kept :
      (x : Label) (o : Option (Label × List Label))
      → ((m : Label) (s : List Label) → o ≡ some (m, s) → R m s)
      → R (keep_less x o).0 (keep_less x o).1
  kept x none h = alone x
  kept x (some (m, s)) h =
      elim (less m x)
          as (λ b.
            less m x ≡ b
            → R (if◌then◌else◌ {A = Label × List Label} b (m, x ∷ s) (x, m ∷ s)).0
                (if◌then◌else◌ {A = Label × List Label} b (m, x ∷ s) (x, m ∷ s)).1) [
                  | true ↦ (λ e. before x m s e (h m s refl))
                  | false ↦ (λ e. after x m s e (h m s refl))
                ]
        refl

  taken : (q : List Label) (l : Label) (r : List Label) → take_least q ≡ some (l, r) → R l r
  taken [] l r e = absurd (cc)
  taken (x ∷ q) l r e =
      let same : keep_less x (take_least q) ≡ (l, r) = ground arith in
      subst (λ (o : Label × List Label). R o.0 o.1) same (kept x (take_least q) (taken q))

less-asymm : (a b : Label) → less a b ≡ true → less b a ≡ false
unfolding less
less-asymm a b h = ground arith

less_trans : (a b c : Label) → less a b ≡ false → less b c ≡ false → less a c ≡ false
unfolding less
less_trans a b c h k = ground arith

pub least :
    (q : List Label) (l : Label) (r : List Label)
    → take_least q ≡ some (l, r)
    → All (λ m. less m l ≡ false) r
least =
    taken (λ l r. All (λ m. less m l ≡ false) r) (λ x. tt) (λ x m s e h. (less-asymm m x e, h))
      (λ x m s e h. (
        e,
        All-mono (λ y. less y m ≡ false) (λ y. less y x ≡ false) (λ y k. less_trans y m x k e) s h,
      ))

pub nothing : (q : List Label) → take_least q ≡ none → q ≡ []
nothing [] e = refl
nothing (x ∷ q) e = absurd (cc)

sum_kept :
    (weight : Label → ℕ) (x : Label) (o : Option (Label × List Label)) (n : ℕ)
    → (o ≡ none → n ≡ 0)
    → ((m : Label) (s : List Label) → o ≡ some (m, s) → n ≡ weight m + sum_of weight s)
    → weight x + n ≡ weight (keep_less x o).0 + sum_of weight (keep_less x o).1
sum_kept weight x none n h k = omega (arith, h refl)
sum_kept weight x (some (m, s)) n h k =
    elim (less m x)
      as (λ b.
        weight x + n
        ≡ weight (if◌then◌else◌ {A = Label × List Label} b (m, x ∷ s) (x, m ∷ s)).0
          + sum_of weight (if◌then◌else◌ {A = Label × List Label} b (m, x ∷ s) (x, m ∷ s)).1) [
            | true ↦ omega (arith, k m s refl)
            | false ↦ omega (arith, k m s refl)
          ]

pub sums :
    (weight : Label → ℕ) (q : List Label) (l : Label) (r : List Label)
    → take_least q ≡ some (l, r)
    → sum_of weight q ≡ weight l + sum_of weight r
sums weight [] l r e = absurd (cc)
sums weight (x ∷ q) l r e =
    let same : keep_less x (take_least q) ≡ (l, r) = ground arith in
    subst (λ (o : Label × List Label). weight x + sum_of weight q ≡ weight o.0 + sum_of weight o.1)
      same
      (sum_kept weight x (take_least q) (sum_of weight q) (λ d. ap (sum_of weight) (nothing q d))
        (λ m s d. sums weight q m s d))

All-kept :
    (P : Label → Type 0) (x : Label) (o : Option (Label × List Label))
    → P x
    → ((m : Label) (s : List Label) → o ≡ some (m, s) → P m × All P s)
    → P (keep_less x o).0 × All P (keep_less x o).1
All-kept P x none h k = (h, tt)
All-kept P x (some (m, s)) h k =
    elim (less m x)
      as (λ b.
        P (if◌then◌else◌ {A = Label × List Label} b (m, x ∷ s) (x, m ∷ s)).0
        × All P (if◌then◌else◌ {A = Label × List Label} b (m, x ∷ s) (x, m ∷ s)).1) [
          | true ↦ ((k m s refl).0, (h, (k m s refl).1))
          | false ↦ (h, k m s refl)
        ]

pub everything :
    (P : Label → Type 0) (q : List Label) (l : Label) (r : List Label)
    → take_least q ≡ some (l, r)
    → All P q
    → P l × All P r
everything P [] l r e h = absurd (cc)
everything P (x ∷ q) l r e h =
    let same : keep_less x (take_least q) ≡ (l, r) = ground arith in
    subst (λ (o : Label × List Label). P o.0 × All P o.1) same
      (All-kept P x (take_least q) h.0 (λ m s d. everything P q m s d h.1))

unfoldable pub least_first : Heap
least_first = record {
  pop = take_least;
  pop_empty = nothing;
  pop_all = everything;
  pop_least = least;
  pop_sum = sums;
}
