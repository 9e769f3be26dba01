-- ===== src/Parallel/RunsLaws.antt =====
-- Laws of startRun and endRun (rebalance/parallel/runs.go).
use Prim.Native.Nat.{min}
use cln_circular.Common.{
  ℕ, zero, suc, ◌+◌, ◌-◌, ◌≤◌, ◌<◌, ◌≡◌, refl, sym, ap, ◌∙◌, Bool, false, ◌&&◌, not, Option, List,
  [], ◌∷◌, arith, ltb, Str, keep_if, length, Bool-cases, inl, inr,
}
use cln_circular.Parallel.Runs.{KnownRun, is_finished, count_finished, keep_last, finish, end_run}

module _ {A : Type 0} where
  abbrev pub is_running : KnownRun A → Bool
  is_running r = not (is_finished r)

  abbrev pub drop : ℕ → List (KnownRun A) → List (KnownRun A)
  drop zero rs = rs
  drop (suc n) [] = []
  drop (suc n) (r ∷ rs) = drop n rs

  -- The runs in progress stay, in their order.
  keep_last-running :
      (n : ℕ) (rs : List (KnownRun A)) → keep_if is_running (keep_last n rs) ≡ keep_if is_running rs
  unfolding keep_if keep_last
  keep_last-running n [] = refl
  keep_last-running n (r ∷ rs) = elim (Bool-cases (is_finished r)) [
    | inl t ↦ elim (Bool-cases (ltb 20 n)) [
      | inl u ↦ rw (t, u) (keep_last-running (n - 1) rs)
      | inr u ↦ rw (t, u) (rw t (keep_last-running n rs))
    ]
    | inr t ↦ rw t (rw t (ap (λ l. r ∷ l) (keep_last-running n rs)))
  ]

  keep_last-all : (n : ℕ) (rs : List (KnownRun A)) → n ≤ 20 → keep_last n rs ≡ rs
  unfolding keep_last
  keep_last-all n [] h = refl
  keep_last-all n (r ∷ rs) h =
      let few : (is_finished r && ltb 20 n) ≡ false = ground arith in
      rw few (ap (λ l. r ∷ l) (keep_last-all n rs h))

  drop-suc :
      (m : ℕ) (r : KnownRun A) (rs : List (KnownRun A))
      → 20 < m + 1
      → drop (m + 1 - 20) (r ∷ rs) ≡ drop (m - 20) rs
  drop-suc m r rs h = let e : m + 1 - 20 ≡ suc (m - 20) = omega arith in rw e refl

  -- Of n finished runs, those but the last 20 go.
  keep_last-finished :
      (rs : List (KnownRun A))
      → keep_if is_finished (keep_last (count_finished rs) rs)
        ≡ drop (count_finished rs - 20) (keep_if is_finished rs)
  unfolding keep_if keep_last count_finished
  keep_last-finished [] = refl
  keep_last-finished (r ∷ rs) = elim (Bool-cases (is_finished r)) [
    | inr t ↦ rw t (rw t (keep_last-finished rs))
    | inl t ↦
        let m = count_finished rs in
        elim (Bool-cases (ltb 20 (m + 1))) [
          | inl u ↦
              let one : m + 1 - 1 ≡ m = omega arith in
              rw (t, u, one)
                (keep_last-finished rs ∙ sym (drop-suc m r (keep_if is_finished rs) (ground arith)))
          | inr u ↦
              let all = keep_last-all (m + 1) rs (ground arith) in
              let zero_drop : m + 1 - 20 ≡ 0 = ground arith in rw (t, u, all, zero_drop) (rw t refl)
        ]
  ]

  length-drop : (n : ℕ) (rs : List (KnownRun A)) → length (drop n rs) ≡ length rs - n
  length-drop zero rs = omega arith
  length-drop (suc n) [] = omega arith
  length-drop (suc n) (r ∷ rs) = omega (arith, length-drop n rs)

  length-finished : (rs : List (KnownRun A)) → length (keep_if is_finished rs) ≡ count_finished rs
  unfolding keep_if count_finished
  length-finished [] = refl
  length-finished (r ∷ rs) = ground (arith, length-finished rs)

  -- When a run ends, circular-results keeps every run in progress, and of those that finished, this
  -- one among them, the 20 at most that started last, in the order of their starts: the run that ends
  -- is itself dropped when 20 others that started after it have finished.
  pub end_run_lem :
      (now pointer : ℕ) (error : Option Str) (res : A) (rs : List (KnownRun A))
      → (keep_if is_running (end_run now pointer error res rs)
          ≡ keep_if is_running (finish now pointer error res rs))
        × (keep_if is_finished (end_run now pointer error res rs)
            ≡ drop
                (count_finished (finish now pointer error res rs) - 20)
                (keep_if is_finished (finish now pointer error res rs)))
        × (length (keep_if is_finished (end_run now pointer error res rs))
            ≡ min 20 (count_finished (finish now pointer error res rs)))
  unfolding end_run
  end_run_lem now pointer error res rs =
      let ended = finish now pointer error res rs in
      let kept = keep_last-finished ended in
      let n = count_finished ended in
      (
        keep_last-running n ended,
        kept,
        ap length kept
            ∙ length-drop (n - 20) (keep_if is_finished ended)
            ∙ omega (arith, length-finished ended),
      )
