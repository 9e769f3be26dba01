-- ===== src/Parallel/Runs.antt =====
-- The runs that circular-results knows (rebalance/parallel/runs.go). `runs` is under a lock, so each
-- function is one step; `pointer` is the identity of a Run, which the caller of startRun keeps.
use cln_circular.Common.{
  ℕ, ◌+◌, ◌-◌, Bool, true, false, ◌&&◌, ◌||◌, Option, none, some, List, [], ◌∷◌, ◌++◌, ltb, ◌==◌,
  if◌then◌else◌, Str, str_eq,
}

pub data Status : Type 0 where
  running : Status
  done : Status
  failed : Str → Status

-- Run, of a result of any type.
pub record KnownRun (A : Type 0) : Type 0 where
  pub pointer : ℕ
  pub kind : Str
  pub target : Str
  pub amount : ℕ
  pub max_ppm : ℕ
  pub started : ℕ
  pub ended : ℕ
  pub status : Status
  pub result : Option A

module _ {A : Type 0} where
  unfoldable pub is_finished : KnownRun A → Bool
  is_finished r = elim r.status [ running ↦ false | done ↦ true | failed _ ↦ true ]

  -- startRun
  unfoldable pub start_run : ℕ → ℕ → Str → Str → ℕ → ℕ → List (KnownRun A) → List (KnownRun A)
  start_run now pointer kind target amount max_ppm runs =
      runs
      ++ record {
        pointer = pointer;
        kind = kind;
        target = target;
        amount = amount;
        max_ppm = max_ppm;
        started = now;
        ended = 0;
        status = running;
        result = none;
      }
        ∷ []

  unfoldable pub count_finished : List (KnownRun A) → ℕ
  unfolding is_finished
  count_finished [] = 0
  count_finished (r ∷ runs) = let n = count_finished runs in if is_finished r then n + 1 else n

  -- The second loop of endRun: RUNS_KEPT is 20.
  unfoldable pub keep_last : ℕ → List (KnownRun A) → List (KnownRun A)
  unfolding is_finished
  keep_last finished [] = []
  keep_last finished (r ∷ runs) =
      let dropped = keep_last (finished - 1) runs in
      let kept = keep_last finished runs in
      if is_finished r && ltb 20 finished then dropped else r ∷ kept

  -- What endRun writes to the run that ended: an error, or its result.
  unfoldable pub finish : ℕ → ℕ → Option Str → A → List (KnownRun A) → List (KnownRun A)
  finish now pointer error res [] = []
  finish now pointer error res (r ∷ runs) =
      let rest = finish now pointer error res runs in
      let ended = elim error as (λ _. KnownRun A) [
        | some why ↦ record r { ended = now; status = failed why }
        | none ↦ record r { ended = now; status = done; result = some res }
      ] in
      if r.pointer == pointer then ended ∷ rest else r ∷ rest

  -- endRun
  unfoldable pub end_run : ℕ → ℕ → Option Str → A → List (KnownRun A) → List (KnownRun A)
  unfolding finish keep_last count_finished
  end_run now pointer error res runs =
      let ended = finish now pointer error res runs in keep_last (count_finished ended) ended

  -- listRuns: newest first; of one target, if one is given.
  unfoldable pub list_runs : Str → List (KnownRun A) → List (KnownRun A)
  list_runs target [] = []
  list_runs target (r ∷ runs) =
      let newer = list_runs target runs in
      if str_eq target [] || str_eq r.target target then newer ++ r ∷ [] else newer
