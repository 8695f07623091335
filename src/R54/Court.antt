-- ===== src/R54/Court.antt =====
-- `main`: the court runs every case, and passes if each has the verdict that it expects.
pub mod Laws
use ex4pm.Prelude.{
  ℕ, String, Bool, true, false, not, List, [], ◌∷◌, ◌++◌, Option, none, some, Result, ok, err,
  ◌>>=◌, expect, ltb, length, contains, is_empty, string_Eq, if◌then◌else◌,
}
use ex4pm.Json.{Json, Dict, Exception, is_str, os_error}
use ex4pm.R54.Classify.{Case, classify, mutate}

-- The texts that `failures` collects
pub data Complaint : Type 0 where
  duplicate : String → Complaint
  mismatch : String → String → Json → Complaint

-- What one run of the loop's body adds to `failures`
abbrev pub complaints : List String → Case → String → List Complaint
complaints ids case actual =
    (if contains ids case.id then duplicate case.id ∷ [] else [])
    ++ (if is_str case.expected actual then [] else mismatch case.id actual case.expected ∷ [])

-- What a run ends with
pub record Outcome : Type 0 where
  pub exit : ℕ
  pub failures : List Complaint

module _ (subject : Dict Json) where
  -- The loop over the cases; `ids` are those seen before.
  unfoldable pub run_cases : List String → List Case → Result Exception (List Complaint)
  run_cases ids [] = ok []
  run_cases ids (case ∷ cases) =
      let rest = run_cases (case.id ∷ ids) cases in
      do
        actual ← classify (mutate subject case)
        later ← rest
        ok (complaints ids case actual ++ later)

  -- `main` once there are enough cases. `head` is what `git rev-parse HEAD` gives; `none` is a
  -- failing command.
  unfoldable pub tally : List Case → Option String → Result Exception Outcome
  tally cases head = do
    failures ← run_cases [] cases
    exact_head ← expect head os_error
    ok (record { exit = if is_empty failures then 0 else 1; failures = failures })

  unfoldable pub main : List Case → Option String → Result Exception Outcome
  main cases head =
      if ltb (length cases) 25 then ok (record { exit = 1; failures = [] }) else tally cases head
