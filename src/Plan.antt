-- ===== src/Plan.antt =====
-- scripts/extract-ex4pm-plan-json.py: the one plan object in a mixed stream. The lines of the stream
-- (`splitlines`) and `json.loads` on a text are arguments; `none` is a decoding error.
pub mod Laws
mod Examples
use ex4pm.Prelude.{
  ℕ, suc, String, Bool, true, false, List, [], ◌∷◌, Option, none, some, ◌==◌, nat_Eq, string_Eq,
  if◌then◌else◌, length,
}
use ex4pm.Text.{strip, starts_with}
use ex4pm.Json.{Json, Dict, as_dict, get, is_str}

-- `isinstance(value, dict) and value.get("protocol") == "ex4pm-plan/v1"`
abbrev pub plan_of : Option (Dict Json) → Option (Dict Json)
plan_of none = none
plan_of (some d) = if is_str (get "protocol" d) "ex4pm-plan/v1" then some d else none

abbrev pub decoded : Option Json → Option (Dict Json)
decoded none = none
decoded (some value) = plan_of (as_dict value)

-- The object that a run of the loop's body takes, if it takes one
unfoldable pub plan_in : (String → Option Json) → String → Option (Dict Json)
plan_in loads raw =
    let line = strip raw in if starts_with b'{' line then decoded (loads line) else none

abbrev pub add_candidate : ℕ → Option (Dict Json) → List (ℕ × Dict Json) → List (ℕ × Dict Json)
add_candidate number none rest = rest
add_candidate number (some value) rest = (number, value) ∷ rest

-- The loop; `number` is that of the first line.
unfoldable pub candidates : (String → Option Json) → ℕ → List String → List (ℕ × Dict Json)
candidates loads number [] = []
candidates loads number (line ∷ lines) =
    add_candidate number (plan_in loads line) (candidates loads (suc number) lines)

-- How a run ends: what it wrote and the line that it printed, or the number of candidates that it
-- refused, or the interpreter's report of a file that could not be written.
pub data Outcome : Type 0 where
  extracted : ℕ → Dict Json → Outcome
  refused : ℕ → Outcome
  unwritable : Outcome

abbrev pub conclude : Bool → List (ℕ × Dict Json) → Outcome
conclude can_write [] = refused 0
conclude can_write ((number, value) ∷ []) = if can_write then extracted number value else unwritable
conclude can_write (a ∷ b ∷ rest) = refused (length (a ∷ b ∷ rest))

unfoldable pub main : (String → Option Json) → Bool → List String → Outcome
main loads can_write lines = conclude can_write (candidates loads 1 lines)
