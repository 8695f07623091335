-- ===== src/Crown/Sabotage.antt =====
-- `verify_sabotage`: every required sabotage was tried, and all that were tried were detected.
pub mod Laws
use ex4pm.Prelude.{
  ℕ, String, not, List, [], ◌∷◌, Result, ok, ◌>>=◌, ◌>>◌, require, expect, string_Eq, contains,
  is_empty, keep_if, if◌then◌else◌, length,
}
use ex4pm.Text.{sorted}
use ex4pm.Json.{Json, Dict, get, as_dict, is_str, keys}
use ex4pm.Crown.World.{Failure, missing_sabotage, missing_cases, survived}

abbrev pub required_sabotage : List String
required_sabotage =
    "source_mutation" ∷ "tree_mutation" ∷ "subject_hash_mutation" ∷ "result_mutation"
    ∷ "receipt_mutation" ∷ "replay_mutation" ∷ "unreceipted_do" ∷ "unauthorized_retry"
    ∷ "wasm_artifact_mutation" ∷ "nif_artifact_mutation" ∷ "oci_image_mutation"
    ∷ "certificate_mutation" ∷ "erts_mutation" ∷ "powl_extra_trace" ∷ "powl_missing_trace"
    ∷ "powl_wrong_order" ∷ "powl_duplicate_identity" ∷ "distributed_identity_mutation"
    ∷ "ci_subject_mutation" ∷ []

-- `REQUIRED_SABOTAGE - set(sabotage)`
unfoldable pub missing_of : Dict Json → List String
missing_of sabotage = keep_if (λ name. not (contains (keys sabotage) name)) required_sabotage

-- The names whose result is not `"DETECTED"`
unfoldable pub survivors : Dict Json → List String
survivors [] = []
survivors ((name, result) ∷ sabotage) =
    let rest = survivors sabotage in if is_str result "DETECTED" then rest else name ∷ rest

unfoldable pub verify_sabotage : Dict Json → Result Failure ℕ
verify_sabotage crown = do
  sabotage ← expect (as_dict (get "sabotage" crown)) missing_sabotage
  let missing = missing_of sabotage
  require (is_empty missing) (missing_cases (sorted missing))
  let alive = survivors sabotage
  require (is_empty alive) (survived (sorted alive))
  ok (length sabotage)
