-- ===== src/R58.antt =====
-- verification/r58-consumer/run_court.py: the court over the R58 consumer subject. The parsed subject,
-- what rdflib makes of the adapter and of each query file, the sorted names of the query files and
-- the digest of the two inputs are arguments; a failing read or parse is an exception.
pub mod Laws
mod Examples
use ex4pm.Prelude.{
  ℕ, String, Bool, true, false, List, [], ◌∷◌, Result, ok, err, ◌>>=◌, expect, ◌==◌, nat_Eq,
  string_Eq, if◌then◌else◌, length, is_empty,
}
use ex4pm.Text.{is_hex40}
use ex4pm.Json.{
  Json, Dict, Exception, str, get, get_or, as_dict, as_str, is_str, is_false, type_error,
  attribute_error, os_error,
}

abbrev pub expected_consumer : String
expected_consumer = "e12fccb42a67bc4496cac91c86bff2b856cc463d"

abbrev pub expected_producer : String
expected_producer = "8bd29043a2818a5fb6a4de65cc403eff8e495b58"

-- An entry of a refusal's `details`; `observed n` is the text `observed=n`.
pub data Detail : Type 0 where
  name : String → Detail
  observed : ℕ → Detail

-- The receipt that a run writes: the reason and the details of a refusal, or the number of courts
-- and the digest, which are all that varies.
pub data Receipt : Type 0 where
  refusal : String → List Detail → Receipt
  alive : ℕ → String → Receipt

-- The receipt is written before anything is said of it; a failing write is an exception.
abbrev pub conclude : Bool → ℕ → Receipt → Result Exception (ℕ × Receipt)
conclude can_write exit receipt = if can_write then ok (exit, receipt) else err os_error

unfoldable pub refuse : Bool → String → List Detail → Result Exception (ℕ × Receipt)
refuse can_write reason details = conclude can_write 1 (refusal reason details)

-- `re.fullmatch` takes texts only, and `all` stops at the first that does not match.
unfoldable pub sha_shape : Dict Json → Result Exception Bool
sha_shape s = do
  consumer ← expect (as_str (get_or "consumer_base" (str "") s)) type_error
  if is_hex40 consumer
      then expect (as_str (get_or "producer_base" (str "") s)) type_error
        >>= (λ producer. ok (is_hex40 producer))
      else ok false

unfoldable pub checks : Dict Json → Result Exception (List (String × Bool))
checks s = do
  shape ← sha_shape s
  ok (
      ("schema", is_str (get "schema" s) "ggen.epistemic-consumer-subject/2")
      ∷ ("consumer_repo", is_str (get "consumer_repo" s) "seanchatmangpt/ex4pm")
      ∷ ("consumer_base", is_str (get "consumer_base" s) expected_consumer)
      ∷ ("producer_base", is_str (get "producer_base" s) expected_producer)
      ∷ ("target", is_str (get "producer_target_token" s) "esf:ex4pmTarget")
      ∷ ("no_do", is_false (get "consequential_do" s))
      ∷ ("sha_shape", shape)
      ∷ [])

-- The names of the checks that failed
unfoldable pub failed : List (String × Bool) → List Detail
failed [] = []
failed ((check, passed) ∷ rest) =
    let others = failed rest in if passed then others else name check ∷ others

module _ {Graph : Type 0} (ask : Graph → String → Result Exception Bool) where
  -- The loop over the queries: the names of those that were not answered with yes
  unfoldable pub run_queries : Graph → List String → Result Exception (List Detail)
  run_queries graph [] = ok []
  run_queries graph (query ∷ queries) =
      let rest = run_queries graph queries in
      do passed ← ask graph query; later ← rest; ok (if passed then later else name query ∷ later)

  -- `main` once the subject is as it should be
  unfoldable pub court :
      Bool
      → Result Exception Graph
      → List String
      → Result Exception String
      → Result Exception (ℕ × Receipt)
  court can_write parsed queries digest = do
    graph ← parsed
    if length queries == 20
        then run_queries graph queries >>= (λ failures.
          if is_empty failures
          then digest >>= (λ d. conclude can_write 0 (alive (length queries) d))
          else refuse can_write "R58_CONSUMER_COURT" failures)
        else refuse can_write "R58_QUERY_CENSUS"
            (name "expected=20" ∷ observed (length queries) ∷ [])

  unfoldable pub main :
      Bool
      → Json
      → Result Exception Graph
      → List String
      → Result Exception String
      → Result Exception (ℕ × Receipt)
  main can_write subject parsed queries digest = do
    s ← expect (as_dict subject) attribute_error
    results ← checks s
    let failures = failed results
    if is_empty failures
        then court can_write parsed queries digest
        else refuse can_write "R58_SUBJECT_CONTRACT" failures
