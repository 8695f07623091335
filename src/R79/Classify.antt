-- ===== src/R79/Classify.antt =====
-- `classify` and the loop of `main`
pub mod Laws
use ex4pm.Prelude.{
  ℕ, String, Bool, true, false, not, ◌&&◌, List, [], ◌∷◌, ◌++◌, Option, none, some, Result, ok, err,
  ◌>>=◌, expect, string_Eq, ◌==◌, contains, to_set, is_empty, if◌then◌else◌,
}
use ex4pm.Text.{is_hex40, split}
use ex4pm.Subject.{refuse_unless}
use ex4pm.Json.{
  Json, Dict, Exception, str, get, get_or, as_str, is_str, is_false, type_error, attribute_error,
  set_key,
}

-- The guards from `prior_consumer_standing` on; `authority` is a set here.
unfoldable pub classify_authority : Dict Json → Result Exception String
classify_authority s =
    refuse_unless (is_str (get "prior_consumer_standing" s) "MERGED_ALIVE")
      "REFUSED[PRIOR_STANDING]"
      (refuse_unless (is_str (get "allocation_law" s) "legality-before-priority")
        "REFUSED[ALLOCATION_LAW]"
        (do
          text ← expect (as_str (get_or "authority" (str "") s)) attribute_error
          let authority = to_set (split b'|' text)
          refuse_unless (contains authority "VERIFY" && not (contains authority "DO"))
              "REFUSED[AUTHORITY_FENCE]"
              (refuse_unless (is_false (get "consequential_do" s)) "REFUSED[DO_FORBIDDEN]" (
                refuse_unless (is_str (get "standing" s) "ADMITTED") "REFUSED[SUBJECT_NOT_ADMITTED]"
                  (ok "ALIVE")))))

-- The guards on the two revisions
unfoldable pub classify_revisions : Dict Json → Result Exception String
classify_revisions s = do
  base ← expect (as_str (get_or "consumer_base" (str "") s)) type_error
  refuse_unless (is_hex40 base) "REFUSED[MALFORMED_CONSUMER_BASE]" (do
    head ← expect (as_str (get_or "producer_head" (str "") s)) type_error
    refuse_unless (is_hex40 head) "REFUSED[MALFORMED_PRODUCER_HEAD]" (classify_authority s))

unfoldable pub classify : Dict Json → Result Exception String
classify s =
    refuse_unless (is_str (get "consumer_repo" s) "seanchatmangpt/ex4pm")
      "REFUSED[FOREIGN_CONSUMER]"
      (refuse_unless (is_str (get "producer_repo" s) "seanchatmangpt/ggen-marketplace")
        "REFUSED[FOREIGN_PRODUCER]"
        (refuse_unless (is_str (get "producer_pack" s) "portfolio-epistemic-observability-pack")
          "REFUSED[FOREIGN_PACK]"
          (refuse_unless (is_str (get "producer_capability" s) "R78_TCPS_READY_SET_CAPITAL")
            "REFUSED[FOREIGN_CAPABILITY]" (classify_revisions s))))

-- An entry of `CASES`
pub record Case : Type 0 where
  pub id : String
  pub set : Dict Json
  pub expected : Json

-- `candidate.update(case["set"])`
unfoldable pub update : Dict Json → Dict Json → Dict Json
update s [] = s
update s ((key, value) ∷ rest) = update (set_key key value s) rest

-- The texts that `failures` collects
pub data Complaint : Type 0 where
  baseline : String → Complaint
  mismatch : String → String → String → Complaint

-- What one run of the loop's body adds to `failures`; adding an expectation that is no text to a
-- text raises.
unfoldable pub complaints : Case → String → Result Exception (List Complaint)
complaints case actual =
    if is_str case.expected actual
    then ok []
    else (expect (as_str case.expected) type_error >>= λ wanted.
        ok (mismatch case.id actual wanted ∷ []))

module _ (subject : Dict Json) where
  -- The loop over the cases
  unfoldable pub run_cases : List Case → Result Exception (List Complaint)
  run_cases [] = ok []
  run_cases (case ∷ cases) =
      let rest = run_cases cases in
      do
        actual ← classify (update subject case.set)
        mine ← complaints case actual
        later ← rest
        ok (mine ++ later)

  -- `main`: the exit status, and what `failures` holds
  unfoldable pub main : List Case → Result Exception (ℕ × List Complaint)
  main cases = do
    standing ← classify subject
    later ← run_cases cases
    let failures = (if standing == "ALIVE" then [] else baseline standing ∷ []) ++ later
    ok (if is_empty failures then 0 else 1, failures)
