-- ===== src/R54/Classify.antt =====
-- `classify` and `mutate`
pub mod Laws
use ex4pm.Prelude.{
  String, Bool, true, false, not, ◌&&◌, ◌||◌, List, [], ◌∷◌, Option, none, some, Result, ok, err,
  ◌>>=◌, expect, string_Eq, contains, if◌then◌else◌,
}
use ex4pm.Text.{is_hex40, split}
use ex4pm.Subject.{refuse_unless}
use ex4pm.Json.{
  Json, Dict, Exception, str, get, get_or, as_str, is_str, is_false, truthy, type_error,
  attribute_error, set_key, pop,
}

-- The guards from `consequential_do` on. `split` is an attribute of texts only.
unfoldable pub classify_authority : Dict Json → Result Exception String
classify_authority s =
    refuse_unless (is_false (get "consequential_do" s)) "REFUSED[DO_FORBIDDEN]" (do
      text ← expect (as_str (get_or "authority" (str "") s)) attribute_error
      let authority = split b'|' text
      refuse_unless (contains authority "VERIFY" && not (contains authority "DO"))
          "REFUSED[AUTHORITY_FENCE]"
          (refuse_unless (truthy (get "evidence_root" s)) "REFUSED[MISSING_EVIDENCE_ROOT]" (
            refuse_unless (is_str (get "standing" s) "ADMITTED") "REFUSED[SUBJECT_NOT_ADMITTED]"
              (ok "ALIVE"))))

-- The guards on the two revisions. `fullmatch` takes texts only.
unfoldable pub classify_revisions : Dict Json → Result Exception String
classify_revisions s = do
  base ← expect (as_str (get_or "consumer_base" (str "") s)) type_error
  refuse_unless (is_hex40 base) "REFUSED[MALFORMED_CONSUMER_BASE]" (do
    head ← expect (as_str (get_or "producer_head" (str "") s)) type_error
    refuse_unless (is_hex40 head) "REFUSED[MALFORMED_PRODUCER_HEAD]" (classify_authority s))

unfoldable pub classify : Dict Json → Result Exception String
classify s =
    refuse_unless (is_str (get "consumer_repo" s) "seanchatmangpt/ex4pm")
      "REFUSED[FOREIGN_CONSUMER]"
      (refuse_unless (is_str (get "producer_repo" s) "seanchatmangpt/ggen-marketplace")
        "REFUSED[FOREIGN_PRODUCER]"
        (refuse_unless (is_str (get "producer_pack" s) "epistemic-sensor-factory-pack")
          "REFUSED[FOREIGN_PACK]" (classify_revisions s)))

-- A case file
pub record Case : Type 0 where
  pub id : String
  pub set : Dict Json
  pub delete : List String
  pub expected : Json

-- `for key, value in case["set"].items(): s[key] = value`
unfoldable pub set_all : Dict Json → Dict Json → Dict Json
set_all [] s = s
set_all ((key, value) ∷ rest) s = set_all rest (set_key key value s)

-- `for key in case["delete"]: s.pop(key, None)`
unfoldable pub pop_all : List String → Dict Json → Dict Json
pop_all [] s = s
pop_all (key ∷ rest) s = pop_all rest (pop key s)

unfoldable pub mutate : Dict Json → Case → Dict Json
mutate base case = pop_all case.delete (set_all case.set base)
