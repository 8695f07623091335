-- ===== src/R79/Examples.antt =====
-- A subject of the R79 court and a case.
use ex4pm.Prelude.{String, refl, ◌≡◌, true, false, List, [], ◌∷◌, ok, All, ◌>>=◌}
use ex4pm.Json.{Json, Dict, bool, str, set_key}
use ex4pm.Subject.{refuse_unless}
use ex4pm.Text.{is_hex40, split}
use ex4pm.R79.Classify.{
  Case, Complaint, classify, classify_revisions, classify_authority, complaints, update, run_cases,
  main,
}
use ex4pm.R79.Classify.Laws.{Admissible, Met, ready_iff, ready_court_passes}

abbrev revision : String
revision = "0123456789abcdef0123456789abcdef01234567"

abbrev subject : Dict Json
subject =
    ("consumer_repo", str "seanchatmangpt/ex4pm")
    ∷ ("producer_repo", str "seanchatmangpt/ggen-marketplace")
    ∷ ("producer_pack", str "portfolio-epistemic-observability-pack")
    ∷ ("producer_capability", str "R78_TCPS_READY_SET_CAPITAL")
    ∷ ("consumer_base", str revision)
    ∷ ("producer_head", str revision)
    ∷ ("prior_consumer_standing", str "MERGED_ALIVE")
    ∷ ("allocation_law", str "legality-before-priority")
    ∷ ("authority", str "READ|VERIFY")
    ∷ ("consequential_do", bool false)
    ∷ ("standing", str "ADMITTED")
    ∷ []

alive : classify subject ≡ ok "ALIVE"
unfolding classify ◌>>=◌ refuse_unless classify_revisions is_hex40 classify_authority split
alive = refl

ready_iff_example : Admissible subject
ready_iff_example = (ready_iff subject).0 alive

abbrev cases : List Case
cases =
    record {
      id = "short";
      set = ("producer_head", str "0123") ∷ [];
      expected = str "REFUSED[MALFORMED_PRODUCER_HEAD]";
    }
    ∷ record {
      id = "bold";
      set = ("consequential_do", bool true) ∷ [];
      expected = str "REFUSED[DO_FORBIDDEN]";
    }
    ∷ []

abbrev no_failures : List Complaint
no_failures = []

quiet : main subject cases ≡ ok (0, [])
unfolding main run_cases complaints classify ◌>>=◌ refuse_unless classify_revisions is_hex40
    classify_authority split update set_key
quiet = refl

ready_court_passes_example : Admissible subject × All (Met subject) cases × (no_failures ≡ [])
ready_court_passes_example = (ready_court_passes subject cases no_failures).0 quiet
