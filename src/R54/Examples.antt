-- ===== src/R54/Examples.antt =====
-- A subject of the R54 court, a mutated one, and a court of 25 cases.
use ex4pm.Prelude.{ℕ, suc, zero, String, refl, ◌≡◌, false, List, [], ◌∷◌, some, ok, ◌<>◌, ◌>>=◌}
use ex4pm.Json.{Json, Dict, bool, str, lookup, set_key, pop}
use ex4pm.Subject.{refuse_unless}
use ex4pm.Text.{is_hex40, split}
use ex4pm.R54.Classify.{
  Case, classify, classify_revisions, classify_authority, set_all, pop_all, mutate,
}
use ex4pm.R54.Court.{main, tally, run_cases}
use ex4pm.R54.Classify.Laws.{Admissible, alive_iff, lookup-mutate}
use ex4pm.R54.Court.Laws.{Passes, court-Passes}

abbrev revision : String
revision = "0123456789abcdef0123456789abcdef01234567"

abbrev subject : Dict Json
subject =
    ("consumer_repo", str "seanchatmangpt/ex4pm")
    ∷ ("producer_repo", str "seanchatmangpt/ggen-marketplace")
    ∷ ("producer_pack", str "epistemic-sensor-factory-pack")
    ∷ ("consumer_base", str revision)
    ∷ ("producer_head", str revision)
    ∷ ("consequential_do", bool false)
    ∷ ("authority", str "READ|VERIFY")
    ∷ ("evidence_root", str "evidence")
    ∷ ("standing", str "ADMITTED")
    ∷ []

alive : classify subject ≡ ok "ALIVE"
unfolding classify ◌>>=◌ refuse_unless classify_revisions is_hex40 classify_authority split
alive = refl

alive_iff_example : Admissible subject
alive_iff_example = (alive_iff subject).0 alive

-- It is given the right to do, and loses its evidence root.
abbrev bold : Case
bold = record {
  id = "bold";
  set = ("authority", str "VERIFY|DO") ∷ [];
  delete = "evidence_root" ∷ [];
  expected = str "REFUSED[AUTHORITY_FENCE]";
}

lookup-mutate_example : lookup "authority" (mutate subject bold) ≡ some (str "VERIFY|DO")
lookup-mutate_example = lookup-mutate "authority" subject bold

-- Cases with ids `a`, `aa`, ...
abbrev cases_after : ℕ → String → List Case
cases_after zero id = []
cases_after (suc n) id =
    record {
      id = id;
      set = ("authority", str "VERIFY|DO") ∷ [];
      delete = [];
      expected = str "REFUSED[AUTHORITY_FENCE]";
    }
    ∷ cases_after n (id <> "a")

abbrev cases : List Case
cases = cases_after 25 "a"

quiet : main subject cases (some revision) ≡ ok (record { exit = 0; failures = [] })
unfolding main tally run_cases classify ◌>>=◌ refuse_unless classify_revisions is_hex40
    classify_authority split mutate set_all pop_all set_key pop
quiet = refl

court-Passes_example : Passes subject cases (some revision)
court-Passes_example =
    (court-Passes subject cases (some revision)).0 (record { exit = 0; failures = [] }, quiet, refl)
