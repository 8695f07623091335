-- ===== src/R58/Examples.antt =====
-- A subject that keeps its contract, and 20 queries that are all answered with yes
use ex4pm.Prelude.{
  false, ℕ, suc, zero, String, refl, ◌≡◌, Bool, true, List, [], ◌∷◌, Result, ok, ◌>>=◌, ◌<>◌,
}
use ex4pm.Json.{Json, Exception, bool, str, dict, of_entries}
use ex4pm.Text.{is_hex40}
use ex4pm.R58.{
  alive, expected_consumer, expected_producer, sha_shape, checks, failed, run_queries, court, main,
}
use ex4pm.R58.Laws.{CourtAlive, main-CourtAlive_iff}

abbrev subject : Json
subject = dict (
    of_entries (
      ("schema", str "ggen.epistemic-consumer-subject/2")
      ∷ ("consumer_repo", str "seanchatmangpt/ex4pm")
      ∷ ("consumer_base", str expected_consumer)
      ∷ ("producer_base", str expected_producer)
      ∷ ("producer_target_token", str "esf:ex4pmTarget")
      ∷ ("consequential_do", bool false)
      ∷ []))

abbrev queries_from : ℕ → String → List String
queries_from zero query = []
queries_from (suc n) query = query ∷ queries_from n (query <> "a")

abbrev queries : List String
queries = queries_from 20 "q"

-- The graph is the number of its triples here.
abbrev ask : ℕ → String → Result Exception Bool
ask triples query = ok true

lives : main ask true subject (ok 8) queries (ok "digest") ≡ ok (0, alive 20 "digest")
unfolding main court run_queries failed checks sha_shape is_hex40 ◌>>=◌
lives = refl

main-CourtAlive_iff_example :
    CourtAlive ask true subject (ok 8) queries (ok "digest") (alive 20 "digest")
main-CourtAlive_iff_example =
    (main-CourtAlive_iff ask true subject (ok 8) queries (ok "digest") (alive 20 "digest")).0 lives
