-- ===== src/Remote/Examples.antt =====
-- A request of three bytes
use ex4pm.Prelude.{ℕ, refl, ◌≡◌, List, [], ◌∷◌, Option, some, ok, ◌>>=◌}
use ex4pm.Json.{ℤ, Json, str, dict, of_entries, to_int}
use ex4pm.Remote.{json, success, planned, answer, do_post}
use ex4pm.Remote.Laws.{PlanAsked, do_post-PlanAsked_iff}

abbrev read : ℤ → Option (List ℕ)
read n = some (1 ∷ 2 ∷ 3 ∷ [])

abbrev loads : List ℕ → Option Json
loads content =
    some (dict (of_entries (("operation", str "plan") ∷ ("subject", dict (of_entries [])) ∷ [])))

abbrev planner_result : Json
planner_result = dict (of_entries (("result", str "steps") ∷ []))

answered :
    do_post read loads planner_result "/plan" (some "3") ≡ ok (json 200 (success (str "steps")))
unfolding do_post answer planned to_int ◌>>=◌
answered = refl

do_post-PlanAsked_iff_example : PlanAsked read loads planner_result "/plan" (some "3") (str "steps")
do_post-PlanAsked_iff_example =
    (do_post-PlanAsked_iff read loads planner_result "/plan" (some "3") (str "steps")).0 answered
