-- ===== src/Plan/Examples.antt =====
-- A stream with one plan among other lines
use ex4pm.Prelude.{
  String, refl, ◌≡◌, true, List, [], ◌∷◌, Option, none, some, ◌==◌, string_Eq, if◌then◌else◌,
}
use ex4pm.Json.{Json, Dict, str, dict, of_entries}
use ex4pm.Text.{strip, starts_with}
use ex4pm.Plan.{plan_in, candidates, main, extracted}
use ex4pm.Plan.Laws.{OnlyPlan, main-OnlyPlan_iff}

abbrev plan : Dict Json
plan = ("protocol", str "ex4pm-plan/v1") ∷ ("steps", str "none") ∷ []

abbrev loads : String → Option Json
loads line =
    if line == "{plan}"
    then some (dict (of_entries plan))
    else if line == "{}"
    then some (dict (of_entries []))
    else none

abbrev stream : List String
stream = "starting" ∷ "{}" ∷ "  {plan} " ∷ "{broken" ∷ []

found : main loads true stream ≡ extracted 3 plan
unfolding main candidates plan_in strip starts_with
found = refl

main-OnlyPlan_iff_example : OnlyPlan loads 1 stream 3 plan × (true ≡ true)
main-OnlyPlan_iff_example = (main-OnlyPlan_iff loads true stream 3 plan).0 found
