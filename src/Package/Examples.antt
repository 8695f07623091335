-- ===== src/Package/Examples.antt =====
-- A package of three files
use ex4pm.Package.{
  map, project_version, is_forbidden, check_mix, forbidden_paths, check_files, report_of, Run, main,
}
use ex4pm.Prelude.{String, refl, ◌≡◌, true, List, [], ◌∷◌, some, Result, ok, ◌>>=◌, traverse}
use ex4pm.Json.{Exception}
use ex4pm.Text.{is_space, sorted, is_prefix}
use ex4pm.Regex.{stretches, each_then, runs, match, search, lit}
use ex4pm.Package.Inspect.{Releasable, inspect_iff}

abbrev paths : List String
paths = "mix.exs" ∷ "lib/ex4pm.ex" ∷ "depsx/README.md" ∷ []

abbrev files : List String
files = "depsx/README.md" ∷ "lib/ex4pm.ex" ∷ "mix.exs" ∷ []

abbrev digest : String → Result Exception String
digest rel = ok "d"

abbrev whole_run : Run
whole_run = record {
  exit = 0;
  report = report_of "ex4pm" (some "1.0") [] 3 (map (λ rel. (rel, "d")) files);
}

passes : main (some (ok "version: \"1.0\"")) paths digest true "1.0" "ex4pm" ≡ ok whole_run
unfolding main check_mix project_version check_files forbidden_paths is_forbidden is_prefix sorted
    traverse ◌>>=◌ search match runs stretches each_then lit is_space
passes = refl

inspect_iff_example : Releasable (some (ok "version: \"1.0\"")) paths digest true "1.0"
inspect_iff_example =
    (inspect_iff (some (ok "version: \"1.0\"")) paths digest true "1.0" "ex4pm").0
      (whole_run, passes, refl)
