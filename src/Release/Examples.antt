-- ===== src/Release/Examples.antt =====
-- A small release: every Mix project has one text, every Cargo project another.
use ex4pm.Prelude.{
  inr, String, map, ◌++◌, refl, ◌≡◌, true, [], ◌∷◌, some, ok, ◌>>=◌, traverse, string_Eq, contains,
  if◌then◌else◌,
}
use ex4pm.Text.{every_char, is_space}
use ex4pm.Regex.{stretches, each_then, runs, match, search, search_lines, finditer, lit}
use ex4pm.Version.{mix_version}
use ex4pm.Release.{
  mix_projects, cargo_projects, dependency_versions, cargo_version_of, examine_mix, examine_cargo,
  Files, check_mix, check_cargo, Outcome, main,
}
use ex4pm.Release.Dependencies.{Dependency}
use ex4pm.Release.Complete.{dependency_versions-contains}
use ex4pm.Release.Laws.{OneVersion, release_iff}

abbrev mix_text : String
mix_text =
    "@version  \"1.2.3\"\nversion: @version\n{:ex4pm_core, \"~> 1.2.3\"}\n{:ecto, \"~> 9.9.9\"}"

abbrev cargo_text : String
cargo_text = "my_version = \"0\"\nversion = \"1.2.3\""

abbrev files : Files
files = record {
  is_file = λ path. true;
  read_text = λ path. ok (if contains mix_projects path then mix_text else cargo_text);
}

stated : mix_version mix_text ≡ some "1.2.3"
unfolding mix_version search match runs stretches each_then lit is_space
stated = refl

one_dependency : dependency_versions mix_text ≡ "1.2.3" ∷ []
unfolding dependency_versions finditer match runs stretches each_then lit is_space
one_dependency = refl

cargo_stated : cargo_version_of cargo_text ≡ some "1.2.3"
unfolding cargo_version_of search_lines match runs stretches each_then lit is_space
cargo_stated = refl

abbrev outcome : Outcome
outcome = record {
  exit = 0;
  standing = "ALIVE";
  expected = "1.2.3";
  observed = map (λ path. (path, "1.2.3")) (mix_projects ++ cargo_projects);
  failures = [];
}

passes : main files (some "1.2.3") ≡ ok outcome
unfolding main traverse ◌>>=◌ check_mix check_cargo examine_mix examine_cargo mix_version
    dependency_versions cargo_version_of search search_lines finditer match runs stretches each_then
    lit is_space
passes = refl

release_iff_example : OneVersion files "1.2.3"
release_iff_example = (release_iff files (some "1.2.3")).0 (outcome, passes, refl)

abbrev needed : String
needed = "{:ex4pm_core, \"~> 1.2.3\""

needs_core : Dependency needed "1.2.3"
unfolding every_char is_space
needs_core = record {
  name = "_core";
  gap = " ";
  gap' = " ";
  suffix = inr ("core", (refl, λ e. absurd (cc)), refl);
  blank = refl;
  blank' = refl;
  version = (
    "1",
    "2",
    "3",
    (refl, λ e. absurd (cc)),
    (refl, λ e. absurd (cc)),
    (refl, λ e. absurd (cc)),
    refl,
  );
  spelled = refl;
}

dependency_versions-contains_example :
    contains (dependency_versions "[{:ex4pm_core, \"~> 1.2.3\"}]") "1.2.3" ≡ true
dependency_versions-contains_example =
    dependency_versions-contains "[{:ex4pm_core, \"~> 1.2.3\"}]" "[" needed "1.2.3" "}]" needs_core
      refl
