-- ===== src/Release.antt =====
-- scripts/check-release-version.py: one version in all projects of a release. The files and the
-- command line's argument are arguments; a path is its text.
pub mod Laws
pub mod Dependencies
pub mod Spelled
pub mod Unique
pub mod Complete
mod Examples
use ex4pm.Prelude.{
  ℕ, String, Bool, true, false, not, ◌||◌, ◌&&◌, List, [], ◌∷◌, ◌++◌, map, Option, none, some,
  Result, ok, err, ◌>>=◌, traverse, ◌==◌, nat_Eq, string_Eq, leb, if◌then◌else◌, is_empty, keep_if,
}
use ex4pm.Json.{Exception, Dict}
use ex4pm.Text.{is_space}
use ex4pm.Regex.{
  Regex, many, seq, group, lit, some_of, maybe, Match, search_lines, finditer, group_of,
}
use ex4pm.Version.{quoted, first_group, mix_version}

abbrev pub mix_projects : List String
mix_projects =
    "mix.exs" ∷ "apps/ex4pm/mix.exs" ∷ "apps/ex4pm_cli/mix.exs" ∷ "apps/ex4pm_contracts/mix.exs"
    ∷ "apps/ex4pm_core/mix.exs" ∷ "apps/ex4pm_domain/mix.exs" ∷ "apps/ex4pm_engine/mix.exs"
    ∷ "apps/ex4pm_evidence/mix.exs" ∷ "apps/ex4pm_information/mix.exs"
    ∷ "apps/ex4pm_qualification/mix.exs" ∷ "apps/ex4pm_runtime/mix.exs"
    ∷ "apps/ex4pm_stream/mix.exs" ∷ "apps/ex4pm_web/mix.exs" ∷ []

abbrev pub cargo_projects : List String
cargo_projects =
    "qualification/reference-nif/Cargo.toml" ∷ "qualification/reference-wasm/Cargo.toml" ∷ []

abbrev pub is_digit : ℕ → Bool
is_digit c = leb b'0' c && leb c b'9'

abbrev pub is_name : ℕ → Bool
is_name c = leb b'a' c && leb c b'z' || (is_digit c || c == b'_')

-- `[0-9]+\.[0-9]+\.[0-9]+`
abbrev pub triple : Regex
triple =
    seq (some_of is_digit)
      (seq (lit ".") (seq (some_of is_digit) (seq (lit ".") (some_of is_digit))))

abbrev pub internal_dep : Regex
internal_dep = seq (lit "{:ex4pm") (
    seq (maybe (seq (lit "_") (some_of is_name))) (
      seq (lit ",") (
        seq (many is_space)
          (seq (lit "\"~>") (seq (many is_space) (seq (group 1 triple) (lit "\"")))))))

-- Behind its `^`
abbrev pub cargo_version : Regex
cargo_version =
    seq (lit "version") (seq (many is_space) (seq (lit "=") (seq (many is_space) quoted)))

abbrev pub text_or : String → Option String → String
text_or default none = default
text_or default (some t) = t

-- `INTERNAL_DEP.findall(text)`; the group takes part in every match.
unfoldable pub dependency_versions : String → List String
dependency_versions text =
    map (λ (m : Match). text_or "" (group_of 1 m.groups)) (finditer internal_dep 0 text)

unfoldable pub cargo_version_of : String → Option String
cargo_version_of text = first_group (search_lines true cargo_version text)

pub data Failure : Type 0 where
  missing_mix missing_cargo : String → Failure
  wrong_version wrong_cargo : String → Option String → Failure
  wrong_dependency : String → String → Failure

-- `version == expected`, where there may be no version
abbrev pub is_version : Option String → String → Bool
is_version none expected = false
is_version (some v) expected = v == expected

-- `version or "MISSING"`
abbrev pub shown : Option String → String
shown none = "MISSING"
shown (some v) = if v == "" then "MISSING" else v

-- What one turn of a loop adds to `observed` and `failures`
pub record Finding : Type 0 where
  pub observed : Dict String
  pub failures : List Failure

abbrev pub wrong_dependencies : String → String → List String → List Failure
wrong_dependencies path expected versions =
    map (wrong_dependency path) (keep_if (λ v. not (v == expected)) versions)

unfoldable pub examine_mix : String → String → String → Finding
examine_mix expected path text =
    let version = mix_version text in
    record {
      observed = (path, shown version) ∷ [];
      failures =
          (if is_version version expected then [] else wrong_version path version ∷ [])
          ++ wrong_dependencies path expected (dependency_versions text);
    }

unfoldable pub examine_cargo : String → String → String → Finding
examine_cargo expected path text =
    let version = cargo_version_of text in
    record {
      observed = (path, shown version) ∷ [];
      failures = if is_version version expected then [] else wrong_cargo path version ∷ [];
    }

-- The files: `is_file`, and `read_text`, which may raise
pub record Files : Type 0 where
  pub is_file : String → Bool
  pub read_text : String → Result Exception String

module _ (files : Files) where
  -- The body of the first loop, and of the second
  unfoldable pub check_mix : String → String → Result Exception Finding
  check_mix expected path =
      if files.is_file path
      then files.read_text path >>= (λ text. ok (examine_mix expected path text))
      else ok (record { observed = []; failures = missing_mix path ∷ [] })

  unfoldable pub check_cargo : String → String → Result Exception Finding
  check_cargo expected path =
      if files.is_file path
      then files.read_text path >>= (λ text. ok (examine_cargo expected path text))
      else ok (record { observed = []; failures = missing_cargo path ∷ [] })

abbrev pub all_failures : List Finding → List Failure
all_failures [] = []
all_failures (f ∷ fs) = f.failures ++ all_failures fs

abbrev pub all_observed : List Finding → Dict String
all_observed [] = []
all_observed (f ∷ fs) = f.observed ++ all_observed fs

-- `result`, with the exit status
pub record Outcome : Type 0 where
  pub exit : ℕ
  pub standing : String
  pub expected : String
  pub observed : Dict String
  pub failures : List Failure

abbrev pub conclude : String → List Finding → Outcome
conclude expected findings = record {
  exit = if is_empty (all_failures findings) then 0 else 1;
  standing = if is_empty (all_failures findings) then "ALIVE" else "BUILD_BROKEN";
  expected = expected;
  observed = all_observed findings;
  failures = all_failures findings;
}

unfoldable pub main : Files → Option String → Result Exception Outcome
main files argument = do
  let expected = text_or "26.8.23" argument
  mix ← traverse (check_mix files expected) mix_projects
  cargo ← traverse (check_cargo files expected) cargo_projects
  ok (conclude expected (mix ++ cargo))
