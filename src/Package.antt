-- ===== src/Package.antt =====
-- scripts/inspect-hex-package.py: an unpacked Hex package as a release artifact. `mix.exs`, the
-- paths of the package's files below its root, their digests and the output are arguments.
pub mod Laws
pub mod Inspect
mod Examples
use ex4pm.Prelude.{
  ℕ, String, ◌<>◌, Bool, true, false, ◌||◌, not, List, [], ◌∷◌, ◌++◌, map, Option, none, some,
  Result, ok, err, ◌>>=◌, traverse, ◌==◌, string_Eq, any, length, is_empty, if◌then◌else◌,
}
use ex4pm.Json.{Dict, Exception, os_error}
use ex4pm.Text.{sorted, is_prefix}
use ex4pm.Regex.{search}
use ex4pm.Version.{at_version, version_key, first_group, or_else_group}

abbrev pub forbidden_parts : List String
forbidden_parts = "_build" ∷ ".git" ∷ ".github" ∷ "artifacts" ∷ "deps" ∷ "priv/plts" ∷ []

-- The loop over `VERSION_PATTERNS`
unfoldable pub project_version : String → Option String
project_version text =
    or_else_group (search at_version text) (first_group (search version_key text))

-- `any(rel == part or rel.startswith(part + "/") for part in FORBIDDEN_PARTS)`
unfoldable pub is_forbidden : String → Bool
is_forbidden rel = any (λ part. rel == part || is_prefix (part <> "/") rel) forbidden_parts

pub data Failure : Type 0 where
  lacks_mix lacks_lib : Failure
  wrong_version : Option String → String → Failure
  forbidden : String → Failure

abbrev pub is_version : Option String → String → Bool
is_version none expected = false
is_version (some v) expected = v == expected

-- What the first test leaves in `version` and in `failures`
unfoldable pub check_mix :
    Option (Result Exception String) → String → Result Exception (Option String × List Failure)
check_mix none expected = ok (none, lacks_mix ∷ [])
check_mix (some reading) expected = reading >>= λ text.
    let version = project_version text in
    ok (version, if is_version version expected then [] else wrong_version version expected ∷ [])

unfoldable pub forbidden_paths : List String → List Failure
forbidden_paths [] = []
forbidden_paths (rel ∷ files) =
    let rest = forbidden_paths files in if is_forbidden rel then forbidden rel ∷ rest else rest

-- What the two tests on the files add
unfoldable pub check_files : List String → List Failure
check_files files =
    (if any (is_prefix "lib/") files then [] else lacks_lib ∷ []) ++ forbidden_paths files

pub record Report : Type 0 where
  pub standing : String
  pub package_name : String
  pub version : Option String
  pub file_count : ℕ
  pub files : Dict String
  pub failures : List Failure

abbrev pub report_of : String → Option String → List Failure → ℕ → Dict String → Report
report_of package_name version failures file_count file_hashes = record {
  standing = if is_empty failures then "ALIVE" else "BUILD_BROKEN";
  package_name = package_name;
  version = version;
  file_count = file_count;
  files = file_hashes;
  failures = failures;
}

abbrev pub hash_file :
    (String → Result Exception String) → String → Result Exception (String × String)
hash_file digest rel = digest rel >>= λ hash. ok (rel, hash)

-- How a run ends: the exit status and the report that is printed and written
pub record Run : Type 0 where
  pub exit : ℕ
  pub report : Report

-- `can_write` is what the writing of the output does, if one is asked for; the report is printed
-- after it.
unfoldable pub main :
    Option (Result Exception String)
    → List String
    → (String → Result Exception String)
    → Bool
    → String
    → String
    → Result Exception Run
main mix paths digest can_write expected package_name = do
  (version, mix_failures) ← check_mix mix expected
  let files = sorted paths
  let failures = mix_failures ++ check_files files
  file_hashes ← traverse (hash_file digest) files
  let report = report_of package_name version failures (length files) file_hashes
  if can_write
      then ok (record { exit = if is_empty failures then 0 else 1; report = report })
      else err os_error
