-- ===== src/Package/Inspect.antt =====
-- The whole inspection of a package.
use ex4pm.Prelude.{
  String, ◌<>◌, refl, sym, ap, ◌∙◌, ◌≡◌, ◌↔◌, Bool, true, false, List, [], ◌∷◌, ◌++◌, Option, none,
  some, Result, ok, err, traverse, All, Any, arith, string_Eq, eq_iff, any, length, if◌then◌else◌,
  from_bind, ok-bind, ok-injective,
}
use ex4pm.Failures.{append_nil, not_complained, status_zero}
use ex4pm.Json.{os_error, Dict, Exception}
use ex4pm.Text.{sorted, is_prefix}
use ex4pm.Text.Prefix.{is_prefix_iff}
use ex4pm.Text.Sorting.{All-sort_by_iff, any-sort_by}
use ex4pm.Version.{mix_version}
use ex4pm.Version.First.{VersionOf, mix_version_iff}
use ex4pm.Package.{
  lacks_mix, lacks_lib, project_version, Failure, check_mix, forbidden_paths, check_files,
  hash_file, Run, report_of, main,
}
use ex4pm.Package.Laws.{IsAllowed, some_of_any, any_of_some, forbidden_paths_iff, is_version_iff}

-- The path lies below `lib`.
abbrev pub IsLib : String → Type 0
IsLib rel = (r : String) × (rel ≡ "lib/" <> r)

-- The package has its `mix.exs` with the expected version, a file below `lib` and nothing
-- forbidden; each file can be read for its digest, and the output can be written.
pub record Releasable (mix : Option (Result Exception String)) (paths : List String)
    (digest : String → Result Exception String) (can_write : Bool) (expected : String)
    : Type 0 where
  pub text : String
  pub has_mix : mix ≡ some (ok text)
  pub version : VersionOf text (some expected)
  pub has_lib : Any IsLib paths
  pub allowed : All IsAllowed paths
  pub hashed : All (λ rel. (hash : String) × (digest rel ≡ ok hash)) paths
  pub written : can_write ≡ true

project-mix : (text : String) → project_version text ≡ mix_version text
unfolding project_version mix_version
project-mix text = refl

mix_clean :
    (mix : Option (Result Exception String)) (expected : String) (version : Option String)
    (fs : List Failure)
    → check_mix mix expected ≡ ok (version, fs)
    → fs ≡ []
    → (text : String) × (mix ≡ some (ok text)) × VersionOf text (some expected)
unfolding check_mix
mix_clean none expected version fs h e = absurd (lacks _ (ok-injective h) e)
  where
    lacks : (x : Option String × List Failure) → (none, lacks_mix ∷ []) ≡ x → x.1 ≡ [] → ⊥
    lacks x k e = absurd (ground arith)
mix_clean (some reading) expected version fs h e = from_bind reading _ h λ text read k.
    let clean = ap (λ (x : Option String × List Failure). x.1) (ok-injective k) ∙ e in
    let agrees = (is_version_iff _ expected).0 (not_complained _ _ clean) in
    (
      text,
      ap (λ r. some r) read,
      (mix_version_iff text (some expected)).0 (sym (project-mix text) ∙ agrees),
    )

hash_all :
    (digest : String → Result Exception String) (files : List String)
    → All (λ rel. (hash : String) × (digest rel ≡ ok hash)) files
    → (hashes : Dict String) × (traverse (hash_file digest) files ≡ ok hashes)
unfolding traverse
hash_all digest [] a = ([], refl)
hash_all digest (rel ∷ files) a =
    let (hash, e) = a.0 in
    let (hashes, rest) = hash_all digest files a.1 in
    ((rel, hash) ∷ hashes, rw (e, ok-bind, ok-bind, rest, ok-bind))

all_hashed :
    (digest : String → Result Exception String) (files : List String) (hashes : Dict String)
    → traverse (hash_file digest) files ≡ ok hashes
    → All (λ rel. (hash : String) × (digest rel ≡ ok hash)) files
unfolding traverse
all_hashed digest [] hashes h = tt
all_hashed digest (rel ∷ files) hashes h = from_bind _ _ h λ entry first h.
    from_bind _ _ h λ rest later h.
      from_bind _ _ first λ hash e k. ((hash, e), all_hashed digest files rest later)

written_run :
    (can_write : Bool) (a r : Run)
    → (if can_write then ok a else err os_error) ≡ ok r
    → (can_write ≡ true) × (a ≡ r)
written_run true a r h = (refl, ok-injective h)
written_run false a r h = absurd (ground arith)

module _ (mix : Option (Result Exception String)) (paths : List String)
    (digest : String → Result Exception String) (can_write : Bool)
    (expected package_name : String) where
  main_zero :
      (r : Run)
      → main mix paths digest can_write expected package_name ≡ ok r
      → r.exit ≡ 0
      → Releasable mix paths digest can_write expected
  unfolding main check_files sorted
  main_zero r h z = from_bind _ _ h λ checked p h. from_bind _ _ h λ hashes q h.
      let (can, e) = written_run can_write _ r h in
      let clean =
        status_zero (checked.1 ++ check_files (sorted paths)) (ap (λ (x : Run). x.exit) e ∙ z) in
      let (mix_ok, files_ok) = append_nil checked.1 (check_files (sorted paths)) clean in
      let (lib_ok, allowed) =
        append_nil (if any (is_prefix "lib/") (sorted paths) then [] else lacks_lib ∷ [])
          (forbidden_paths (sorted paths)) files_ok in
      let (text, has_mix, version) = mix_clean mix expected checked.0 checked.1 p mix_ok in
      record {
        text = text;
        has_mix = has_mix;
        version = version;
        has_lib =
            some_of_any (is_prefix "lib/") IsLib (λ rel. (is_prefix_iff "lib/" rel).0) paths
              (sym (any-sort_by (λ s. s) (is_prefix "lib/") paths) ∙ not_complained _ _ lib_ok);
        allowed =
            (All-sort_by_iff (λ s. s) IsAllowed paths).0
              ((forbidden_paths_iff (sorted paths)).0 allowed);
        hashed =
            (All-sort_by_iff (λ s. s) (λ rel. (hash : String) × (digest rel ≡ ok hash)) paths).0
              (all_hashed digest (sorted paths) hashes q);
        written = can;
      }

  main_of_Releasable :
      Releasable mix paths digest can_write expected
      → (r : Run) × (main mix paths digest can_write expected package_name ≡ ok r) × (r.exit ≡ 0)
  unfolding main check_files check_mix sorted
  main_of_Releasable a =
      let stated : project_version a.text ≡ some expected =
        project-mix a.text ∙ (mix_version_iff a.text (some expected)).1 a.version in
      let lib =
        any-sort_by (λ s. s) (is_prefix "lib/") paths
        ∙ any_of_some (is_prefix "lib/") IsLib (λ rel. (is_prefix_iff "lib/" rel).1) paths
            a.has_lib in
      let allowed =
        (forbidden_paths_iff (sorted paths)).1
          ((All-sort_by_iff (λ s. s) IsAllowed paths).1 a.allowed) in
      let (hashes, hashed) = hash_all digest (sorted paths) (
        (All-sort_by_iff (λ s. s) (λ rel. (hash : String) × (digest rel ≡ ok hash)) paths).1
          a.hashed) in
      let r : Run = record {
        exit = 0;
        report = report_of package_name (some expected) [] (length (sorted paths)) hashes;
      } in
      (
        r,
        rw (
          a.has_mix,
          ok-bind,
          stated,
          (eq_iff expected expected).1 refl,
          ok-bind,
          lib,
          allowed,
          hashed,
          ok-bind,
          a.written,
        ),
        refl,
      )

  -- The inspection exits with 0 exactly if the package has a `mix.exs` that states the expected
  -- version, a file below `lib/`, no file that is or lies below a forbidden part, each file can be
  -- hashed, and the output can be written.
  pub inspect_iff :
      ((r : Run) × (main mix paths digest can_write expected package_name ≡ ok r) × (r.exit ≡ 0))
      ↔ Releasable mix paths digest can_write expected
  inspect_iff = (λ (r, h, z). main_zero r h z, main_of_Releasable)
