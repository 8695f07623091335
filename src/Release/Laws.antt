-- ===== src/Release/Laws.antt =====
-- When a release has one version.
use mathlib.Core.List.{append_assoc}
use ex4pm.Prelude.{
  String, refl, sym, ap, ◌∙◌, ◌≡◌, ◌↔◌, true, List, [], ◌∷◌, ◌++◌, Option, none, some, Result, ok,
  traverse, All, Bool-cases, inl, inr, arith, ◌==◌, string_Eq, eq_iff, from_bind, ok-bind,
  ok-injective,
}
use ex4pm.Failures.{append_nil, not_complained, status_zero}
use ex4pm.Json.{Exception}
use ex4pm.Version.First.{VersionOf, mix_version_iff}
use ex4pm.Release.{
  mix_projects, cargo_projects, text_or, dependency_versions, cargo_version_of, Failure, is_version,
  wrong_dependencies, missing_mix, missing_cargo, Finding, examine_mix, examine_cargo, Files,
  check_mix, check_cargo, all_failures, Outcome, conclude, main,
}

-- The Mix project is there, and states the expected version for itself and its internal
-- dependencies.
abbrev pub MixAgrees : Files → String → String → Type 0
MixAgrees files expected path =
    (files.is_file path ≡ true)
    × ((text : String) × (files.read_text path ≡ ok text)
        × VersionOf text (some expected)
        × All (λ v. v ≡ expected) (dependency_versions text))

-- The Cargo project is there, and states the expected version.
abbrev pub CargoAgrees : Files → String → String → Type 0
CargoAgrees files expected path =
    (files.is_file path ≡ true)
    × ((text : String) × (files.read_text path ≡ ok text) × (cargo_version_of text ≡ some expected))

is_version_iff :
    (o : Option String) (expected : String) → (is_version o expected ≡ true) ↔ (o ≡ some expected)
is_version_iff none expected = ground arith
is_version_iff (some v) expected = ground (arith, eq_iff v expected)

no_wrong :
    (path expected : String) (vs : List String)
    → wrong_dependencies path expected vs ≡ []
    → All (λ v. v ≡ expected) vs
no_wrong path expected [] h = tt
no_wrong path expected (v ∷ vs) h = elim (Bool-cases (v == expected)) [
  | inl same ↦ ((eq_iff v expected).0 same, no_wrong path expected vs (rw same at h))
  | inr other ↦ absurd (not_nil _ _ (rw other at h))
]
  where
    not_nil : (f : Failure) (fs : List Failure) → f ∷ fs ≡ [] → ⊥
    not_nil f fs e = absurd (ground arith)

none_wrong :
    (path expected : String) (vs : List String)
    → All (λ v. v ≡ expected) vs
    → wrong_dependencies path expected vs ≡ []
none_wrong path expected [] a = refl
none_wrong path expected (v ∷ vs) a =
    rw ((eq_iff v expected).1 a.0) (none_wrong path expected vs a.1)

mix_clean :
    (files : Files) (expected path : String) (f : Finding)
    → check_mix files expected path ≡ ok f
    → f.failures ≡ []
    → MixAgrees files expected path
unfolding check_mix examine_mix
mix_clean files expected path f h e = elim (Bool-cases (files.is_file path)) [
  | inr absent ↦ absurd (missing f (rw absent at h) e)
  | inl there ↦ from_bind _ _ (rw there at h) λ text read k.
      let (own, others) = append_nil _ _ (ap (λ (x : Finding). x.failures) (ok-injective k) ∙ e) in
      let version = (is_version_iff _ expected).0 (not_complained _ _ own) in
      (
        there,
        (
          text,
          read,
          (mix_version_iff text (some expected)).0 version,
          no_wrong path expected _ others,
        ),
      )
]
  where
    missing :
        (g : Finding)
        → ◌≡◌ {A = Result Exception Finding}
            (ok (record { observed = []; failures = missing_mix path ∷ [] }))
            (ok g)
        → g.failures ≡ []
        → ⊥
    missing g e n = absurd (ground arith)

clean_mix :
    (files : Files) (expected path : String)
    → MixAgrees files expected path
    → (f : Finding) × (check_mix files expected path ≡ ok f) × (f.failures ≡ [])
unfolding check_mix examine_mix
clean_mix files expected path (there, (text, read, version, others)) =
    let stated = (mix_version_iff text (some expected)).1 version in
    (
      examine_mix expected path text,
      rw (there, read, ok-bind),
      rw (stated, (eq_iff expected expected).1 refl) (none_wrong path expected _ others),
    )

cargo_clean :
    (files : Files) (expected path : String) (f : Finding)
    → check_cargo files expected path ≡ ok f
    → f.failures ≡ []
    → CargoAgrees files expected path
unfolding check_cargo examine_cargo
cargo_clean files expected path f h e = elim (Bool-cases (files.is_file path)) [
  | inr absent ↦ absurd (missing f (rw absent at h) e)
  | inl there ↦ from_bind _ _ (rw there at h) λ text read k.
      let own = ap (λ (x : Finding). x.failures) (ok-injective k) ∙ e in
      (there, (text, read, (is_version_iff _ expected).0 (not_complained _ _ own)))
]
  where
    missing :
        (g : Finding)
        → ◌≡◌ {A = Result Exception Finding}
            (ok (record { observed = []; failures = missing_cargo path ∷ [] }))
            (ok g)
        → g.failures ≡ []
        → ⊥
    missing g e n = absurd (ground arith)

clean_cargo :
    (files : Files) (expected path : String)
    → CargoAgrees files expected path
    → (f : Finding) × (check_cargo files expected path ≡ ok f) × (f.failures ≡ [])
unfolding check_cargo examine_cargo
clean_cargo files expected path (there, (text, read, version)) = (
  examine_cargo expected path text,
  rw (there, read, ok-bind),
  rw (version, (eq_iff expected expected).1 refl),
)

-- A loop whose turns fail exactly where a predicate does
module _ (check : String → Result Exception Finding) (Agrees : String → Type 0)
    (clean : (path : String) (f : Finding) → check path ≡ ok f → f.failures ≡ [] → Agrees path)
    (agree : (path : String)
      → Agrees path
      → (f : Finding) × (check path ≡ ok f) × (f.failures ≡ [])) where
  all_clean :
      (paths : List String) (fs : List Finding)
      → traverse check paths ≡ ok fs
      → all_failures fs ≡ []
      → All Agrees paths
  unfolding traverse
  all_clean [] fs h e = tt
  all_clean (p ∷ paths) fs h e = from_bind _ _ h λ f first h. from_bind _ _ h λ rest later h.
      let (mine, theirs) =
        append_nil f.failures (all_failures rest) (ap all_failures (ok-injective h) ∙ e) in
      (clean p f first mine, all_clean paths rest later theirs)

  clean_all :
      (paths : List String)
      → All Agrees paths
      → (fs : List Finding) × (traverse check paths ≡ ok fs) × (all_failures fs ≡ [])
  unfolding traverse
  clean_all [] a = ([], refl, refl)
  clean_all (p ∷ paths) a =
      let (f, first, mine) = agree p a.0 in
      let (fs, later, theirs) = clean_all paths a.1 in
      (f ∷ fs, rw (first, ok-bind, later, ok-bind), rw (mine, theirs))

all_failures-append :
    (fs gs : List Finding) → all_failures (fs ++ gs) ≡ all_failures fs ++ all_failures gs
all_failures-append [] gs = refl
all_failures-append (f ∷ fs) gs =
    ap (λ x. f.failures ++ x) (all_failures-append fs gs)
    ∙ sym (append_assoc f.failures (all_failures fs) (all_failures gs))

-- All projects of the release agree on the expected version.
abbrev pub OneVersion : Files → String → Type 0
OneVersion files expected =
    All (MixAgrees files expected) mix_projects × All (CargoAgrees files expected) cargo_projects

main_zero :
    (files : Files) (argument : Option String) (o : Outcome)
    → main files argument ≡ ok o
    → o.exit ≡ 0
    → OneVersion files (text_or "26.8.23" argument)
unfolding main
main_zero files argument o h z = from_bind _ _ h λ mix mix_read h.
    from_bind _ _ h λ cargo cargo_read h.
      let expected = text_or "26.8.23" argument in
      let none_failed = status_zero _ (ap (λ (x : Outcome). x.exit) (ok-injective h) ∙ z) in
      let (mix_none, cargo_none) =
        append_nil (all_failures mix) (all_failures cargo)
          (sym (all_failures-append mix cargo) ∙ none_failed) in
      (
        all_clean (check_mix files expected) (MixAgrees files expected) (mix_clean files expected)
            (clean_mix files expected) mix_projects mix mix_read mix_none,
        all_clean (check_cargo files expected) (CargoAgrees files expected)
            (cargo_clean files expected) (clean_cargo files expected) cargo_projects cargo
            cargo_read cargo_none,
      )

main_of_OneVersion :
    (files : Files) (argument : Option String)
    → OneVersion files (text_or "26.8.23" argument)
    → (o : Outcome) × (main files argument ≡ ok o) × (o.exit ≡ 0)
unfolding main
main_of_OneVersion files argument (mix_agree, cargo_agree) =
    let expected = text_or "26.8.23" argument in
    let (mix, mix_read, mix_none) =
      clean_all (check_mix files expected) (MixAgrees files expected) (mix_clean files expected)
        (clean_mix files expected) mix_projects mix_agree in
    let (cargo, cargo_read, cargo_none) =
      clean_all (check_cargo files expected) (CargoAgrees files expected)
        (cargo_clean files expected) (clean_cargo files expected) cargo_projects cargo_agree in
    let none_failed : all_failures (mix ++ cargo) ≡ [] =
      all_failures-append mix cargo ∙ rw (mix_none, cargo_none) in
    (conclude expected (mix ++ cargo), rw (mix_read, ok-bind, cargo_read, ok-bind), rw none_failed)

-- The check exits with 0 exactly if each Mix project is there, states the expected version and has
-- no internal dependency of another version among those that the pattern finds, and each Cargo
-- project is there and states it too.
pub release_iff :
    (files : Files) (argument : Option String)
    → ((o : Outcome) × (main files argument ≡ ok o) × (o.exit ≡ 0))
      ↔ OneVersion files (text_or "26.8.23" argument)
release_iff files argument =
    (λ (o, h, z). main_zero files argument o h z, main_of_OneVersion files argument)
