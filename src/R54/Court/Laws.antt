-- ===== src/R54/Court/Laws.antt =====
-- When the court passes.
use ex4pm.Failures.{not_complained, not_added, append_nil, status_zero}
use ex4pm.Prelude.{
  inr, inl, Bool-cases, ltb, ap, eq_iff, ◌∙◌, ◌↔◌, string_Eq, ok-bind, ok-injective, String, refl,
  ◌≡◌, ◌≤◌, false, List, [], ◌∷◌, Option, some, Result, ok, length, contains, arith, All, from_bind,
  from_expect,
}
use ex4pm.Json.Laws.{is_str_iff}
use ex4pm.Json.{Exception, Json, Dict, str}
use ex4pm.R54.Classify.{Case, classify, mutate}
use ex4pm.R54.Court.{tally, complaints, run_cases, main, Outcome}

-- The case has the verdict that it expects.
abbrev pub Met : Dict Json → Case → Type 0
Met subject case = (s : String) × (classify (mutate subject case) ≡ ok s) × (case.expected ≡ str s)

-- No id is among the earlier ones, and none stands twice.
abbrev pub FreshIds : List String → List Case → Type 0
FreshIds ids [] = Unit
FreshIds ids (case ∷ cases) = (contains ids case.id ≡ false) × FreshIds (case.id ∷ ids) cases

no_complaints :
    (ids : List String) (case : Case) (actual : String)
    → complaints ids case actual ≡ []
    → (contains ids case.id ≡ false) × (case.expected ≡ str actual)
no_complaints ids case actual e =
    let (first, second) = append_nil _ _ e in
    (not_added _ _ first, (is_str_iff _ _).0 (not_complained _ _ second))

run_cases_clean :
    (subject : Dict Json) (ids : List String) (cases : List Case)
    → run_cases subject ids cases ≡ ok []
    → FreshIds ids cases × All (Met subject) cases
unfolding run_cases
run_cases_clean subject ids [] h = (tt, tt)
run_cases_clean subject ids (case ∷ cases) h = from_bind _ _ h λ actual p h.
    from_bind _ _ h λ later q h.
      let (mine, theirs) = append_nil (complaints ids case actual) later (ok-injective h) in
      let (fresh, met) = no_complaints ids case actual mine in
      let (rest_fresh, rest_met) =
        run_cases_clean subject (case.id ∷ ids) cases (q ∙ ap ok theirs) in
      ((fresh, rest_fresh), ((actual, p, met), rest_met))

clean_run_cases :
    (subject : Dict Json) (ids : List String) (cases : List Case)
    → FreshIds ids cases
    → All (Met subject) cases
    → run_cases subject ids cases ≡ ok []
unfolding run_cases
clean_run_cases subject ids [] f m = refl
clean_run_cases subject ids (case ∷ cases) f m =
    let (s, p, e) = m.0 in
    rw (
      p,
      ok-bind,
      clean_run_cases subject (case.id ∷ ids) cases f.1 m.1,
      ok-bind,
      f.0,
      e,
      (eq_iff s s).1 refl,
    )

-- What a passing court proves
abbrev pub Passes : Dict Json → List Case → Option String → Type 0
Passes subject cases head =
    (25 ≤ length cases)
    × FreshIds [] cases
    × All (Met subject) cases
    × ((sha : String) × (head ≡ some sha))

tally_zero :
    (subject : Dict Json) (cases : List Case) (head : Option String) (o : Outcome)
    → tally subject cases head ≡ ok o
    → o.exit ≡ 0
    → FreshIds [] cases × All (Met subject) cases × ((sha : String) × (head ≡ some sha))
unfolding tally
tally_zero subject cases head o h z = from_bind _ _ h λ failures p h. from_expect _ _ _ h λ sha q h.
    let clean = status_zero failures (ap (λ (r : Outcome). r.exit) (ok-injective h) ∙ z) in
    let (fresh, met) = run_cases_clean subject [] cases (p ∙ ap ok clean) in (fresh, met, (sha, q))

abbrev passing : Outcome
passing = record { exit = 0; failures = [] }

main_zero :
    (subject : Dict Json) (cases : List Case) (head : Option String) (o : Outcome)
    → main subject cases head ≡ ok o
    → o.exit ≡ 0
    → Passes subject cases head
unfolding main
main_zero subject cases head o h z = elim (Bool-cases (ltb (length cases) 25)) [
  | inl few ↦ absurd (too_few o (rw few at h) z)
  | inr enough ↦
      let (fresh, met, found) = tally_zero subject cases head o (rw enough at h) z in
      (ground arith, fresh, met, found)
]
  where
    too_few :
        (o : Outcome)
        → ◌≡◌ {A = Result Exception Outcome} (ok (record { exit = 1; failures = [] })) (ok o)
        → o.exit ≡ 0
        → ⊥
    too_few o e z = ground arith

main_of_Passes :
    (subject : Dict Json) (cases : List Case) (head : Option String)
    → Passes subject cases head
    → main subject cases head ≡ ok passing
unfolding main tally
main_of_Passes subject cases head (enough, fresh, met, (sha, found)) =
    let many : ltb (length cases) 25 ≡ false = ground arith in
    rw (many, clean_run_cases subject [] cases fresh met, ok-bind, found, ok-bind)

-- The court passes exactly if there are at least 25 cases, no two of one id, each with the verdict
-- that it expects, and the repository has a head.
pub court-Passes :
    (subject : Dict Json) (cases : List Case) (head : Option String)
    → ((o : Outcome) × (main subject cases head ≡ ok o) × (o.exit ≡ 0)) ↔ Passes subject cases head
court-Passes subject cases head = (
  λ (o, h, z). main_zero subject cases head o h z,
  λ p. (passing, main_of_Passes subject cases head p, refl),
)
