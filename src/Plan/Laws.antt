-- ===== src/Plan/Laws.antt =====
-- When the extraction succeeds.
use ex4pm.Prelude.{
  inr, ◌⊎◌, inl, ℕ, suc, String, refl, ◌≡◌, ◌↔◌, ◌+◌, Bool, true, false, List, [], ◌∷◌, ◌++◌,
  Option, none, some, All, arith, length, if◌then◌else◌, ap, string_Eq,
}
use ex4pm.Json.{Json, Dict, as_dict, get, is_str, str}
use ex4pm.Json.Laws.{is_str_iff}
use ex4pm.Text.{strip, starts_with}
use ex4pm.Plan.{plan_of, decoded, plan_in, add_candidate, candidates, conclude, extracted, main}

-- The line, stripped, is a plan object.
pub record HoldsPlan (loads : String → Option Json) (line : String) (plan : Dict Json)
    : Type 0 where
  pub value : Json
  pub opens : starts_with b'{' (strip line) ≡ true
  pub read : loads (strip line) ≡ some value
  pub object : as_dict value ≡ some plan
  pub protocol : get "protocol" plan ≡ str "ex4pm-plan/v1"

some_plan :
    (o : Option (Dict Json)) (plan : Dict Json)
    → plan_of o ≡ some plan
    → (o ≡ some plan) × (is_str (get "protocol" plan) "ex4pm-plan/v1" ≡ true)
some_plan none plan h = absurd (ground arith)
some_plan (some d) plan h = ground arith

some_value :
    (o : Option Json) (plan : Dict Json)
    → decoded o ≡ some plan
    → (value : Json) × (o ≡ some value) × (plan_of (as_dict value) ≡ some plan)
some_value none plan h = absurd (ground arith)
some_value (some value) plan h = (value, refl, h)

guarded :
    (b : Bool) (o : Option (Dict Json)) (plan : Dict Json)
    → (if b then o else none) ≡ some plan
    → (b ≡ true) × (o ≡ some plan)
guarded true o plan h = (refl, h)
guarded false o plan h = absurd (ground arith)

plan_in-HoldsPlan :
    (loads : String → Option Json) (line : String) (plan : Dict Json)
    → plan_in loads line ≡ some plan
    → HoldsPlan loads line plan
unfolding plan_in
plan_in-HoldsPlan loads line plan h =
    let (opens, e) = guarded _ _ plan h in
    let (value, read, d) = some_value _ plan e in
    let (object, protocol) = some_plan _ plan d in
    record {
      value = value;
      opens = opens;
      read = read;
      object = object;
      protocol = (is_str_iff _ _).0 protocol;
    }

HoldsPlan-plan_in :
    (loads : String → Option Json) (line : String) (plan : Dict Json)
    → HoldsPlan loads line plan
    → plan_in loads line ≡ some plan
unfolding plan_in
HoldsPlan-plan_in loads line plan p = rw (p.opens, p.read, p.object, (is_str_iff _ _).1 p.protocol)

-- No plan object stands in the line.
abbrev pub NoPlan : (String → Option Json) → String → Type 0
NoPlan loads line = plan_in loads line ≡ none

-- One line, and no other, holds this plan; lines are counted from `first`.
pub record OnlyPlan (loads : String → Option Json) (first : ℕ) (lines : List String) (number : ℕ)
    (plan : Dict Json) : Type 0 where
  pub before : List String
  pub line : String
  pub after : List String
  pub parts : lines ≡ before ++ line ∷ after
  pub place : number ≡ first + length before
  pub holds : HoldsPlan loads line plan
  pub none_before : All (NoPlan loads) before
  pub none_after : All (NoPlan loads) after

module _ (loads : String → Option Json) where
  no_candidates :
      (n : ℕ) (lines : List String) → candidates loads n lines ≡ [] → All (NoPlan loads) lines
  unfolding candidates
  no_candidates n [] h = tt
  no_candidates n (line ∷ lines) h =
      let (here, rest) = not_taken (plan_in loads line) _ h in
      (here, no_candidates (suc n) lines rest)
    where
      not_taken :
          (o : Option (Dict Json)) (rest : List (ℕ × Dict Json))
          → add_candidate n o rest ≡ []
          → (o ≡ none) × (rest ≡ [])
      not_taken none rest h = (refl, h)
      not_taken (some d) rest h = absurd (ground arith)

  candidates_none :
      (n : ℕ) (lines : List String) → All (NoPlan loads) lines → candidates loads n lines ≡ []
  unfolding candidates
  candidates_none n [] a = refl
  candidates_none n (line ∷ lines) a = rw (a.0, candidates_none (suc n) lines a.1)

  later :
      (n : ℕ) (line : String) (lines : List String) (number : ℕ) (plan : Dict Json)
      → NoPlan loads line
      → OnlyPlan loads (suc n) lines number plan
      → OnlyPlan loads n (line ∷ lines) number plan
  later n line lines number plan e p = record {
    before = line ∷ p.before;
    line = p.line;
    after = p.after;
    parts = ap (λ xs. line ∷ xs) p.parts;
    place = omega (arith, p.place);
    holds = p.holds;
    none_before = (e, p.none_before);
    none_after = p.none_after;
  }

  one_taken :
      (n : ℕ) (o : Option (Dict Json)) (rest : List (ℕ × Dict Json)) (number : ℕ) (plan : Dict Json)
      → add_candidate n o rest ≡ (number, plan) ∷ []
      → ((o ≡ none) × (rest ≡ (number, plan) ∷ [])) ⊎ ((o ≡ some plan) × (number ≡ n) × (rest ≡ []))
  one_taken n none rest number plan h = inl (refl, h)
  one_taken n (some d) rest number plan h = inr (cc, cc, cc)

  candidates-OnlyPlan :
      (n : ℕ) (lines : List String) (number : ℕ) (plan : Dict Json)
      → candidates loads n lines ≡ (number, plan) ∷ []
      → OnlyPlan loads n lines number plan
  unfolding candidates
  candidates-OnlyPlan n [] number plan h = absurd (ground arith)
  candidates-OnlyPlan n (line ∷ lines) number plan h =
      elim (one_taken n (plan_in loads line) _ number plan h) [
        | inl (e, rest) ↦
            later n line lines number plan e (candidates-OnlyPlan (suc n) lines number plan rest)
        | inr (e, place, rest) ↦ record {
          before = [];
          line = line;
          after = lines;
          parts = refl;
          place = omega (arith, place);
          holds = plan_in-HoldsPlan loads line plan e;
          none_before = tt;
          none_after = no_candidates (suc n) lines rest;
        }
      ]

  candidates_at :
      (n : ℕ) (before : List String) (line : String) (after : List String) (number : ℕ)
      (plan : Dict Json)
      → number ≡ n + length before
      → plan_in loads line ≡ some plan
      → All (NoPlan loads) before
      → All (NoPlan loads) after
      → candidates loads n (before ++ line ∷ after) ≡ (number, plan) ∷ []
  unfolding candidates
  candidates_at n [] line after number plan place e b a =
      let here : n ≡ number = omega (arith, place) in
      rw (e, candidates_none (suc n) after a) (ap (λ m. (m, plan) ∷ []) here)
  candidates_at n (x ∷ before) line after number plan place e b a =
      rw (b.0, candidates_at (suc n) before line after number plan (omega (arith, place)) e b.1 a)

  OnlyPlan-candidates :
      (n : ℕ) (lines : List String) (number : ℕ) (plan : Dict Json)
      → OnlyPlan loads n lines number plan
      → candidates loads n lines ≡ (number, plan) ∷ []
  OnlyPlan-candidates n lines number plan p = rw p.parts (
      candidates_at n p.before p.line p.after number plan p.place
        (HoldsPlan-plan_in loads p.line plan p.holds) p.none_before p.none_after)

concluded :
    (can_write : Bool) (found : List (ℕ × Dict Json)) (number : ℕ) (plan : Dict Json)
    → conclude can_write found ≡ extracted number plan
    → (found ≡ (number, plan) ∷ []) × (can_write ≡ true)
concluded can_write [] number plan h = absurd (ground arith)
concluded can_write (a ∷ b ∷ rest) number plan h = absurd (ground arith)
concluded true ((n, d) ∷ []) number plan h = (cc, refl)
concluded false ((n, d) ∷ []) number plan h = absurd (ground arith)

-- The extraction writes a plan and prints its line exactly if that line of the stream, counted from
-- 1, holds the plan, no other line holds any, and the file can be written.
pub main-OnlyPlan_iff :
    (loads : String → Option Json) (can_write : Bool) (lines : List String) (number : ℕ)
    (plan : Dict Json)
    → (main loads can_write lines ≡ extracted number plan)
      ↔ (OnlyPlan loads 1 lines number plan × (can_write ≡ true))
unfolding main
main-OnlyPlan_iff loads can_write lines number plan = (
  λ h.
      let (found, w) = concluded can_write _ number plan h in
      (candidates-OnlyPlan loads 1 lines number plan found, w),
  λ (p, w). rw (OnlyPlan-candidates loads 1 lines number plan p, w),
)
