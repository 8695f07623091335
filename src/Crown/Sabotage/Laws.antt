-- ===== src/Crown/Sabotage/Laws.antt =====
-- What `verify_sabotage` accepts.
use ex4pm.Prelude.{
  ◌↔◌, inr, ok-injective, eq_iff, subst, inl, from_require, arith, string_Eq, Bool-cases,
  from_expect, length, contains, keep_if, ok-bind, is_empty, All, Bool, some, refl, ◌≡◌, String, ℕ,
  List, [], ◌∷◌, true, false,
}
use ex4pm.Json.{is_str, Json, Dict, str, get, as_dict, keys}
use ex4pm.Json.Laws.{is_str_iff}
use ex4pm.Crown.Sabotage.{not, ok, required_sabotage, missing_of, survivors, verify_sabotage}

none_kept :
    {A : Type 0} (p : A → Bool) (xs : List A)
    → is_empty (keep_if p xs) ≡ true
    → All (λ x. p x ≡ false) xs
none_kept p [] h = tt
none_kept p (x ∷ xs) h = (ground arith, none_kept p xs (ground arith))

keep_none :
    {A : Type 0} (p : A → Bool) (xs : List A)
    → All (λ x. p x ≡ false) xs
    → is_empty (keep_if p xs) ≡ true
keep_none p [] a = refl
keep_none p (x ∷ xs) a = rw a.0 (keep_none p xs a.1)

-- Every case in the ledger was detected.
abbrev pub AllDetected : Dict Json → Type 0
AllDetected sabotage = All (λ (p : String × Json). p.1 ≡ str "DETECTED") sabotage

survivors-AllDetected : (d : Dict Json) → is_empty (survivors d) ≡ true → AllDetected d
unfolding survivors
survivors-AllDetected [] h = tt
survivors-AllDetected ((name, result) ∷ d) h = elim (Bool-cases (is_str result "DETECTED")) [
  | inl e ↦ ((is_str_iff _ _).0 e, survivors-AllDetected d (ground arith))
  | inr e ↦ absurd (ground arith)
]

AllDetected-survivors : (d : Dict Json) → AllDetected d → is_empty (survivors d) ≡ true
unfolding survivors
AllDetected-survivors [] a = refl
AllDetected-survivors ((name, result) ∷ d) a =
    rw ((is_str_iff _ _).1 a.0) (AllDetected-survivors d a.1)

-- A case that is in the ledger was detected.
detected_of_key :
    (name : String) (d : Dict Json)
    → AllDetected d
    → not (contains (keys d) name) ≡ false
    → get name d ≡ str "DETECTED"
detected_of_key name [] a h = cc
detected_of_key name ((k, v) ∷ d) (here, rest) h =
    ground (arith, eq_iff k name, eq_iff name k, detected_of_key name d rest)

key_of_detected :
    (name : String) (d : Dict Json)
    → get name d ≡ str "DETECTED"
    → not (contains (keys d) name) ≡ false
key_of_detected name [] h = cc
key_of_detected name ((k, v) ∷ d) h =
    ground (arith, eq_iff k name, eq_iff name k, key_of_detected name d)

required_detected :
    (names : List String) (d : Dict Json)
    → AllDetected d
    → All (λ name. not (contains (keys d) name) ≡ false) names
    → All (λ name. get name d ≡ str "DETECTED") names
required_detected [] d a b = tt
required_detected (n ∷ ns) d a b = (detected_of_key n d a b.0, required_detected ns d a b.1)

required_keys :
    (names : List String) (d : Dict Json)
    → All (λ name. get name d ≡ str "DETECTED") names
    → All (λ name. not (contains (keys d) name) ≡ false) names
required_keys [] d b = tt
required_keys (n ∷ ns) d b = (key_of_detected n d b.0, required_keys ns d b.1)

-- Every required sabotage was detected, and so was every other one in the ledger.
pub record SabotageDetected (crown : Dict Json) (n : ℕ) : Type 0 where
  pub sabotage : Dict Json
  pub object : as_dict (get "sabotage" crown) ≡ some sabotage
  pub required : All (λ name. get name sabotage ≡ str "DETECTED") required_sabotage
  pub detected : AllDetected sabotage
  pub counted : n ≡ length sabotage

pub verify_sabotage-SabotageDetected :
    (crown : Dict Json) (n : ℕ) → verify_sabotage crown ≡ ok n → SabotageDetected crown n
unfolding verify_sabotage missing_of
verify_sabotage-SabotageDetected crown n h = from_expect _ _ _ h λ sabotage object h.
    from_require _ _ _ h λ missing h. from_require _ _ _ h λ alive h.
      let detected = survivors-AllDetected sabotage alive in
      subst (SabotageDetected crown) (ok-injective h) (record {
        sabotage = sabotage;
        object = object;
        required =
            required_detected required_sabotage sabotage detected
              (none_kept (λ name. not (contains (keys sabotage) name)) required_sabotage missing);
        detected = detected;
        counted = refl;
      })

pub verify_sabotage_of_SabotageDetected :
    (crown : Dict Json) (n : ℕ) → SabotageDetected crown n → verify_sabotage crown ≡ ok n
unfolding verify_sabotage missing_of
verify_sabotage_of_SabotageDetected crown n p = rw (
  p.object,
  ok-bind,
  keep_none (λ name. not (contains (keys p.sabotage) name)) required_sabotage
      (required_keys required_sabotage p.sabotage p.required),
  ok-bind,
  AllDetected-survivors p.sabotage p.detected,
  ok-bind,
  p.counted,
)

-- The sabotage ledger is accepted exactly if it has every required case as detected and no case
-- that was not detected; the result is the number of its cases.
pub verify_sabotage_iff :
    (crown : Dict Json) (n : ℕ) → (verify_sabotage crown ≡ ok n) ↔ SabotageDetected crown n
verify_sabotage_iff crown n =
    (verify_sabotage-SabotageDetected crown n, verify_sabotage_of_SabotageDetected crown n)
