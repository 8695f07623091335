-- ===== src/Failures.antt =====
-- Lists of failures that a script collects: it passes if its list is empty.
use ex4pm.Prelude.{
  ℕ, refl, ◌≡◌, Bool, true, false, List, [], ◌∷◌, ◌++◌, is_empty, if◌then◌else◌, arith,
}

module _ {A : Type 0} where
  pub append_nil : (xs ys : List A) → xs ++ ys ≡ [] → (xs ≡ []) × (ys ≡ [])
  append_nil [] ys e = (refl, e)
  append_nil (x ∷ xs) ys e = absurd (ground arith)

  pub not_added : (b : Bool) (c : A) → (if b then c ∷ [] else []) ≡ [] → b ≡ false
  not_added b c e = ground arith

  pub not_complained : (b : Bool) (c : A) → (if b then [] else c ∷ []) ≡ [] → b ≡ true
  not_complained b c e = ground arith

  pub status_zero : (fs : List A) → ◌≡◌ {A = ℕ} (if is_empty fs then 0 else 1) 0 → fs ≡ []
  status_zero [] e = refl
  status_zero (f ∷ fs) e = absurd (omega arith)
