-- ===== src/Package/Laws.antt =====
-- Which packages pass the inspection.
use ex4pm.Prelude.{
  String, ◌<>◌, refl, ◌≡◌, ◌↔◌, Bool, true, false, ◌||◌, List, [], ◌∷◌, Option, none, some, All,
  Any, Bool-cases, inl, inr, ◌⊎◌, arith, ◌==◌, string_Eq, eq_iff, any,
}
use ex4pm.Text.{is_prefix}
use ex4pm.Text.Prefix.{is_prefix_iff}
use ex4pm.Package.{forbidden_parts, is_forbidden, Failure, is_version, forbidden_paths}

-- The path is this part of the package or lies below it.
abbrev pub IsIn : String → String → Type 0
IsIn part rel = (rel ≡ part) ⊎ ((r : String) × (rel ≡ (part <> "/") <> r))

abbrev pub IsAllowed : String → Type 0
IsAllowed rel = All (λ part. IsIn part rel → ⊥) forbidden_parts

IsIn-iff :
    (part rel : String) → ((rel == part || is_prefix (part <> "/") rel) ≡ true) ↔ IsIn part rel
IsIn-iff part rel = (
  λ h. elim (Bool-cases (rel == part)) [
    | inl e ↦ inl ((eq_iff rel part).0 e)
    | inr e ↦ inr ((is_prefix_iff (part <> "/") rel).0 (rw e at h))
  ],
  λ h. elim h [
    | inl e ↦ rw ((eq_iff rel part).1 e) refl
    | inr p ↦ rw ((is_prefix_iff (part <> "/") rel).1 p) (ground arith)
  ],
)

none_of :
    {A : Type 0} (p : A → Bool) (P : A → Type 0)
    → ((a : A) → P a → p a ≡ true)
    → (xs : List A) → any p xs ≡ false
    → All (λ a. P a → ⊥) xs
none_of p P h [] e = tt
none_of p P h (x ∷ xs) e = (λ q. absurd (ground (arith, h x q)), none_of p P h xs (ground arith))

of_none :
    {A : Type 0} (p : A → Bool) (P : A → Type 0)
    → ((a : A) → p a ≡ true → P a)
    → (xs : List A) → All (λ a. P a → ⊥) xs
    → any p xs ≡ false
of_none p P h [] a = refl
of_none p P h (x ∷ xs) a = elim (Bool-cases (p x)) [
  | inl e ↦ absurd (a.0 (h x e))
  | inr e ↦ rw (e, of_none p P h xs a.1)
]

pub some_of_any :
    {A : Type 0} (p : A → Bool) (P : A → Type 0)
    → ((a : A) → p a ≡ true → P a)
    → (xs : List A) → any p xs ≡ true
    → Any P xs
some_of_any p P h [] e = absurd (cc)
some_of_any p P h (x ∷ xs) e = elim (Bool-cases (p x)) [
  | inl y ↦ inl (h x y)
  | inr n ↦ inr (some_of_any p P h xs (rw n at e))
]

pub any_of_some :
    {A : Type 0} (p : A → Bool) (P : A → Type 0)
    → ((a : A) → P a → p a ≡ true)
    → (xs : List A) → Any P xs
    → any p xs ≡ true
any_of_some p P h [] a = elim a [ ]
any_of_some p P h (x ∷ xs) (inl a) = rw (h x a)
any_of_some p P h (x ∷ xs) (inr a) = rw (any_of_some p P h xs a) (ground arith)

is_forbidden_iff : (rel : String) → (is_forbidden rel ≡ false) ↔ IsAllowed rel
unfolding is_forbidden
is_forbidden_iff rel = (
  none_of (λ part. rel == part || is_prefix (part <> "/") rel) (λ part. IsIn part rel)
      (λ part. (IsIn-iff part rel).1) forbidden_parts,
  of_none (λ part. rel == part || is_prefix (part <> "/") rel) (λ part. IsIn part rel)
      (λ part. (IsIn-iff part rel).0) forbidden_parts,
)

pub forbidden_paths_iff : (files : List String) → (forbidden_paths files ≡ []) ↔ All IsAllowed files
unfolding forbidden_paths
forbidden_paths_iff [] = (λ h. tt, λ a. refl)
forbidden_paths_iff (rel ∷ files) = (
  λ h. elim (Bool-cases (is_forbidden rel)) [
    | inl e ↦ absurd (listed _ _ (rw e at h))
    | inr e ↦ ((is_forbidden_iff rel).0 e, (forbidden_paths_iff files).0 (rw e at h))
  ],
  λ a. rw ((is_forbidden_iff rel).1 a.0) ((forbidden_paths_iff files).1 a.1),
)
  where
    listed : (f : Failure) (fs : List Failure) → f ∷ fs ≡ [] → ⊥
    listed f fs e = absurd (ground arith)

pub is_version_iff :
    (o : Option String) (expected : String) → (is_version o expected ≡ true) ↔ (o ≡ some expected)
is_version_iff none expected = ground arith
is_version_iff (some v) expected = ground (arith, eq_iff v expected)
