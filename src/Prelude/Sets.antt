-- ===== src/Prelude/Sets.antt =====
-- Python's sets: `to_set` keeps each value once, and its length is the number of distinct values.
use mathlib.Core.Path.{◌≡◌, ap, refl, sym, ◌∙◌}
use mathlib.Core.Logic.{◌↔◌, inl, inr}
use mathlib.Core.Bool.{Bool, true, false, ◌||◌}
use mathlib.Core.List.{List, [], ◌∷◌}
use Prim.Native.Nat.{ℕ, suc, ◌≤◌}
use native.Mathlib.Omega.{arith}
use native.Mathlib.Nat.{le_trans}
use ex4pm.Prelude.Tests.{Eq, ◌==◌, if◌then◌else◌, Bool-cases, and_parts}
use ex4pm.Prelude.Lists.{All, same_set, length, contains, insert_new, to_set, is_subset, IsDistinct}

bool_eq : (a b : Bool) → (a ≡ true → b ≡ true) → (b ≡ true → a ≡ true) → a ≡ b
bool_eq true b h k = sym (h refl)
bool_eq false true h k = k refl
bool_eq false false h k = refl

module _ {ℓ} {A : Type ℓ} ⦃e : Eq A⦄ where
  pub contains-insert_new :
      (a x : A) (xs : List A) → contains (insert_new x xs) a ≡ (a == x || contains xs a)
  contains-insert_new a x xs = ground (arith, e.same_iff a x)

  pub contains-to_set : (a : A) (xs : List A) → contains (to_set xs) a ≡ contains xs a
  contains-to_set a [] = refl
  contains-to_set a (x ∷ xs) =
      ground (arith, contains-insert_new a x (to_set xs), contains-to_set a xs)

  pub to_set-IsDistinct : (xs : List A) → IsDistinct (to_set xs)
  to_set-IsDistinct [] = tt
  to_set-IsDistinct (x ∷ xs) = elim (Bool-cases (contains (to_set xs) x)) [
    | inl h ↦ rw h (to_set-IsDistinct xs)
    | inr h ↦ rw h (h, to_set-IsDistinct xs)
  ]

  pub contains_of_subset :
      (a : A) (xs ys : List A)
      → is_subset xs ys ≡ true
      → contains xs a ≡ true
      → contains ys a ≡ true
  contains_of_subset a [] ys s h = cc
  contains_of_subset a (x ∷ xs) ys s h = ground (arith, e.same_iff a x, contains_of_subset a xs ys)

  pub subset_of_contains :
      (xs ys : List A)
      → ((a : A) → contains xs a ≡ true → contains ys a ≡ true)
      → is_subset xs ys ≡ true
  subset_of_contains [] ys h = refl
  subset_of_contains (x ∷ xs) ys h =
      ground (arith, e.same_iff x x, h x, subset_of_contains xs ys (λ a m. h a (ground arith)))

  remove : A → List A → List A
  remove a [] = []
  remove a (x ∷ xs) = let rest = remove a xs in if a == x then xs else x ∷ rest

  length-remove :
      (a : A) (xs : List A) → contains xs a ≡ true → suc (length (remove a xs)) ≡ length xs
  unfolding remove
  length-remove a [] h = cc
  length-remove a (x ∷ xs) h = ground (arith, length-remove a xs)

  contains-remove :
      (a b : A) (xs : List A) → (b == a) ≡ false → contains (remove a xs) b ≡ contains xs b
  unfolding remove
  contains-remove a b [] h = refl
  contains-remove a b (x ∷ xs) h =
      ground (arith, e.same_iff a x, e.same_iff b a, e.same_iff b x, contains-remove a b xs h)

  contains_rest :
      (y : A) (ys xs : List A)
      → contains ys y ≡ false
      → ((a : A) → contains (y ∷ ys) a ≡ true → contains xs a ≡ true)
      → (a : A) → contains ys a ≡ true
      → contains (remove y xs) a ≡ true
  contains_rest y ys xs fresh h a m = ground (arith, e.same_iff a y, contains-remove y a xs, h a)

  -- Distinct values that all stand in a list are at most as many as it has places.
  pub length-le_of_distinct :
      (ys xs : List A)
      → IsDistinct ys
      → ((a : A) → contains ys a ≡ true → contains xs a ≡ true)
      → length ys ≤ length xs
  length-le_of_distinct [] xs d h = omega arith
  length-le_of_distinct (y ∷ ys) xs d h = omega (
    arith,
    length-remove y xs (h y (ground (arith, e.same_iff y y))),
    length-le_of_distinct ys (remove y xs) d.1 (contains_rest y ys xs d.0 h),
  )

  -- `len(set(xs)) >= n` says that there are `n` distinct values among `xs`.
  pub IsDistinct-values_iff :
      (n : ℕ) (xs : List A)
      → (n ≤ length (to_set xs))
        ↔ ((ys : List A) × (n ≤ length ys) × IsDistinct ys × (is_subset ys xs ≡ true))
  IsDistinct-values_iff n xs = (
    λ h. (
      to_set xs,
      h,
      to_set-IsDistinct xs,
      subset_of_contains _ xs (λ a m. sym (contains-to_set a xs) ∙ m),
    ),
    λ (ys, long, d, s). le_trans long (
        length-le_of_distinct ys _ d
          (λ a m. contains-to_set a xs ∙ contains_of_subset a ys xs s m)),
  )

  All-of_contains :
      (h : A) (xs : List A) → ((x : A) → contains xs x ≡ true → x ≡ h) → All (λ x. x ≡ h) xs
  All-of_contains h [] k = tt
  All-of_contains h (x ∷ xs) k =
      (k x (ground (arith, e.same_iff x x)), All-of_contains h xs (λ y m. k y (ground arith)))

  one_value : (h : A) (xs : List A) → to_set xs ≡ h ∷ [] → (x : A) → contains xs x ≡ true → x ≡ h
  one_value h xs s x m =
      (e.same_iff x h).0 (ground (arith, ap (λ ys. contains ys x) s, contains-to_set x xs))

  length_one : (ys : List A) → length ys ≡ 1 → (h : A) × (ys ≡ h ∷ [])
  length_one [] n = absurd (omega arith)
  length_one (h ∷ []) n = (h, refl)
  length_one (h ∷ y ∷ ys) n = absurd (omega arith)

  -- `len(set(xs)) == 1` says that `xs` has one value, at each of its places.
  pub one_value_of_set : (xs : List A) → length (to_set xs) ≡ 1 → (h : A) × All (λ x. x ≡ h) xs
  one_value_of_set xs n =
      let (h, s) = length_one (to_set xs) n in (h, All-of_contains h xs (one_value h xs s))

  pub set_of_one_value :
      (h x : A) (xs : List A) → All (λ y. y ≡ h) (x ∷ xs) → to_set (x ∷ xs) ≡ h ∷ []
  set_of_one_value h x [] a = rw a.0
  set_of_one_value h x (y ∷ ys) a = rw (set_of_one_value h y ys a.1, a.0, (e.same_iff h h).1 refl)

  -- `set(xs) == set(ys)` says that both hold the same values.
  pub same_set_iff :
      (xs ys : List A) → (same_set xs ys ≡ true) ↔ ((a : A) → contains xs a ≡ contains ys a)
  same_set_iff xs ys = (
    λ h a.
        bool_eq _ _ (contains_of_subset a xs ys (and_parts _ _ h).0)
          (contains_of_subset a ys xs (and_parts _ _ h).1),
    λ h. rw (
      subset_of_contains xs ys (λ a m. sym (h a) ∙ m),
      subset_of_contains ys xs (λ a m. h a ∙ m),
    ),
  )
