-- ===== src/Text/Sorting.antt =====
-- Sorting by a key: the result is ordered, and holds what was there.
use ex4pm.Prelude.{
  ◌∙◌, suc, String, refl, ◌≡◌, ◌↔◌, inl, inr, Bool, true, false, ◌||◌, List, [], ◌∷◌, length, any,
  All, Bool-cases, arith,
}
use ex4pm.Text.{str_le, insert_by, sort_by}

pub str_le_refl : (s : String) → str_le s s ≡ true
unfolding str_le
str_le_refl String.[] = refl
str_le_refl (String.◌∷◌ c s) = ground (arith, str_le_refl s)

pub str_le_total : (s t : String) → str_le s t ≡ false → str_le t s ≡ true
unfolding str_le
str_le_total String.[] t h = absurd (cc)
str_le_total (String.◌∷◌ c s) String.[] h = refl
str_le_total (String.◌∷◌ c s) (String.◌∷◌ d t) h = ground (arith, str_le_total s t)

pub str_le_trans : (s t u : String) → str_le s t ≡ true → str_le t u ≡ true → str_le s u ≡ true
unfolding str_le
str_le_trans String.[] t u h k = refl
str_le_trans (String.◌∷◌ c s) String.[] u h k = absurd (cc)
str_le_trans (String.◌∷◌ c s) (String.◌∷◌ d t) String.[] h k = absurd (cc)
str_le_trans (String.◌∷◌ c s) (String.◌∷◌ d t) (String.◌∷◌ e u) h k =
    ground (arith, str_le_trans s t u)

module _ {A : Type 0} (key : A → String) where
  abbrev pub Below : String → List A → Type 0
  Below k xs = All (λ x. str_le k (key x) ≡ true) xs

  -- Each key is at most those behind it.
  abbrev pub IsOrdered : List A → Type 0
  IsOrdered [] = Unit
  IsOrdered (x ∷ xs) = Below (key x) xs × IsOrdered xs

  Below-trans : (k m : String) (xs : List A) → str_le k m ≡ true → Below m xs → Below k xs
  Below-trans k m [] h b = tt
  Below-trans k m (x ∷ xs) h b = (str_le_trans k m (key x) h b.0, Below-trans k m xs h b.1)

  Below-insert_by :
      (k : String) (x : A) (xs : List A)
      → str_le k (key x) ≡ true
      → Below k xs
      → Below k (insert_by key x xs)
  unfolding insert_by
  Below-insert_by k x [] h b = (h, tt)
  Below-insert_by k x (y ∷ ys) h b = elim (Bool-cases (str_le (key x) (key y))) [
    | inl e ↦ rw e (h, b)
    | inr e ↦ rw e (b.0, Below-insert_by k x ys h b.1)
  ]

  insert_by-IsOrdered : (x : A) (xs : List A) → IsOrdered xs → IsOrdered (insert_by key x xs)
  unfolding insert_by
  insert_by-IsOrdered x [] o = (tt, tt)
  insert_by-IsOrdered x (y ∷ ys) o = elim (Bool-cases (str_le (key x) (key y))) [
    | inl e ↦ rw e ((e, Below-trans (key x) (key y) ys e o.0), o)
    | inr e ↦ rw e (
      Below-insert_by (key y) x ys (str_le_total (key x) (key y) e) o.0,
      insert_by-IsOrdered x ys o.1,
    )
  ]

  pub sort_by-IsOrdered : (xs : List A) → IsOrdered (sort_by key xs)
  unfolding sort_by
  sort_by-IsOrdered [] = tt
  sort_by-IsOrdered (x ∷ xs) = insert_by-IsOrdered x (sort_by key xs) (sort_by-IsOrdered xs)

  length-insert_by : (x : A) (xs : List A) → length (insert_by key x xs) ≡ suc (length xs)
  unfolding insert_by
  length-insert_by x [] = refl
  length-insert_by x (y ∷ ys) = ground (arith, length-insert_by x ys)

  pub length-sort_by : (xs : List A) → length (sort_by key xs) ≡ length xs
  unfolding sort_by
  length-sort_by [] = refl
  length-sort_by (x ∷ xs) = omega (arith, length-insert_by x (sort_by key xs), length-sort_by xs)

  any-insert_by :
      (p : A → Bool) (x : A) (xs : List A) → any p (insert_by key x xs) ≡ (p x || any p xs)
  unfolding insert_by
  any-insert_by p x [] = refl
  any-insert_by p x (y ∷ ys) = ground (arith, any-insert_by p x ys)

  pub any-sort_by : (p : A → Bool) (xs : List A) → any p (sort_by key xs) ≡ any p xs
  unfolding sort_by
  any-sort_by p [] = refl
  any-sort_by p (x ∷ xs) = any-insert_by p x (sort_by key xs) ∙ ground (arith, any-sort_by p xs)

  module _ (P : A → Type 0) where
    All-insert_by : (x : A) (xs : List A) → P x → All P xs → All P (insert_by key x xs)
    unfolding insert_by
    All-insert_by x [] p a = (p, tt)
    All-insert_by x (y ∷ ys) p a = elim (Bool-cases (str_le (key x) (key y))) [
      | inl e ↦ rw e (p, a)
      | inr e ↦ rw e (a.0, All-insert_by x ys p a.1)
    ]

    All_of-insert_by : (x : A) (xs : List A) → All P (insert_by key x xs) → P x × All P xs
    unfolding insert_by
    All_of-insert_by x [] a = a
    All_of-insert_by x (y ∷ ys) a = elim (Bool-cases (str_le (key x) (key y))) [
      | inl e ↦ rw e at a
      | inr e ↦ let b = rw e at a in let (p, rest) = All_of-insert_by x ys b.1 in (p, (b.0, rest))
    ]

    -- The sorted list has the same members.
    pub All-sort_by_iff : (xs : List A) → All P (sort_by key xs) ↔ All P xs
    unfolding sort_by
    All-sort_by_iff [] = (λ a. tt, λ a. tt)
    All-sort_by_iff (x ∷ xs) = (
      λ a.
          let (p, rest) = All_of-insert_by x (sort_by key xs) a in (p, (All-sort_by_iff xs).0 rest),
      λ a. All-insert_by x (sort_by key xs) a.0 ((All-sort_by_iff xs).1 a.1),
    )
