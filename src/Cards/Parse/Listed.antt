-- ===== src/Cards/Parse/Listed.antt =====
-- What a module lists.
use ex4pm.Prelude.{
  ℕ, String, refl, ◌≡◌, Bool, false, ◌||◌, List, [], ◌∷◌, ◌++◌, Option, none, some, All, Any,
  contains, IsDistinct, ◌==◌, string_Eq, eq_iff, Bool-cases, inl, inr, arith,
}
use ex4pm.Text.{split_lines}
use ex4pm.Regex.{Match, match}
use ex4pm.Cards.{Module}
use ex4pm.Cards.Parse.{def_re, skip_names, text_of_group, takes_part, module_re, parse_file}
use ex4pm.Cards.Parse.Shape.{Defines, def_re-Defines}
use ex4pm.Cards.Parse.Laws.{
  extend, names_of, unless_open, listed_names, with_opened, modules_in, parse_file-modules_in,
}

contains-last :
    (fs : List String) (x a : String) → contains (fs ++ (x ∷ [])) a ≡ (contains fs a || a == x)
contains-last [] x a = ground (arith, eq_iff a x, eq_iff x a)
contains-last (f ∷ fs) x a = ground (arith, contains-last fs x a)

IsDistinct-last :
    (fs : List String) (x : String)
    → IsDistinct fs
    → contains fs x ≡ false
    → IsDistinct (fs ++ (x ∷ []))
IsDistinct-last [] x d n = (refl, tt)
IsDistinct-last (f ∷ fs) x d n = (
  ground (arith, contains-last fs x f, d.0, n, eq_iff f x, eq_iff x f),
  IsDistinct-last fs x d.1 (ground (arith, n)),
)

extend-IsDistinct : (fs xs : List String) → IsDistinct fs → IsDistinct (extend fs xs)
extend-IsDistinct fs [] d = d
extend-IsDistinct fs (x ∷ xs) d = elim (Bool-cases (contains fs x)) [
  | inl known ↦ rw known (extend-IsDistinct fs xs d)
  | inr fresh ↦ rw fresh (extend-IsDistinct (fs ++ (x ∷ [])) xs (IsDistinct-last fs x d fresh))
]

module _ (P : String → Type 0) where
  All-last : (fs : List String) (x : String) → All P fs → P x → All P (fs ++ (x ∷ []))
  All-last [] x a b = (b, tt)
  All-last (f ∷ fs) x a b = (a.0, All-last fs x a.1 b)

  All-extend : (fs xs : List String) → All P fs → All P xs → All P (extend fs xs)
  All-extend fs [] a b = a
  All-extend fs (x ∷ xs) a b = elim (Bool-cases (contains fs x)) [
    | inl known ↦ rw known (All-extend fs xs a b.1)
    | inr fresh ↦ rw fresh (All-extend (fs ++ (x ∷ [])) xs (All-last fs x a b.0) b.1)
  ]

module _ {A : Type 0} (P Q : A → Type 0) (h : (a : A) → P a → Q a) where
  All-weaken : (xs : List A) → All P xs → All Q xs
  All-weaken [] a = tt
  All-weaken (x ∷ xs) a = (h x a.0, All-weaken xs a.1)

-- One of these lines defines the function, and it is none of the callbacks.
abbrev pub Listable : List String → String → Type 0
Listable lines name = (contains skip_names name ≡ false) × Any (Defines name) lines

names_of-Listable :
    (line : String) (lines names : List String) (o : Option Match)
    → match def_re line ≡ o
    → All (Listable (line ∷ lines)) names
    → All (Listable (line ∷ lines)) (names_of o ++ names)
names_of-Listable line lines names none e a = a
names_of-Listable line lines names (some d) e a =
    elim (Bool-cases (takes_part 1 d || contains skip_names (text_of_group 2 d))) [
      | inl skip ↦ rw skip a
      | inr listed ↦
          rw listed
            ((ground (arith, listed), inl (def_re-Defines line d e (ground (arith, listed)))), a)
    ]

-- The module lists no function twice, and each is one that a line defines and no callback.
abbrev pub ListsWell : List String → Module → Type 0
ListsWell lines m = IsDistinct m.functions × All (Listable lines) m.functions

module _ (is_word : ℕ → Bool) where
  Listable-later :
      (line : String) (lines : List String) (name : String)
      → Listable lines name
      → Listable (line ∷ lines) name
  Listable-later line lines name (kept, defined) = (kept, inr defined)

  listed_names-Listable : (lines : List String) → All (Listable lines) (listed_names is_word lines)
  listed_names-Listable [] = tt
  listed_names-Listable (line ∷ lines) =
      by_match (match (module_re is_word) line)
        (names_of (match def_re line) ++ listed_names is_word lines)
        (names_of-Listable line lines (listed_names is_word lines) (match def_re line) refl (
          All-weaken (Listable lines) (Listable (line ∷ lines)) (Listable-later line lines)
            (listed_names is_word lines) (listed_names-Listable lines)))
    where
      by_match :
          (o : Option Match) (names : List String)
          → All (Listable (line ∷ lines)) names
          → All (Listable (line ∷ lines)) (unless_open is_word o names)
      by_match none names a = a
      by_match (some m) names a = tt

  ListsWell-later :
      (line : String) (lines : List String) (m : Module)
      → ListsWell lines m
      → ListsWell (line ∷ lines) m
  ListsWell-later line lines m (distinct, a) = (
    distinct,
    All-weaken (Listable lines) (Listable (line ∷ lines)) (Listable-later line lines) m.functions a,
  )

  modules_in-ListsWell : (lines : List String) → All (ListsWell lines) (modules_in is_word lines)
  modules_in-ListsWell [] = tt
  modules_in-ListsWell (line ∷ lines) = by_match (match (module_re is_word) line) (
      All-weaken (ListsWell lines) (ListsWell (line ∷ lines)) (ListsWell-later line lines)
        (modules_in is_word lines) (modules_in-ListsWell lines))
    where
      opened :
          ListsWell
            (line ∷ lines)
            (record { name = ""; functions = extend [] (listed_names is_word lines) })
      opened = (
        extend-IsDistinct [] (listed_names is_word lines) tt,
        All-extend (Listable (line ∷ lines)) [] (listed_names is_word lines) tt (
            All-weaken (Listable lines) (Listable (line ∷ lines)) (Listable-later line lines)
              (listed_names is_word lines) (listed_names-Listable lines)),
      )

      by_match :
          (o : Option Match)
          → All (ListsWell (line ∷ lines)) (modules_in is_word lines)
          → All
              (ListsWell (line ∷ lines))
              (with_opened is_word o (listed_names is_word lines) (modules_in is_word lines))
      by_match none b = b
      by_match (some m) b = (opened, b)

-- Whatever the source, no module lists a function twice, and each function that a module lists is none
-- of the callbacks that are left out, and a line of the source begins with its definition: blanks,
-- `def` and not `defp`, blanks, and its name, a small letter or an underscore with what may follow.
pub parse_file-ListsWell :
    (is_word : ℕ → Bool) (text : String)
    → All (ListsWell (split_lines text)) (parse_file is_word text)
parse_file-ListsWell is_word text =
    rw (parse_file-modules_in is_word text) (modules_in-ListsWell is_word (split_lines text))
