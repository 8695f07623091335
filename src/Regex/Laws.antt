-- ===== src/Regex/Laws.antt =====
-- What a pattern matches, said without an order of choices.
use Prim.Native.Char.{Char, code}
use text.Mathlib.TextLemmas.{nil-append, cons-append, append_assoc}
use ex4pm.Prelude.{
  Any, ℕ, String, ◌<>◌, refl, sym, ap, ◌∙◌, subst, ◌≡◌, ◌⊎◌, inl, inr, Bool, true, List, [], ◌∷◌,
  ◌++◌, map, All, Bool-cases, arith,
}
use ex4pm.Text.{every_char}
use ex4pm.Regex.{
  Regex, one, many, empty, seq, or, group, not_before, at_end, Match, nothing, take_one, join,
  enclose, stops_at, at_last, stretches, each_then, runs,
}

-- The pattern takes this text, before this rest, and its groups are these.
abbrev pub Matches : Regex → String → String → List (ℕ × String) → Type 0
Matches (one p) t rest g = (c : Char) × (p (code c) ≡ true) × (t ≡ String.◌∷◌ c "") × (g ≡ [])
Matches (many p) t rest g = (every_char p t ≡ true) × (g ≡ [])
Matches empty t rest g = (t ≡ "") × (g ≡ [])
Matches (seq a b) t rest g =
    (t1 : String) × (t2 : String) × (g1 : List (ℕ × String)) × (g2 : List (ℕ × String)) × Matches a
      t1 (t2 <> rest) g1
    × Matches b t2 rest g2
    × (t ≡ t1 <> t2)
    × (g ≡ g1 ++ g2)
Matches (or a b) t rest g = Matches a t rest g ⊎ Matches b t rest g
Matches (group n r) t rest g =
    (inner : List (ℕ × String)) × Matches r t rest inner × (g ≡ (n, t) ∷ inner)
Matches (not_before p) t rest g = (stops_at p rest ≡ true) × (t ≡ "") × (g ≡ [])
Matches at_end t rest g = (at_last rest ≡ true) × (t ≡ "") × (g ≡ [])

-- A way to match that stands at the start of the text
abbrev pub Sound : Regex → String → Match → Type 0
Sound r s m = (s ≡ m.taken <> m.rest) × Matches r m.taken m.rest m.groups

module _ {A : Type 0} (P : A → Type 0) where
  pub All-append : (xs ys : List A) → All P xs → All P ys → All P (xs ++ ys)
  All-append [] ys a b = b
  All-append (x ∷ xs) ys a b = (a.0, All-append xs ys a.1 b)

  pub Any-left : (xs ys : List A) → Any P xs → Any P (xs ++ ys)
  Any-left [] ys a = elim a [ ]
  Any-left (x ∷ xs) ys (inl p) = inl p
  Any-left (x ∷ xs) ys (inr a) = inr (Any-left xs ys a)

  pub Any-right : (xs ys : List A) → Any P ys → Any P (xs ++ ys)
  Any-right [] ys a = a
  Any-right (x ∷ xs) ys a = inr (Any-right xs ys a)

module _ {A B : Type 0} (f : A → B) (P : A → Type 0) (Q : B → Type 0)
    (h : (a : A) → P a → Q (f a)) where
  pub All-map : (xs : List A) → All P xs → All Q (map f xs)
  All-map [] a = tt
  All-map (x ∷ xs) a = (h x a.0, All-map xs a.1)

  pub Any-map : (xs : List A) → Any P xs → Any Q (map f xs)
  Any-map [] a = elim a [ ]
  Any-map (x ∷ xs) (inl p) = inl (h x p)
  Any-map (x ∷ xs) (inr a) = inr (Any-map xs a)

nothing_more : (p : ℕ → Bool) (s : String) → Sound (many p) s (nothing s)
unfolding every_char
nothing_more p s = (sym (nil-append s), (refl, refl))

longer :
    (p : ℕ → Bool) (c : Char) (s : String)
    → p (code c) ≡ true
    → (m : Match) → Sound (many p) s m
    → Sound (many p) (String.◌∷◌ c s) (take_one c m)
unfolding every_char
longer p c s is_c m (split, (every, no_groups)) =
    (ap (λ t. String.◌∷◌ c t) split ∙ sym (cons-append c m.taken m.rest), (ground arith, no_groups))

stretches-Sound : (p : ℕ → Bool) (s : String) → All (Sound (many p) s) (stretches p s)
unfolding stretches
stretches-Sound p String.[] = (nothing_more p "", tt)
stretches-Sound p (String.◌∷◌ c s) = elim (Bool-cases (p (code c))) [
  | inr no_c ↦ rw no_c (nothing_more p (String.◌∷◌ c s), tt)
  | inl is_c ↦ rw is_c (
      All-append (Sound (many p) (String.◌∷◌ c s)) _ _
        (All-map (take_one c) (Sound (many p) s) (Sound (many p) (String.◌∷◌ c s))
          (longer p c s is_c) (stretches p s) (stretches-Sound p s))
        (nothing_more p (String.◌∷◌ c s), tt))
]

joined :
    (a b : Regex) (s : String) (m : Match)
    → Sound a s m
    → (n : Match) → Sound b m.rest n
    → Sound (seq a b) s (join m n)
joined a b s m (split, first) n (split', second) = (
  split ∙ ap (λ r. m.taken <> r) split' ∙ sym (append_assoc m.taken n.taken n.rest),
  (
    m.taken,
    n.taken,
    m.groups,
    n.groups,
    subst (λ r. Matches a m.taken r m.groups) split' first,
    second,
    refl,
    refl,
  ),
)

each_then-Sound :
    (a b : Regex) (s : String) (f : String → List Match)
    → ((r : String) → All (Sound b r) (f r))
    → (ms : List Match) → All (Sound a s) ms
    → All (Sound (seq a b) s) (each_then ms f)
unfolding each_then
each_then-Sound a b s f h [] all = tt
each_then-Sound a b s f h (m ∷ ms) all =
    All-append (Sound (seq a b) s) _ _
      (All-map (join m) (Sound b m.rest) (Sound (seq a b) s) (joined a b s m all.0) (f m.rest)
        (h m.rest))
      (each_then-Sound a b s f h ms all.1)

in_or_left : (a b : Regex) (s : String) (m : Match) → Sound a s m → Sound (or a b) s m
in_or_left a b s m (split, h) = (split, inl h)

in_or_right : (a b : Regex) (s : String) (m : Match) → Sound b s m → Sound (or a b) s m
in_or_right a b s m (split, h) = (split, inr h)

All-same :
    {A : Type 0} (P Q : A → Type 0) → ((a : A) → P a → Q a) → (xs : List A) → All P xs → All Q xs
All-same P Q h [] a = tt
All-same P Q h (x ∷ xs) a = (h x a.0, All-same P Q h xs a.1)

-- Every way that is tried matches.
pub runs-Sound : (r : Regex) (s : String) → All (Sound r s) (runs r s)
unfolding runs
runs-Sound (one p) String.[] = tt
runs-Sound (one p) (String.◌∷◌ c s) = elim (Bool-cases (p (code c))) [
  | inr no_c ↦ rw no_c tt
  | inl is_c ↦ rw is_c (
    (sym (cons-append c "" s ∙ ap (λ t. String.◌∷◌ c t) (nil-append s)), (c, is_c, refl, refl)),
    tt,
  )
]
runs-Sound (many p) s = stretches-Sound p s
runs-Sound empty s = ((sym (nil-append s), (refl, refl)), tt)
runs-Sound (seq a b) s = each_then-Sound a b s (runs b) (runs-Sound b) (runs a s) (runs-Sound a s)
runs-Sound (or a b) s =
    All-append (Sound (or a b) s) _ _
      (All-same (Sound a s) (Sound (or a b) s) (in_or_left a b s) (runs a s) (runs-Sound a s))
      (All-same (Sound b s) (Sound (or a b) s) (in_or_right a b s) (runs b s) (runs-Sound b s))
runs-Sound (group n r) s =
    All-map (enclose n) (Sound r s) (Sound (group n r) s) (λ m h. (h.0, (m.groups, h.1, refl)))
      (runs r s) (runs-Sound r s)
runs-Sound (not_before p) s = elim (Bool-cases (stops_at p s)) [
  | inr no_stop ↦ rw no_stop tt
  | inl stop ↦ rw stop ((sym (nil-append s), (stop, refl, refl)), tt)
]
runs-Sound at_end s = elim (Bool-cases (at_last s)) [
  | inr no_end ↦ rw no_end tt
  | inl ends ↦ rw ends ((sym (nil-append s), (ends, refl, refl)), tt)
]
