-- ===== src/Regex/Shapes.antt =====
-- What the building blocks of the patterns match, and where a stretch of a class ends.
use text.Mathlib.TextEquality.{Char-path}
use ex4pm.Prelude.{
  nat_eq_iff, ℕ, String, ◌<>◌, refl, sym, ap, ◌∙◌, ◌≡◌, Bool, true, List, [], arith, ◌==◌, nat_Eq,
}
use Prim.Native.Char.{Char, code}
use text.Mathlib.TextLemmas.{nil-append, cons-append}
use ex4pm.Text.{every_char}
use ex4pm.Regex.{lit, some_of, stops_at}
use ex4pm.Regex.Laws.{Matches}

pub lit-Matches :
    (w t rest : String) (g : List (ℕ × String)) → Matches (lit w) t rest g → (t ≡ w) × (g ≡ [])
unfolding lit
lit-Matches String.[] t rest g h = h
lit-Matches (String.◌∷◌ c w) t rest g
      (t1, t2, g1, g2, (d, is_c, t1_is, g1_is), second, t_is, g_is) =
    let (t2_is, g2_is) = lit-Matches w t2 rest g2 second in
    (
      t_is
          ∙ ap (λ x. x <> t2) t1_is
          ∙ cons-append d "" t2
          ∙ ap (λ x. String.◌∷◌ d x) (nil-append t2 ∙ t2_is)
          ∙ ap (λ x. String.◌∷◌ x w) (same_char d c is_c),
      cc,
    )
  where
    same_char : (d c : Char) → (code d == code c) ≡ true → d ≡ c
    same_char d c e = Char-path d c ((nat_eq_iff _ _).0 e)

pub Matches-lit : (w rest : String) → Matches (lit w) w rest []
unfolding lit
Matches-lit String.[] rest = (refl, refl)
Matches-lit (String.◌∷◌ c w) rest = (
  String.◌∷◌ c "",
  w,
  [],
  [],
  (c, (nat_eq_iff _ _).1 refl, refl, refl),
  Matches-lit w rest,
  sym (cons-append c "" w ∙ ap (λ x. String.◌∷◌ c x) (nil-append w)),
  refl,
)

-- A text of the class, and not the empty one
abbrev pub Stretch : (ℕ → Bool) → String → Type 0
Stretch p t = (every_char p t ≡ true) × (t ≡ "" → ⊥)

pub some_of-Matches :
    (p : ℕ → Bool) (t rest : String) (g : List (ℕ × String))
    → Matches (some_of p) t rest g
    → Stretch p t × (g ≡ [])
unfolding every_char
some_of-Matches p t rest g (t1, t2, g1, g2, (c, is_c, t1_is, g1_is), (every, g2_is), t_is, g_is) =
    let whole =
      t_is
      ∙ ap (λ x. x <> t2) t1_is
      ∙ cons-append c "" t2
      ∙ ap (λ x. String.◌∷◌ c x) (nil-append t2) in
    ((rw whole (ground arith), λ e. absurd (cc)), cc)

pub Matches-some_of : (p : ℕ → Bool) (t rest : String) → Stretch p t → Matches (some_of p) t rest []
unfolding every_char
Matches-some_of p String.[] rest (every, n) = absurd (n refl)
Matches-some_of p (String.◌∷◌ c t) rest (every, n) = (
  String.◌∷◌ c "",
  t,
  [],
  [],
  (c, ground arith, refl, refl),
  (ground arith, refl),
  sym (cons-append c "" t ∙ ap (λ x. String.◌∷◌ c x) (nil-append t)),
  refl,
)

-- A stretch of a class that something else follows is determined by the text.
pub stretch_unique :
    (p : ℕ → Bool) (t u rest rest' : String)
    → every_char p t ≡ true
    → every_char p u ≡ true
    → stops_at p rest ≡ true
    → stops_at p rest' ≡ true
    → t <> rest ≡ u <> rest'
    → (t ≡ u) × (rest ≡ rest')
unfolding every_char
stretch_unique p String.[] String.[] rest rest' a b c d e =
    (refl, sym (nil-append rest) ∙ e ∙ nil-append rest')
stretch_unique p String.[] (String.◌∷◌ x u) rest rest' a b c d e =
    let split : rest ≡ String.◌∷◌ x (u <> rest') =
      sym (nil-append rest) ∙ e ∙ cons-append x u rest' in
    absurd (ground (arith, ap (stops_at p) split))
stretch_unique p (String.◌∷◌ x t) String.[] rest rest' a b c d e =
    let split : String.◌∷◌ x (t <> rest) ≡ rest' =
      sym (cons-append x t rest) ∙ e ∙ nil-append rest' in
    absurd (ground (arith, ap (stops_at p) split))
stretch_unique p (String.◌∷◌ x t) (String.◌∷◌ y u) rest rest' a b c d e =
    let split : String.◌∷◌ x (t <> rest) ≡ String.◌∷◌ y (u <> rest') =
      sym (cons-append x t rest) ∙ e ∙ cons-append y u rest' in
    let (same, left) = stretch_unique p t u rest rest' (ground arith) (ground arith) c d (cc) in
    (cc, left)
