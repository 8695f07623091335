-- ===== src/Cards/Parse/Shape.antt =====
-- The lines that give a module the name of a function.
use text.Mathlib.TextLemmas.{append_assoc, nil-append, cons-append}
use Prim.Native.Char.{Char, code}
use ex4pm.Prelude.{
  ℕ, String, ◌<>◌, refl, sym, ap, ◌∙◌, subst, ◌≡◌, true, false, List, ◌∷◌, ◌++◌, some, inl, inr,
}
use ex4pm.Text.{every_char, is_space}
use ex4pm.Regex.{Match, match}
use ex4pm.Regex.Laws.{Matches}
use ex4pm.Regex.Search.{Matched, match-Matched}
use ex4pm.Regex.Shapes.{Stretch, lit-Matches, some_of-Matches}
use ex4pm.Cards.Parse.{
  is_lower_start, is_function_char, function_name, def_re, text_of_group, takes_part,
}

-- A small letter or an underscore, and then letters, digits and `_`, `?`, `!`
abbrev pub FunctionName : String → Type 0
FunctionName name =
    (c : Char) × (tail : String) × (is_lower_start (code c) ≡ true)
    × (every_char is_function_char tail ≡ true)
    × (name ≡ String.◌∷◌ c tail)

-- Blanks, `def`, blanks and the name stand at the start of the line.
abbrev pub Defines : String → String → Type 0
Defines name line =
    (gap : String) × (gap' : String) × (rest : String) × (every_char is_space gap ≡ true)
    × Stretch is_space gap'
    × FunctionName name
    × (line ≡ gap <> ("def" <> (gap' <> (name <> rest))))

name-FunctionName :
    (t rest : String) (g : List (ℕ × String)) → Matches function_name t rest g → FunctionName t
name-FunctionName t rest g (t1, t2, g1, g2, (c, is_c, t1_is, g1_is), (every, g2_is), t_is, g_is) = (
  c,
  t2,
  is_c,
  every,
  t_is ∙ ap (λ x. x <> t2) t1_is ∙ cons-append c "" t2 ∙ ap (λ x. String.◌∷◌ c x) (nil-append t2),
)

regroup :
    (a b c d e rest : String)
    → (a <> (b <> (c <> (d <> e)))) <> rest ≡ a <> (b <> (c <> (d <> (e <> rest))))
regroup a b c d e rest = simp append_assoc

-- The match, with its groups replaced
abbrev with_groups : Match → List (ℕ × String) → Match
with_groups d g = record { groups = g; taken = d.taken; rest = d.rest }

pub def_re-Defines :
    (line : String) (d : Match)
    → match def_re line ≡ some d
    → takes_part 1 d ≡ false
    → Defines (text_of_group 2 d) line
def_re-Defines line d e shown =
    let (split, h) = subst (Matched def_re line) e (match-Matched def_re line) in
    from_match d.taken d.rest d.groups refl split h
  where
    from_match :
        (t rest : String) (g : List (ℕ × String))
        → d.groups ≡ g
        → line ≡ t <> rest
        → Matches def_re t rest g
        → Defines (text_of_group 2 d) line
    from_match t rest g groups split
          (
            t1,
            u1,
            g1,
            h1,
            (gap_ok, g1_is),
            (
              t2,
              u2,
              g2,
              h2,
              is_def,
              (
                t3,
                u3,
                g3,
                h3,
                is_p,
                (
                  t4,
                  u4,
                  g4,
                  h4,
                  is_gap,
                  (t5, u5, g5, h5, (inner, is_name, g5_is), more, e5, k5),
                  e4,
                  k4,
                ),
                e3,
                k3,
              ),
              e2,
              k2,
            ),
            e1,
            k1,
          ) =
        let (t2_is, g2_is) = lit-Matches "def" t2 (u2 <> rest) g2 is_def in
        let (gap'_ok, g4_is) = some_of-Matches is_space t4 (u4 <> rest) g4 is_gap in
        let all_groups : d.groups ≡ g3 ++ ((2, t5) ∷ (inner ++ h5)) = cc in
        elim is_p [
          | inl (inner_p, is_lit, g3_is) ↦
              let (t3_is, _) = lit-Matches "p" t3 (u3 <> rest) inner_p is_lit in
              let hidden : takes_part 1 d ≡ true =
                ap (λ x. takes_part 1 (with_groups d x))
                  (all_groups
                    ∙ ap (λ x. x ++ ((2, t5) ∷ (inner ++ h5)))
                        (g3_is ∙ ap (λ x. (1, x) ∷ inner_p) t3_is)) in
              absurd (let f = sym hidden ∙ shown in cc)
          | inr (t3_is, g3_is) ↦
              let named : text_of_group 2 d ≡ t5 =
                ap (λ x. text_of_group 2 (with_groups d x))
                  (all_groups ∙ ap (λ x. x ++ ((2, t5) ∷ (inner ++ h5))) g3_is) in
              let after_gap : u3 ≡ t4 <> (t5 <> u5) = e4 ∙ ap (λ x. t4 <> x) e5 in
              let after_def : u2 ≡ t4 <> (t5 <> u5) =
                e3 ∙ ap (λ x. x <> u3) t3_is ∙ nil-append u3 ∙ after_gap in
              let after_blanks : u1 ≡ "def" <> (t4 <> (t5 <> u5)) =
                e2 ∙ ap (λ x. x <> u2) t2_is ∙ ap (λ x. "def" <> x) after_def in
              (
                t1,
                t4,
                u5 <> rest,
                gap_ok,
                gap'_ok,
                subst FunctionName (sym named) (name-FunctionName t5 (u5 <> rest) inner is_name),
                split
                    ∙ ap (λ x. x <> rest) (e1 ∙ ap (λ x. t1 <> x) after_blanks)
                    ∙ regroup t1 "def" t4 t5 u5 rest
                    ∙ ap (λ x. t1 <> ("def" <> (t4 <> (x <> (u5 <> rest))))) (sym named),
              )
        ]
