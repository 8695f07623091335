-- ===== src/Release/Dependencies.antt =====
-- What an internal dependency of a Mix project looks like.
use ex4pm.Prelude.{ℕ, String, ◌<>◌, refl, ◌≡◌, true, List, [], ◌⊎◌, nat_Eq, string_Eq}
use ex4pm.Text.{every_char, is_space}
use ex4pm.Regex.Laws.{Matches}
use ex4pm.Regex.Shapes.{Stretch, lit-Matches, Matches-lit, some_of-Matches, Matches-some_of}
use ex4pm.Release.{is_digit, is_name, triple}

-- What may follow `{:ex4pm` in the name of an application
abbrev pub Suffix : String → Type 0
Suffix name = (name ≡ "") ⊎ ((n : String) × Stretch is_name n × (name ≡ "_" <> n))

-- Three numbers
abbrev pub Triple : String → Type 0
Triple v =
    (a : String) × (b : String) × (c : String) × Stretch is_digit a
    × Stretch is_digit b
    × Stretch is_digit c
    × (v ≡ a <> ("." <> (b <> ("." <> c))))

-- The text of an internal dependency on this version
pub record Dependency (t v : String) : Type 0 where
  pub name : String
  pub gap : String
  pub gap' : String
  pub suffix : Suffix name
  pub blank : every_char is_space gap ≡ true
  pub blank' : every_char is_space gap' ≡ true
  pub version : Triple v
  pub spelled : t ≡ "{:ex4pm" <> (name <> ("," <> (gap <> ("\"~>" <> (gap' <> (v <> "\""))))))

pub triple-Triple :
    (t rest : String) (g : List (ℕ × String)) → Matches triple t rest g → Triple t × (g ≡ [])
triple-Triple t rest g
      (
        a,
        t2,
        g1,
        g2,
        is_a,
        (
          dot,
          t3,
          g3,
          g4,
          is_dot,
          (b, t4, g5, g6, is_b, (dot', c, g7, g8, is_dot', is_c, e4, k4), e3, k3),
          e2,
          k2,
        ),
        e1,
        k1,
      ) =
    let (a_ok, g1_is) = some_of-Matches is_digit a "" g1 is_a in
    let (dot_is, g3_is) = lit-Matches "." dot _ g3 is_dot in
    let (b_ok, g5_is) = some_of-Matches is_digit b "" g5 is_b in
    let (dot'_is, g7_is) = lit-Matches "." dot' _ g7 is_dot' in
    let (c_ok, g8_is) = some_of-Matches is_digit c "" g8 is_c in
    ((a, b, c, a_ok, b_ok, c_ok, cc), cc)

pub Triple-triple : (v rest : String) → Triple v → Matches triple v rest []
Triple-triple v rest (a, b, c, a_ok, b_ok, c_ok, e) = (
  a,
  _,
  [],
  [],
  Matches-some_of is_digit a "" a_ok,
  (
    ".",
    _,
    [],
    [],
    Matches-lit "." _,
    (
      b,
      _,
      [],
      [],
      Matches-some_of is_digit b "" b_ok,
      (".", c, [], [], Matches-lit "." _, Matches-some_of is_digit c rest c_ok, refl, refl),
      refl,
      refl,
    ),
    refl,
    refl,
  ),
  e,
  refl,
)
