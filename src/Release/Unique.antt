-- ===== src/Release/Unique.antt =====
-- The parts of a dependency, and where they end.
use Prim.Native.Char.{Char, code}
use text.Mathlib.TextLemmas.{append_assoc, append_cancel_left, nil-append, cons-append}
use ex4pm.Prelude.{
  ℕ, String, ◌<>◌, refl, sym, ap, ◌∙◌, ◌≡◌, Bool, true, not, ◌&&◌, ◌||◌, arith, inl, inr, ◌==◌,
  nat_Eq, string_Eq,
}
use ex4pm.Text.{every_char, is_space}
use ex4pm.Regex.{stops_at}
use ex4pm.Regex.Shapes.{stretch_unique}
use ex4pm.Release.{is_digit, is_name}
use ex4pm.Release.Dependencies.{Suffix, Triple, Dependency}

abbrev is_version_char : ℕ → Bool
is_version_char c = is_digit c || c == b'.'

pub every-append :
    (p : ℕ → Bool) (a b : String) → every_char p (a <> b) ≡ (every_char p a && every_char p b)
unfolding every_char
every-append p String.[] b = rw (nil-append b)
every-append p (String.◌∷◌ c a) b = rw (cons-append c a b) (ground (arith, every-append p a b))

every_weaker :
    (p q : ℕ → Bool)
    → ((c : ℕ) → p c ≡ true → q c ≡ true)
    → (t : String) → every_char p t ≡ true
    → every_char q t ≡ true
unfolding every_char
every_weaker p q h String.[] e = refl
every_weaker p q h (String.◌∷◌ c t) e = ground (arith, h (code c), every_weaker p q h t)

digit_version_char : (c : ℕ) → is_digit c ≡ true → is_version_char c ≡ true
digit_version_char c h = ground arith

Triple-chars : (v : String) → Triple v → every_char is_version_char v ≡ true
unfolding every_char
Triple-chars v (a, b, c, (a_ok, _), (b_ok, _), (c_ok, _), e) =
    let wide = every_weaker is_digit is_version_char digit_version_char in
    rw (
      e,
      every-append is_version_char a _,
      wide a a_ok,
      every-append is_version_char "." (b <> ("." <> c)),
      every-append is_version_char b _,
      wide b b_ok,
      every-append is_version_char "." c,
      wide c c_ok,
    )

-- A version starts with a digit, which is no blank.
version_not_blank : (v rest : String) → Triple v → stops_at is_space (v <> rest) ≡ true
unfolding every_char is_space
version_not_blank v rest (String.[], b, c, (_, n), _, _, _) = absurd (n refl)
version_not_blank v rest (String.◌∷◌ d a, b, c, (a_ok, _), _, _, e) =
    rw (e ∙ cons-append d a _, cons-append d (a <> ("." <> (b <> ("." <> c)))) rest) (ground arith)

suffix_chars : (name : String) → Suffix name → every_char is_name name ≡ true
unfolding every_char
suffix_chars name (inl e) = rw e
suffix_chars name (inr (n, (n_ok, _), e)) = rw (e, every-append is_name "_" n, n_ok)

behind :
    (t v rest : String) (d : Dependency t v)
    → t <> rest
      ≡ "{:ex4pm" <> (d.name <> ("," <> (d.gap <> ("\"~>" <> (d.gap' <> (v <> ("\"" <> rest)))))))
behind t v rest d = ap (λ x. x <> rest) d.spelled ∙ simp append_assoc

-- At one place there is at most one dependency.
pub Dependency-unique :
    (t t' v v' rest rest' : String)
    → Dependency t v
    → Dependency t' v'
    → t <> rest ≡ t' <> rest'
    → v ≡ v'
unfolding is_space
Dependency-unique t t' v v' rest rest' d d' e =
    let from_name =
      append_cancel_left "{:ex4pm" _ _ (sym (behind t v rest d) ∙ e ∙ behind t' v' rest' d') in
    let (_, from_comma) =
      stretch_unique is_name d.name d'.name _ _ (suffix_chars _ d.suffix) (suffix_chars _ d'.suffix)
        (rw (cons-append _ "" _) refl) (rw (cons-append _ "" _) refl) from_name in
    let from_gap = append_cancel_left "," _ _ from_comma in
    let (_, from_req) =
      stretch_unique is_space d.gap d'.gap _ _ d.blank d'.blank (rw (cons-append _ "~>" _) refl)
        (rw (cons-append _ "~>" _) refl) from_gap in
    let from_gap' = append_cancel_left "\"~>" _ _ from_req in
    let (_, from_version) =
      stretch_unique is_space d.gap' d'.gap' _ _ d.blank' d'.blank'
        (version_not_blank v _ d.version) (version_not_blank v' _ d'.version) from_gap' in
    (stretch_unique is_version_char v v' _ _ (Triple-chars v d.version) (Triple-chars v' d'.version)
      (rw (cons-append _ "" _) refl) (rw (cons-append _ "" _) refl) from_version).0

abbrev pub no_brace : ℕ → Bool
no_brace c = not (c == b'{')

-- The opening brace stands only at the start of a dependency.
pub inner : String → String → String → String → String
inner name gap gap' v = ":ex4pm" <> (name <> ("," <> (gap <> ("\"~>" <> (gap' <> (v <> "\""))))))

pub one_brace :
    (t v : String)
    → Dependency t v
    → (brace : Char) × (tail : String) × (t ≡ String.◌∷◌ brace tail)
      × (code brace ≡ b'{')
      × (every_char no_brace tail ≡ true)
unfolding every_char is_space inner
one_brace t v d =
    let name_ok =
      every_weaker is_name no_brace (λ c h. ground arith) d.name (suffix_chars _ d.suffix) in
    let gap_ok = every_weaker is_space no_brace (λ c h. ground arith) d.gap d.blank in
    let gap'_ok = every_weaker is_space no_brace (λ c h. ground arith) d.gap' d.blank' in
    let v_ok =
      every_weaker is_version_char no_brace (λ c h. ground arith) v (Triple-chars v d.version) in
    (
      _,
      inner d.name d.gap d.gap' v,
      d.spelled
          ∙ cons-append _ ":ex4pm"
              (d.name <> ("," <> (d.gap <> ("\"~>" <> (d.gap' <> (v <> "\"")))))),
      refl,
      simp (every-append, name_ok, gap_ok, gap'_ok, v_ok),
    )
