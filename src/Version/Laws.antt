-- ===== src/Version/Laws.antt =====
-- What the version patterns match.
use ex4pm.Prelude.{
  false, Bool, ℕ, String, ◌<>◌, refl, sym, ap, ◌∙◌, ◌≡◌, true, List, [], ◌∷◌, arith,
}
use text.Mathlib.TextLemmas.{append_assoc, append_cancel_left, nil-append, cons-append}
use ex4pm.Text.{every_char, is_space}
use ex4pm.Regex.{Regex, many, some_of, stops_at, taken_length}
use ex4pm.Regex.Laws.{Matches}
use ex4pm.Regex.Shapes.{
  Stretch, lit-Matches, Matches-lit, some_of-Matches, Matches-some_of, stretch_unique,
}
use ex4pm.Version.{not_quote, quoted, keyed}

quoted-Matches :
    (t rest : String) (g : List (ℕ × String))
    → Matches quoted t rest g
    → (v : String) × Stretch not_quote v × (t ≡ "\"" <> (v <> "\"")) × (g ≡ (1, v) ∷ [])
quoted-Matches t rest g
      (
        q,
        t2,
        g1,
        g2,
        open_quote,
        (v, q2, g3, g4, (inner, is_v, g3_is), close_quote, t2_is, g2_is),
        t_is,
        g_is,
      ) =
    let (q_is, g1_is) = lit-Matches "\"" q (t2 <> rest) g1 open_quote in
    let (q2_is, g4_is) = lit-Matches "\"" q2 rest g4 close_quote in
    let (stretch, inner_is) = some_of-Matches not_quote v (q2 <> rest) inner is_v in
    (v, stretch, cc, cc)

Matches-quoted :
    (v rest : String)
    → Stretch not_quote v
    → Matches quoted ("\"" <> (v <> "\"")) rest ((1, v) ∷ [])
Matches-quoted v rest stretch = (
  "\"",
  v <> "\"",
  [],
  (1, v) ∷ [],
  Matches-lit "\"" ((v <> "\"") <> rest),
  (
    v,
    "\"",
    (1, v) ∷ [],
    [],
    ([], Matches-some_of not_quote v ("\"" <> rest) stretch, refl),
    Matches-lit "\"" rest,
    refl,
    refl,
  ),
  refl,
  refl,
)

-- What may stand between the key and the version: a pattern with the texts that it matches
pub record Gap : Type 1 where
  pub pattern : Regex
  pub Holds : String → Type 0
  pub read :
      (t rest : String) (g : List (ℕ × String)) → Matches pattern t rest g → Holds t × (g ≡ [])
  pub made : (t rest : String) → Holds t → Matches pattern t rest []
  pub blank : (t : String) → Holds t → every_char is_space t ≡ true

abbrev pub some_space : Gap
some_space = record {
  pattern = some_of is_space;
  Holds = Stretch is_space;
  read = some_of-Matches is_space;
  made = Matches-some_of is_space;
  blank = λ t h. h.0;
}

abbrev pub any_space : Gap
any_space = record {
  pattern = many is_space;
  Holds = λ t. every_char is_space t ≡ true;
  read = λ t rest g h. h;
  made = λ t rest h. (h, refl);
  blank = λ t h. h;
}

module _ (key : String) (gap : Gap) where
  -- The key with a quoted version stands behind `before`.
  abbrev pub Stated : String → String → String → String → Type 0
  Stated text before v rest =
      (spaces : String) × gap.Holds spaces
      × Stretch not_quote v
      × (text ≡ before <> (key <> (spaces <> ("\"" <> (v <> ("\"" <> rest))))))

  pub keyed-Stated :
      (text before t rest : String) (g : List (ℕ × String))
      → text ≡ before <> (t <> rest)
      → Matches (keyed key gap.pattern) t rest g
      → (v : String) × Stated text before v rest × (g ≡ (1, v) ∷ [])
  keyed-Stated text before t rest g e
        (
          t1,
          t2,
          g1,
          g2,
          is_key,
          (spaces, t3, g3, g4, is_gap, is_quoted, t2_is, g2_is),
          t_is,
          g_is,
        ) =
      let (t1_is, g1_is) = lit-Matches key t1 (t2 <> rest) g1 is_key in
      let (is_blank, g3_is) = gap.read spaces (t3 <> rest) g3 is_gap in
      let (v, stretch, t3_is, g4_is) = quoted-Matches t3 rest g4 is_quoted in
      let whole : t ≡ key <> (spaces <> ("\"" <> (v <> "\""))) = cc in
      (
        v,
        (
          spaces,
          is_blank,
          stretch,
          e ∙ ap (λ x. before <> (x <> rest)) whole ∙ ap (λ x. before <> x) (simp append_assoc),
        ),
        cc,
      )

  abbrev pub spelled : String → String → String
  spelled spaces v = key <> (spaces <> ("\"" <> (v <> "\"")))

  pub Stated-keyed :
      (text before v rest : String) (h : Stated text before v rest)
      → (text ≡ before <> (spelled h.0 v <> rest))
        × Matches (keyed key gap.pattern) (spelled h.0 v) rest ((1, v) ∷ [])
  Stated-keyed text before v rest (spaces, is_gap, stretch, e) = (
    e ∙ ap (λ x. before <> x) (sym (simp append_assoc)),
    (
      key,
      spaces <> ("\"" <> (v <> "\"")),
      [],
      (1, v) ∷ [],
      Matches-lit key _,
      (
        spaces,
        "\"" <> (v <> "\""),
        [],
        (1, v) ∷ [],
        gap.made spaces _ is_gap,
        Matches-quoted v rest stretch,
        refl,
        refl,
      ),
      refl,
      refl,
    ),
  )

-- The two sides of a text at a place are determined by the length of the first.
pub split_unique :
    (a b x y : String) → taken_length a ≡ taken_length b → a <> x ≡ b <> y → (a ≡ b) × (x ≡ y)
split_unique String.[] String.[] x y n e = (refl, sym (nil-append x) ∙ e ∙ nil-append y)
split_unique String.[] (String.◌∷◌ d b) x y n e = absurd (omega arith)
split_unique (String.◌∷◌ c a) String.[] x y n e = absurd (omega arith)
split_unique (String.◌∷◌ c a) (String.◌∷◌ d b) x y n e =
    let split : String.◌∷◌ c (a <> x) ≡ String.◌∷◌ d (b <> y) =
      sym (cons-append c a x) ∙ e ∙ cons-append d b y in
    let (same, left) = split_unique a b x y (omega arith) (cc) in (cc, left)

quote_ends : (p : ℕ → Bool) (rest : String) → p b'"' ≡ false → stops_at p ("\"" <> rest) ≡ true
quote_ends p rest h = rw (cons-append _ "" rest) (ground arith)

-- Where a version is stated, the text determines it.
pub Stated-unique :
    (key : String) (gap : Gap) (text before before' v v' rest rest' : String)
    → taken_length before ≡ taken_length before'
    → Stated key gap text before v rest
    → Stated key gap text before' v' rest'
    → v ≡ v'
unfolding is_space
Stated-unique key gap text before before' v v' rest rest' n (s, s_blank, v_ok, e)
      (s', s'_blank, v'_ok, e') =
    let (_, behind) = split_unique before before' _ _ n (sym e ∙ e') in
    let from_key = append_cancel_left key _ _ behind in
    let (_, from_quote) =
      stretch_unique is_space s s' _ _ (gap.blank s s_blank) (gap.blank s' s'_blank)
        (quote_ends is_space (v <> ("\"" <> rest)) refl)
        (quote_ends is_space (v' <> ("\"" <> rest')) refl) from_key in
    let from_version = append_cancel_left "\"" _ _ from_quote in
    (stretch_unique not_quote v v' _ _ v_ok.0 v'_ok.0 (quote_ends not_quote rest refl)
      (quote_ends not_quote rest' refl) from_version).0
