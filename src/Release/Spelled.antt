-- ===== src/Release/Spelled.antt =====
-- What the pattern of internal dependencies matches.
use ex4pm.Prelude.{ℕ, String, ◌<>◌, refl, ◌≡◌, List, [], ◌∷◌, inl, inr, nat_Eq, string_Eq}
use ex4pm.Regex.{seq, lit, some_of, maybe}
use ex4pm.Regex.Laws.{Matches}
use ex4pm.Regex.Shapes.{lit-Matches, Matches-lit, some_of-Matches, Matches-some_of}
use ex4pm.Release.{is_name, internal_dep}
use ex4pm.Release.Dependencies.{Suffix, Dependency, triple-Triple, Triple-triple}

pub internal_dep-Dependency :
    (t rest : String) (g : List (ℕ × String))
    → Matches internal_dep t rest g
    → (v : String) × Dependency t v × (g ≡ (1, v) ∷ [])
internal_dep-Dependency t rest g
      (
        t1,
        u1,
        g1,
        h1,
        is_head,
        (
          name,
          u2,
          g2,
          h2,
          is_name',
          (
            t3,
            u3,
            g3,
            h3,
            is_comma,
            (
              gap,
              u4,
              g4,
              h4,
              is_gap,
              (
                t5,
                u5,
                g5,
                h5,
                is_req,
                (
                  gap',
                  u6,
                  g6,
                  h6,
                  is_gap',
                  (v, t8, g7, h7, (inner, is_v, g7_is), is_quote, e7, k7),
                  e6,
                  k6,
                ),
                e5,
                k5,
              ),
              e4,
              k4,
            ),
            e3,
            k3,
          ),
          e2,
          k2,
        ),
        e1,
        k1,
      ) =
    let (t1_is, g1_is) = lit-Matches "{:ex4pm" t1 _ g1 is_head in
    let (suffix, g2_is) = suffix_of name (u2 <> rest) g2 is_name' in
    let (t3_is, g3_is) = lit-Matches "," t3 _ g3 is_comma in
    let (t5_is, g5_is) = lit-Matches "\"~>" t5 _ g5 is_req in
    let (v_ok, inner_is) = triple-Triple v (t8 <> rest) inner is_v in
    let (t8_is, h7_is) = lit-Matches "\"" t8 _ h7 is_quote in
    let inside : u6 ≡ v <> "\"" = cc in
    let whole : t ≡ "{:ex4pm" <> (name <> ("," <> (gap <> ("\"~>" <> (gap' <> (v <> "\"")))))) =
      cc in
    let gap_is = is_gap.1 in
    let gap'_is = is_gap'.1 in
    let groups : g ≡ (1, v) ∷ [] = cc in
    (
      v,
      record {
        name = name;
        gap = gap;
        gap' = gap';
        suffix = suffix;
        blank = is_gap.0;
        blank' = is_gap'.0;
        version = v_ok;
        spelled = whole;
      },
      groups,
    )
  where
    suffix_of :
        (name rest : String) (g : List (ℕ × String))
        → Matches (maybe (seq (lit "_") (some_of is_name))) name rest g
        → Suffix name × (g ≡ [])
    suffix_of name rest g (inr (e, k)) = (inl e, k)
    suffix_of name rest g (inl (a, n, g1, g2, is_bar, is_n, e, k)) =
        let (a_is, g1_is) = lit-Matches "_" a _ g1 is_bar in
        let (n_ok, g2_is) = some_of-Matches is_name n "" g2 is_n in (inr (n, n_ok, cc), cc)

pub Dependency-internal_dep :
    (t v rest : String) → Dependency t v → Matches internal_dep t rest ((1, v) ∷ [])
Dependency-internal_dep t v rest d = (
  "{:ex4pm",
  _,
  [],
  (1, v) ∷ [],
  Matches-lit "{:ex4pm" _,
  (
    d.name,
    _,
    [],
    (1, v) ∷ [],
    of_suffix d.name _ d.suffix,
    (
      ",",
      _,
      [],
      (1, v) ∷ [],
      Matches-lit "," _,
      (
        d.gap,
        _,
        [],
        (1, v) ∷ [],
        (d.blank, refl),
        (
          "\"~>",
          _,
          [],
          (1, v) ∷ [],
          Matches-lit "\"~>" _,
          (
            d.gap',
            _,
            [],
            (1, v) ∷ [],
            (d.blank', refl),
            (
              v,
              "\"",
              (1, v) ∷ [],
              [],
              ([], Triple-triple v _ d.version, refl),
              Matches-lit "\"" rest,
              refl,
              refl,
            ),
            refl,
            refl,
          ),
          refl,
          refl,
        ),
        refl,
        refl,
      ),
      refl,
      refl,
    ),
    refl,
    refl,
  ),
  d.spelled,
  refl,
)
  where
    of_suffix :
        (name rest : String)
        → Suffix name
        → Matches (maybe (seq (lit "_") (some_of is_name))) name rest []
    of_suffix name rest (inl e) = inr (e, refl)
    of_suffix name rest (inr (n, n_ok, e)) =
        inl ("_", n, [], [], Matches-lit "_" _, Matches-some_of is_name n rest n_ok, e, refl)
