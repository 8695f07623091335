-- ===== src/Version/First.antt =====
-- The version that a text states: the first behind `@version`, or else the first behind `version:`.
use ex4pm.Prelude.{subst, ◌≤◌, String, refl, sym, ap, ◌∙◌, ◌≡◌, ◌↔◌, Option, none, some, arith}
use ex4pm.Regex.{Match, search, group_of, taken_length}
use ex4pm.Regex.Search.{Nowhere, Searched, search-Searched}
use ex4pm.Version.{keyed, at_version, version_key, first_group, or_else_group, mix_version}
use ex4pm.Version.Laws.{
  Gap, some_space, any_space, Stated, keyed-Stated, Stated-keyed, Stated-unique,
}

module _ (key : String) (gap : Gap) (text : String) where
  -- No place in the text states a version behind the key.
  abbrev pub Never : Type 0
  Never = (before v rest : String) → Stated key gap text before v rest → ⊥

  -- The first place that states a version behind the key states this one.
  abbrev pub First : String → Type 0
  First v =
      (before : String) × (rest : String) × Stated key gap text before v rest
      × ((before' v' rest' : String)
          → Stated key gap text before' v' rest'
          → taken_length before ≤ taken_length before')

  pub First-unique : (v v' : String) → First v → First v' → v ≡ v'
  First-unique v v' (before, rest, here, first) (before', rest', here', first') =
      Stated-unique key gap text before before' v v' rest rest'
        (omega (arith, first before' v' rest' here', first' before v rest here)) here here'

  pub First-Never : (v : String) → First v → Never → ⊥
  First-Never v (before, rest, here, _) never = never before v rest here

  -- What a search for the key says
  abbrev pub Answer : Option Match → Type 0
  Answer none = Never
  Answer (some m) = (v : String) × First v × (group_of 1 m.groups ≡ some v)

  nowhere-Never : Nowhere (keyed key gap.pattern) text → Never
  nowhere-Never n before v rest h =
      let (e, m) = Stated-keyed key gap text before v rest h in n before _ rest _ e m

  Searched-Answer : (o : Option Match) → Searched (keyed key gap.pattern) text o → Answer o
  Searched-Answer none n = nowhere-Never n
  Searched-Answer (some m) (before, split, found, first) =
      let (v, here, g_is) = keyed-Stated key gap text before m.taken m.rest m.groups split found in
      (
        v,
        (
          before,
          m.rest,
          here,
          λ before' v' rest' h'.
              let (e, m') = Stated-keyed key gap text before' v' rest' h' in
              first before' _ rest' _ e m',
        ),
        ap (group_of 1) g_is,
      )

-- The text states this version, or none.
pub data VersionOf (text : String) (o : Option String) : Type 0 where
  by_attribute : (v : String) → First "@version" some_space text v → o ≡ some v → VersionOf text o
  by_key :
      (v : String)
      → Never "@version" some_space text
      → First "version:" any_space text v
      → o ≡ some v
      → VersionOf text o
  unstated :
      Never "@version" some_space text
      → Never "version:" any_space text
      → o ≡ none
      → VersionOf text o

answers :
    (text : String) (a b : Option Match)
    → Answer "@version" some_space text a
    → Answer "version:" any_space text b
    → VersionOf text (or_else_group a (first_group b))
answers text (some m) b (v, first, e) h = by_attribute v first e
answers text none (some m) never (v, first, e) = by_key v never first e
answers text none none never never' = unstated never never' refl

mix_version-VersionOf : (text : String) → VersionOf text (mix_version text)
unfolding mix_version
mix_version-VersionOf text =
    answers text (search at_version text) (search version_key text)
      (Searched-Answer "@version" some_space text _ (search-Searched at_version text))
      (Searched-Answer "version:" any_space text _ (search-Searched version_key text))

VersionOf-unique :
    (text : String) (o o' : Option String) → VersionOf text o → VersionOf text o' → o ≡ o'
VersionOf-unique text o o' (by_attribute v f e) (by_attribute v' f' e') =
    e ∙ ap (λ x. some x) (First-unique "@version" some_space text v v' f f') ∙ sym e'
VersionOf-unique text o o' (by_attribute v f e) (by_key v' n f' e') =
    absurd (First-Never "@version" some_space text v f n)
VersionOf-unique text o o' (by_attribute v f e) (unstated n n' e') =
    absurd (First-Never "@version" some_space text v f n)
VersionOf-unique text o o' (by_key v n f e) (by_attribute v' f' e') =
    absurd (First-Never "@version" some_space text v' f' n)
VersionOf-unique text o o' (by_key v n f e) (by_key v' n' f' e') =
    e ∙ ap (λ x. some x) (First-unique "version:" any_space text v v' f f') ∙ sym e'
VersionOf-unique text o o' (by_key v n f e) (unstated n' m e') =
    absurd (First-Never "version:" any_space text v f m)
VersionOf-unique text o o' (unstated n m e) (by_attribute v f e') =
    absurd (First-Never "@version" some_space text v f n)
VersionOf-unique text o o' (unstated n m e) (by_key v n' f e') =
    absurd (First-Never "version:" any_space text v f m)
VersionOf-unique text o o' (unstated n m e) (unstated n' m' e') = e ∙ sym e'

-- A text has a version exactly if it is the one quoted at the first `@version`, which blank space
-- separates from it, or, where there is no such place, at the first `version:`; it has none
-- exactly if there is no such place either.
pub mix_version_iff :
    (text : String) (o : Option String) → (mix_version text ≡ o) ↔ VersionOf text o
mix_version_iff text o = (
  λ e. subst (VersionOf text) e (mix_version-VersionOf text),
  λ h. VersionOf-unique text (mix_version text) o (mix_version-VersionOf text) h,
)
