-- ===== src/Cards/Skills/Laws.antt =====
-- The skills of a card.
use ex4pm.Prelude.{
  String, refl, sym, ◌∙◌, subst, ◌≡◌, Bool, true, false, not, ◌||◌, ◌&&◌, List, [], ◌∷◌, map, All,
  Any, contains, IsDistinct, ◌==◌, string_Eq, eq_iff, Bool-cases, inl, inr, arith,
}
use ex4pm.Text.{str_le, insert_by, sort_by}
use ex4pm.Text.Sorting.{IsOrdered, sort_by-IsOrdered, All-sort_by_iff}
use ex4pm.Cards.{Entry}
use ex4pm.Cards.Skills.{Skill, skill_id, skill_of, turns, new_skills, make_skills}

abbrev pub ids : List Skill → List String
ids skills = map (λ (s : Skill). s.id) skills

abbrev pub by_id : Skill → String
by_id s = s.id

contains-insert_by :
    (s : Skill) (skills : List Skill) (a : String)
    → contains (ids (insert_by by_id s skills)) a ≡ (a == s.id || contains (ids skills) a)
unfolding insert_by
contains-insert_by s [] a = refl
contains-insert_by s (u ∷ skills) a = elim (Bool-cases (str_le s.id u.id)) [
  | inl first ↦ rw first refl
  | inr later ↦ rw later (ground (arith, contains-insert_by s skills a))
]

insert_by-IsDistinct :
    (s : Skill) (skills : List Skill)
    → IsDistinct (ids skills)
    → contains (ids skills) s.id ≡ false
    → IsDistinct (ids (insert_by by_id s skills))
unfolding insert_by
insert_by-IsDistinct s [] d n = (refl, tt)
insert_by-IsDistinct s (u ∷ skills) d n = elim (Bool-cases (str_le s.id u.id)) [
  | inl first ↦ rw first (n, d)
  | inr later ↦ rw later (
    contains-insert_by s skills u.id ∙ ground (arith, n, d.0, eq_iff s.id u.id, eq_iff u.id s.id),
    insert_by-IsDistinct s skills d.1 (ground (arith, n)),
  )
]

contains-sort_by :
    (skills : List Skill) (a : String)
    → contains (ids (sort_by by_id skills)) a ≡ contains (ids skills) a
unfolding sort_by
contains-sort_by [] a = refl
contains-sort_by (s ∷ skills) a =
    contains-insert_by s (sort_by by_id skills) a ∙ ground (arith, contains-sort_by skills a)

sort_by-IsDistinct :
    (skills : List Skill) → IsDistinct (ids skills) → IsDistinct (ids (sort_by by_id skills))
unfolding sort_by
sort_by-IsDistinct [] d = tt
sort_by-IsDistinct (s ∷ skills) d =
    insert_by-IsDistinct s (sort_by by_id skills) (sort_by-IsDistinct skills d.1)
      (contains-sort_by skills s.id ∙ d.0)

-- The identities that the turns of the loops ask for
abbrev pub asked : String → List (Entry × String) → List String
asked cluster ts = map (λ (t : Entry × String). skill_id cluster t.1) ts

seen_already :
    (seen : List String) (i a : String) (b : Bool)
    → contains seen i ≡ true
    → (not (contains seen a) && b) ≡ (not (contains seen a) && (a == i || b))
seen_already seen i a b h = elim (Bool-cases (a == i)) [
  | inr other ↦ ground (arith, other)
  | inl same ↦
      let also : contains seen a ≡ true =
        subst (λ x. contains seen x ≡ true) (sym ((eq_iff a i).0 same)) h in
      ground (arith, also)
]

module _ (cluster : String) where
  -- Each identity that is asked for, and not seen before, is among the new ones, and no other.
  contains-new_skills :
      (seen : List String) (ts : List (Entry × String)) (a : String)
      → contains (ids (new_skills cluster seen ts)) a
        ≡ (not (contains seen a) && contains (asked cluster ts) a)
  unfolding new_skills
  contains-new_skills seen [] a = ground arith
  contains-new_skills seen ((m, fname) ∷ ts) a =
      elim (Bool-cases (contains seen (skill_id cluster fname))) [
        | inl known ↦ rw known (
            contains-new_skills seen ts a
            ∙ seen_already seen (skill_id cluster fname) a (contains (asked cluster ts) a) known)
        | inr fresh ↦
            rw (fresh, contains-new_skills (skill_id cluster fname ∷ seen) ts a)
              (let new : a ≡ skill_id cluster fname → contains seen a ≡ false =
                  λ e. subst (λ x. contains seen x ≡ false) (sym e) fresh in
                ground (arith, eq_iff a (skill_id cluster fname), new))
      ]

  new_skills-IsDistinct :
      (seen : List String) (ts : List (Entry × String))
      → IsDistinct (ids (new_skills cluster seen ts))
  unfolding new_skills
  new_skills-IsDistinct seen [] = tt
  new_skills-IsDistinct seen ((m, fname) ∷ ts) =
      elim (Bool-cases (contains seen (skill_id cluster fname))) [
        | inl known ↦ rw known (new_skills-IsDistinct seen ts)
        | inr fresh ↦ rw fresh (
          contains-new_skills (skill_id cluster fname ∷ seen) ts (skill_id cluster fname)
              ∙ ground (arith, eq_iff (skill_id cluster fname) (skill_id cluster fname)),
          new_skills-IsDistinct (skill_id cluster fname ∷ seen) ts,
        )
      ]

  -- A skill describes one of the functions of the modules.
  abbrev pub Describes : List (Entry × String) → Skill → Type 0
  Describes ts s = Any (λ t. s ≡ skill_of cluster t.0 t.1) ts

  described_later :
      (t : Entry × String) (ts : List (Entry × String)) (skills : List Skill)
      → All (Describes ts) skills
      → All (Describes (t ∷ ts)) skills
  described_later t ts [] a = tt
  described_later t ts (s ∷ skills) a = (inr a.0, described_later t ts skills a.1)

  new_skills-Describes :
      (seen : List String) (ts : List (Entry × String))
      → All (Describes ts) (new_skills cluster seen ts)
  unfolding new_skills
  new_skills-Describes seen [] = tt
  new_skills-Describes seen ((m, fname) ∷ ts) =
      elim (Bool-cases (contains seen (skill_id cluster fname))) [
        | inl known ↦ rw known (described_later (m, fname) ts _ (new_skills-Describes seen ts))
        | inr fresh ↦ rw fresh (
          inl refl,
          described_later (m, fname) ts _ (new_skills-Describes (skill_id cluster fname ∷ seen) ts),
        )
      ]

  -- The skills of a card: in the order of their identities, which differ from one another and are
  -- those of the functions, and each describes a function
  pub record Catalogue (modules : List Entry) (skills : List Skill) : Type 0 where
    pub distinct : IsDistinct (ids skills)
    pub ordered : IsOrdered by_id skills
    pub complete :
        (a : String) → contains (ids skills) a ≡ contains (asked cluster (turns modules)) a
    pub described : All (Describes (turns modules)) skills

-- A card's skills stand in the order of their identities, no two have the same one, each describes
-- a function listed in one of the card's modules, and each such function's identity is among them.
pub make_skills-Catalogue :
    (cluster : String) (modules : List Entry)
    → Catalogue cluster modules (make_skills cluster modules)
unfolding make_skills
make_skills-Catalogue cluster modules =
    let skills = new_skills cluster [] (turns modules) in
    record {
      distinct = sort_by-IsDistinct skills (new_skills-IsDistinct cluster [] (turns modules));
      ordered = sort_by-IsOrdered by_id skills;
      complete = λ a. contains-sort_by skills a ∙ contains-new_skills cluster [] (turns modules) a;
      described =
          (All-sort_by_iff by_id (Describes cluster (turns modules)) skills).1
            (new_skills-Describes cluster [] (turns modules));
    }
