-- ===== src/Cards/Skills/Exact.antt =====
-- Which modules are collected.
use ex4pm.Prelude.{
  ℕ, ◌<>◌, String, refl, sym, ap, ◌∙◌, subst, ◌≡◌, ◌⊎◌, Bool, false, List, [], ◌∷◌, ◌++◌, All, Any,
  Option, none, some, ◌==◌, string_Eq, eq_iff, Bool-cases, inl, inr, arith, is_empty,
}
use ex4pm.Json.{Dict, lookup, set_key}
use ex4pm.Json.Laws.{lookup-set_key}
use ex4pm.Text.{sort_by, insert_by, str_le, split}
use ex4pm.Regex.Laws.{Any-left, Any-right}
use ex4pm.Cards.{Module, Entry}
use ex4pm.Cards.Clusters.{cluster_for, list_or_empty}
use ex4pm.Cards.Parse.{parse_file}
use ex4pm.Cards.Parse.Laws.{parse_file-modules_in}
use ex4pm.Cards.Skills.{
  listed_entries, add_entries, add_to, sort_modules, parts_le, insert_file, sort_files,
  collect_from, collect,
}
use ex4pm.Cards.Skills.Collected.{by_name, ComesFrom, Sourced}

abbrev pub IsAmong : Entry → List Entry → Type 0
IsAmong m ms = Any (λ x. x ≡ m) ms

-- The module is listed under this cluster.
abbrev pub IsUnder : String → Entry → Dict (List Entry) → Type 0
IsUnder c m d = IsAmong m (list_or_empty (lookup c d))

pub IsAmong-All : (P : Entry → Type 0) (m : Entry) (ms : List Entry) → All P ms → IsAmong m ms → P m
IsAmong-All P m [] a i = elim i [ ]
IsAmong-All P m (x ∷ ms) a (inl e) = subst P e a.0
IsAmong-All P m (x ∷ ms) a (inr i) = IsAmong-All P m ms a.1 i

IsUnder-set_key :
    (c k : String) (m : Entry) (d : Dict (List Entry)) (extra : List Entry)
    → IsUnder c m d ⊎ ((k ≡ c) × IsAmong m extra)
    → IsUnder c m (set_key k (list_or_empty (lookup k d) ++ extra) d)
IsUnder-set_key c k m d extra h =
    subst (λ o. IsAmong m (list_or_empty o))
      (sym (lookup-set_key k c (list_or_empty (lookup k d) ++ extra) d))
      (elim (Bool-cases (k == c)) [
        | inl same ↦ rw same (joined ((eq_iff k c).0 same) h)
        | inr other ↦ rw other (kept other h)
      ])
  where
    joined :
        k ≡ c
        → IsUnder c m d ⊎ ((k ≡ c) × IsAmong m extra)
        → IsAmong m (list_or_empty (lookup k d) ++ extra)
    joined e (inl before) =
        Any-left (λ x. x ≡ m) (list_or_empty (lookup k d)) extra
          (subst (λ j. IsAmong m (list_or_empty (lookup j d))) (sym e) before)
    joined e (inr (same, new)) = Any-right (λ x. x ≡ m) (list_or_empty (lookup k d)) extra new

    kept : (k == c) ≡ false → IsUnder c m d ⊎ ((k ≡ c) × IsAmong m extra) → IsUnder c m d
    kept n (inl before) = before
    kept n (inr (same, new)) = absurd (ground (arith, n, eq_iff k c, same))

IsUnder-add_entries :
    (c k : String) (m : Entry) (ms : List Entry) (d : Dict (List Entry))
    → IsUnder c m d ⊎ ((k ≡ c) × IsAmong m ms)
    → IsUnder c m (add_entries k ms d)
IsUnder-add_entries c k m [] d (inl before) = before
IsUnder-add_entries c k m [] d (inr (same, i)) = elim i [ ]
IsUnder-add_entries c k m (x ∷ ms) d (inl before) =
    IsUnder-add_entries c k m ms _ (inl (IsUnder-set_key c k m d (x ∷ []) (inl before)))
IsUnder-add_entries c k m (x ∷ ms) d (inr (same, inl e)) =
    IsUnder-add_entries c k m ms _ (inl (IsUnder-set_key c k m d (x ∷ []) (inr (same, inl e))))
IsUnder-add_entries c k m (x ∷ ms) d (inr (same, inr i)) =
    IsUnder-add_entries c k m ms _ (inr (same, i))

IsAmong-listed_entries :
    (rel : String) (modules : List Module) (m : Entry)
    → m.source ≡ "lib/ex4pm/" <> rel
    → is_empty m.functions ≡ false
    → Any (λ (p : Module). (p.name ≡ m.name) × (p.functions ≡ m.functions)) modules
    → IsAmong m (listed_entries rel modules)
IsAmong-listed_entries rel [] m s n a = elim a [ ]
IsAmong-listed_entries rel (p ∷ modules) m s n (inl (same_name, same_functions)) =
    let full : is_empty p.functions ≡ false = ap is_empty same_functions ∙ n in
    rw full
      (inl (λ i. record { name = same_name i; functions = same_functions i; source = sym s i }))
IsAmong-listed_entries rel (p ∷ modules) m s n (inr a) = elim (Bool-cases (is_empty p.functions)) [
  | inl none_here ↦ rw none_here (IsAmong-listed_entries rel modules m s n a)
  | inr some_here ↦ rw some_here (inr (IsAmong-listed_entries rel modules m s n a))
]

module _ (is_word : ℕ → Bool) (c : String) (m : Entry) where
  abbrev OfCluster : String × String → Type 0
  OfCluster file = (cluster_for file.0 ≡ some c) × ComesFrom is_word m file

  IsUnder-collect_from :
      (files : List (String × String)) (d : Dict (List Entry))
      → IsUnder c m d ⊎ Any OfCluster files
      → IsUnder c m (collect_from is_word d files)
  unfolding collect_from
  IsUnder-collect_from [] d (inl before) = before
  IsUnder-collect_from [] d (inr a) = elim a [ ]
  IsUnder-collect_from ((rel, text) ∷ files) d h =
      IsUnder-collect_from files _ (added (cluster_for rel) refl h)
    where
      added :
          (o : Option String)
          → cluster_for rel ≡ o
          → IsUnder c m d ⊎ Any OfCluster ((rel, text) ∷ files)
          → IsUnder c m (add_to rel (listed_entries rel (parse_file is_word text)) o d)
            ⊎ Any OfCluster files
      added none e (inl before) = inl before
      added none e (inr (inl (here, from))) = absurd (let f = sym here ∙ e in cc)
      added none e (inr (inr later)) = inr later
      added (some k) e (inl before) =
          inl (
            IsUnder-add_entries c k m (listed_entries rel (parse_file is_word text)) d (inl before))
      added (some k) e (inr (inl (here, (s, n, a)))) =
          let same : k ≡ c = let f = sym e ∙ here in cc in
          inl (
            IsUnder-add_entries c k m (listed_entries rel (parse_file is_word text)) d (
              inr (
                same,
                IsAmong-listed_entries rel (parse_file is_word text) m s n (
                    subst (Any (λ (p : Module). (p.name ≡ m.name) × (p.functions ≡ m.functions)))
                      (sym (parse_file-modules_in is_word text)) a),
              )))
      added (some k) e (inr (inr later)) = inr later

Any-insert_file :
    (P : String × String → Type 0) (f : String × String) (fs : List (String × String))
    → P f ⊎ Any P fs
    → Any P (insert_file f fs)
unfolding insert_file
Any-insert_file P f [] (inl p) = inl p
Any-insert_file P f [] (inr a) = elim a [ ]
Any-insert_file P f (g ∷ gs) h = elim (Bool-cases (parts_le (split b'/' f.0) (split b'/' g.0))) [
  | inl first ↦ rw first h
  | inr after ↦ rw after (elim h [
    | inl p ↦ inr (Any-insert_file P f gs (inl p))
    | inr a ↦ elim a [ inl q ↦ inl q | inr b ↦ inr (Any-insert_file P f gs (inr b)) ]
  ])
]

Any-sort_files :
    (P : String × String → Type 0) (fs : List (String × String)) → Any P fs → Any P (sort_files fs)
unfolding sort_files
Any-sort_files P [] a = a
Any-sort_files P (f ∷ fs) (inl p) = Any-insert_file P f (sort_files fs) (inl p)
Any-sort_files P (f ∷ fs) (inr a) =
    Any-insert_file P f (sort_files fs) (inr (Any-sort_files P fs a))

IsAmong-insert_by :
    (m x : Entry) (ms : List Entry) → (x ≡ m) ⊎ IsAmong m ms → IsAmong m (insert_by by_name x ms)
unfolding insert_by
IsAmong-insert_by m x [] h = h
IsAmong-insert_by m x (y ∷ ms) h = elim (Bool-cases (str_le x.name y.name)) [
  | inl first ↦ rw first h
  | inr after ↦ rw after (elim h [
    | inl e ↦ inr (IsAmong-insert_by m x ms (inl e))
    | inr a ↦ elim a [ inl q ↦ inl q | inr b ↦ inr (IsAmong-insert_by m x ms (inr b)) ]
  ])
]

IsAmong-sort_by : (m : Entry) (ms : List Entry) → IsAmong m ms → IsAmong m (sort_by by_name ms)
unfolding sort_by
IsAmong-sort_by m [] i = i
IsAmong-sort_by m (x ∷ ms) (inl e) = IsAmong-insert_by m x (sort_by by_name ms) (inl e)
IsAmong-sort_by m (x ∷ ms) (inr i) =
    IsAmong-insert_by m x (sort_by by_name ms) (inr (IsAmong-sort_by m ms i))

IsUnder-sort_modules :
    (c : String) (m : Entry) (d : Dict (List Entry)) → IsUnder c m d → IsUnder c m (sort_modules d)
IsUnder-sort_modules c m [] i = i
IsUnder-sort_modules c m ((k, ms) ∷ d) i = elim (Bool-cases (k == c)) [
  | inl same ↦ rw same (IsAmong-sort_by m ms (rw same at i))
  | inr other ↦ rw other (IsUnder-sort_modules c m d (rw other at i))
]

-- A module that a source of a cluster opens, with a function that DEF_RE finds, is listed under
-- that cluster.
pub collect_complete :
    (is_word : ℕ → Bool) (files : List (String × String)) (c : String) (m : Entry)
    → Sourced is_word files c m
    → IsUnder c m (collect is_word files)
unfolding collect
collect_complete is_word files c m s =
    IsUnder-sort_modules c m _
      (IsUnder-collect_from is_word c m (sort_files files) [] (inr (Any-sort_files _ files s)))
