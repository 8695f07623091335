-- ===== src/Cards/Skills/Collected.antt =====
-- Where the modules of a card come from.
use ex4pm.Prelude.{
  ℕ, ◌<>◌, String, refl, sym, subst, ◌≡◌, Bool, false, List, [], ◌∷◌, All, Any, Option, none, some,
  ◌==◌, string_Eq, eq_iff, Bool-cases, inl, inr, is_empty,
}
use ex4pm.Json.{Dict, lookup, set_key}
use ex4pm.Text.{split, split_lines}
use ex4pm.Text.Sorting.{IsOrdered, sort_by-IsOrdered, All-sort_by_iff}
use ex4pm.Regex.Laws.{All-append}
use ex4pm.Cards.{Module, Entry}
use ex4pm.Cards.Clusters.{cluster_for, list_or_empty}
use ex4pm.Cards.Parse.{parse_file}
use ex4pm.Cards.Parse.Laws.{modules_in, parse_file-modules_in}
use ex4pm.Cards.Skills.{
  listed_entries, add_entries, add_to, sort_modules, parts_le, insert_file, sort_files,
  collect_from, collect,
}

module _ {A : Type 0} (P : String → A → Type 0) where
  -- What holds of every value of every list of a dict
  abbrev pub AllUnder : Dict (List A) → Type 0
  AllUnder d = All (λ (e : String × List A). All (P e.0) e.1) d

  lookup-AllUnder :
      (k : String) (d : Dict (List A)) → AllUnder d → All (P k) (list_or_empty (lookup k d))
  lookup-AllUnder k [] a = tt
  lookup-AllUnder k ((j, v) ∷ d) a = elim (Bool-cases (j == k)) [
    | inl same ↦ rw same (subst (λ x. All (P x) v) ((eq_iff j k).0 same) a.0)
    | inr other ↦ rw other (lookup-AllUnder k d a.1)
  ]

  set_key-AllUnder :
      (k : String) (v : List A) (d : Dict (List A))
      → All (P k) v
      → AllUnder d
      → AllUnder (set_key k v d)
  unfolding set_key
  set_key-AllUnder k v [] b a = (b, tt)
  set_key-AllUnder k v ((j, w) ∷ d) b a = elim (Bool-cases (j == k)) [
    | inl same ↦ rw same (subst (λ x. All (P x) v) (sym ((eq_iff j k).0 same)) b, a.1)
    | inr other ↦ rw other (a.0, set_key-AllUnder k v d b a.1)
  ]

-- The entry is one of the modules that the lines of the file open, with at least one function.
abbrev pub ComesFrom : (ℕ → Bool) → Entry → String × String → Type 0
ComesFrom is_word m file =
    (m.source ≡ "lib/ex4pm/" <> file.0)
    × (is_empty m.functions ≡ false)
    × Any (λ (p : Module). (p.name ≡ m.name) × (p.functions ≡ m.functions))
        (modules_in is_word (split_lines file.1))

abbrev pub by_name : Entry → String
by_name m = m.name

module _ (is_word : ℕ → Bool) where
  -- Its file is one of these, and of this cluster.
  abbrev pub Sourced : List (String × String) → String → Entry → Type 0
  Sourced files cluster m =
      Any (λ file. (cluster_for file.0 ≡ some cluster) × ComesFrom is_word m file) files

  abbrev Taken : String → List Module → Entry → Type 0
  Taken rel modules m =
      (m.source ≡ "lib/ex4pm/" <> rel)
      × (is_empty m.functions ≡ false)
      × Any (λ (p : Module). (p.name ≡ m.name) × (p.functions ≡ m.functions)) modules

  Taken-later :
      (rel : String) (p : Module) (modules : List Module) (ms : List Entry)
      → All (Taken rel modules) ms
      → All (Taken rel (p ∷ modules)) ms
  Taken-later rel p modules [] a = tt
  Taken-later rel p modules (m ∷ ms) ((s, n, found), a) =
      ((s, n, inr found), Taken-later rel p modules ms a)

  listed_entries-Taken :
      (rel : String) (modules : List Module) → All (Taken rel modules) (listed_entries rel modules)
  listed_entries-Taken rel [] = tt
  listed_entries-Taken rel (p ∷ modules) = elim (Bool-cases (is_empty p.functions)) [
    | inl none_here ↦ rw none_here (Taken-later rel p modules _ (listed_entries-Taken rel modules))
    | inr some_here ↦ rw some_here (
      (refl, some_here, inl (refl, refl)),
      Taken-later rel p modules _ (listed_entries-Taken rel modules),
    )
  ]

  add_entries-AllUnder :
      (P : String → Entry → Type 0) (cluster : String) (ms : List Entry) (d : Dict (List Entry))
      → All (P cluster) ms
      → AllUnder P d
      → AllUnder P (add_entries cluster ms d)
  add_entries-AllUnder P cluster [] d b a = a
  add_entries-AllUnder P cluster (m ∷ ms) d b a = add_entries-AllUnder P cluster ms _ b.1 (
      set_key-AllUnder P cluster _ d
        (All-append (P cluster) _ (m ∷ []) (lookup-AllUnder P cluster d a) (b.0, tt)) a)

  All-weaken :
      {A : Type 0} (P Q : A → Type 0) → ((x : A) → P x → Q x) → (xs : List A) → All P xs → All Q xs
  All-weaken P Q h [] a = tt
  All-weaken P Q h (x ∷ xs) a = (h x a.0, All-weaken P Q h xs a.1)

  -- A property that the entries of each of these files have for the file's cluster, the collected ones have.
  collect_from-AllUnder :
      (P : String → Entry → Type 0) (files : List (String × String)) (d : Dict (List Entry))
      → All
          (λ file.
            (c : String)
            → cluster_for file.0 ≡ some c
            → All (P c) (listed_entries file.0 (parse_file is_word file.1)))
          files
      → AllUnder P d
      → AllUnder P (collect_from is_word d files)
  unfolding collect_from
  collect_from-AllUnder P [] d h a = a
  collect_from-AllUnder P ((rel, text) ∷ files) d h a =
      collect_from-AllUnder P files _ h.1 (added (cluster_for rel) h.0)
    where
      added :
          (o : Option String)
          → ((c : String) → o ≡ some c → All (P c) (listed_entries rel (parse_file is_word text)))
          → AllUnder P (add_to rel (listed_entries rel (parse_file is_word text)) o d)
      added none k = a
      added (some c) k =
          add_entries-AllUnder P c (listed_entries rel (parse_file is_word text)) d (k c refl) a

  All-insert_file :
      (P : String × String → Type 0) (f : String × String) (fs : List (String × String))
      → P f
      → All P fs
      → All P (insert_file f fs)
  unfolding insert_file
  All-insert_file P f [] p a = (p, tt)
  All-insert_file P f (g ∷ gs) p a =
      elim (Bool-cases (parts_le (split b'/' f.0) (split b'/' g.0))) [
        | inl first ↦ rw first (p, a)
        | inr later ↦ rw later (a.0, All-insert_file P f gs p a.1)
      ]

  All-sort_files :
      (P : String × String → Type 0) (fs : List (String × String))
      → All P fs
      → All P (sort_files fs)
  unfolding sort_files
  All-sort_files P [] a = tt
  All-sort_files P (f ∷ fs) a = All-insert_file P f (sort_files fs) a.0 (All-sort_files P fs a.1)

  abbrev OneOf : List (String × String) → String × String → Type 0
  OneOf files f = Any (λ g. g ≡ f) files

  all_members : (files : List (String × String)) → All (OneOf files) files
  all_members [] = tt
  all_members (f ∷ files) = (
    inl refl,
    All-weaken (OneOf files) (OneOf (f ∷ files)) (λ g m. inr m) files (all_members files),
  )

  Any-weaken :
      {A : Type 0} (P Q : A → Type 0) → ((x : A) → P x → Q x) → (xs : List A) → Any P xs → Any Q xs
  Any-weaken P Q h [] a = elim a [ ]
  Any-weaken P Q h (x ∷ xs) (inl p) = inl (h x p)
  Any-weaken P Q h (x ∷ xs) (inr a) = inr (Any-weaken P Q h xs a)

  as_opened :
      (f : String × String) (m : Entry)
      → Taken f.0 (parse_file is_word f.1) m
      → ComesFrom is_word m f
  as_opened f m taken =
      subst (λ modules. Taken f.0 modules m) (parse_file-modules_in is_word f.1) taken

  member-Sourced :
      (files : List (String × String)) (f : String × String)
      → OneOf files f
      → (c : String) → cluster_for f.0 ≡ some c
      → All (Sourced files c) (listed_entries f.0 (parse_file is_word f.1))
  member-Sourced files f m c h =
      All-weaken (Taken f.0 (parse_file is_word f.1)) (Sourced files c)
        (λ entry taken.
          Any-weaken (λ g. g ≡ f) (λ g. (cluster_for g.0 ≡ some c) × ComesFrom is_word entry g)
            (λ g same.
              subst (λ g. (cluster_for g.0 ≡ some c) × ComesFrom is_word entry g) (sym same)
                (h, as_opened f entry taken))
            files m)
        (listed_entries f.0 (parse_file is_word f.1))
        (listed_entries-Taken f.0 (parse_file is_word f.1))

  -- The modules of a card: in the order of their names, and each from a file of the card's cluster
  abbrev pub WellCollected : List (String × String) → String × List Entry → Type 0
  WellCollected files e = IsOrdered by_name e.1 × All (Sourced files e.0) e.1

  sort_modules-WellCollected :
      (files : List (String × String)) (d : Dict (List Entry))
      → AllUnder (Sourced files) d
      → All (WellCollected files) (sort_modules d)
  sort_modules-WellCollected files [] a = tt
  sort_modules-WellCollected files ((c, ms) ∷ d) a = (
    (sort_by-IsOrdered by_name ms, (All-sort_by_iff by_name (Sourced files c) ms).1 a.0),
    sort_modules-WellCollected files d a.1,
  )

-- Whatever the sources, each cluster's modules stand in the order of their names, and each is
-- opened by a source of this cluster, with a function that DEF_RE finds.
pub collect-WellCollected :
    (is_word : ℕ → Bool) (files : List (String × String))
    → All (WellCollected is_word files) (collect is_word files)
unfolding collect
collect-WellCollected is_word files = sort_modules-WellCollected is_word files _ (
    collect_from-AllUnder is_word (Sourced is_word files) (sort_files files) []
      (All-weaken is_word (OneOf is_word files)
        (λ file.
          (c : String)
          → cluster_for file.0 ≡ some c
          → All (Sourced is_word files c) (listed_entries file.0 (parse_file is_word file.1)))
        (λ f m. member-Sourced is_word files f m) (sort_files files)
        (All-sort_files is_word (OneOf is_word files) files (all_members is_word files)))
      tt)
