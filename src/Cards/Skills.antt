-- ===== src/Cards/Skills.antt =====
-- `collect`, `make_skills` and `make_card`.
pub mod Laws
pub mod Collected
pub mod Exact
use ex4pm.Prelude.{
  ℕ, String, ◌<>◌, Bool, true, false, ◌||◌, ◌&&◌, List, [], ◌∷◌, ◌++◌, map, Option, none, some,
  contains, insert_new, ◌==◌, nat_Eq, string_Eq, leb, if◌then◌else◌, is_empty,
}
use Prim.Native.Char.{code}
use ex4pm.Json.{Dict, lookup, set_key}
use ex4pm.Text.{sort_by, split, str_le}
use ex4pm.Cards.{Module, Entry}
use ex4pm.Cards.Clusters.{cluster_for, list_or_empty}
use ex4pm.Cards.Parse.{parse_file}

abbrev pub law : String
law =
    "BRCE.execute/4 is the exclusive receipted-DO boundary; receipt proves admission, never authority"

-- `fname.replace("_", "-")`
unfoldable pub dashes : String → String
dashes String.[] = ""
dashes (String.◌∷◌ c s) =
    let rest = dashes s in if code c == b'_' then "-" <> rest else String.◌∷◌ c rest

unfoldable pub skill_id : String → String → String
unfolding dashes
skill_id cluster fname = "ex4pm." <> (cluster <> ("." <> dashes fname))

pub record Skill : Type 0 where
  pub id : String
  pub name : String
  pub description : String
  pub tags : List String
  pub source_module : String
  pub source_file : String

abbrev pub skill_of : String → Entry → String → Skill
skill_of cluster m fname = record {
  id = skill_id cluster fname;
  name = fname;
  description = m.name <> ("." <> (fname <> (" — " <> law)));
  tags = cluster ∷ [];
  source_module = m.name;
  source_file = m.source;
}

-- The turns of the two loops: each module with each of its functions
abbrev pub turns : List Entry → List (Entry × String)
turns [] = []
turns (m ∷ modules) = map (λ fname. (m, fname)) m.functions ++ turns modules

unfoldable pub new_skills : String → List String → List (Entry × String) → List Skill
new_skills cluster seen [] = []
new_skills cluster seen ((m, fname) ∷ rest) =
    let later = new_skills cluster (insert_new (skill_id cluster fname) seen) rest in
    if contains seen (skill_id cluster fname) then later else skill_of cluster m fname ∷ later

unfoldable pub make_skills : String → List Entry → List Skill
make_skills cluster modules = sort_by (λ (s : Skill). s.id) (new_skills cluster [] (turns modules))

-- The modules of one file in which a function was found
abbrev pub listed_entries : String → List Module → List Entry
listed_entries rel [] = []
listed_entries rel (m ∷ modules) =
    let rest = listed_entries rel modules in
    if is_empty m.functions
    then rest
    else record { name = m.name; functions = m.functions; source = "lib/ex4pm/" <> rel } ∷ rest

-- `clusters.setdefault(cluster, []).append(...)`, for each of them
abbrev pub add_entries : String → List Entry → Dict (List Entry) → Dict (List Entry)
add_entries cluster [] clusters = clusters
add_entries cluster (m ∷ modules) clusters =
    add_entries cluster modules
      (set_key cluster (list_or_empty (lookup cluster clusters) ++ (m ∷ [])) clusters)

abbrev pub add_to : String → List Entry → Option String → Dict (List Entry) → Dict (List Entry)
add_to rel modules none clusters = clusters
add_to rel modules (some cluster) clusters = add_entries cluster modules clusters

abbrev pub sort_modules : Dict (List Entry) → Dict (List Entry)
sort_modules [] = []
sort_modules ((cluster, modules) ∷ clusters) =
    (cluster, sort_by (λ (m : Entry). m.name) modules) ∷ sort_modules clusters

-- Paths compare by their parts.
unfoldable pub parts_le : List String → List String → Bool
unfolding str_le
parts_le [] ys = true
parts_le (x ∷ xs) [] = false
parts_le (x ∷ xs) (y ∷ ys) = if x == y then parts_le xs ys else str_le x y

unfoldable pub insert_file : String × String → List (String × String) → List (String × String)
unfolding parts_le split
insert_file f [] = f ∷ []
insert_file f (g ∷ gs) =
    if parts_le (split b'/' f.0) (split b'/' g.0) then f ∷ g ∷ gs else g ∷ insert_file f gs

-- `sorted(files)`
unfoldable pub sort_files : List (String × String) → List (String × String)
unfolding insert_file
sort_files [] = []
sort_files (f ∷ fs) = insert_file f (sort_files fs)

module _ (is_word : ℕ → Bool) where
  -- The loop over the files, each a path with its text
  unfoldable pub collect_from : Dict (List Entry) → List (String × String) → Dict (List Entry)
  collect_from clusters [] = clusters
  collect_from clusters ((rel, text) ∷ files) =
      collect_from
        (add_to rel (listed_entries rel (parse_file is_word text)) (cluster_for rel) clusters) files

  -- `files` are the sources below lib/ex4pm, in any order.
  unfoldable pub collect : List (String × String) → Dict (List Entry)
  collect files = sort_modules (collect_from [] (sort_files files))
