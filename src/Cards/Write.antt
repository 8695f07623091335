-- ===== src/Cards/Write.antt =====
-- `make_card` and `main`: the cards that are written, and what is said of them.
pub mod Laws
use ex4pm.Prelude.{
  ℕ, zero, String, ◌<>◌, Bool, true, false, ◌+◌, List, [], ◌∷◌, map, Option, none, some, ◌==◌,
  string_Eq, length,
}
use ex4pm.Json.{Dict, keys, lookup}
use ex4pm.Text.{sorted, sort_by}
use ex4pm.Regex.{search}
use ex4pm.Version.{version_key, first_group}
use ex4pm.Cards.{Entry}
use ex4pm.Cards.Clusters.{list_or_empty}
use ex4pm.Cards.Skills.{law, Skill, make_skills, collect}

-- A card; `streaming`, `receipted_execution` and `authority_law` are its `capabilities`.
pub record Card : Type 0 where
  pub protocol_version : String
  pub version : String
  pub id : String
  pub name : String
  pub description : String
  pub generated_from : String
  pub generator : String
  pub supported_interfaces : List (Dict String)
  pub streaming : Bool
  pub receipted_execution : Bool
  pub authority_law : String
  pub skills : List Skill

abbrev pub protocol : String
protocol = "1.0"

abbrev pub version_or : Option String → String
version_or none = "0.0.0"
version_or (some v) = v

-- `ex4pm_version`, of the text of mix.exs
unfoldable pub ex4pm_version : String → String
ex4pm_version mix = version_or (first_group (search version_key mix))

unfoldable pub make_card : String → String → List Entry → Card
make_card mix cluster modules = record {
  protocol_version = "1.0";
  version = ex4pm_version mix;
  id = "ex4pm." <> cluster;
  name = "ex4pm " <> (cluster <> " contract-versioned capability card");
  description = law;
  generated_from = "lib/ex4pm";
  generator = "scripts/gen_agent_cards.py";
  supported_interfaces = (("protocolVersion", protocol) ∷ ("protocolBinding", "stdin") ∷ []) ∷ [];
  streaming = false;
  receipted_execution = cluster == "evidence";
  authority_law = law;
  skills = make_skills cluster modules;
}

-- `sum(...)` over the clusters, and over the modules of one
abbrev pub count_modules : Dict (List Entry) → ℕ
count_modules [] = 0
count_modules ((cluster, modules) ∷ clusters) = length modules + count_modules clusters

abbrev pub count_functions : List Entry → ℕ
count_functions [] = 0
count_functions (m ∷ modules) = length m.functions + count_functions modules

-- What the generated README says: the number of cards, the number of "public functions", and a row
-- for each card with its number of "skills"
pub record Readme : Type 0 where
  pub clusters : ℕ
  pub total : ℕ
  pub rows : List (String × ℕ)

-- The written cards, by the names of their files, and the README
pub record Written : Type 0 where
  pub cards : Dict Card
  pub readme : Readme

abbrev pub card_of : String → Dict (List Entry) → String → String × Card
card_of mix clusters cluster =
    (cluster <> ".json", make_card mix cluster (list_or_empty (lookup cluster clusters)))

abbrev pub row_of : Dict (List Entry) → String → String × ℕ
row_of clusters cluster = (cluster, count_functions (list_or_empty (lookup cluster clusters)))

unfoldable pub write_all : String → Dict (List Entry) → Written
write_all mix clusters = record {
  cards = map (card_of mix clusters) (sorted (keys clusters));
  readme = record {
    clusters = length clusters;
    total = count_modules clusters;
    rows = map (row_of clusters) (sorted (keys clusters));
  };
}

unfoldable pub main : (ℕ → Bool) → String → List (String × String) → Written
main is_word mix files = write_all mix (collect is_word files)
