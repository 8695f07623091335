-- ===== src/Cards/Write/Laws.antt =====
-- The written cards, and the numbers of the generated README.
use ex4pm.Prelude.{◌↔◌, ◌<>◌, Bool, Any, ℕ, ◌≤◌, String, ◌≡◌, List, length, string_Eq}
use ex4pm.Text.Sorting.{IsOrdered}
use ex4pm.Cards.{Entry}
use ex4pm.Cards.Skills.Exact.{IsAmong}
use ex4pm.Cards.Skills.Laws.{Catalogue}
use ex4pm.Cards.Skills.Collected.{by_name, Sourced}
use ex4pm.Cards.Write.{count_functions, Card}

-- The card of a cluster, with the modules that the sources of the cluster declare
pub record CardOf (is_word : ℕ → Bool) (files : List (String × String)) (rows : List (String × ℕ))
    (card : String × Card) : Type 0 where
  cluster : String
  modules : List Entry
  name : card.0 ≡ cluster <> ".json"
  id : card.1.id ≡ "ex4pm." <> cluster
  ordered : IsOrdered by_name modules
  exact : (m : Entry) → IsAmong m modules ↔ Sourced is_word files cluster m
  catalogue : Catalogue cluster modules card.1.skills
  row : Any (λ r. r ≡ (cluster, count_functions modules)) rows
  at_most : length card.1.skills ≤ count_functions modules
