-- ===== src/Cards.antt =====
-- scripts/gen_agent_cards.py: one agent card for each cluster of the Elixir library's modules.
pub mod Clusters
pub mod Parse
pub mod Skills
pub mod Write
mod Examples
use ex4pm.Prelude.{String, List}

-- A module with the functions that are found in it
pub record Module : Type 0 where
  pub name : String
  pub functions : List String

-- The same, with the file it stands in
pub record Entry : Type 0 where
  pub name : String
  pub functions : List String
  pub source : String
