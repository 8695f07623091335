-- ===== src/Cards/Examples.antt =====
-- A library of two sources
use ex4pm.Prelude.{
  ℕ, String, refl, ◌≡◌, Bool, true, false, List, [], ◌∷◌, All, contains, some, string_Eq,
}
use ex4pm.Json.{keys}
use ex4pm.Text.{split_lines, lines_from, is_space, sorted, sort_by, insert_by, str_le, is_prefix}
use ex4pm.Regex.{runs, stretches, each_then, lit, match}
use ex4pm.Cards.Clusters.{cluster_prefixes, first_cluster, cluster_for}
use ex4pm.Cards.Clusters.Laws.{LiesIn, cluster_for_iff}
use ex4pm.Cards.Parse.{read_line, read_lines, parse_file}
use ex4pm.Cards.Parse.Listed.{ListsWell, parse_file-ListsWell}
use ex4pm.Cards.Parse.Laws.{modules_in, parse_file-modules_in}

abbrev is_word : ℕ → Bool
is_word c = false

abbrev source : String
source =
    "defmodule A.B do\n  def run(x) do\n  defp hidden(x) do\n  def run(x, y) do\n  def init(x) do\n"

found : parse_file is_word source ≡ record { name = "A.B"; functions = "run" ∷ [] } ∷ []
unfolding parse_file split_lines lines_from read_lines read_line match runs stretches each_then lit
    is_space
found = refl

parse_file-modules_in_example : parse_file is_word source ≡ modules_in is_word (split_lines source)
parse_file-modules_in_example = parse_file-modules_in is_word source

parse_file-ListsWell_example : All (ListsWell (split_lines source)) (parse_file is_word source)
parse_file-ListsWell_example = parse_file-ListsWell is_word source

has_cluster : cluster_for "engine/flow.ex" ≡ some "engine"
unfolding cluster_for first_cluster sorted sort_by insert_by str_le is_prefix
has_cluster = refl

cluster_for_iff_example :
    (contains (keys cluster_prefixes) "engine" ≡ true) × LiesIn "engine/flow.ex" "engine"
cluster_for_iff_example = (cluster_for_iff "engine/flow.ex" "engine").0 has_cluster

abbrev files : List (String × String)
files = ("engine/flow.ex", source) ∷ ("other.ex", source) ∷ []

-- Definitions with a guard or with a body on their line are overlooked.
overlooked :
    parse_file is_word "defmodule A do\n  def f(x), do: x\n  def g(x) when x > 0 do\n"
    ≡ record { name = "A"; functions = [] } ∷ []
unfolding parse_file split_lines lines_from read_lines read_line match runs stretches each_then lit
    is_space
overlooked = refl
