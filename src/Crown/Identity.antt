-- ===== src/Crown/Identity.antt =====
-- `verify_identity`: the crown's Git identity against the repository's and the admitted one.
pub mod Laws
use ex4pm.Prelude.{
  String, Bool, true, ◌||◌, Option, none, some, Result, ok, ◌>>=◌, ◌>>◌, require, expect, ◌==◌,
  nat_Eq, string_Eq,
}
use ex4pm.Text.{str_len}
use ex4pm.Json.{Json, Dict, get, as_str, os_error}
use ex4pm.Crown.World.{
  World, Failure, raised, invalid_source_sha, invalid_tree_sha, source_mismatch, tree_mismatch,
  source_not_admitted, tree_not_admitted,
}

pub record Identity : Type 0 where
  pub source_sha : String
  pub tree_sha : String

-- The test of `if expected and sha != expected`, turned round: no expectation, an empty one, or
-- the sha itself.
abbrev pub admits : Option String → String → Bool
admits none sha = true
admits (some expected) sha = expected == "" || sha == expected

unfoldable pub verify_identity :
    World → Dict Json → Option String → Option String → Result Failure Identity
verify_identity w crown expected_source expected_tree = do
  source ← expect (as_str (get "source_sha" crown)) invalid_source_sha
  require (str_len source == 40) invalid_source_sha
  tree ← expect (as_str (get "tree_sha" crown)) invalid_tree_sha
  require (str_len tree == 40) invalid_tree_sha
  observed_source ← expect (w.rev_parse "HEAD") (raised os_error)
  observed_tree ← expect (w.rev_parse "HEAD^{tree}") (raised os_error)
  require (source == observed_source) (source_mismatch source observed_source)
  require (tree == observed_tree) (tree_mismatch tree observed_tree)
  require (admits expected_source source) source_not_admitted
  require (admits expected_tree tree) tree_not_admitted
  ok (record { source_sha = source; tree_sha = tree })
