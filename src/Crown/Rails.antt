-- ===== src/Crown/Rails.antt =====
-- `verify_rails`: every execution rail is alive on its own evidence, and the rails of a
-- differential group agree.
pub mod Groups
pub mod Laws
use ex4pm.Prelude.{
  String, not, List, [], ◌∷◌, Option, none, some, Result, ok, ◌>>=◌, ◌>>◌, require, expect,
  traverse, ◌==◌, nat_Eq, string_Eq, length, is_empty, same_set, to_set,
}
use ex4pm.Text.{sorted}
use ex4pm.Json.{
  Json, Dict, str, get, as_dict, as_list, is_str, is_hashable, lookup, keys, type_error,
}
use ex4pm.Crown.World.{
  World, Failure, raised, rail_artifact, rail_result, wrong_rails, rail_not_alive,
  rail_lacks_manifests, rail_hash_mismatch, rail_result_not_alive, missing_groups, invalid_group,
  empty_group, unknown_rail, differential_mismatch,
}
use ex4pm.Crown.Evidence.{verify_file, load_verified_json, canonical_hash}

-- `sorted(REQUIRED_RAILS)`
abbrev pub required_rails : List String
required_rails = "beam" ∷ "ex4pm_plan" ∷ "nif" ∷ "remote" ∷ "wasm" ∷ []

module _ (w : World) where
  -- The body of the loop over the rails: the rail with its observed result hash
  unfoldable pub verify_rail : Dict Json → String → Result Failure (String × String)
  verify_rail rails rail = do
    entry ← expect (as_dict (get rail rails)) (rail_not_alive rail)
    require (is_str (get "standing" entry) "ALIVE") (rail_not_alive rail)
    artifact ← expect (as_dict (get "artifact" entry)) (rail_lacks_manifests rail)
    result ← expect (as_dict (get "result" entry)) (rail_lacks_manifests rail)
    _ ← verify_file w artifact (rail_artifact rail)
    result_json ← load_verified_json w result (rail_result rail)
    let observed_hash = canonical_hash w result_json
    require (is_str (get "result_hash" entry) observed_hash) (rail_hash_mismatch rail)
    require (is_str (get "standing" result_json) "ALIVE") (rail_result_not_alive rail)
    ok (rail, observed_hash)

-- `result_hashes[m]` for a member that is a rail with a hash
abbrev pub hash_of : Dict String → Json → Option String
hash_of result_hashes (str m) = lookup m result_hashes
hash_of result_hashes _ = none

-- One turn of the comprehension
unfoldable pub keep_hash :
    Option String → Result Failure (List String) → Result Failure (List String)
keep_hash none rest = rest
keep_hash (some h) rest = do hashes ← rest; ok (h ∷ hashes)

-- `[result_hashes[m] for m in members if m in result_hashes]`: a member that no dict can hold as a
-- key raises.
unfoldable pub member_hashes : Dict String → List Json → Result Failure (List String)
unfolding keep_hash
member_hashes result_hashes [] = ok []
member_hashes result_hashes (m ∷ members) =
    let rest = member_hashes result_hashes members in
    require (is_hashable m) (raised type_error) >> keep_hash (hash_of result_hashes m) rest

-- The body of the loop over the differential groups
unfoldable pub verify_group : Dict String → Json → Result Failure (Unit {0})
verify_group result_hashes group = do
  g ← expect (as_dict group) invalid_group
  members ← expect (as_list (get "rails" g)) empty_group
  require (not (is_empty members)) empty_group
  hashes ← member_hashes result_hashes members
  require (length hashes == length members) unknown_rail
  require (length (to_set hashes) == 1) (differential_mismatch (get "operation" g))

pub record RailEvidence : Type 0 where
  pub rails : List String
  pub result_hashes : Dict String

unfoldable pub verify_rails : World → Dict Json → Result Failure RailEvidence
verify_rails w crown = do
  rails ← expect (as_dict (get "rails" crown)) wrong_rails
  require (same_set (keys rails) required_rails) wrong_rails
  result_hashes ← traverse (verify_rail w rails) required_rails
  groups ← expect (as_list (get "rail_differential_groups" crown)) missing_groups
  require (not (is_empty groups)) missing_groups
  _ ← traverse (verify_group result_hashes) groups
  ok (record { rails = sorted (keys result_hashes); result_hashes = result_hashes })
