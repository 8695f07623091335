-- ===== src/Crown/Evidence.antt =====
-- `within`, `verify_file`, `load_verified_json` and `canonical_hash`: how one piece of evidence is
-- reached and checked against its digest.
use ex4pm.Prelude.{
  String, List, Option, none, some, Result, ok, err, ◌>>=◌, ◌>>◌, require, expect, ◌==◌, nat_Eq,
  string_Eq,
}
use ex4pm.Text.{str_len}
use ex4pm.Json.{Json, Dict, dict, get, as_str, as_dict, of_entries, os_error, value_error}
use ex4pm.Crown.World.{
  World, Label, Failure, raised, invalid_manifest, not_an_object, digest_mismatch, escapes_root,
  missing_file, is_within,
}
pub mod Laws

module _ (w : World) where
  unfoldable pub canonical_hash : Dict Json → String
  canonical_hash d = w.sha256 (w.dumps (dict (of_entries d)))

  unfoldable pub within : String → Result Failure (List String)
  within raw = do
    let path = w.resolve raw
    require (is_within w.root path) (escapes_root raw)
    require (w.is_file path) (missing_file raw)
    ok path

  unfoldable pub verify_file : Dict Json → Label → Result Failure (List String)
  verify_file entry label = do
    raw ← expect (as_str (get "path" entry)) (invalid_manifest label)
    expected ← expect (as_str (get "sha256" entry)) (invalid_manifest label)
    require (str_len expected == 64) (invalid_manifest label)
    path ← within raw
    content ← expect (w.read path) (raised os_error)
    let observed = w.sha256 content
    require (observed == expected) (digest_mismatch label expected observed)
    ok path

  unfoldable pub load_verified_json : Dict Json → Label → Result Failure (Dict Json)
  load_verified_json entry label = do
    path ← verify_file entry label
    content ← expect (w.read path) (raised os_error)
    value ← expect (w.loads content) (raised value_error)
    expect (as_dict value) (not_an_object label)
