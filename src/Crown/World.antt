-- ===== src/Crown/World.antt =====
-- What the verifier sees of the world outside, and the reasons for which it refuses.
-- The file system and the repository are fixed while one run lasts. Paths are resolved paths, as
-- lists of their parts.
use ex4pm.Prelude.{ℕ, String, Bool, true, false, ◌&&◌, List, [], ◌∷◌, ◌==◌, string_Eq, Option}
use ex4pm.Json.{Json, Exception}

pub record World : Type 0 where
  -- `root.resolve()` and `(root / raw).resolve()`
  pub root : List String
  pub resolve : String → List String
  pub is_file : List String → Bool
  -- The bytes of a file; `none` is an `OSError`.
  pub read : List String → Option (List ℕ)
  -- `json.loads` of the decoded bytes; `none` is a decoding error.
  pub loads : List ℕ → Option Json
  -- The canonical `json.dumps(value, sort_keys=True, separators=(",", ":"))`, encoded
  pub dumps : Json → List ℕ
  -- `hashlib.sha256(data).hexdigest()`
  pub sha256 : List ℕ → String
  -- `git rev-parse`, stripped; `none` is a failing command.
  pub rev_parse : String → Option String

-- The labels that messages give to a piece of evidence
pub data Label : Type 0 where
  rail_artifact rail_result : String → Label
  command_log receipt_replay topology_attestation : ℕ → Label

-- Each `fail` of the script with what its message shows, and an exception of the interpreter.
pub data Failure : Type 0 where
  raised : Exception → Failure
  -- verify_file, within, load_verified_json
  invalid_manifest not_an_object : Label → Failure
  digest_mismatch : Label → String → String → Failure
  escapes_root missing_file : String → Failure
  -- verify_identity
  invalid_source_sha invalid_tree_sha : Failure
  source_mismatch tree_mismatch : String → String → Failure
  source_not_admitted tree_not_admitted : Failure
  -- verify_powl
  missing_powl few_cases few_samples : Failure
  powl_not_proven : String → Failure
  -- verify_rails
  wrong_rails missing_groups invalid_group empty_group unknown_rail : Failure
  rail_not_alive rail_lacks_manifests rail_hash_mismatch rail_result_not_alive : String → Failure
  differential_mismatch : Json → Failure
  -- verify_commands
  missing_commands : Failure
  bad_exit lacks_log lacks_command : ℕ → Failure
  -- verify_receipts
  missing_receipts : Failure
  invalid_receipt not_chain_match grants_retry : ℕ → Failure
  -- verify_global
  missing_global few_attestations few_hosts few_regions few_domains few_fingerprints : Failure
  invariant_not_proven : String → Failure
  invalid_attestation wrong_source : ℕ → Failure
  lacks_key : ℕ → String → Failure
  -- verify_sabotage
  missing_sabotage : Failure
  missing_cases survived : List String → Failure
  -- verify
  not_a_crown evidence_hash_mismatch : Failure

-- `path.relative_to(root)` does not raise.
abbrev pub is_within : List String → List String → Bool
is_within [] path = true
is_within (r ∷ root) [] = false
is_within (r ∷ root) (p ∷ path) = r == p && is_within root path
