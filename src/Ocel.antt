-- ===== src/Ocel.antt =====
-- scripts/emit-ocel.py: one observation about a verification, bound to its receipt. This file has
-- what the parts share; `Run` is `main`.
pub mod Admission
pub mod Document
pub mod Spool
pub mod Post
pub mod Run
mod Examples
use ex4pm.Prelude.{String, List, ℕ, Option}
use ex4pm.Json.{Json, Exception}

-- The parsed command line; `output` is `none` where it is not given.
pub record Args : Type 0 where
  pub activity : String
  pub standing : String
  pub authority_domain : String
  pub agent_id : String
  pub run_id : String
  pub sequence : String
  pub repo : String
  pub sha : String
  pub receipt : String
  pub output : Option String

-- What `json.loads` makes of bytes: a value, a `JSONDecodeError`, or another exception
pub data Loaded : Type 0 where
  value : Json → Loaded
  malformed : Loaded
  raises : Exception → Loaded

-- The ways in which the script ends early: a refused command line, its own `SystemExit`s, and
-- exceptions of the interpreter.
pub data Refusal : Type 0 where
  usage : Refusal
  is_blank : String → Refusal
  malformed_repo malformed_sha : Refusal
  no_receipt invalid_json not_an_object wrong_subject wrong_standing no_zero_exit : Refusal
  malformed_url ingest_failed : Refusal
  http_status : ℕ → Refusal
  raised : Exception → Refusal
