-- ===== src/Crown/Verify.antt =====
-- `verify` and `main`: all the courts in turn, the seal over the evidence, and the report.
pub mod Accepts
pub mod Seal
pub mod Report
pub mod Tamper
use ex4pm.Prelude.{
  ℕ, String, Bool, true, List, [], ◌∷◌, map, Option, none, some, Result, ok, err, ◌>>=◌, ◌>>◌,
  require, expect, ◌==◌, string_Eq, if◌then◌else◌,
}
use ex4pm.Json.{
  Json, Dict, ℤ, pos, null, str, int, list, dict, get, lookup, pop, of_items, of_entries, as_dict,
  is_str, to_int, key_error, value_error, os_error,
}
use ex4pm.Crown.World.{World, Failure, raised, not_a_crown, evidence_hash_mismatch}
use ex4pm.Crown.Evidence.{canonical_hash}
use ex4pm.Crown.Identity.{Identity, verify_identity}
use ex4pm.Crown.Powl.{lift, verify_powl}
use ex4pm.Crown.Rails.{RailEvidence, verify_rails}
use ex4pm.Crown.Commands.{verify_commands}
use ex4pm.Crown.Receipts.{verify_receipts}
use ex4pm.Crown.Global.{GlobalResult, verify_global}
use ex4pm.Crown.Sabotage.{verify_sabotage}

-- The dict that `verify` returns; its `standing` is always "ALIVE".
pub record Verdict : Type 0 where
  pub source_sha : String
  pub tree_sha : String
  pub evidence_hash : String
  pub powl_cases : ℤ
  pub rail_evidence : RailEvidence
  pub commands : List String
  pub receipt_replays : ℕ
  pub global : GlobalResult
  pub sabotage_cases : ℕ

-- `supplied_hash is None or supplied_hash == observed_hash`
abbrev pub hash_agrees : Json → String → Bool
hash_agrees null observed = true
hash_agrees supplied observed = is_str supplied observed

-- The crown without its two claims about itself
unfoldable pub unsigned : Dict Json → Dict Json
unsigned crown = pop "evidence_hash" (pop "standing" crown)

-- `unsigned.pop("evidence_hash", None)`
unfoldable pub supplied_hash : Dict Json → Json
supplied_hash crown = get "evidence_hash" (pop "standing" crown)

-- `verify` on the crown once it is loaded
unfoldable pub verify_crown :
    World → Dict Json → Option String → Option String → Result Failure Verdict
verify_crown w crown expected_source expected_tree = do
  identity ← verify_identity w crown expected_source expected_tree
  powl ← verify_powl crown
  rails ← verify_rails w crown
  commands ← verify_commands w crown
  replays ← verify_receipts w crown
  global_result ← verify_global w crown (Identity.source_sha identity)
  sabotage_cases ← verify_sabotage crown
  let observed_hash = canonical_hash w (unsigned crown)
  require (hash_agrees (supplied_hash crown) observed_hash) evidence_hash_mismatch
  generated ← expect (lookup "generated_cases" powl) (raised key_error)
  cases ← lift (to_int generated)
  ok (record {
    source_sha = identity.source_sha;
    tree_sha = identity.tree_sha;
    evidence_hash = observed_hash;
    powl_cases = cases;
    rail_evidence = rails;
    commands = commands;
    receipt_replays = replays;
    global = global_result;
    sabotage_cases = sabotage_cases;
  })

-- `verify`: `crown_file` is what reading the crown gives, `none` for an `OSError`.
unfoldable pub verify :
    World → Option (List ℕ) → Option String → Option String → Result Failure Verdict
verify w crown_file expected_source expected_tree = do
  content ← expect crown_file (raised os_error)
  value ← expect (w.loads content) (raised value_error)
  crown ← expect (as_dict value) not_a_crown
  verify_crown w crown expected_source expected_tree

abbrev texts : List String → Json
texts ss = list (of_items (map str ss))

abbrev number : ℕ → Json
number n = int (pos n)

-- The dict that `main` prints and writes
unfoldable pub render : Verdict → Dict Json
render v =
    ("standing", str "ALIVE")
    ∷ ("source_sha", str v.source_sha)
    ∷ ("tree_sha", str v.tree_sha)
    ∷ ("evidence_hash", str v.evidence_hash)
    ∷ ("powl_cases", int v.powl_cases)
    ∷ (
      "rail_evidence",
      dict (
          of_entries (
            ("rails", texts v.rail_evidence.rails)
            ∷ (
              "result_hashes",
              dict (
                  of_entries (
                    map (λ ((rail, h) : String × String). (rail, str h))
                      v.rail_evidence.result_hashes)),
            )
            ∷ [])),
    )
    ∷ ("commands", texts v.commands)
    ∷ ("receipt_replays", number v.receipt_replays)
    ∷ (
      "global",
      dict (
          of_entries (
            ("hosts", number v.global.hosts)
            ∷ ("regions", texts v.global.regions)
            ∷ ("fault_domains", texts v.global.fault_domains)
            ∷ ("providers", texts v.global.providers)
            ∷ [])),
    )
    ∷ ("sabotage_cases", number v.sabotage_cases)
    ∷ ("verifier", str "scripts/verify-final-crown.py")
    ∷ []

-- What a run leaves: the exit status, the object on the standard output, the reason on the
-- standard error, and the file that was written.
pub record Run : Type 0 where
  pub exit : ℕ
  pub printed : Option (Dict Json)
  pub refused : Option Failure
  pub written : Option (String × Dict Json)

-- What `main` does with the result of `verify`. `can_write` says whether a file can be written;
-- where it cannot, the script ends with the interpreter's own report of an `OSError`.
unfoldable pub report : (String → Bool) → Option String → Result Failure Verdict → Run
report can_write output (err e) = record {
  exit = 1;
  printed = none;
  refused = some e;
  written = none;
}
report can_write none (ok v) = record {
  exit = 0;
  printed = some (render v);
  refused = none;
  written = none;
}
report can_write (some path) (ok v) =
    if path == ""
    then record { exit = 0; printed = some (render v); refused = none; written = none }
    else if can_write path
    then record {
      exit = 0;
      printed = some (render v);
      refused = none;
      written = some (path, render v);
    }
    else record { exit = 1; printed = none; refused = some (raised os_error); written = none }

-- `main` after the arguments are parsed
unfoldable pub main :
    World → (String → Bool) → Option (List ℕ) → Option String → Option String → Option String → Run
unfolding report
main w can_write crown_file expected_source expected_tree output =
    report can_write output (verify w crown_file expected_source expected_tree)
