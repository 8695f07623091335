-- ===== src/Crown/Examples.antt =====
-- A small evidence tree with a crown that is accepted, for the theorems at concrete data.
mod Courts
use ex4pm.Crown.Sabotage.Laws.{verify_sabotage_iff, SabotageDetected}
use ex4pm.Crown.Receipts.Laws.{verify_receipts_iff, ReceiptsProven}
use ex4pm.Crown.Commands.Laws.{verify_commands_iff, CommandsProven}
use ex4pm.Crown.Identity.Laws.{verify_identity_iff, IdentityProven}
use ex4pm.Crown.Rails.Laws.{verify_rails_iff, RailsAgree}
use ex4pm.Crown.Global.Laws.{verify_global_iff, GlobalProven}
use ex4pm.Crown.Powl.Laws.{verify_powl_iff, PowlProven}
use ex4pm.Crown.Identity.{Identity, verify_identity}
use ex4pm.Crown.Verify.Tamper.{
  list_of, dict_of, log_manifests, rail_manifests, manifests, tampered_refused,
}
use ex4pm.Crown.Verify.Report.{main_alive}
use mathlib.Core.List.{Mem, mem-cons_of_mem, mem-cons_self}
use ex4pm.Json.{
  os_error, set_key, pop, Json, Dict, bool, int, pos, str, list, dict, of_items, of_entries, to_int,
}
use ex4pm.Crown.Evidence.Laws.{Attested, verify_file_iff}
use ex4pm.Crown.Verify.{
  render, report, unsigned, supplied_hash, verify, main, Verdict, verify_crown,
}
use ex4pm.Crown.World.{raised, command_log, Failure, World}
use ex4pm.Prelude.{
  eq_iff, ◌∙◌, arith, ◌≢◌, ◌==◌, if◌then◌else◌, refl, ℕ, ◌≡◌, String, true, List, [], ◌∷◌, map,
  Option, none, some, Result, ok, ◌>>=◌, string_Eq, nat_Eq, traverse,
}
use ex4pm.Crown.Verify.Seal.{
  verify_crown-wrong_seal, verify_crown-set_standing, verify_crown-seal, seal,
}
use ex4pm.Crown.Verify.Accepts.{verify_crown_iff, Accepted}
use ex4pm.Text.{sorted, str_len}
use ex4pm.Crown.Sabotage.{survivors, missing_of, verify_sabotage, required_sabotage}
use ex4pm.Crown.Global.{
  check_spread, require_text, check_attestation, verify_attestation, verify_global, global_fields,
}
use ex4pm.Crown.Receipts.{verify_receipt, verify_receipts}
use ex4pm.Crown.Commands.{verify_command, verify_commands}
use ex4pm.Crown.Rails.{member_hashes, verify_group, verify_rail, verify_rails, required_rails}
use ex4pm.Crown.Evidence.{canonical_hash, load_verified_json, within, verify_file}
use ex4pm.Crown.Powl.{require_true, verify_powl, powl_fields}

abbrev sha : String
sha = "0123456789012345678901234567890123456789"

abbrev digest : String
digest = "0123456789abcdef0123456789abcdef0123456789abcdef0123456789abcdef"

abbrev obj : Dict Json → Json
obj d = dict (of_entries d)

abbrev arr : List Json → Json
arr xs = list (of_items xs)

abbrev manifest : String → Json
manifest name = obj (("path", str name) ∷ ("sha256", str digest) ∷ [])

-- One document serves as result and as receipt; five are attestations.
abbrev result_doc : Json
result_doc = obj (("standing", str "ALIVE") ∷ ("replay", str "chain_match") ∷ [])

abbrev attestation_doc : String → String → String → Json
attestation_doc host region domain = obj (
    ("provider", str "fly.io")
    ∷ ("host_id", str host)
    ∷ ("region", str region)
    ∷ ("fault_domain", str domain)
    ∷ ("release_digest", str "d")
    ∷ ("cert_fingerprint", str host)
    ∷ ("source_sha", str sha)
    ∷ [])

abbrev content_of : String → List ℕ
content_of name =
    if name == "a1"
    then 1 ∷ []
    else if name == "a2"
    then 2 ∷ []
    else if name == "a3"
    then 3 ∷ []
    else if name == "a4"
    then 4 ∷ []
    else if name == "a5"
    then 5 ∷ []
    else if name == "bad"
    then 9 ∷ []
    else 0 ∷ []

abbrev rail_entry : Json
rail_entry = obj (
    ("standing", str "ALIVE")
    ∷ ("artifact", manifest "bin")
    ∷ ("result", manifest "r")
    ∷ ("result_hash", str digest)
    ∷ [])

abbrev yes_fields : List String → Dict Json
yes_fields = map (λ f. (f, bool true))

abbrev crown_with : Json → Dict Json
crown_with log =
    ("standing", str "CLAIMED")
    ∷ ("source_sha", str sha)
    ∷ ("tree_sha", str sha)
    ∷ (
      "powl",
      obj (
          ("generated_cases", int (pos 4096))
          ∷ ("reactor_samples", int (pos 64))
          ∷ yes_fields powl_fields),
    )
    ∷ ("rails", obj (map (λ r. (r, rail_entry)) required_rails))
    ∷ (
      "rail_differential_groups",
      arr (
          obj (("operation", str "plan") ∷ ("rails", arr (str "wasm" ∷ str "nif" ∷ [])) ∷ []) ∷ []),
    )
    ∷ (
      "commands",
      arr (obj (("exit", int (pos 0)) ∷ ("log", log) ∷ ("command", str "mix verify") ∷ []) ∷ []),
    )
    ∷ ("receipt_replays", arr (manifest "r" ∷ []))
    ∷ (
      "global",
      obj (
          (
            "attestations",
            arr (
                manifest "a1" ∷ manifest "a2" ∷ manifest "a3" ∷ manifest "a4" ∷ manifest "a5" ∷ []),
          )
          ∷ yes_fields global_fields),
    )
    ∷ ("sabotage", obj (map (λ s. (s, str "DETECTED")) required_sabotage))
    ∷ []

abbrev crown : Dict Json
crown = crown_with (manifest "log")

abbrev doc_of : List ℕ → Option Json
doc_of [] = none
doc_of (n ∷ _) =
    if n == 0
    then some result_doc
    else if n == 1
    then some (attestation_doc "h1" "r1" "d1")
    else if n == 2
    then some (attestation_doc "h2" "r2" "d2")
    else if n == 3
    then some (attestation_doc "h3" "r2" "d3")
    else if n == 4
    then some (attestation_doc "h4" "r2" "d3")
    else if n == 6
    then some (obj crown)
    else some (attestation_doc "h5" "r2" "d3")

abbrev last : List String → String
last [] = ""
last (x ∷ []) = x
last (x ∷ xs) = last xs

abbrev world : World
world = record {
  root = "ev" ∷ [];
  resolve = λ raw. "ev" ∷ raw ∷ [];
  is_file = λ path. true;
  read = λ path. some (content_of (last path));
  loads = doc_of;
  dumps = λ v. 7 ∷ [];
  sha256 = λ bytes. elim bytes [ [] ↦ "" | n ∷ ns ↦ if n == 9 then "other" else digest ];
  rev_parse = λ revision. some sha;
}

abbrev verdict : Verdict
verdict = record {
  source_sha = sha;
  tree_sha = sha;
  evidence_hash = digest;
  powl_cases = pos 4096;
  rail_evidence = record {
    rails = required_rails;
    result_hashes = map (λ r. (r, digest)) required_rails;
  };
  commands = "mix verify" ∷ [];
  receipt_replays = 1;
  global = record {
    hosts = 5;
    regions = "r1" ∷ "r2" ∷ [];
    fault_domains = "d1" ∷ "d2" ∷ "d3" ∷ [];
    providers = "fly.io" ∷ [];
  };
  sabotage_cases = 19;
}

-- The definitions that a run computes through
run : Dict Json → Result Failure Verdict
unfolding verify_crown ◌>>=◌ traverse verify_identity str_len verify_powl require_true to_int
    verify_rails verify_rail verify_file within load_verified_json canonical_hash verify_group
    member_hashes verify_commands verify_command verify_receipts verify_receipt verify_global
    verify_attestation check_attestation require_text check_spread verify_sabotage missing_of
    survivors supplied_hash unsigned pop sorted
run c = verify_crown world c none (some sha)

accepted : verify_crown world crown none (some sha) ≡ ok verdict
unfolding run
accepted = refl

verify_crown_iff_example : Accepted world crown none (some sha) verdict
verify_crown_iff_example = (verify_crown_iff world crown none (some sha) verdict).0 accepted

verify_crown-set_standing_example :
    verify_crown world (set_key "standing" (str "REFUSED") crown) none (some sha) ≡ ok verdict
verify_crown-set_standing_example =
    verify_crown-set_standing world crown (str "REFUSED") none (some sha) ∙ accepted

verify_crown-seal_example : verify_crown world (seal world crown) none (some sha) ≡ ok verdict
verify_crown-seal_example = verify_crown-seal world crown none (some sha) verdict accepted

wrong_hash : "wrong" ≢ canonical_hash world (unsigned crown)
unfolding canonical_hash unsigned pop
wrong_hash = ground (arith, eq_iff "wrong" digest)

verify_crown-wrong_seal_example :
    verify_crown world (set_key "evidence_hash" (str "wrong") crown) none (some sha) ≢ ok verdict
verify_crown-wrong_seal_example =
    verify_crown-wrong_seal world crown none (some sha) "wrong" verdict wrong_hash

abbrev bad_log : Dict Json
bad_log = ("path", str "bad") ∷ ("sha256", str digest) ∷ []

other_digest : ◌≢◌ {A = String} "other" digest
other_digest = ground (arith, eq_iff "other" digest)

named_log : Mem bad_log (manifests (crown_with (obj bad_log)))
unfolding manifests rail_manifests log_manifests dict_of list_of
named_log = mem-cons_of_mem _ (
    mem-cons_of_mem _ (
      mem-cons_of_mem _ (
        mem-cons_of_mem _ (
          mem-cons_of_mem _ (
            mem-cons_of_mem _ (
              mem-cons_of_mem _
                (mem-cons_of_mem _ (mem-cons_of_mem _ (mem-cons_of_mem _ mem-cons_self)))))))))

tampered_refused_example :
    verify_crown world (crown_with (obj bad_log)) none (some sha) ≢ ok verdict
tampered_refused_example =
    tampered_refused world (crown_with (obj bad_log)) bad_log none (some sha) "bad" digest (9 ∷ [])
      named_log refl refl refl other_digest verdict

abbrev result_manifest : Dict Json
result_manifest = ("path", str "r") ∷ ("sha256", str digest) ∷ []

file_accepted : verify_file world result_manifest (command_log 0) ≡ ok ("ev" ∷ "r" ∷ [])
unfolding run
file_accepted = refl

verify_file_iff_example : Attested world result_manifest ("ev" ∷ "r" ∷ [])
verify_file_iff_example =
    (verify_file_iff world result_manifest (command_log 0) ("ev" ∷ "r" ∷ [])).0 file_accepted

-- A run on the file that holds the crown
main_runs :
    main world (λ path. true) (some (6 ∷ [])) none (some sha) none
    ≡ report (λ path. true) none (ok verdict)
unfolding main verify run
main_runs = refl

exits_well : (main world (λ path. true) (some (6 ∷ [])) none (some sha) none).exit ≡ 0
unfolding main verify run
exits_well = refl

main_alive_example :
    (v : Verdict) × (verify world (some (6 ∷ [])) none (some sha) ≡ ok v)
    × ((main world (λ path. true) (some (6 ∷ [])) none (some sha) none).printed ≡ some (render v))
    × ((main world (λ path. true) (some (6 ∷ [])) none (some sha) none).refused ≡ none)
main_alive_example = main_alive world (λ path. true) (some (6 ∷ [])) none (some sha) none exits_well
