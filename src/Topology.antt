-- ===== src/Topology.antt =====
-- scripts/qualify-fly-topology.py: attestations from what Fly reports about its machines. The parsed
-- evidence, the source that was asked for and the digest function are arguments.
pub mod Field
pub mod Laws
mod Examples
use ex4pm.Prelude.{
  ℕ, suc, String, Bool, true, false, not, List, [], ◌∷◌, ◌++◌, map, Option, none, some, Result, ok,
  err, ◌>>=◌, ◌>>◌, require, expect, ◌==◌, string_Eq, if◌then◌else◌, length, is_empty, ltb, to_set,
  ◌<>◌,
}
use ex4pm.Text.{sorted}
use ex4pm.Json.{
  Json, Dict, null, str, as_dict, as_list, get, get_or, entries, lookup, value_or, dict,
}

-- `value if isinstance(value, dict) else {}`
abbrev pub dict_or_empty : Option (Dict Json) → Dict Json
dict_or_empty none = []
dict_or_empty (some d) = d

-- The first that is there
abbrev pub or_else : Option Json → Option Json → Option Json
or_else none other = other
or_else (some v) other = some v

-- A machine's own entry, then that of its configuration's metadata, then that of its metadata
unfoldable pub field : Dict Json → String → Json
field machine name =
    let config = dict_or_empty (as_dict (get "config" machine)) in
    let metadata = dict_or_empty (as_dict (get "metadata" config)) in
    let top_metadata = dict_or_empty (as_dict (get "metadata" machine)) in
    value_or null
      (or_else (lookup name machine) (or_else (lookup name metadata) (lookup name top_metadata)))

-- `errors`
pub data Problem : Type 0 where
  not_object : ℕ → Problem
  lacks_metadata : ℕ → List String → Problem
  wrong_source : ℕ → String → Problem
  few_hosts few_regions few_domains few_certificates : ℕ → Problem

-- `isinstance(value, str) and value`
abbrev pub has_text : Json → Bool
has_text (str t) = not (t == "")
has_text _ = false

-- A value that `has_text` let through; the other cases do not arise.
abbrev pub text : Json → String
text (str t) = t
text _ = ""

-- `required`
unfoldable pub required : Dict Json → Dict Json
required machine =
    ("host_id", field machine "id")
    ∷ ("region", field machine "region")
    ∷ ("fault_domain", field machine "fault_domain")
    ∷ ("release_digest", field machine "ex4pm_release_digest")
    ∷ ("source_sha", field machine "ex4pm_source_sha")
    ∷ ("cert_fingerprint", field machine "cert_fingerprint")
    ∷ []

unfoldable pub missing : Dict Json → List String
missing [] = []
missing ((name, value) ∷ rest) =
    let others = missing rest in if has_text value then others else name ∷ others

-- What varies in an `observation`
pub record Observation : Type 0 where
  pub host_id : String
  pub region : String
  pub fault_domain : String
  pub release_digest : String
  pub source_sha : String
  pub cert_fingerprint : String
  pub state : Json

-- The body of the loop over the machines
unfoldable pub observe : String → ℕ × Json → Result Problem Observation
observe expected (index, value) = do
  machine ← expect (as_dict value) (not_object index)
  let gaps = missing (required machine)
  require (is_empty gaps) (lacks_metadata index gaps)
  let source_sha = text (field machine "ex4pm_source_sha")
  require (source_sha == expected) (wrong_source index source_sha)
  ok (record {
    host_id = text (field machine "id");
    region = text (field machine "region");
    fault_domain = text (field machine "fault_domain");
    release_digest = text (field machine "ex4pm_release_digest");
    source_sha = source_sha;
    cert_fingerprint = text (field machine "cert_fingerprint");
    state = field machine "state";
  })

-- One turn either appends to `attestations` or to `errors`.
abbrev pub sort_out :
    Result Problem Observation → List Observation × List Problem → List Observation × List Problem
sort_out (ok o) (attestations, errors) = (o ∷ attestations, errors)
sort_out (err e) (attestations, errors) = (attestations, e ∷ errors)

unfoldable pub observe_all : String → ℕ → List Json → List Observation × List Problem
observe_all expected index [] = ([], [])
observe_all expected index (machine ∷ machines) =
    sort_out (observe expected (index, machine)) (observe_all expected (suc index) machines)

abbrev pub fewer : ℕ → ℕ → (ℕ → Problem) → List Problem
fewer n least problem = if ltb n least then problem n ∷ [] else []

-- The tests after the loop
unfoldable pub spread_errors : List Observation → List Problem
spread_errors attestations =
    let hosts = to_set (map (λ (o : Observation). o.host_id) attestations) in
    let regions = to_set (map (λ (o : Observation). o.region) attestations) in
    let domains = to_set (map (λ (o : Observation). o.fault_domain) attestations) in
    let certs = to_set (map (λ (o : Observation). o.cert_fingerprint) attestations) in
    fewer (length hosts) 5 few_hosts
    ++ fewer (length regions) 2 few_regions
    ++ fewer (length domains) 3 few_domains
    ++ fewer (length certs) 5 few_certificates

pub record Summary : Type 0 where
  pub standing : String
  pub source_sha : String
  pub hosts : List String
  pub regions : List String
  pub fault_domains : List String
  pub certificate_identities : ℕ
  pub errors : List Problem

unfoldable pub summarize : String → List Observation → List Problem → Summary
summarize expected attestations errors = record {
  standing = if is_empty errors then "ALIVE" else "PARTIAL_ALIVE";
  source_sha = expected;
  hosts = sorted (to_set (map (λ (o : Observation). o.host_id) attestations));
  regions = sorted (to_set (map (λ (o : Observation). o.region) attestations));
  fault_domains = sorted (to_set (map (λ (o : Observation). o.fault_domain) attestations));
  certificate_identities =
      length (to_set (map (λ (o : Observation). o.cert_fingerprint) attestations));
  errors = errors;
}

-- `observation` before its digest is added
abbrev pub entries_of : Observation → Dict Json
entries_of o =
    ("provider", str "fly.io")
    ∷ ("host_id", str o.host_id)
    ∷ ("region", str o.region)
    ∷ ("fault_domain", str o.fault_domain)
    ∷ ("release_digest", str o.release_digest)
    ∷ ("source_sha", str o.source_sha)
    ∷ ("cert_fingerprint", str o.cert_fingerprint)
    ∷ ("state", o.state)
    ∷ []

pub data Document : Type 0 where
  attestation : Dict Json → Document
  summary : Summary → Document

-- How a run ends: the exit status, the files in the order of their writing, named below the output
-- directory, and the printed summary.
pub record Run : Type 0 where
  pub exit : ℕ
  pub written : List (String × Document)
  pub printed : Option Summary

-- The machines in the evidence
unfoldable pub machines_of : Json → Option (List Json)
machines_of (dict fields) = as_list (get_or "machines" (dict fields) (entries fields))
machines_of raw = as_list raw

module _ (digest : Dict Json → String) where
  -- `observation` as it is written
  abbrev pub document : Observation → Dict Json
  document o = entries_of o ++ (("observation_digest", str (digest (entries_of o))) ∷ [])

  -- The files that the run writes
  unfoldable pub documents : List Observation → Summary → List (String × Document)
  documents [] s = ("topology-summary.json", summary s) ∷ []
  documents (o ∷ attestations) s =
      (o.host_id <> ".json", attestation (document o)) ∷ documents attestations s

-- Writing stops at the first file that cannot be written; the flag tells whether all were.
unfoldable pub store : (String → Bool) → List (String × Document) → List (String × Document) × Bool
store can_write [] = ([], true)
store can_write ((name, d) ∷ rest) =
    let (later, complete) = store can_write rest in
    if can_write name then ((name, d) ∷ later, complete) else ([], false)

-- The end of `main`. A file that cannot be written ends the run with the interpreter's report.
abbrev pub finish : List (String × Document) × Bool → Summary → Run
finish (written, true) s = record {
  exit = if is_empty s.errors then 0 else 1;
  written = written;
  printed = some s;
}
finish (written, false) s = record { exit = 1; written = written; printed = none }

unfoldable pub qualify : (Dict Json → String) → (String → Bool) → String → List Json → Run
qualify digest can_write expected machines =
    let (attestations, errors) = observe_all expected 0 machines in
    let s = summarize expected attestations (errors ++ spread_errors attestations) in
    finish (store can_write (documents digest attestations s)) s

-- `main`; evidence that is no list ends the run before anything is written.
unfoldable pub main : (Dict Json → String) → (String → Bool) → String → Json → Run
main digest can_write expected raw = elim (machines_of raw) [
  | none ↦ record { exit = 1; written = []; printed = none }
  | some machines ↦ qualify digest can_write expected machines
]
