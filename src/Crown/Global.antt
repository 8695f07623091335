-- ===== src/Crown/Global.antt =====
-- `verify_global`: the six global invariants and the topology attestations.
pub mod Laws
use ex4pm.Prelude.{
  ℕ, String, not, List, [], ◌∷◌, map, Result, ok, ◌>>=◌, ◌>>◌, require, expect, traverse, ◌==◌,
  string_Eq, leb, enumerate, length, to_set,
}
use ex4pm.Text.{sorted}
use ex4pm.Json.{Json, Dict, get, as_dict, as_list, as_str, is_str}
use ex4pm.Crown.World.{
  World, Failure, topology_attestation, missing_global, few_attestations, few_hosts, few_regions,
  few_domains, few_fingerprints, invariant_not_proven, invalid_attestation, wrong_source, lacks_key,
}
use ex4pm.Crown.Evidence.{load_verified_json}
use ex4pm.Crown.Powl.{require_true}

abbrev pub global_fields : List String
global_fields =
    "tls_verified" ∷ "pre_do_refusal" ∷ "during_do_ambiguous" ∷ "no_duplicate_do"
    ∷ "mixed_version_refused" ∷ "clock_skew_safe" ∷ []

-- What the five sets of the loop take from one attestation
pub record Attestation : Type 0 where
  pub provider : String
  pub host_id : String
  pub region : String
  pub fault_domain : String
  pub release_digest : String
  pub cert_fingerprint : String

-- `isinstance(att.get(key), str) and att[key]`
unfoldable pub require_text : ℕ → Dict Json → String → Result Failure String
require_text index att key = do
  value ← expect (as_str (get key att)) (lacks_key index key)
  require (not (value == "")) (lacks_key index key)
  ok value

-- The tests on a loaded attestation
unfoldable pub check_attestation : String → ℕ → Dict Json → Result Failure Attestation
check_attestation source_sha index att = do
  provider ← require_text index att "provider"
  host_id ← require_text index att "host_id"
  region ← require_text index att "region"
  fault_domain ← require_text index att "fault_domain"
  release_digest ← require_text index att "release_digest"
  cert_fingerprint ← require_text index att "cert_fingerprint"
  require (is_str (get "source_sha" att) source_sha) (wrong_source index)
  ok (record {
    provider = provider;
    host_id = host_id;
    region = region;
    fault_domain = fault_domain;
    release_digest = release_digest;
    cert_fingerprint = cert_fingerprint;
  })

pub record GlobalResult : Type 0 where
  pub hosts : ℕ
  pub regions : List String
  pub fault_domains : List String
  pub providers : List String

-- The tests on the sets after the loop
unfoldable pub check_spread : List Attestation → Result Failure GlobalResult
check_spread atts = do
  let hosts = to_set (map (λ (a : Attestation). a.host_id) atts)
  let regions = to_set (map (λ (a : Attestation). a.region) atts)
  let domains = to_set (map (λ (a : Attestation). a.fault_domain) atts)
  let fingerprints = to_set (map (λ (a : Attestation). a.cert_fingerprint) atts)
  let providers = to_set (map (λ (a : Attestation). a.provider) atts)
  require (leb 5 (length hosts)) few_hosts
  require (leb 2 (length regions)) few_regions
  require (leb 3 (length domains)) few_domains
  require (leb 5 (length fingerprints)) few_fingerprints
  ok (record {
    hosts = length hosts;
    regions = sorted regions;
    fault_domains = sorted domains;
    providers = sorted providers;
  })

module _ (w : World) where
  unfoldable pub verify_attestation : String → ℕ × Json → Result Failure Attestation
  verify_attestation source_sha (index, manifest) = do
    m ← expect (as_dict manifest) (invalid_attestation index)
    att ← load_verified_json w m (topology_attestation index)
    check_attestation source_sha index att

  unfoldable pub verify_global : Dict Json → String → Result Failure GlobalResult
  verify_global crown source_sha = do
    global_evidence ← expect (as_dict (get "global" crown)) missing_global
    require_true invariant_not_proven global_fields global_evidence
    manifests ← expect (as_list (get "attestations" global_evidence)) few_attestations
    require (leb 5 (length manifests)) few_attestations
    atts ← traverse (verify_attestation source_sha) (enumerate 0 manifests)
    check_spread atts
