-- ===== src/Topology/Examples.antt =====
-- Five machines: their metadata stands in the machine, in its configuration, or in both.
use ex4pm.Prelude.{String, refl, ◌≡◌, true, List, [], ◌∷◌, All, ok, ◌>>=◌}
use ex4pm.Json.{Json, Dict, str, list, dict, of_items, of_entries}
use ex4pm.Topology.{
  Observation, field, required, missing, observe, observe_all, spread_errors, summarize, documents,
  store, qualify, machines_of, main,
}
use ex4pm.Topology.Laws.{Observed, Passing, observe_iff, observe_all-Passing}
use ex4pm.Topology.Laws.Run.{Qualified, qualify_iff}

abbrev obj : Dict Json → Json
obj d = dict (of_entries d)

abbrev machine : String → String → String → Json
machine id region domain = obj (
    ("id", str id)
    ∷ ("region", str region)
    ∷ ("state", str "started")
    ∷ (
      "config",
      obj (
          (
            "metadata",
            obj (
                ("fault_domain", str domain)
                ∷ ("region", str "overridden")
                ∷ ("ex4pm_release_digest", str "d")
                ∷ ("cert_fingerprint", str id)
                ∷ []),
          )
          ∷ []),
    )
    ∷ ("metadata", obj (("ex4pm_source_sha", str "abc") ∷ []))
    ∷ [])

abbrev machines : List Json
machines =
    machine "h1" "r1" "d1"
    ∷ machine "h2" "r2" "d2"
    ∷ machine "h3" "r2" "d3"
    ∷ machine "h4" "r2" "d3"
    ∷ machine "h5" "r2" "d3"
    ∷ []

abbrev first : Observation
first = record {
  host_id = "h1";
  region = "r1";
  fault_domain = "d1";
  release_digest = "d";
  source_sha = "abc";
  cert_fingerprint = "h1";
  state = str "started";
}

first_observed : observe "abc" (0, machine "h1" "r1" "d1") ≡ ok first
unfolding observe required missing field ◌>>=◌
first_observed = refl

observe_iff_example : Observed "abc" (machine "h1" "r1" "d1") first
observe_iff_example = (observe_iff "abc" 0 (machine "h1" "r1" "d1") first).0 first_observed

observe_all-Passing_example :
    All (Passing (λ d. "digest") "abc" 7) ((observe_all "abc" 0 machines).0)
observe_all-Passing_example = observe_all-Passing (λ d. "digest") "abc" 7 0 machines

exits_well : (qualify (λ d. "digest") (λ name. true) "abc" machines).exit ≡ 0
unfolding qualify observe_all observe required missing field ◌>>=◌ spread_errors summarize documents
    store
exits_well = refl

qualify_iff_example : Qualified (λ name. true) "abc" machines
qualify_iff_example = (qualify_iff (λ d. "digest") (λ name. true) "abc" machines).0 exits_well

-- The evidence may be the list itself or an object that holds it.
both_forms :
    main (λ d. "digest") (λ name. true) "abc" (obj (("machines", list (of_items machines)) ∷ []))
    ≡ main (λ d. "digest") (λ name. true) "abc" (list (of_items machines))
unfolding main machines_of
both_forms = refl
