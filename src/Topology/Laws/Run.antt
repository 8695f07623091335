-- ===== src/Topology/Laws/Run.antt =====
-- The spread tests against those of the global court, and runs as a whole.
use ex4pm.Topology.{
  few_certificates, few_domains, few_regions, few_hosts, Observation, Problem, Summary, Document,
  observe, observe_all, sort_out, fewer, spread_errors, summarize, documents, store, finish,
  qualify,
}
use ex4pm.Prelude.{
  ℕ, suc, String, refl, ◌≡◌, ◌↔◌, Bool, true, false, List, [], ◌∷◌, map, Result, ok, err, All, Zip,
  arith, from_require, ok-bind, length, ap, leb, ltb, to_set, string_Eq, ◌<>◌,
}
use ex4pm.Text.{sorted}
use ex4pm.Failures.{append_nil, status_zero, not_added}
use ex4pm.Json.{Json, Dict}
use ex4pm.Crown.Global.{Attestation, GlobalResult, check_spread}
use ex4pm.Topology.Laws.{Observed, observe-Observed, observe_of_Observed, attested}

map-attested :
    (f : Attestation → String) (os : List Observation)
    → map f (map attested os) ≡ map (λ o. f (attested o)) os
map-attested f [] = refl
map-attested f (o ∷ os) = ap (λ xs. f (attested o) ∷ xs) (map-attested f os)

fewer_none : (n least : ℕ) (problem : ℕ → Problem) → fewer n least problem ≡ [] → leb least n ≡ true
fewer_none n least problem e = ground (arith, not_added (ltb n least) (problem n) e)

none_fewer : (n least : ℕ) (problem : ℕ → Problem) → leb least n ≡ true → fewer n least problem ≡ []
none_fewer n least problem e = ground arith

-- What the global court says of attestations that are spread widely enough
abbrev pub spread_of : List Attestation → GlobalResult
spread_of atts = record {
  hosts = length (to_set (map (λ (a : Attestation). a.host_id) atts));
  regions = sorted (to_set (map (λ (a : Attestation). a.region) atts));
  fault_domains = sorted (to_set (map (λ (a : Attestation). a.fault_domain) atts));
  providers = sorted (to_set (map (λ (a : Attestation). a.provider) atts));
}

check_spread_of_counts :
    (atts : List Attestation)
    → leb 5 (length (to_set (map (λ (a : Attestation). a.host_id) atts))) ≡ true
    → leb 2 (length (to_set (map (λ (a : Attestation). a.region) atts))) ≡ true
    → leb 3 (length (to_set (map (λ (a : Attestation). a.fault_domain) atts))) ≡ true
    → leb 5 (length (to_set (map (λ (a : Attestation). a.cert_fingerprint) atts))) ≡ true
    → check_spread atts ≡ ok (spread_of atts)
unfolding check_spread
check_spread_of_counts atts hosts regions domains certs =
    rw (hosts, ok-bind, regions, ok-bind, domains, ok-bind, certs, ok-bind)

spread_errors-check_spread :
    (os : List Observation)
    → spread_errors os ≡ []
    → check_spread (map attested os) ≡ ok (spread_of (map attested os))
unfolding spread_errors
spread_errors-check_spread os e =
    let (three, certs) = append_nil _ _ e in
    let (two, domains) = append_nil _ _ three in
    let (hosts, regions) = append_nil _ _ two in
    check_spread_of_counts (map attested os)
      (rw (map-attested (λ a. a.host_id) os) (fewer_none _ 5 few_hosts hosts))
      (rw (map-attested (λ a. a.region) os) (fewer_none _ 2 few_regions regions))
      (rw (map-attested (λ a. a.fault_domain) os) (fewer_none _ 3 few_domains domains))
      (rw (map-attested (λ a. a.cert_fingerprint) os) (fewer_none _ 5 few_certificates certs))

check_spread-spread_errors :
    (os : List Observation) (g : GlobalResult)
    → check_spread (map attested os) ≡ ok g
    → spread_errors os ≡ []
unfolding spread_errors check_spread
check_spread-spread_errors os g h = from_require _ _ _ h λ hosts h.
    from_require _ _ _ h λ regions h. from_require _ _ _ h λ domains h.
      from_require _ _ _ h λ certs h. rw (
        none_fewer _ 5 few_hosts (rw (map-attested (λ a. a.host_id) os) at hosts),
        none_fewer _ 2 few_regions (rw (map-attested (λ a. a.region) os) at regions),
        none_fewer _ 3 few_domains (rw (map-attested (λ a. a.fault_domain) os) at domains),
        none_fewer _ 5 few_certificates (rw (map-attested (λ a. a.cert_fingerprint) os) at certs),
      )

-- The errors of the two loops
clean_turn :
    (expected : String) (index : ℕ) (m : Json) (r : Result Problem Observation)
    (os : List Observation) (es : List Problem)
    → observe expected (index, m) ≡ r
    → (sort_out r (os, es)).1 ≡ []
    → (o : Observation) × Observed expected m o × ((sort_out r (os, es)).0 ≡ o ∷ os) × (es ≡ [])
clean_turn expected index m (err x) os es e h = absurd (ground arith)
clean_turn expected index m (ok o) os es e h = (o, observe-Observed expected index m o e, refl, h)

observe_all_clean :
    (expected : String) (index : ℕ) (machines : List Json)
    → (observe_all expected index machines).1 ≡ []
    → Zip (Observed expected) machines ((observe_all expected index machines).0)
unfolding observe_all
observe_all_clean expected index [] h = tt
observe_all_clean expected index (m ∷ machines) h =
    let (o, p, e, none_left) =
      clean_turn expected index m (observe expected (index, m)) _ _ refl h in
    rw e (p, observe_all_clean expected (suc index) machines none_left)

clean_observe_all :
    (expected : String) (index : ℕ) (machines : List Json) (os : List Observation)
    → Zip (Observed expected) machines os
    → observe_all expected index machines ≡ (os, [])
unfolding observe_all
clean_observe_all expected index [] [] z = refl
clean_observe_all expected index [] (o ∷ os) z = elim z [ ]
clean_observe_all expected index (m ∷ machines) [] z = elim z [ ]
clean_observe_all expected index (m ∷ machines) (o ∷ os) z = rw (
  observe_of_Observed expected index m o z.0,
  clean_observe_all expected (suc index) machines os z.1,
)

-- Each file that the run writes can be written.
abbrev pub AllWritable : (String → Bool) → List Observation → Type 0
AllWritable can_write os =
    All (λ (o : Observation). can_write (o.host_id <> ".json") ≡ true) os
    × (can_write "topology-summary.json" ≡ true)

store_step :
    (can_write : String → Bool) (name : String) (d : Document) (rest : List (String × Document))
    → (store can_write ((name, d) ∷ rest)).1 ≡ true
    → (can_write name ≡ true) × ((store can_write rest).1 ≡ true)
unfolding store
store_step can_write name d rest h = ground arith

store-AllWritable :
    (digest : Dict Json → String) (can_write : String → Bool) (os : List Observation) (s : Summary)
    → (store can_write (documents digest os s)).1 ≡ true
    → AllWritable can_write os
unfolding documents
store-AllWritable digest can_write [] s h = (tt, (store_step can_write _ _ [] h).0)
store-AllWritable digest can_write (o ∷ os) s h =
    let (mine, rest) = store_step can_write _ _ _ h in
    let (others, last) = store-AllWritable digest can_write os s rest in ((mine, others), last)

AllWritable-store :
    (digest : Dict Json → String) (can_write : String → Bool) (os : List Observation) (s : Summary)
    → AllWritable can_write os
    → store can_write (documents digest os s) ≡ (documents digest os s, true)
unfolding store documents
AllWritable-store digest can_write [] s (none_left, last) = rw last
AllWritable-store digest can_write (o ∷ os) s (here, last) =
    rw (AllWritable-store digest can_write os s (here.1, last), here.0)

finished :
    (stored : List (String × Document) × Bool) (s : Summary)
    → (finish stored s).exit ≡ 0
    → (stored.1 ≡ true) × (s.errors ≡ [])
finished (written, true) s h = (refl, status_zero _ h)
finished (written, false) s h = absurd (omega arith)

-- What a passing qualification has shown
pub record Qualified (can_write : String → Bool) (expected : String) (machines : List Json)
    : Type 0 where
  pub observations : List Observation
  pub observed : Zip (Observed expected) machines observations
  pub spread : check_spread (map attested observations) ≡ ok (spread_of (map attested observations))
  pub written : AllWritable can_write observations

qualify-Qualified :
    (digest : Dict Json → String) (can_write : String → Bool) (expected : String)
    (machines : List Json)
    → (qualify digest can_write expected machines).exit ≡ 0
    → Qualified can_write expected machines
unfolding qualify summarize
qualify-Qualified digest can_write expected machines h =
    let (complete, clean) = finished _ _ h in
    let (each, spread) = append_nil ((observe_all expected 0 machines).1) _ clean in
    record {
      observations = (observe_all expected 0 machines).0;
      observed = observe_all_clean expected 0 machines each;
      spread = spread_errors-check_spread _ spread;
      written = store-AllWritable digest can_write _ _ complete;
    }

Qualified-qualify :
    (digest : Dict Json → String) (can_write : String → Bool) (expected : String)
    (machines : List Json)
    → Qualified can_write expected machines
    → (qualify digest can_write expected machines).exit ≡ 0
unfolding qualify summarize
Qualified-qualify digest can_write expected machines q = rw (
  clean_observe_all expected 0 machines q.observations q.observed,
  check_spread-spread_errors q.observations _ q.spread,
  AllWritable-store digest can_write q.observations _ q.written,
)

-- A qualification exits with 0 exactly if every machine is attested, the global court finds the
-- attestations spread widely enough, and every file could be written.
pub qualify_iff :
    (digest : Dict Json → String) (can_write : String → Bool) (expected : String)
    (machines : List Json)
    → ((qualify digest can_write expected machines).exit ≡ 0)
      ↔ Qualified can_write expected machines
qualify_iff digest can_write expected machines = (
  qualify-Qualified digest can_write expected machines,
  Qualified-qualify digest can_write expected machines,
)
