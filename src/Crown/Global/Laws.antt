-- ===== src/Crown/Global/Laws.antt =====
-- What `verify_global` accepts.
use ex4pm.Prelude.{
  Zip, All, Zip-traverse, sym, traverse-Zip, some, false, string_Eq, ◌==◌, ok-injective,
  IsDistinct-values_iff, subst, is_subset, from_expect, arith, from_bind, ok-bind, from_require,
  ◌↔◌, to_set, IsDistinct, leb, length, ℕ, String, ◌≡◌, ◌≤◌, refl, true, List,
}
use ex4pm.Crown.Global.{
  invariant_not_proven, map, ok, Attestation, GlobalResult, global_fields, require_text,
  check_attestation, check_spread, verify_attestation, verify_global,
}
use ex4pm.Json.Laws.{as_str-eq-some, is_str_iff}
use ex4pm.Text.{sorted}
use ex4pm.Json.{Json, Dict, bool, str, get, as_dict, as_list}
use ex4pm.Crown.World.{World}
use ex4pm.Crown.Evidence.Laws.{
  AttestedJson, load_verified_json-AttestedJson, load_verified_json_of_AttestedJson,
}
use ex4pm.Crown.Powl.Laws.{require_true-eq-ok, require_true_of_All}

-- The key holds this text, which is not empty.
abbrev pub HoldsText : Dict Json → String → String → Type 0
HoldsText d key s = (get key d ≡ str s) × ((s == "") ≡ false)

pub require_text_iff :
    (index : ℕ) (d : Dict Json) (key s : String)
    → (require_text index d key ≡ ok s) ↔ HoldsText d key s
unfolding require_text
require_text_iff index d key s = (
  λ h. from_expect _ _ _ h λ v p h.
      from_require _ _ _ h
        λ t h. subst (HoldsText d key) (ok-injective h) (as_str-eq-some _ p, ground arith),
  λ (p, t). rw (p, ok-bind, t, ok-bind),
)

-- The document attests this host, region and domain, for this source.
pub record Attests (source_sha : String) (d : Dict Json) (a : Attestation) : Type 0 where
  pub provider : HoldsText d "provider" a.provider
  pub host_id : HoldsText d "host_id" a.host_id
  pub region : HoldsText d "region" a.region
  pub fault_domain : HoldsText d "fault_domain" a.fault_domain
  pub release_digest : HoldsText d "release_digest" a.release_digest
  pub cert_fingerprint : HoldsText d "cert_fingerprint" a.cert_fingerprint
  pub source : get "source_sha" d ≡ str source_sha

pub check_attestation-Attests :
    (source_sha : String) (index : ℕ) (d : Dict Json) (a : Attestation)
    → check_attestation source_sha index d ≡ ok a
    → Attests source_sha d a
unfolding check_attestation
check_attestation-Attests source_sha index d a h = from_bind _ _ h λ provider p h.
    from_bind _ _ h λ host_id q h. from_bind _ _ h λ region r h. from_bind _ _ h λ fault_domain s h.
      from_bind _ _ h λ release_digest t h. from_bind _ _ h λ cert_fingerprint u h.
        from_require _ _ _ h λ v h. subst (Attests source_sha d) (ok-injective h) (record {
          provider = (require_text_iff index d _ _).0 p;
          host_id = (require_text_iff index d _ _).0 q;
          region = (require_text_iff index d _ _).0 r;
          fault_domain = (require_text_iff index d _ _).0 s;
          release_digest = (require_text_iff index d _ _).0 t;
          cert_fingerprint = (require_text_iff index d _ _).0 u;
          source = (is_str_iff _ _).0 v;
        })

pub check_attestation_of_Attests :
    (source_sha : String) (index : ℕ) (d : Dict Json) (a : Attestation)
    → Attests source_sha d a
    → check_attestation source_sha index d ≡ ok a
unfolding check_attestation
check_attestation_of_Attests source_sha index d a h = rw (
  (require_text_iff index d _ _).1 h.provider,
  ok-bind,
  (require_text_iff index d _ _).1 h.host_id,
  ok-bind,
  (require_text_iff index d _ _).1 h.region,
  ok-bind,
  (require_text_iff index d _ _).1 h.fault_domain,
  ok-bind,
  (require_text_iff index d _ _).1 h.release_digest,
  ok-bind,
  (require_text_iff index d _ _).1 h.cert_fingerprint,
  ok-bind,
  (is_str_iff _ _).1 h.source,
  ok-bind,
)

-- At least `n` distinct values of a field among the attestations
abbrev pub Distinct : ℕ → (Attestation → String) → List Attestation → Type 0
Distinct n field atts =
    (values : List String) × (n ≤ length values)
    × IsDistinct values
    × (is_subset values (map field atts) ≡ true)

-- The hosts, regions, failure domains and certificates are spread as widely as required, and
-- the result counts and lists them.
pub record Spread (atts : List Attestation) (g : GlobalResult) : Type 0 where
  pub five_hosts : Distinct 5 (λ a. a.host_id) atts
  pub two_regions : Distinct 2 (λ a. a.region) atts
  pub three_domains : Distinct 3 (λ a. a.fault_domain) atts
  pub five_certificates : Distinct 5 (λ a. a.cert_fingerprint) atts
  pub hosts : g.hosts ≡ length (to_set (map (λ (a : Attestation). a.host_id) atts))
  pub regions : g.regions ≡ sorted (to_set (map (λ (a : Attestation). a.region) atts))
  pub fault_domains :
      g.fault_domains ≡ sorted (to_set (map (λ (a : Attestation). a.fault_domain) atts))
  pub providers : g.providers ≡ sorted (to_set (map (λ (a : Attestation). a.provider) atts))

leb_iff : (a b : ℕ) → (leb a b ≡ true) ↔ (a ≤ b)
leb_iff a b = ground arith

pub check_spread-Spread :
    (atts : List Attestation) (g : GlobalResult) → check_spread atts ≡ ok g → Spread atts g
unfolding check_spread
check_spread-Spread atts g h = from_require _ _ _ h λ p h. from_require _ _ _ h λ q h.
    from_require _ _ _ h λ r h. from_require _ _ _ h λ s h.
      subst (Spread atts) (ok-injective h) (record {
        five_hosts = (IsDistinct-values_iff 5 _).0 ((leb_iff 5 _).0 p);
        two_regions = (IsDistinct-values_iff 2 _).0 ((leb_iff 2 _).0 q);
        three_domains = (IsDistinct-values_iff 3 _).0 ((leb_iff 3 _).0 r);
        five_certificates = (IsDistinct-values_iff 5 _).0 ((leb_iff 5 _).0 s);
        hosts = refl;
        regions = refl;
        fault_domains = refl;
        providers = refl;
      })

pub check_spread_of_Spread :
    (atts : List Attestation) (g : GlobalResult) → Spread atts g → check_spread atts ≡ ok g
unfolding check_spread
check_spread_of_Spread atts g s =
    rw
      (
        enough 5 _ s.five_hosts,
        ok-bind,
        enough 2 _ s.two_regions,
        ok-bind,
        enough 3 _ s.three_domains,
        ok-bind,
        enough 5 _ s.five_certificates,
        ok-bind,
      )
      (λ i. ok (record {
        hosts = sym s.hosts i;
        regions = sym s.regions i;
        fault_domains = sym s.fault_domains i;
        providers = sym s.providers i;
      }))
  where
    enough :
        (n : ℕ) (field : Attestation → String)
        → Distinct n field atts
        → leb n (length (to_set (map field atts))) ≡ true
    enough n field d = (leb_iff n _).1 ((IsDistinct-values_iff n (map field atts)).1 d)

-- A manifest with the attestation that it names
pub record Attestable (w : World) (source_sha : String) (manifest : Json) (a : Attestation)
    : Type 0 where
  pub m : Dict Json
  pub d : Dict Json
  pub object : as_dict manifest ≡ some m
  pub attested : AttestedJson w m d
  pub attests : Attests source_sha d a

verify_attestation-Attestable :
    (w : World) (source_sha : String) (i : ℕ) (manifest : Json) (a : Attestation)
    → verify_attestation w source_sha (i, manifest) ≡ ok a
    → Attestable w source_sha manifest a
unfolding verify_attestation
verify_attestation-Attestable w source_sha i manifest a h = from_expect _ _ _ h λ m object h.
    from_bind _ _ h λ d loaded h. record {
      m = m;
      d = d;
      object = object;
      attested = load_verified_json-AttestedJson w m _ d loaded;
      attests = check_attestation-Attests source_sha i d a h;
    }

verify_attestation_of_Attestable :
    (w : World) (source_sha : String) (i : ℕ) (manifest : Json) (a : Attestation)
    → Attestable w source_sha manifest a
    → verify_attestation w source_sha (i, manifest) ≡ ok a
unfolding verify_attestation
verify_attestation_of_Attestable w source_sha i manifest a h =
    rw (h.object, ok-bind, load_verified_json_of_AttestedJson w h.m h.d _ h.attested, ok-bind)
      (check_attestation_of_Attests source_sha i h.d a h.attests)

-- The six invariants are stated, every attestation is for this source, and they are spread.
pub record GlobalProven (w : World) (crown : Dict Json) (source_sha : String) (g : GlobalResult)
    : Type 0 where
  pub evidence : Dict Json
  pub manifests : List Json
  pub atts : List Attestation
  pub object : as_dict (get "global" crown) ≡ some evidence
  pub proven : All (λ f. get f evidence ≡ bool true) global_fields
  pub listed : as_list (get "attestations" evidence) ≡ some manifests
  pub five : 5 ≤ length manifests
  pub attested : Zip (Attestable w source_sha) manifests atts
  pub spread : Spread atts g

pub verify_global-GlobalProven :
    (w : World) (crown : Dict Json) (source_sha : String) (g : GlobalResult)
    → verify_global w crown source_sha ≡ ok g
    → GlobalProven w crown source_sha g
unfolding verify_global
verify_global-GlobalProven w crown source_sha g h = from_expect _ _ _ h λ evidence object h.
    from_bind _ _ h λ u proven h. from_expect _ _ _ h λ manifests listed h.
      from_require _ _ _ h λ five h. from_bind _ _ h λ atts each h. record {
        evidence = evidence;
        manifests = manifests;
        atts = atts;
        object = object;
        proven = require_true-eq-ok _ _ _ proven;
        listed = listed;
        five = (leb_iff 5 _).0 five;
        attested =
            traverse-Zip _ _ (verify_attestation-Attestable w source_sha) 0 manifests atts each;
        spread = check_spread-Spread atts g h;
      }

pub verify_global_of_GlobalProven :
    (w : World) (crown : Dict Json) (source_sha : String) (g : GlobalResult)
    → GlobalProven w crown source_sha g
    → verify_global w crown source_sha ≡ ok g
unfolding verify_global
verify_global_of_GlobalProven w crown source_sha g p =
    rw
      (
        p.object,
        ok-bind,
        require_true_of_All invariant_not_proven global_fields p.evidence p.proven,
        ok-bind,
        p.listed,
        ok-bind,
        (leb_iff 5 (length p.manifests)).1 p.five,
        ok-bind,
        Zip-traverse (verify_attestation w source_sha) (Attestable w source_sha)
            (verify_attestation_of_Attestable w source_sha) 0 p.manifests p.atts p.attested,
        ok-bind,
      )
      (check_spread_of_Spread p.atts g p.spread)

-- The global evidence is accepted exactly if its six invariants are `True`, and at least five
-- attestations are listed, all attested and for this source, among which there are five distinct
-- hosts, two regions, three failure domains and five certificates.
pub verify_global_iff :
    (w : World) (crown : Dict Json) (source_sha : String) (g : GlobalResult)
    → (verify_global w crown source_sha ≡ ok g) ↔ GlobalProven w crown source_sha g
verify_global_iff w crown source_sha g = (
  verify_global-GlobalProven w crown source_sha g,
  verify_global_of_GlobalProven w crown source_sha g,
)
