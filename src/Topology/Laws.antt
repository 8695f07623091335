-- ===== src/Topology/Laws.antt =====
-- Which machines are attested, and what a run that passes has shown to the global court.
pub mod Run
use ex4pm.Prelude.{
  ℕ, suc, String, refl, ◌≡◌, ◌↔◌, Bool, true, false, not, List, [], ◌∷◌, ◌++◌, map, Option, none,
  some, Result, ok, err, All, Zip, string_Eq, ◌==◌, eq_iff, arith, from_expect, from_require,
  from_bind, ok-bind, is_empty, length, ok-injective, ap, ◌∙◌, sym, subst,
}
use ex4pm.Json.{Json, Dict, null, bool, int, float, str, list, dict, get, as_dict}
use ex4pm.Crown.Global.{Attestation, check_attestation}
use ex4pm.Crown.Global.Laws.{Attests, check_attestation_of_Attests}
use ex4pm.Topology.Field.{Gives, FieldOrNull, field_iff, field_text_iff}
use ex4pm.Topology.{
  field, has_text, text, required, missing, Observation, Problem, observe, observe_all, sort_out,
  document, entries_of,
}

-- The machine gives this text, which is not empty, for the field.
abbrev pub FieldText : Dict Json → String → String → Type 0
FieldText machine name s = Gives machine name (str s) × ((s == "") ≡ false)

-- The machine is an object with all that is required, for the source that was asked for.
pub record Observed (expected : String) (value : Json) (o : Observation) : Type 0 where
  pub machine : Dict Json
  pub object : as_dict value ≡ some machine
  pub host_id : FieldText machine "id" o.host_id
  pub region : FieldText machine "region" o.region
  pub fault_domain : FieldText machine "fault_domain" o.fault_domain
  pub release_digest : FieldText machine "ex4pm_release_digest" o.release_digest
  pub source_sha : FieldText machine "ex4pm_source_sha" o.source_sha
  pub cert_fingerprint : FieldText machine "cert_fingerprint" o.cert_fingerprint
  pub source : o.source_sha ≡ expected
  pub state : FieldOrNull machine "state" o.state

text_of_has_text : (v : Json) → has_text v ≡ true → (v ≡ str (text v)) × ((text v == "") ≡ false)
text_of_has_text null h = absurd (ground arith)
text_of_has_text (bool b) h = absurd (ground arith)
text_of_has_text (int n) h = absurd (ground arith)
text_of_has_text (float x) h = absurd (ground arith)
text_of_has_text (str t) h = (refl, ground arith)
text_of_has_text (list xs) h = absurd (ground arith)
text_of_has_text (dict d) h = absurd (ground arith)

none_missing :
    (d : Dict Json)
    → is_empty (missing d) ≡ true
    → All (λ (e : String × Json). has_text e.1 ≡ true) d
unfolding missing
none_missing [] h = tt
none_missing ((name, v) ∷ d) h = (ground arith, none_missing d (ground arith))

missing_none : (d : Dict Json) → All (λ (e : String × Json). has_text e.1 ≡ true) d → missing d ≡ []
unfolding missing
missing_none [] h = refl
missing_none ((name, v) ∷ d) h = rw (h.0, missing_none d h.1)

given_text :
    (machine : Dict Json) (name : String)
    → has_text (field machine name) ≡ true
    → FieldText machine name (text (field machine name))
given_text machine name h =
    let (is_text, full) = text_of_has_text (field machine name) h in
    ((field_text_iff machine name (text (field machine name))).0 is_text, full)

read_text :
    (machine : Dict Json) (name s : String) → FieldText machine name s → field machine name ≡ str s
read_text machine name s (given, full) = (field_text_iff machine name s).1 given

pub observe-Observed :
    (expected : String) (index : ℕ) (value : Json) (o : Observation)
    → observe expected (index, value) ≡ ok o
    → Observed expected value o
unfolding observe required
observe-Observed expected index value o h = from_expect _ _ _ h λ machine object h.
    from_require _ _ _ h λ full h. from_require _ _ _ h λ source h.
      let (a, (b, (c, (d, (e, (f, _)))))) = none_missing (required machine) full in
      subst (Observed expected value) (ok-injective h) (record {
        machine = machine;
        object = object;
        host_id = given_text machine "id" a;
        region = given_text machine "region" b;
        fault_domain = given_text machine "fault_domain" c;
        release_digest = given_text machine "ex4pm_release_digest" d;
        source_sha = given_text machine "ex4pm_source_sha" e;
        cert_fingerprint = given_text machine "cert_fingerprint" f;
        source = (eq_iff _ _).0 source;
        state = (field_iff machine "state" (field machine "state")).0 refl;
      })

read_has_text :
    (machine : Dict Json) (name s : String)
    → FieldText machine name s
    → has_text (field machine name) ≡ true
read_has_text machine name s given = rw (read_text machine name s given, given.1)

pub observe_of_Observed :
    (expected : String) (index : ℕ) (value : Json) (o : Observation)
    → Observed expected value o
    → observe expected (index, value) ≡ ok o
unfolding observe required
observe_of_Observed expected index value o p =
    rw
      (
        p.object,
        ok-bind,
        missing_none (required p.machine) (
          read_has_text p.machine "id" o.host_id p.host_id,
          (
            read_has_text p.machine "region" o.region p.region,
            (
              read_has_text p.machine "fault_domain" o.fault_domain p.fault_domain,
              (
                read_has_text p.machine "ex4pm_release_digest" o.release_digest p.release_digest,
                (
                  read_has_text p.machine "ex4pm_source_sha" o.source_sha p.source_sha,
                  (
                    read_has_text p.machine "cert_fingerprint" o.cert_fingerprint
                        p.cert_fingerprint,
                    tt,
                  ),
                ),
              ),
            ),
          ),
        ),
        ok-bind,
        read_text p.machine "id" o.host_id p.host_id,
        read_text p.machine "region" o.region p.region,
        read_text p.machine "fault_domain" o.fault_domain p.fault_domain,
        read_text p.machine "ex4pm_release_digest" o.release_digest p.release_digest,
        read_text p.machine "ex4pm_source_sha" o.source_sha p.source_sha,
        read_text p.machine "cert_fingerprint" o.cert_fingerprint p.cert_fingerprint,
        (eq_iff o.source_sha expected).1 p.source,
        ok-bind,
      )
      (λ i. ok (record {
        host_id = o.host_id;
        region = o.region;
        fault_domain = o.fault_domain;
        release_digest = o.release_digest;
        source_sha = o.source_sha;
        cert_fingerprint = o.cert_fingerprint;
        state = (field_iff p.machine "state" o.state).1 p.state i;
      }))

-- A machine is attested exactly if it is an object that gives six texts, none of them empty, for
-- the source that was asked for: each is the machine's own entry, or else that in its
-- configuration's metadata, or else that in its own metadata.
pub observe_iff :
    (expected : String) (index : ℕ) (value : Json) (o : Observation)
    → (observe expected (index, value) ≡ ok o) ↔ Observed expected value o
observe_iff expected index value o =
    (observe-Observed expected index value o, observe_of_Observed expected index value o)

-- What the global court reads in the written file
abbrev pub attested : Observation → Attestation
attested o = record {
  provider = "fly.io";
  host_id = o.host_id;
  region = o.region;
  fault_domain = o.fault_domain;
  release_digest = o.release_digest;
  cert_fingerprint = o.cert_fingerprint;
}

Observed-Attests :
    (digest : Dict Json → String) (expected : String) (value : Json) (o : Observation)
    → Observed expected value o
    → Attests expected (document digest o) (attested o)
Observed-Attests digest expected value o p = record {
  provider = (refl, refl);
  host_id = (refl, p.host_id.1);
  region = (refl, p.region.1);
  fault_domain = (refl, p.fault_domain.1);
  release_digest = (refl, p.release_digest.1);
  cert_fingerprint = (refl, p.cert_fingerprint.1);
  source = ap (λ s. str s) p.source;
}

-- The written file passes the tests of the global court for this source.
abbrev pub Passing : (Dict Json → String) → String → ℕ → Observation → Type 0
Passing digest expected j o = check_attestation expected j (document digest o) ≡ ok (attested o)

pass_on :
    (digest : Dict Json → String) (expected : String) (j index : ℕ) (m : Json)
    (r : Result Problem Observation) (sorted : List Observation × List Problem)
    → observe expected (index, m) ≡ r
    → All (Passing digest expected j) sorted.0
    → All (Passing digest expected j) ((sort_out r sorted).0)
pass_on digest expected j index m (err x) sorted e rest = rest
pass_on digest expected j index m (ok o) sorted e rest =
    let p = observe-Observed expected index m o e in
    (check_attestation_of_Attests expected j _ _ (Observed-Attests digest expected m o p), rest)

-- Every attestation that is written, whatever the machines are, passes the tests of the global
-- court for the same source, under any index.
pub observe_all-Passing :
    (digest : Dict Json → String) (expected : String) (j index : ℕ) (machines : List Json)
    → All (Passing digest expected j) ((observe_all expected index machines).0)
unfolding observe_all
observe_all-Passing digest expected j index [] = tt
observe_all-Passing digest expected j index (m ∷ machines) =
    pass_on digest expected j index m (observe expected (index, m)) _ refl
      (observe_all-Passing digest expected j (suc index) machines)
