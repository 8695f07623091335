-- ===== src/Crown/Verify/Tamper.antt =====
-- No evidence is taken on trust: every file that an accepted crown names has the digest that the
-- crown states for it.
use mathlib.Core.Logic.Or
use mathlib.Core.HLevel.{⊥_prop}
use mathlib.Core.List.{not-mem-nil, mem-cons, Mem}
use ex4pm.Crown.Verify.{Verdict, verify_crown}
use ex4pm.Prelude.{
  ℕ, ok, subst, sym, ap, Zip, All, ◌≡◌, ◌≢◌, String, List, [], ◌∷◌, ◌++◌, map, Option, none, some,
}
use ex4pm.Crown.Global.Laws.{Attestable}
use ex4pm.Crown.Receipts.Laws.{Replayed}
use ex4pm.Crown.Commands.Laws.{CommandEvidence}
use ex4pm.Crown.Verify.Accepts.{verify_crown-Accepted}
use ex4pm.Crown.Global.{Attestation}
use ex4pm.Json.{Json, Dict, str, get, as_dict, as_list}
use ex4pm.Crown.World.{World}
use ex4pm.Crown.Evidence.Laws.{Attested}
use ex4pm.Crown.Rails.{required_rails}
use ex4pm.Crown.Rails.Laws.{AllAlive}

abbrev or_nil : {A : Type 0} → Option (List A) → List A
or_nil none = []
or_nil (some xs) = xs

unfoldable pub dict_of : Json → Dict Json
dict_of v = or_nil (as_dict v)

unfoldable pub list_of : Json → List Json
list_of v = or_nil (as_list v)

dict_of_lem : (v : Json) {d : Dict Json} → as_dict v ≡ some d → dict_of v ≡ d
unfolding dict_of
dict_of_lem v p = ap or_nil p

list_of_lem : (v : Json) {xs : List Json} → as_list v ≡ some xs → list_of v ≡ xs
unfolding list_of
list_of_lem v p = ap or_nil p

unfoldable pub rail_manifests : Dict Json → List String → List (Dict Json)
rail_manifests rails [] = []
rail_manifests rails (r ∷ rs) =
    let entry = dict_of (get r rails) in
    dict_of (get "artifact" entry) ∷ dict_of (get "result" entry) ∷ rail_manifests rails rs

unfoldable pub log_manifests : List Json → List (Dict Json)
log_manifests [] = []
log_manifests (c ∷ cs) = dict_of (get "log" (dict_of c)) ∷ log_manifests cs

-- Every file manifest in a crown: the artifacts and results of the rails, the logs of the
-- commands, the receipts and the attestations.
unfoldable pub manifests : Dict Json → List (Dict Json)
manifests crown =
    rail_manifests (dict_of (get "rails" crown)) required_rails
    ++ (log_manifests (list_of (get "commands" crown))
        ++ (map dict_of (list_of (get "receipt_replays" crown))
            ++ map dict_of (list_of (get "attestations" (dict_of (get "global" crown))))))

abbrev pub HasAttested : World → Dict Json → Type 0
HasAttested w m = (path : List String) × Attested w m path

All-append : {A : Type 0} (P : A → Type 0) (xs ys : List A) → All P xs → All P ys → All P (xs ++ ys)
All-append P [] ys a b = b
All-append P (x ∷ xs) ys a b = (a.0, All-append P xs ys a.1 b)

rails_attested :
    (w : World) (rails : Dict Json) (rs hs : List String)
    → AllAlive w rails rs hs
    → All (HasAttested w) (rail_manifests rails rs)
unfolding rail_manifests
rails_attested w rails [] hs a = tt
rails_attested w rails (r ∷ rs) [] a = elim a [ ]
rails_attested w rails (r ∷ rs) (h ∷ hs) a =
    rw (dict_of_lem _ a.0.entered, dict_of_lem _ a.0.has_artifact, dict_of_lem _ a.0.has_result)
      (
        (a.0.artifact_path, a.0.artifact_attested),
        ((a.0.result_attested.path, a.0.result_attested.file), rails_attested w rails rs hs a.1),
      )

logs_attested :
    (w : World) (cs : List Json) (names : List String)
    → Zip (CommandEvidence w) cs names
    → All (HasAttested w) (log_manifests cs)
unfolding log_manifests
logs_attested w [] names z = tt
logs_attested w (c ∷ cs) [] z = elim z [ ]
logs_attested w (c ∷ cs) (n ∷ ns) z =
    rw (dict_of_lem _ z.0.object, dict_of_lem _ z.0.has_log)
      ((z.0.path, z.0.attested), logs_attested w cs ns z.1)

receipts_attested :
    (w : World) (rs : List Json) → All (Replayed w) rs → All (HasAttested w) (map dict_of rs)
receipts_attested w [] a = tt
receipts_attested w (r ∷ rs) a =
    rw (dict_of_lem _ a.0.object)
      ((a.0.attested.path, a.0.attested.file), receipts_attested w rs a.1)

attestations_attested :
    (w : World) (source : String) (ms : List Json) (atts : List Attestation)
    → Zip (Attestable w source) ms atts
    → All (HasAttested w) (map dict_of ms)
attestations_attested w source [] atts z = tt
attestations_attested w source (m ∷ ms) [] z = elim z [ ]
attestations_attested w source (m ∷ ms) (a ∷ atts) z =
    rw (dict_of_lem _ z.0.object)
      ((z.0.attested.path, z.0.attested.file), attestations_attested w source ms atts z.1)

-- Each file manifest of an accepted crown names a file inside the evidence root whose bytes have
-- the digest that the manifest states.
pub manifests_attested :
    (w : World) (crown : Dict Json) (es et : Option String) (v : Verdict)
    → verify_crown w crown es et ≡ ok v
    → All (HasAttested w) (manifests crown)
unfolding manifests
manifests_attested w crown es et v h =
    let a = verify_crown-Accepted w crown es et v h in
    rw
      (
        dict_of_lem _ a.rails.object,
        list_of_lem _ a.commands.listed,
        list_of_lem _ a.receipts.listed,
        dict_of_lem _ a.global.object,
        list_of_lem _ a.global.listed,
      )
      (All-append _ _ _ (rails_attested w a.rails.rails required_rails a.rails.hashes a.rails.alive)
        (All-append _ _ _ (logs_attested w a.commands.commands v.commands a.commands.evidenced) (
          All-append _ _ _ (receipts_attested w a.receipts.receipts a.receipts.replayed) (
            attestations_attested w v.source_sha a.global.manifests a.global.atts
              a.global.attested))))

contradicts : {A : Type 0} (P : A → Type 0) (xs : List A) {x : A} → All P xs → ¬ P x → Mem x xs → ⊥
contradicts P [] a n m = absurd (not-mem-nil m)
contradicts P (y ∷ ys) a n m =
    Or.elim ⊥_prop (mem-cons.0 m) (λ e. n (subst P (sym e) a.0)) (contradicts P ys a.1 n)

Attested-bytes :
    (w : World) (m : Dict Json) (path : List String) (raw digest : String) (content : List ℕ)
    → Attested w m path
    → get "path" m ≡ str raw
    → get "sha256" m ≡ str digest
    → w.read (w.resolve raw) ≡ some content
    → w.sha256 content ≡ digest
Attested-bytes w m path raw digest content a p q r =
    cc (a.named, a.stated, a.reached, a.holds, a.same_bytes)

-- A crown is refused, whatever the verdict, if one of its file manifests (of a rail's artifact or
-- result, a log, a receipt or an attestation) names a file that can be read and states a digest
-- that is not the digest of its bytes.
pub tampered_refused :
    (w : World) (crown m : Dict Json) (es et : Option String) (raw digest : String)
    (content : List ℕ)
    → Mem m (manifests crown)
    → get "path" m ≡ str raw
    → get "sha256" m ≡ str digest
    → w.read (w.resolve raw) ≡ some content
    → w.sha256 content ≢ digest
    → (v : Verdict) → verify_crown w crown es et ≢ ok v
tampered_refused w crown m es et raw digest content mem p q r wrong v h =
    contradicts (HasAttested w) (manifests crown) (manifests_attested w crown es et v h)
      (λ (path, a). wrong (Attested-bytes w m path raw digest content a p q r)) mem
