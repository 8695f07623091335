-- ===== src/Ocel/Document/Laws.antt =====
-- The objects and the event of a document, and how they refer to one another.
use ex4pm.Prelude.{
  false, ◌==◌, ◌∷◌, [], length, String, ◌<>◌, refl, sym, ◌∙◌, ◌≡◌, ◌≢◌, map, some, string_Eq,
  eq_iff, IsDistinct, arith,
}
use ex4pm.Ocel.Document.{
  identity, obj, subject_id, run_object_id, receipt_object_id, objects_of, object_ids, event_of,
  build_ocel,
}
use ex4pm.Json.{lookup, Json, Dict, str, list, of_items, get, keys}
use text.Mathlib.TextLemmas.{append_assoc, append_inj}
use ex4pm.Ocel.{Args}

other_prefix :
    (a b x y : String)
    → Prim.Native.String.count a ≡ Prim.Native.String.count b
    → a ≢ b
    → a <> x ≢ b <> y
other_prefix a b x y n d e = d (append_inj e n).0

run_not_subject : (args : Args) → run_object_id args ≢ subject_id args
run_not_subject args e =
    let rest : String = args.repo <> (":" <> (args.run_id <> (":" <> args.sequence))) in
    other_prefix "github-" "github:" ("actions:" <> rest) (args.repo <> ("@" <> args.sha)) refl
      (ground (arith, eq_iff "github-" "github:"))
      (sym (append_assoc "github-" "actions:" rest) ∙ e)

receipt_not_subject : (args : Args) (digest : String) → receipt_object_id digest ≢ subject_id args
receipt_not_subject args digest e =
    other_prefix "receipt" "github:" (":sha256:" <> digest) (args.repo <> ("@" <> args.sha)) refl
      (ground (arith, eq_iff "receipt" "github:"))
      (sym (append_assoc "receipt" ":sha256:" digest) ∙ e)

receipt_not_run : (args : Args) (digest : String) → receipt_object_id digest ≢ run_object_id args
receipt_not_run args digest e =
    other_prefix "receipt:sha256:" "github-actions:" _ _ refl
      (ground (arith, eq_iff "receipt:sha256:" "github-actions:")) e

other_id : (a b : String) → a ≢ b → (a == b) ≡ false
other_id a b n = ground (arith, eq_iff a b, n)

-- The event of this document: it names exactly its objects, each once, and the receipt by its digest.
abbrev pub LinkedTo : Dict Json → String → Dict Json → Type 0
LinkedTo objects receipt_digest event =
    (get "objects" event ≡ list (of_items (map str (keys objects))))
    × (get "receipt_sha256" event ≡ str receipt_digest)

-- The object with this identity has this type.
abbrev pub HasType : Dict Json → String → String → Type 0
HasType objects id name =
    (o : Dict Json) × (lookup id objects ≡ some (obj o)) × (get "type" o ≡ str name)

-- There are three objects with three identities, one of each type, and one event, which is linked to
-- them.
pub record LinkedDocument (args : Args) (receipt_digest : String) (document : Dict Json)
    : Type 0 where
  objects : Dict Json
  event_id : String
  event : Dict Json
  has_objects : get "objects" document ≡ obj objects
  has_event : get "events" document ≡ obj ((event_id, obj event) ∷ [])
  three : length (keys objects) ≡ 3
  distinct : IsDistinct (keys objects)
  revision : HasType objects (subject_id args) "SoftwareSourceRevision"
  run : HasType objects (run_object_id args) "VerificationRun"
  receipt : HasType objects (receipt_object_id receipt_digest) "EvidenceReceipt"
  linked : LinkedTo objects receipt_digest event

IsDistinct-ids : (args : Args) (digest : String) → IsDistinct (object_ids args digest)
IsDistinct-ids args digest =
    let a : subject_id args ≢ run_object_id args = λ e. run_not_subject args (sym e) in
    let b : subject_id args ≢ receipt_object_id digest =
      λ e. receipt_not_subject args digest (sym e) in
    let c : run_object_id args ≢ receipt_object_id digest =
      λ e. receipt_not_run args digest (sym e) in
    (
      ground (
        arith,
        eq_iff (subject_id args) (run_object_id args),
        eq_iff (subject_id args) (receipt_object_id digest),
        a,
        b,
      ),
      (ground (arith, eq_iff (run_object_id args) (receipt_object_id digest), c), (refl, tt)),
    )

-- Whatever the command line says, the document has three objects, a source revision, a run and a
-- receipt, with three identities, and one event, which names these three and no other, and the receipt
-- by its digest.
pub build_ocel-LinkedDocument :
    (canonical_digest : Dict Json → String) (args : Args) (receipt_digest timestamp : String)
    → LinkedDocument args receipt_digest (build_ocel canonical_digest args receipt_digest timestamp)
unfolding build_ocel objects_of event_of
build_ocel-LinkedDocument canonical_digest args receipt_digest timestamp = record {
  objects = objects_of args receipt_digest;
  event_id = "verification:" <> canonical_digest (identity args receipt_digest);
  event = event_of args receipt_digest timestamp;
  has_objects = refl;
  has_event = refl;
  three = refl;
  distinct = IsDistinct-ids args receipt_digest;
  revision = (
    ("type", str "SoftwareSourceRevision")
        ∷ ("repository", str args.repo)
        ∷ ("sha", str args.sha)
        ∷ [],
    rw ((eq_iff (subject_id args) (subject_id args)).1 refl) refl,
    refl,
  );
  run = (
    ("type", str "VerificationRun")
        ∷ ("run_id", str args.run_id)
        ∷ ("sequence", str args.sequence)
        ∷ ("agent_id", str args.agent_id)
        ∷ [],
    rw
        (
          other_id (subject_id args) (run_object_id args) (λ e. run_not_subject args (sym e)),
          (eq_iff (run_object_id args) (run_object_id args)).1 refl,
        )
        refl,
    refl,
  );
  receipt = (
    ("type", str "EvidenceReceipt")
        ∷ ("algorithm", str "sha256")
        ∷ ("digest", str receipt_digest)
        ∷ [],
    rw
        (
          other_id (subject_id args) (receipt_object_id receipt_digest)
              (λ e. receipt_not_subject args receipt_digest (sym e)),
          other_id (run_object_id args) (receipt_object_id receipt_digest)
              (λ e. receipt_not_run args receipt_digest (sym e)),
          (eq_iff (receipt_object_id receipt_digest) (receipt_object_id receipt_digest)).1 refl,
        )
        refl,
    refl,
  );
  linked = (refl, refl);
}
