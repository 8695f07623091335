-- ===== src/Ocel/Document.antt =====
-- `build_ocel`: the document of one observation.
pub mod Laws
use ex4pm.Prelude.{String, ◌<>◌, List, [], ◌∷◌, map}
use ex4pm.Json.{Json, Dict, str, list, dict, of_items, of_entries}
use ex4pm.Ocel.{Args}

abbrev pub obj : Dict Json → Json
obj d = dict (of_entries d)

abbrev pub subject_id : Args → String
subject_id args = "github:" <> (args.repo <> ("@" <> args.sha))

abbrev pub run_object_id : Args → String
run_object_id args =
    "github-actions:" <> (args.repo <> (":" <> (args.run_id <> (":" <> args.sequence))))

abbrev pub receipt_object_id : String → String
receipt_object_id receipt_digest = "receipt:sha256:" <> receipt_digest

unfoldable pub identity : Args → String → Dict Json
identity args receipt_digest =
    ("activity", str args.activity)
    ∷ ("standing", str args.standing)
    ∷ ("authority_domain", str args.authority_domain)
    ∷ ("agent_id", str args.agent_id)
    ∷ ("run_id", str args.run_id)
    ∷ ("sequence", str args.sequence)
    ∷ ("repo", str args.repo)
    ∷ ("sha", str args.sha)
    ∷ ("receipt_sha256", str receipt_digest)
    ∷ []

-- The objects, by their identities
unfoldable pub objects_of : Args → String → Dict Json
objects_of args receipt_digest =
    (
      subject_id args,
      obj (
          ("type", str "SoftwareSourceRevision")
          ∷ ("repository", str args.repo)
          ∷ ("sha", str args.sha)
          ∷ []),
    )
    ∷ (
      run_object_id args,
      obj (
          ("type", str "VerificationRun")
          ∷ ("run_id", str args.run_id)
          ∷ ("sequence", str args.sequence)
          ∷ ("agent_id", str args.agent_id)
          ∷ []),
    )
    ∷ (
      receipt_object_id receipt_digest,
      obj (
          ("type", str "EvidenceReceipt")
          ∷ ("algorithm", str "sha256")
          ∷ ("digest", str receipt_digest)
          ∷ []),
    )
    ∷ []

abbrev pub object_ids : Args → String → List String
object_ids args receipt_digest =
    subject_id args ∷ run_object_id args ∷ receipt_object_id receipt_digest ∷ []

-- The event
unfoldable pub event_of : Args → String → String → Dict Json
event_of args receipt_digest timestamp =
    ("activity", str args.activity)
    ∷ ("timestamp", str timestamp)
    ∷ ("objects", list (of_items (map str (object_ids args receipt_digest))))
    ∷ ("standing", str args.standing)
    ∷ ("authority_domain", str args.authority_domain)
    ∷ ("agent_id", str args.agent_id)
    ∷ ("run_id", str args.run_id)
    ∷ ("sequence", str args.sequence)
    ∷ ("repository", str args.repo)
    ∷ ("subject_sha", str args.sha)
    ∷ ("receipt_sha256", str receipt_digest)
    ∷ []

-- `canonical_digest` is an argument, and so is the time.
unfoldable pub build_ocel : (Dict Json → String) → Args → String → String → Dict Json
build_ocel canonical_digest args receipt_digest timestamp =
    ("objects", obj (objects_of args receipt_digest))
    ∷ (
      "events",
      obj (
          (
            "verification:" <> canonical_digest (identity args receipt_digest),
            obj (event_of args receipt_digest timestamp),
          )
          ∷ []),
    )
    ∷ (
      "metadata",
      obj (
          ("schema", str "ex4pm.ocel-verification-observation/v1")
          ∷ ("receipt_sha256", str receipt_digest)
          ∷ ("authority_domain", str args.authority_domain)
          ∷ []),
    )
    ∷ []
