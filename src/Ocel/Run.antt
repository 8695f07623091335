-- ===== src/Ocel/Run.antt =====
-- `main` on a parsed command line.
pub mod Laws
pub mod Stored
pub mod Transport
use ex4pm.Prelude.{
  ◌++◌, ℕ, zero, suc, String, ◌<>◌, List, [], ◌∷◌, Option, none, some, Result, ok, err, ◌>>=◌,
}
use ex4pm.Json.{Json, Dict, Exception, dict, of_entries}
use ex4pm.Text.{take_chars}
use ex4pm.Ocel.{Args, Loaded, Refusal, raised}
use ex4pm.Ocel.Admission.{check_args, admit_receipt}
use ex4pm.Ocel.Document.{build_ocel}
use ex4pm.Ocel.Spool.{Disk, Directory, atomic_spool}
use ex4pm.Ocel.Post.{Network, Request, Posted, post_if_configured}

-- What the run sees: the receipt's file, `json.loads`, the two `json.dumps`, SHA-256, the time, the
-- spool directory, the files, and the network.
pub record World : Type 0 where
  pub receipt_file : String → Option (Result Exception (List ℕ))
  pub loads : List ℕ → Loaded
  pub dumps : Json → List ℕ
  pub dumps_indented : Json → List ℕ
  pub sha256 : List ℕ → String
  pub now : String
  pub spool_dir : String
  pub join_path : String → String → String
  pub directory : Directory
  pub network : Network

-- The object that is printed; its `status` is always "ALIVE".
pub record Printed : Type 0 where
  pub transport : String
  pub output : String
  pub payload_sha256 : String
  pub receipt_sha256 : String

-- What a run leaves: the files, the requests that were sent, and how it ended
pub record Run : Type 0 where
  pub disk : Disk
  pub sent : List Request
  pub ended : Result Refusal Printed

abbrev pub refused : Disk → Refusal → Run
refused disk why = record { disk = disk; sent = []; ended = err why }

module _ (w : World) where
  unfoldable pub canonical_digest : Dict Json → String
  canonical_digest value = w.sha256 (w.dumps (dict (of_entries value)))

  unfoldable pub encode_document : Dict Json → List ℕ
  encode_document document = w.dumps_indented (dict (of_entries document)) ++ (b'\n' ∷ [])

  abbrev pub output_or : Option String → String → String
  output_or (some output) default = output
  output_or none default = default

  unfoldable pub output_of : Args → String → String
  output_of args receipt_digest = output_or args.output (
      w.join_path w.spool_dir (
        args.run_id
        <> ("-" <> (args.sequence <> ("-" <> (take_chars 16 receipt_digest <> ".ocel.json"))))))

  abbrev pub printed_of : String → List ℕ → String → String → Printed
  printed_of output payload receipt_digest transport = record {
    transport = transport;
    output = output;
    payload_sha256 = w.sha256 payload;
    receipt_sha256 = receipt_digest;
  }

  abbrev pub after_post : Disk → String → List ℕ → String → Posted → Run
  after_post disk output payload receipt_digest posted = record {
    disk = disk;
    sent = posted.sent;
    ended =
        posted.transport >>= λ transport. ok (printed_of output payload receipt_digest transport);
  }

  abbrev pub after_spool : List ℕ → String → Disk × Result Exception String → Run
  after_spool payload receipt_digest (disk, err e) = refused disk (raised e)
  after_spool payload receipt_digest (disk, ok output) =
      after_post disk output payload receipt_digest (post_if_configured w.network payload)

  unfoldable pub payload_of : Args → String → List ℕ
  payload_of args receipt_digest =
      encode_document (build_ocel canonical_digest args receipt_digest w.now)

  unfoldable pub emit : Args → String → Run
  emit args receipt_digest =
      let payload = payload_of args receipt_digest in
      after_spool payload receipt_digest
        (atomic_spool w.directory payload (output_of args receipt_digest))

  unfoldable pub admit : Args → Result Refusal (Args × String)
  admit args = do
    checked ← check_args args
    receipt_digest ←
        admit_receipt w.loads w.sha256 (w.receipt_file checked.receipt) checked.sha checked.standing
    ok (checked, receipt_digest)

  abbrev pub continue : Result Refusal (Args × String) → Run
  continue (err why) = refused w.directory.disk why
  continue (ok (args, receipt_digest)) = emit args receipt_digest

  unfoldable pub main : Args → Run
  main args = continue (admit args)
