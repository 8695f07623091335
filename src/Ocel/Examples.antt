-- ===== src/Ocel/Examples.antt =====
-- A run at a small receipt, with a server that takes the document
use ex4pm.Prelude.{
  err, ◌⊎◌, if◌then◌else◌, ℕ, String, ◌<>◌, refl, ◌≡◌, ◌≢◌, List, [], ◌∷◌, none, some, ok, ◌>>=◌,
  eq_iff, arith, ◌==◌, string_Eq,
}
use ex4pm.Json.{os_error, Json, str, int, pos}
use ex4pm.Text.{strip, is_space}
use ex4pm.Regex.{fullmatch, runs, stretches, each_then, lit}
use ex4pm.Ocel.{raised, Args, value, Loaded}
use ex4pm.Ocel.Admission.{lower, lower_char, require_nonempty, check_args, admit_receipt}
use ex4pm.Ocel.Admission.Laws.{AdmittedArgs, check_args_iff}
use ex4pm.Ocel.Admission.Receipt.{AdmittedReceipt, admit_receipt_iff}
use ex4pm.Ocel.Document.{obj, build_ocel}
use ex4pm.Ocel.Document.Laws.{LinkedDocument, build_ocel-LinkedDocument}
use ex4pm.Ocel.Spool.{
  complete, not_replaced, Disk, Directory, atomic_spool, put, Spooling, start, writing, Reach, here,
  next, create, write,
}
use ex4pm.Ocel.Spool.Laws.{Spooled, Reach-output, atomic_spool-Spooled}
use ex4pm.Ocel.Post.{Network, post_if_configured}
use ex4pm.Ocel.Run.{payload_of, encode_document, output_of, World, Printed, admit, emit, main}
use ex4pm.Ocel.Run.Laws.{HasFreshNames, Emitted}
use ex4pm.Ocel.Run.Stored.{emission_iff, Ending, main-Stored}
use ex4pm.Ocel.Run.Transport.{with_network, SameObservation, main-any_network}

abbrev revision : String
revision = "0123456789012345678901234567890123456789"

abbrev args : Args
args = record {
  activity = " verify";
  standing = "ALIVE";
  authority_domain = "VERIFY";
  agent_id = "agent";
  run_id = "7";
  sequence = "1";
  repo = "owner/name";
  sha = revision;
  receipt = "receipt.json";
  output = some "out.json";
}

abbrev admitted_args : Args
admitted_args = record args { activity = "verify" }

abbrev receipt : Json
receipt = obj (
    ("subject_sha", str revision)
    ∷ ("standing", str "ALIVE")
    ∷ ("exit_codes", obj (("mix_verify", int (pos 0)) ∷ []))
    ∷ [])

abbrev loads : List ℕ → Loaded
loads raw = value receipt

abbrev sha256 : List ℕ → String
sha256 bytes = "digest"

abbrev bytes : List ℕ
bytes = 1 ∷ []

abbrev network : Network
network = record {
  ingest_url = "https://host/in";
  ingest_token = "";
  parse = λ url. ok ("https", "host");
  open_url = λ request. ok 202;
}

abbrev empty_disk : Disk
empty_disk name = none

abbrev directory : Directory
directory = record {
  resolve = λ raw. raw;
  temporary_of = λ output. if output == ".t" then ".u" else ".t";
  fate = λ output payload. complete;
  disk = empty_disk;
}

abbrev world : World
world = record {
  receipt_file = λ path. some (ok bytes);
  loads = loads;
  dumps = λ v. bytes;
  dumps_indented = λ v. bytes;
  sha256 = sha256;
  now = "2026-01-01T00:00:00Z";
  spool_dir = "spool";
  join_path = λ a b. a <> ("/" <> b);
  directory = directory;
  network = network;
}

abbrev printed : Printed
printed = record {
  transport = "spool+http";
  output = "out.json";
  payload_sha256 = "digest";
  receipt_sha256 = "digest";
}

args_pass : check_args args ≡ ok admitted_args
unfolding check_args require_nonempty strip ◌>>=◌ lower lower_char fullmatch runs stretches
    each_then lit is_space
args_pass = refl

check_args_iff_example : AdmittedArgs args admitted_args
check_args_iff_example = (check_args_iff args admitted_args).0 args_pass

receipt_passes : admit_receipt loads sha256 (some (ok bytes)) revision "ALIVE" ≡ ok "digest"
unfolding admit_receipt ◌>>=◌
receipt_passes = refl

admit_receipt_iff_example : AdmittedReceipt loads sha256 (some (ok bytes)) revision "ALIVE" "digest"
admit_receipt_iff_example =
    (admit_receipt_iff loads sha256 (some (ok bytes)) revision "ALIVE" "digest").0 receipt_passes

build_ocel-LinkedDocument_example :
    LinkedDocument args "digest" (build_ocel (λ d. "id") args "digest" "now")
build_ocel-LinkedDocument_example = build_ocel-LinkedDocument (λ d. "id") args "digest" "now"

posted : (post_if_configured network bytes).transport ≡ ok "spool+http"
unfolding post_if_configured strip is_space
posted = refl

run_passes : (main world args).ended ≡ ok printed
unfolding main admit emit atomic_spool check_args admit_receipt require_nonempty ◌>>=◌ strip lower
    lower_char fullmatch runs stretches each_then lit is_space post_if_configured output_of
run_passes = refl

emission_iff_example : Emitted world args printed
emission_iff_example = (emission_iff world args printed).0 run_passes

names_are_fresh : HasFreshNames directory
names_are_fresh output e = ground (arith, eq_iff output ".t", eq_iff ".t" ".u", e)

main-Stored_example : Ending world args (main world args)
main-Stored_example = main-Stored world args names_are_fresh

abbrev no_network : Network
no_network = record network { ingest_url = "" }

main-any_network_example :
    ((main (with_network world no_network) args).disk ≡ (main world args).disk)
    × SameObservation ((main (with_network world no_network) args).ended) ((main world args).ended)
main-any_network_example = main-any_network world no_network args

abbrev halfway : Spooling
halfway = record {
  phase = writing bytes (2 ∷ []);
  disk = put ".t" (some bytes) (put ".t" (some []) empty_disk);
}

half_written :
    Reach ".t" "out.json" (1 ∷ 2 ∷ []) (record { phase = start; disk = empty_disk }) halfway
half_written = next (next here (create refl refl)) (write [] bytes (2 ∷ []) refl refl)

abbrev output : String
output = "out.json"

other_name : output ≢ ".t"
other_name e = ground (arith, eq_iff "out.json" ".t", e)

Reach-output_example :
    ((halfway.disk output ≡ none) ⊎ (halfway.disk output ≡ some (1 ∷ 2 ∷ [])))
    × ((output ≡ output) ⊎ ((output ≡ ".t") ⊎ (halfway.disk output ≡ none)))
Reach-output_example =
    Reach-output ".t" output (1 ∷ 2 ∷ []) empty_disk halfway output other_name half_written

atomic_spool-Spooled_example :
    Spooled
      (directory.temporary_of "out.json")
      output
      bytes
      empty_disk
      (atomic_spool directory bytes "out.json")
atomic_spool-Spooled_example =
    atomic_spool-Spooled directory bytes "out.json" (names_are_fresh "out.json")

-- The output cannot be replaced, so the temporary file stays and nothing is sent.
abbrev stuck : World
stuck = record world { directory = record directory { fate = λ output payload. not_replaced } }

stuck_raises : (main stuck args).ended ≡ err (raised os_error)
unfolding main admit emit atomic_spool check_args admit_receipt require_nonempty ◌>>=◌ strip lower
    lower_char fullmatch runs stretches each_then lit is_space output_of
stuck_raises = refl

stuck_leaves :
    ((main stuck args).disk ".t" ≡ some (1 ∷ b'\n' ∷ []))
    × ((main stuck args).disk "out.json" ≡ none)
    × ((main stuck args).sent ≡ [])
unfolding main admit emit atomic_spool check_args admit_receipt require_nonempty ◌>>=◌ strip lower
    lower_char fullmatch runs stretches each_then lit is_space output_of payload_of encode_document
stuck_leaves = (refl, refl, refl)
