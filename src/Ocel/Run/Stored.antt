-- ===== src/Ocel/Run/Stored.antt =====
-- What a run leaves behind, whichever way it ends.
use ex4pm.Json.{Exception}
use ex4pm.Prelude.{
  String, refl, sym, ap, ◌∙◌, ◌≡◌, ◌⊎◌, inl, inr, ◌↔◌, [], some, Result, ok, err, ok-bind,
}
use ex4pm.Ocel.{Args, Refusal, raised}
use ex4pm.Ocel.Spool.{Disk, Phase, Reach, complete, atomic_spool}
use ex4pm.Ocel.Spool.Laws.{begins, Spooled, Reach-output, atomic_spool-Spooled}
use ex4pm.Ocel.Post.{post_if_configured}
use ex4pm.Ocel.Post.Laws.{post_if_configured_iff, SentOnce, post_if_configured-SentOnce}
use ex4pm.Ocel.Run.{
  World, Printed, Run, payload_of, emit, admit, main, after_post, after_spool, output_of,
}
use ex4pm.Ocel.Run.Laws.{
  HasFreshNames, target, stored_disk, AdmittedRun, admit_iff, Emitted, emit-run_by, temporary_for,
  emit-eq-ok, main-admitted, main-not_admitted,
}

main-Emitted :
    (w : World) (args : Args) (printed : Printed)
    → (main w args).ended ≡ ok printed
    → Emitted w args printed
main-Emitted w args printed h = by_admission (admit w args) refl
  where
    by_admission : (r : Result Refusal (Args × String)) → admit w args ≡ r → Emitted w args printed
    by_admission (err why) e =
        absurd (let f = sym (ap (λ (r : Run). r.ended) (main-not_admitted w args why e)) ∙ h in cc)
    by_admission (ok (checked, digest)) e =
        let (spooled, transported, same) =
          emit-eq-ok w checked digest
            (sym (ap (λ (r : Run). r.ended) (main-admitted w args checked digest e)) ∙ h) in
        record {
          checked = checked;
          digest = digest;
          admitted = (admit_iff w args checked digest).0 e;
          spooled = spooled;
          transported = transported;
          output = sym (ap (λ (x : Printed). x.output) same);
          payload_sha256 = sym (ap (λ (x : Printed). x.payload_sha256) same);
          receipt_sha256 = sym (ap (λ (x : Printed). x.receipt_sha256) same);
        }

Emitted-run :
    (w : World) (args : Args) (printed : Printed) (v : Emitted w args printed)
    → main w args
      ≡ after_post w
          (stored_disk w v.checked v.digest)
          (target w v.checked v.digest)
          (payload_of w v.checked v.digest)
          v.digest
          (post_if_configured w.network (payload_of w v.checked v.digest))
Emitted-run w args printed v =
    main-admitted w args v.checked v.digest ((admit_iff w args v.checked v.digest).1 v.admitted)
    ∙ emit-run_by w v.checked v.digest complete v.spooled

Emitted-main :
    (w : World) (args : Args) (printed : Printed)
    → Emitted w args printed
    → (main w args).ended ≡ ok printed
Emitted-main w args printed v = rw (
  Emitted-run w args printed v,
  (post_if_configured_iff w.network (payload_of w v.checked v.digest) printed.transport).1
      v.transported,
  ok-bind,
  sym v.output,
  sym v.payload_sha256,
  sym v.receipt_sha256,
)

-- A run ends well and prints its summary just if the command line and its receipt are admitted, all of
-- the spooling succeeds, and the transport succeeds: no address, or a server that took the document.
-- The summary names the file, the digest of the document and the digest of the receipt.
pub emission_iff :
    (w : World) (args : Args) (printed : Printed)
    → ((main w args).ended ≡ ok printed) ↔ Emitted w args printed
emission_iff w args printed = (main-Emitted w args printed, Emitted-main w args printed)

-- A file that is neither of the two is as it was.
abbrev pub OthersKept : World → Args → String → Run → Type 0
OthersKept w checked digest run =
    (name : String)
    → (name ≡ target w checked digest)
      ⊎ ((name ≡ temporary_for w checked digest) ⊎ (run.disk name ≡ w.directory.disk name))

-- The document of an admitted run is stored.
pub record Stored (w : World) (args : Args) (run : Run) : Type 0 where
  pub checked : Args
  pub digest : String
  pub admitted : AdmittedRun w args checked digest
  pub holds : run.disk (target w checked digest) ≡ some (payload_of w checked digest)
  pub others : OthersKept w checked digest run
  pub sent : SentOnce w.network (payload_of w checked digest) run.sent

-- The spooling of an admitted run failed: the output is as it was, nothing was sent, and the run
-- raised.
pub record Interrupted (w : World) (args : Args) (run : Run) : Type 0 where
  pub checked : Args
  pub digest : String
  pub admitted : AdmittedRun w args checked digest
  pub kept : run.disk (target w checked digest) ≡ w.directory.disk (target w checked digest)
  pub others : OthersKept w checked digest run
  pub unsent : run.sent ≡ []
  pub raises : (e : Exception) × (run.ended ≡ err (raised e))

-- Nothing happened but a refusal.
abbrev pub Untouched : World → Run → Type 0
Untouched w run =
    (run.disk ≡ w.directory.disk) × (run.sent ≡ []) × ((why : Refusal) × (run.ended ≡ err why))

abbrev pub Ending : World → Args → Run → Type 0
Ending w args run = Untouched w run ⊎ (Interrupted w args run ⊎ Stored w args run)

module _ (w : World) (args checked : Args) (digest : String) (fresh : HasFreshNames w.directory)
    (admitted : AdmittedRun w args checked digest) where
  spooled_others :
      (disk : Disk) (phase : Phase)
      → Reach
          (temporary_for w checked digest)
          (target w checked digest)
          (payload_of w checked digest)
          (begins w.directory.disk)
          (record { phase = phase; disk = disk })
      → (name : String)
      → (name ≡ target w checked digest)
        ⊎ ((name ≡ temporary_for w checked digest) ⊎ (disk name ≡ w.directory.disk name))
  spooled_others disk phase steps name =
      (Reach-output (temporary_for w checked digest) (target w checked digest)
        (payload_of w checked digest) w.directory.disk (record { phase = phase; disk = disk }) name
        (fresh (target w checked digest)) steps).1

  after_spool-Ending :
      (r : Disk × Result Exception String)
      → Spooled
          (temporary_for w checked digest)
          (target w checked digest)
          (payload_of w checked digest)
          w.directory.disk
          r
      → Ending w args (after_spool w (payload_of w checked digest) digest r)
  after_spool-Ending (disk, err e) s = elim s.result [
    | inl (fine, is_replaced, holds) ↦ absurd (cc)
    | inr (raising, kept) ↦ inr (
        inl (record {
          checked = checked;
          digest = digest;
          admitted = admitted;
          kept = kept;
          others = spooled_others disk s.phase s.steps;
          unsent = refl;
          raises = (e, refl);
        }))
  ]
  after_spool-Ending (disk, ok output) s = elim s.result [
    | inr ((e, raising), kept) ↦ absurd (cc)
    | inl (fine, is_replaced, holds) ↦ inr (
        inr (record {
          checked = checked;
          digest = digest;
          admitted = admitted;
          holds = holds;
          others = spooled_others disk s.phase s.steps;
          sent = post_if_configured-SentOnce w.network (payload_of w checked digest);
        }))
  ]

  emit-Ending : Ending w args (emit w checked digest)
  unfolding emit
  emit-Ending =
      after_spool-Ending
        (atomic_spool w.directory (payload_of w checked digest) (output_of w checked digest))
        (atomic_spool-Spooled w.directory (payload_of w checked digest) (output_of w checked digest)
          (fresh (target w checked digest)))

-- However a run ends, provided that temporary files have names of their own, one of three things holds.
-- It changed no file, sent nothing and refused. Or the command line and the receipt were admitted and
-- the spooling failed: the output is as it was, nothing was sent, and the run raised. Or they were
-- admitted, the output holds the document, and at most one request was sent, to the configured address,
-- whose body is the bytes that are stored: also where the server then fails. A file that is neither the
-- output nor the temporary one is as it was.
pub main-Stored :
    (w : World) (args : Args) → HasFreshNames w.directory → Ending w args (main w args)
main-Stored w args fresh = by_admission (admit w args) refl
  where
    by_admission :
        (r : Result Refusal (Args × String)) → admit w args ≡ r → Ending w args (main w args)
    by_admission (err why) e = inl (rw (main-not_admitted w args why e) (refl, refl, (why, refl)))
    by_admission (ok (checked, digest)) e =
        rw (main-admitted w args checked digest e)
          (emit-Ending w args checked digest fresh ((admit_iff w args checked digest).0 e))
