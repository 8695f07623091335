-- ===== src/Ocel/Run/Laws.antt =====
-- What a run stores, sends and prints.
use ex4pm.Ocel.{Args, Refusal}
use ex4pm.Ocel.Run.{
  refused, World, Printed, Run, output_of, payload_of, emit, admit, main, printed_of, after_spool,
}
use ex4pm.Prelude.{
  String, refl, sym, ap, ◌∙◌, subst, ◌≡◌, ◌≢◌, ◌↔◌, ok, err, ok-injective, from_bind, ok-bind,
}
use ex4pm.Ocel.Admission.{admit_receipt}
use ex4pm.Ocel.Admission.Laws.{AdmittedArgs, check_args_iff}
use ex4pm.Ocel.Admission.Receipt.{AdmittedReceipt, admit_receipt_iff}
use ex4pm.Ocel.Spool.{
  Disk, Directory, moved, atomic_spool, Fate, not_made, cut_off, not_replaced, complete, spool_by,
}
use ex4pm.Ocel.Post.Laws.{Transported, post_if_configured_iff}

-- `NamedTemporaryFile` makes a file whose name is not that of the output.
abbrev pub HasFreshNames : Directory → Type 0
HasFreshNames d = (output : String) → output ≢ d.temporary_of output

-- Where a run for these arguments stores its document
abbrev pub target : World → Args → String → String
target w args digest = w.directory.resolve (output_of w args digest)

abbrev pub fate_of : World → Args → String → Fate
fate_of w args digest = w.directory.fate (target w args digest) (payload_of w args digest)

abbrev pub temporary_for : World → Args → String → String
temporary_for w args digest = w.directory.temporary_of (target w args digest)

abbrev pub stored_disk : World → Args → String → Disk
stored_disk w args digest =
    moved (w.directory.temporary_of (target w args digest)) (target w args digest)
      (payload_of w args digest) w.directory.disk

-- The command line and the receipt that it names are admitted.
pub record AdmittedRun (w : World) (args checked : Args) (digest : String) : Type 0 where
  pub command_line : AdmittedArgs args checked
  pub receipt :
      AdmittedReceipt w.loads w.sha256
        (w.receipt_file checked.receipt)
        checked.sha
        checked.standing
        digest

pub admit_iff :
    (w : World) (args checked : Args) (digest : String)
    → (admit w args ≡ ok (checked, digest)) ↔ AdmittedRun w args checked digest
unfolding admit
admit_iff w args checked digest = (
  λ h. from_bind _ _ h λ found p h. from_bind _ _ h λ d q h.
      let same = ok-injective h in
      let c = ap (λ (x : Args × String). x.0) same in
      let e = ap (λ (x : Args × String). x.1) same in
      record {
        command_line = (check_args_iff args checked).0 (p ∙ ap ok c);
        receipt =
            (admit_receipt_iff w.loads w.sha256 (w.receipt_file checked.receipt) checked.sha
                checked.standing digest).0
              (ap
                  (λ (a : Args).
                    admit_receipt w.loads w.sha256 (w.receipt_file a.receipt) a.sha a.standing)
                  (sym c)
                ∙ q
                ∙ ap ok e);
      },
  λ v. rw (
    (check_args_iff args checked).1 v.command_line,
    ok-bind,
    (admit_receipt_iff w.loads w.sha256 (w.receipt_file checked.receipt) checked.sha
          checked.standing digest).1
        v.receipt,
    ok-bind,
  ),
)

-- What a run prints when it ends well, and why it does
pub record Emitted (w : World) (args : Args) (printed : Printed) : Type 0 where
  pub checked : Args
  pub digest : String
  pub admitted : AdmittedRun w args checked digest
  pub spooled : fate_of w checked digest ≡ complete
  pub transported : Transported w.network (payload_of w checked digest) printed.transport
  pub output : printed.output ≡ target w checked digest
  pub payload_sha256 : printed.payload_sha256 ≡ w.sha256 (payload_of w checked digest)
  pub receipt_sha256 : printed.receipt_sha256 ≡ digest

-- The run, once its fate is known
abbrev pub run_by : World → Args → String → Fate → Run
run_by w checked digest f = after_spool w (payload_of w checked digest) digest (
    spool_by f (temporary_for w checked digest) (target w checked digest)
      (payload_of w checked digest) w.directory.disk)

pub emit-run_by :
    (w : World) (checked : Args) (digest : String) (f : Fate)
    → fate_of w checked digest ≡ f
    → emit w checked digest ≡ run_by w checked digest f
unfolding emit atomic_spool
emit-run_by w checked digest f e = ap (run_by w checked digest) e

run_by-eq-ok :
    (w : World) (checked : Args) (digest : String) (f : Fate) {printed : Printed}
    → (run_by w checked digest f).ended ≡ ok printed
    → (f ≡ complete)
      × Transported w.network (payload_of w checked digest) printed.transport
      × (printed_of w
            (target w checked digest)
            (payload_of w checked digest)
            digest
            printed.transport
          ≡ printed)
run_by-eq-ok w checked digest not_made h = absurd (cc)
run_by-eq-ok w checked digest (cut_off n) h = absurd (cc)
run_by-eq-ok w checked digest not_replaced h = absurd (cc)
run_by-eq-ok w checked digest complete {printed} h = from_bind _ _ h λ transport p q.
    let same = ok-injective q in
    let it = ap (λ (x : Printed). x.transport) same in
    (
      refl,
      (post_if_configured_iff w.network (payload_of w checked digest) printed.transport).0
          (p ∙ ap ok it),
      subst
          (λ x.
            printed_of w (target w checked digest) (payload_of w checked digest) digest x ≡ printed)
          it same,
    )

pub emit-eq-ok :
    (w : World) (checked : Args) (digest : String) {printed : Printed}
    → (emit w checked digest).ended ≡ ok printed
    → (fate_of w checked digest ≡ complete)
      × Transported w.network (payload_of w checked digest) printed.transport
      × (printed_of w
            (target w checked digest)
            (payload_of w checked digest)
            digest
            printed.transport
          ≡ printed)
emit-eq-ok w checked digest h = run_by-eq-ok w checked digest (fate_of w checked digest) (
    sym (ap (λ (r : Run). r.ended) (emit-run_by w checked digest (fate_of w checked digest) refl))
    ∙ h)

pub main-admitted :
    (w : World) (args checked : Args) (digest : String)
    → admit w args ≡ ok (checked, digest)
    → main w args ≡ emit w checked digest
unfolding main
main-admitted w args checked digest h = rw h refl

pub main-not_admitted :
    (w : World) (args : Args) (why : Refusal)
    → admit w args ≡ err why
    → main w args ≡ refused w.directory.disk why
unfolding main
main-not_admitted w args why h = rw h refl
