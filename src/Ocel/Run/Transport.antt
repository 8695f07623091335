-- ===== src/Ocel/Run/Transport.antt =====
-- Runs with another network.
use ex4pm.Prelude.{String, refl, sym, ap, ◌∙◌, ◌≡◌, Result, ok, err}
use ex4pm.Ocel.{Args, Refusal}
use ex4pm.Ocel.Post.{Network}
use ex4pm.Ocel.Spool.{Fate, not_made, cut_off, not_replaced, complete}
use ex4pm.Ocel.Run.{
  World, Printed, canonical_digest, encode_document, output_of, payload_of, emit, admit, main,
}
use ex4pm.Ocel.Run.Laws.{target, emit-run_by, fate_of, emit-eq-ok, main-admitted, main-not_admitted}

abbrev pub with_network : World → Network → World
with_network w network = record w { network = network }

same_target :
    (w : World) (network : Network) (checked : Args) (digest : String)
    → target (with_network w network) checked digest ≡ target w checked digest
unfolding output_of
same_target w network checked digest = refl

same_payload :
    (w : World) (network : Network) (checked : Args) (digest : String)
    → payload_of (with_network w network) checked digest ≡ payload_of w checked digest
unfolding payload_of canonical_digest encode_document
same_payload w network checked digest = refl

same_admission :
    (w : World) (network : Network) (args : Args)
    → admit (with_network w network) args ≡ admit w args
unfolding admit
same_admission w network args = refl

-- Two summaries that differ in nothing but the transport
abbrev pub SameObservation : Result Refusal Printed → Result Refusal Printed → Type 0
SameObservation (ok p) (ok q) =
    (p.output ≡ q.output)
    × (p.payload_sha256 ≡ q.payload_sha256)
    × (p.receipt_sha256 ≡ q.receipt_sha256)
SameObservation _ _ = Unit

emit-disk :
    (w : World) (network : Network) (checked : Args) (digest : String)
    → (emit (with_network w network) checked digest).disk ≡ (emit w checked digest).disk
unfolding output_of payload_of canonical_digest encode_document
emit-disk w network checked digest = by_fate (fate_of w checked digest) refl
  where
    by_fate :
        (f : Fate)
        → fate_of w checked digest ≡ f
        → (emit (with_network w network) checked digest).disk ≡ (emit w checked digest).disk
    by_fate not_made e =
        rw
          (
            emit-run_by w checked digest not_made e,
            emit-run_by (with_network w network) checked digest not_made e,
          )
          refl
    by_fate (cut_off n) e =
        rw
          (
            emit-run_by w checked digest (cut_off n) e,
            emit-run_by (with_network w network) checked digest (cut_off n) e,
          )
          refl
    by_fate not_replaced e =
        rw
          (
            emit-run_by w checked digest not_replaced e,
            emit-run_by (with_network w network) checked digest not_replaced e,
          )
          refl
    by_fate complete e =
        rw
          (
            emit-run_by w checked digest complete e,
            emit-run_by (with_network w network) checked digest complete e,
          )
          refl

emit-SameObservation :
    (w : World) (network : Network) (checked : Args) (digest : String)
    (a b : Result Refusal Printed)
    → (emit (with_network w network) checked digest).ended ≡ a
    → (emit w checked digest).ended ≡ b
    → SameObservation a b
emit-SameObservation w network checked digest (err e) b ha hb = tt
emit-SameObservation w network checked digest (ok p) (err e) ha hb = tt
emit-SameObservation w network checked digest (ok p) (ok q) ha hb =
    let (m, t, p_is) = emit-eq-ok (with_network w network) checked digest ha in
    let (n, u, q_is) = emit-eq-ok w checked digest hb in
    (
      sym (ap (λ (x : Printed). x.output) p_is)
          ∙ same_target w network checked digest
          ∙ ap (λ (x : Printed). x.output) q_is,
      sym (ap (λ (x : Printed). x.payload_sha256) p_is)
          ∙ ap w.sha256 (same_payload w network checked digest)
          ∙ ap (λ (x : Printed). x.payload_sha256) q_is,
      sym (ap (λ (x : Printed). x.receipt_sha256) p_is)
          ∙ ap (λ (x : Printed). x.receipt_sha256) q_is,
    )

-- Whatever address, token, server and network two runs have, they leave the same files, and where
-- both end well their summaries name the same file, the same document and the same receipt.
pub main-any_network :
    (w : World) (network : Network) (args : Args)
    → ((main (with_network w network) args).disk ≡ (main w args).disk)
      × SameObservation ((main (with_network w network) args).ended) ((main w args).ended)
main-any_network w network args = by_admission (admit w args) refl
  where
    by_admission :
        (r : Result Refusal (Args × String))
        → admit w args ≡ r
        → ((main (with_network w network) args).disk ≡ (main w args).disk)
          × SameObservation ((main (with_network w network) args).ended) ((main w args).ended)
    by_admission (err why) e =
        rw
          (
            main-not_admitted w args why e,
            main-not_admitted (with_network w network) args why (same_admission w network args ∙ e),
          )
          (refl, tt)
    by_admission (ok (checked, digest)) e =
        rw
          (
            main-admitted w args checked digest e,
            main-admitted (with_network w network) args checked digest
                (same_admission w network args ∙ e),
          )
          (
            emit-disk w network checked digest,
            emit-SameObservation w network checked digest _ _ refl refl,
          )
