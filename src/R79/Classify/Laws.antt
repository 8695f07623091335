-- ===== src/R79/Classify/Laws.antt =====
-- Which subjects are alive, and when the court passes.
use ex4pm.Prelude.{
  inr, inl, Bool-cases, sym, ◌∙◌, ℕ, ap, ok-injective, eq_iff, from_bind, All, contains-to_set,
  ok-bind, arith, from_expect, ◌&&◌, string_Eq, to_set, contains, String, refl, ◌≡◌, ◌↔◌, true,
  false, not, List, [], ◌∷◌, ok,
}
use ex4pm.Json.{is_str, Json, Dict, bool, str, get, lookup}
use ex4pm.R79.Classify.{
  complaints, classify, classify_authority, classify_revisions, Case, update, run_cases, main,
  Complaint,
}
use ex4pm.Failures.{not_complained, append_nil, status_zero}
use ex4pm.Json.Laws.{is_false_iff, is_str_iff}
use ex4pm.Subject.{default_text, text_of, pass, passed}
use ex4pm.Text.{split, is_hex40}
use ex4pm.R54.Classify.Laws.{HoldsRevision}

-- The subject passes every guard.
pub record Admissible (s : Dict Json) : Type 0 where
  pub consumer : get "consumer_repo" s ≡ str "seanchatmangpt/ex4pm"
  pub producer : get "producer_repo" s ≡ str "seanchatmangpt/ggen-marketplace"
  pub pack : get "producer_pack" s ≡ str "portfolio-epistemic-observability-pack"
  pub capability : get "producer_capability" s ≡ str "R78_TCPS_READY_SET_CAPITAL"
  pub consumer_base : HoldsRevision s "consumer_base"
  pub producer_head : HoldsRevision s "producer_head"
  pub prior : get "prior_consumer_standing" s ≡ str "MERGED_ALIVE"
  pub allocation : get "allocation_law" s ≡ str "legality-before-priority"
  pub authority : String
  pub has_authority : get "authority" s ≡ str authority
  pub may_verify : contains (split b'|' authority) "VERIFY" ≡ true
  pub may_not_do : contains (split b'|' authority) "DO" ≡ false
  pub no_do : get "consequential_do" s ≡ bool false
  pub admitted : get "standing" s ≡ str "ADMITTED"

fence_set :
    (parts : List String)
    → (contains (to_set parts) "VERIFY" && not (contains (to_set parts) "DO")) ≡ true
    → (contains parts "VERIFY" ≡ true) × (contains parts "DO" ≡ false)
fence_set parts h = ground (arith, contains-to_set "VERIFY" parts, contains-to_set "DO" parts)

classify-Admissible : (s : Dict Json) → classify s ≡ ok "ALIVE" → Admissible s
unfolding classify classify_revisions classify_authority is_hex40 split
classify-Admissible s h = passed _ _ _ h refl λ consumer h. passed _ _ _ h refl λ producer h.
    passed _ _ _ h refl λ pack h. passed _ _ _ h refl λ capability h.
      from_expect _ _ _ h λ base p h. passed _ _ _ h refl λ base_hex h.
        from_expect _ _ _ h λ head q h. passed _ _ _ h refl λ head_hex h.
          passed _ _ _ h refl λ prior h. passed _ _ _ h refl λ allocation h.
            from_expect _ _ _ h λ authority r h. passed _ _ _ h refl λ fenced h.
              passed _ _ _ h refl λ no_do h. passed _ _ _ h refl λ admitted h.
                let (may_verify, may_not_do) = fence_set (split b'|' authority) fenced in
                record {
                  consumer = (is_str_iff _ _).0 consumer;
                  producer = (is_str_iff _ _).0 producer;
                  pack = (is_str_iff _ _).0 pack;
                  capability = (is_str_iff _ _).0 capability;
                  consumer_base = (
                    base,
                    default_text is_hex40 (lookup "consumer_base" s) base p refl base_hex,
                    base_hex,
                  );
                  producer_head = (
                    head,
                    default_text is_hex40 (lookup "producer_head" s) head q refl head_hex,
                    head_hex,
                  );
                  prior = (is_str_iff _ _).0 prior;
                  allocation = (is_str_iff _ _).0 allocation;
                  authority = authority;
                  has_authority =
                      default_text (λ t. contains (split b'|' t) "VERIFY") (lookup "authority" s)
                        authority r refl may_verify;
                  may_verify = may_verify;
                  may_not_do = may_not_do;
                  no_do = (is_false_iff _).0 no_do;
                  admitted = (is_str_iff _ _).0 admitted;
                }

Admissible-classify : (s : Dict Json) → Admissible s → classify s ≡ ok "ALIVE"
unfolding classify classify_revisions classify_authority
Admissible-classify s a =
    let (base, p, base_hex) = a.consumer_base in
    let (head, q, head_hex) = a.producer_head in
    let parts = split b'|' a.authority in
    rw (
      (is_str_iff _ _).1 a.consumer,
      pass,
      (is_str_iff _ _).1 a.producer,
      pass,
      (is_str_iff _ _).1 a.pack,
      pass,
      (is_str_iff _ _).1 a.capability,
      pass,
      text_of (lookup "consumer_base" s) p,
      ok-bind,
      base_hex,
      pass,
      text_of (lookup "producer_head" s) q,
      ok-bind,
      head_hex,
      pass,
      (is_str_iff _ _).1 a.prior,
      pass,
      (is_str_iff _ _).1 a.allocation,
      pass,
      text_of (lookup "authority" s) a.has_authority,
      ok-bind,
      contains-to_set "VERIFY" parts,
      contains-to_set "DO" parts,
      a.may_verify,
      a.may_not_do,
      pass,
      (is_false_iff _).1 a.no_do,
      pass,
      (is_str_iff _ _).1 a.admitted,
      pass,
    )

-- A subject is alive exactly if it names this consumer, producer, pack and capability, has both
-- revisions as 40 lower-case hexadecimal digits, its prior standing and its allocation law are the
-- required ones, it may verify and not do, forbids consequences, and is admitted.
pub ready_iff : (s : Dict Json) → (classify s ≡ ok "ALIVE") ↔ Admissible s
ready_iff s = (classify-Admissible s, Admissible-classify s)

-- The case has the verdict that it expects.
abbrev pub Met : Dict Json → Case → Type 0
Met subject case =
    (s : String) × (classify (update subject case.set) ≡ ok s) × (case.expected ≡ str s)

no_complaints :
    (case : Case) (actual : String)
    → complaints case actual ≡ ok []
    → is_str case.expected actual ≡ true
unfolding complaints
no_complaints case actual h = elim (Bool-cases (is_str case.expected actual)) [
  | inl met ↦ met
  | inr unmet ↦ from_expect _ _ _ (rw unmet at h) λ wanted p q. absurd (ground arith)
]

run_cases_clean :
    (subject : Dict Json) (cases : List Case)
    → run_cases subject cases ≡ ok []
    → All (Met subject) cases
unfolding run_cases
run_cases_clean subject [] h = tt
run_cases_clean subject (case ∷ cases) h = from_bind _ _ h λ actual p h. from_bind _ _ h λ mine r h.
    from_bind _ _ h λ later q h.
      let (none_mine, theirs) = append_nil mine later (ok-injective h) in
      (
        (actual, p, (is_str_iff _ _).0 (no_complaints case actual (r ∙ ap ok none_mine))),
        run_cases_clean subject cases (q ∙ ap ok theirs),
      )

clean_run_cases :
    (subject : Dict Json) (cases : List Case)
    → All (Met subject) cases
    → run_cases subject cases ≡ ok []
unfolding run_cases complaints
clean_run_cases subject [] m = refl
clean_run_cases subject (case ∷ cases) m =
    let (s, p, e) = m.0 in
    rw (p, ok-bind, e, (eq_iff s s).1 refl, ok-bind, clean_run_cases subject cases m.1, ok-bind)

main_zero :
    (subject : Dict Json) (cases : List Case) (failures : List Complaint)
    → main subject cases ≡ ok (0, failures)
    → Admissible subject × All (Met subject) cases × (failures ≡ [])
unfolding main
main_zero subject cases failures h = from_bind _ _ h λ standing p h. from_bind _ _ h λ later q h.
    let clean = status_zero _ (ap (λ (r : ℕ × List Complaint). r.0) (ok-injective h)) in
    let (mine, theirs) = append_nil _ later clean in
    let alive = (eq_iff standing "ALIVE").0 (not_complained _ _ mine) in
    (
      classify-Admissible subject (p ∙ ap ok alive),
      run_cases_clean subject cases (q ∙ ap ok theirs),
      sym (ap (λ (r : ℕ × List Complaint). r.1) (ok-injective h)) ∙ clean,
    )

main_of_Admissible :
    (subject : Dict Json) (cases : List Case)
    → Admissible subject
    → All (Met subject) cases
    → main subject cases ≡ ok (0, [])
unfolding main
main_of_Admissible subject cases a m =
    rw (Admissible-classify subject a, ok-bind, clean_run_cases subject cases m, ok-bind)

-- The court passes exactly if the subject itself is alive and each case has the verdict that it
-- expects; there are then no failures.
pub ready_court_passes :
    (subject : Dict Json) (cases : List Case) (failures : List Complaint)
    → (main subject cases ≡ ok (0, failures))
      ↔ (Admissible subject × All (Met subject) cases × (failures ≡ []))
ready_court_passes subject cases failures = (
  main_zero subject cases failures,
  λ (a, m, e). main_of_Admissible subject cases a m ∙ λ i. ok (0, sym e i),
)
