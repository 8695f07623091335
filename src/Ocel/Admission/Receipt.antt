-- ===== src/Ocel/Admission/Receipt.antt =====
-- What the admitted receipts are.
use ex4pm.Json.{
  Json, Dict, Exception, str, dict, Fields, entries, end, get, get_or, as_dict, is_str, is_zero,
}
use ex4pm.Json.Laws.{is_str_iff}
use ex4pm.Prelude.{
  ℕ, String, refl, sym, ap, ◌∙◌, subst, ◌≡◌, ◌↔◌, true, List, Option, some, Result, ok, err,
  ok-injective, from_bind, from_expect, from_require, ok-bind, string_Eq,
}
use ex4pm.Ocel.{Loaded, value, malformed, raises}
use ex4pm.Ocel.Admission.{parsed, read, admit_receipt}

-- The receipt's bytes, read as JSON, are an object for this revision with this standing, whose
-- `exit_codes` has a zero for `mix_verify`; the digest is that of the bytes.
pub record AdmittedReceipt (loads : List ℕ → Loaded) (sha256 : List ℕ → String)
    (file : Option (Result Exception (List ℕ))) (sha standing digest : String) : Type 0 where
  raw : List ℕ
  receipt : Fields
  exit_codes : Fields
  is_read : file ≡ some (ok raw)
  is_json : loads raw ≡ value (dict receipt)
  subject : get "subject_sha" (entries receipt) ≡ str sha
  same_standing : get "standing" (entries receipt) ≡ str standing
  has_codes : get_or "exit_codes" (dict end) (entries receipt) ≡ dict exit_codes
  zero_exit : is_zero (get "mix_verify" (entries exit_codes)) ≡ true
  same_digest : digest ≡ sha256 raw

as_dict-eq-some :
    (v : Json) {d : Dict Json}
    → as_dict v ≡ some d
    → (fs : Fields) × (v ≡ dict fs) × (d ≡ entries fs)
as_dict-eq-some (dict fs) h = (fs, refl, cc)
as_dict-eq-some v h = absurd (cc)

parsed-eq-ok : (l : Loaded) {v : Json} → parsed l ≡ ok v → l ≡ value v
parsed-eq-ok (value v) h = ap value (ok-injective h)
parsed-eq-ok malformed h = absurd (cc)
parsed-eq-ok (raises e) h = absurd (cc)

read-eq-ok : (r : Result Exception (List ℕ)) {raw : List ℕ} → read r ≡ ok raw → r ≡ ok raw
read-eq-ok (ok raw) h = ap ok (ok-injective h)
read-eq-ok (err e) h = absurd (cc)

module _ (loads : List ℕ → Loaded) (sha256 : List ℕ → String)
    (file : Option (Result Exception (List ℕ))) (sha standing digest : String) where
  admit_receipt-AdmittedReceipt :
      admit_receipt loads sha256 file sha standing ≡ ok digest
      → AdmittedReceipt loads sha256 file sha standing digest
  unfolding admit_receipt
  admit_receipt-AdmittedReceipt h = from_expect _ _ _ h λ reading p1 h. from_bind _ _ h λ raw p2 h.
      from_bind _ _ h λ v p3 h. from_expect _ _ _ h λ receipt p4 h.
        from_require _ _ _ h λ subject h. from_require _ _ _ h λ same_standing h.
          from_expect _ _ _ h λ codes p5 h. from_require _ _ _ h λ zero_exit h.
            let (fs, v_is, receipt_is) = as_dict-eq-some v p4 in
            let (cs, codes_are, entries_are) =
              as_dict-eq-some (get_or "exit_codes" (dict end) receipt) p5 in
            record {
              raw = raw;
              receipt = fs;
              exit_codes = cs;
              is_read = p1 ∙ ap some (read-eq-ok reading p2);
              is_json = parsed-eq-ok (loads raw) p3 ∙ ap value v_is;
              subject =
                  (is_str_iff _ sha).0
                    (subst (λ d. is_str (get "subject_sha" d) sha ≡ true) receipt_is subject);
              same_standing =
                  (is_str_iff _ standing).0 (
                    subst (λ d. is_str (get "standing" d) standing ≡ true) receipt_is
                      same_standing);
              has_codes = ap (get_or "exit_codes" (dict end)) (sym receipt_is) ∙ codes_are;
              zero_exit = subst (λ d. is_zero (get "mix_verify" d) ≡ true) entries_are zero_exit;
              same_digest = sym (ok-injective h);
            }

  AdmittedReceipt-admit_receipt :
      AdmittedReceipt loads sha256 file sha standing digest
      → admit_receipt loads sha256 file sha standing ≡ ok digest
  unfolding admit_receipt
  AdmittedReceipt-admit_receipt v = rw (
    v.is_read,
    ok-bind,
    ok-bind,
    v.is_json,
    ok-bind,
    ok-bind,
    (is_str_iff _ sha).1 v.subject,
    ok-bind,
    (is_str_iff _ standing).1 v.same_standing,
    ok-bind,
    v.has_codes,
    ok-bind,
    v.zero_exit,
    ok-bind,
    v.same_digest,
  )

-- A receipt is admitted just if its bytes can be read and are a JSON object for the expected revision
-- and standing whose `exit_codes` says that `mix_verify` ended with zero (which `False` and a zero
-- float also say); the result is the digest of those very bytes.
pub admit_receipt_iff :
    (loads : List ℕ → Loaded) (sha256 : List ℕ → String) (file : Option (Result Exception (List ℕ)))
    (sha standing digest : String)
    → (admit_receipt loads sha256 file sha standing ≡ ok digest)
      ↔ AdmittedReceipt loads sha256 file sha standing digest
admit_receipt_iff loads sha256 file sha standing digest = (
  admit_receipt-AdmittedReceipt loads sha256 file sha standing digest,
  AdmittedReceipt-admit_receipt loads sha256 file sha standing digest,
)
