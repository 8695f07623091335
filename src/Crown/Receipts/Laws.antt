-- ===== src/Crown/Receipts/Laws.antt =====
-- What `verify_receipts` accepts.
use ex4pm.Prelude.{
  refl, traverse-Zip, arith, [], ◌∷◌, inl, eq_iff, ok-injective, subst, require-eq-ok, Zip-traverse,
  ap, length, from_bind, from_require, inr, ◌↔◌, from_expect, ◌⊎◌, ok-bind, All, some, Zip, ℕ, ◌≡◌,
  List,
}
use ex4pm.Crown.Rails.Groups.{not_empty, filled}
use ex4pm.Json.{Json, Dict, str, null, get, as_dict, as_list}
use ex4pm.Json.Laws.{is_str_iff}
use ex4pm.Crown.Receipts.{true, ok, grants_nothing, verify_receipt, verify_receipts}
use ex4pm.Crown.World.{World}
use ex4pm.Crown.Evidence.Laws.{
  AttestedJson, load_verified_json-AttestedJson, load_verified_json_of_AttestedJson,
}

-- The replay matched its chain, and nobody may retry on its authority.
pub record Replayed (w : World) (entry : Json) : Type 0 where
  pub e : Dict Json
  pub evidence : Dict Json
  pub object : as_dict entry ≡ some e
  pub attested : AttestedJson w e evidence
  pub chain_match : get "replay" evidence ≡ str "chain_match"
  pub no_retry :
      (get "retry_authority" evidence ≡ null) ⊎ (get "retry_authority" evidence ≡ str "none")

grants_nothing_iff : (v : Json) → (grants_nothing v ≡ true) ↔ ((v ≡ null) ⊎ (v ≡ str "none"))
grants_nothing_iff (str s) = (
  λ h. inr (ap str ((eq_iff s "none").0 h)),
  λ h. elim h [ inl e ↦ cc | inr e ↦ (is_str_iff (str s) "none").1 e ],
)
grants_nothing_iff null = ground arith
grants_nothing_iff v = ground arith

verify_receipt-Replayed :
    (w : World) (i : ℕ) (entry : Json) (u : Unit {0})
    → verify_receipt w (i, entry) ≡ ok u
    → Replayed w entry
unfolding verify_receipt
verify_receipt-Replayed w i entry u h = from_expect _ _ _ h λ e object h.
    from_bind _ _ h λ evidence loaded h. from_require _ _ _ h λ chain_match h. record {
      e = e;
      evidence = evidence;
      object = object;
      attested = load_verified_json-AttestedJson w e _ evidence loaded;
      chain_match = (is_str_iff _ _).0 chain_match;
      no_retry = (grants_nothing_iff _).0 (require-eq-ok _ _ h);
    }

verify_receipt_of_Replayed :
    (w : World) (i : ℕ) (entry : Json) (u : Unit {0})
    → Replayed w entry
    → verify_receipt w (i, entry) ≡ ok u
unfolding verify_receipt
verify_receipt_of_Replayed w i entry u r = rw (
  r.object,
  ok-bind,
  load_verified_json_of_AttestedJson w r.e r.evidence _ r.attested,
  ok-bind,
  (is_str_iff _ _).1 r.chain_match,
  ok-bind,
  (grants_nothing_iff _).1 r.no_retry,
)

-- There is a receipt, each was replayed, and the result counts them.
pub record ReceiptsProven (w : World) (crown : Dict Json) (n : ℕ) : Type 0 where
  pub receipts : List Json
  pub listed : as_list (get "receipt_replays" crown) ≡ some receipts
  pub some_receipt : (r : Json) × (rs : List Json) × (receipts ≡ r ∷ rs)
  pub replayed : All (Replayed w) receipts
  pub counted : n ≡ length receipts

replays :
    (w : World) (xs : List Json) (us : List (Unit {0}))
    → Zip (λ x u. Replayed w x) xs us
    → All (Replayed w) xs
replays w [] us z = tt
replays w (x ∷ xs) [] z = elim z [ ]
replays w (x ∷ xs) (u ∷ us) z = (z.0, replays w xs us z.1)

units :
    (w : World) (xs : List Json)
    → All (Replayed w) xs
    → (us : List (Unit {0})) × Zip (λ x u. Replayed w x) xs us
units w [] a = ([], tt)
units w (x ∷ xs) a = let (us, z) = units w xs a.1 in (tt ∷ us, (a.0, z))

pub verify_receipts-ReceiptsProven :
    (w : World) (crown : Dict Json) (n : ℕ)
    → verify_receipts w crown ≡ ok n
    → ReceiptsProven w crown n
unfolding verify_receipts
verify_receipts-ReceiptsProven w crown n h = from_expect _ _ _ h λ receipts listed h.
    from_require _ _ _ h λ filled h. from_bind _ _ h λ us each h.
      subst (ReceiptsProven w crown) (ok-injective h) (record {
        receipts = receipts;
        listed = listed;
        some_receipt = not_empty receipts filled;
        replayed =
            replays w receipts us
              (traverse-Zip _ (λ x u. Replayed w x) (verify_receipt-Replayed w) 0 receipts us each);
        counted = refl;
      })

pub verify_receipts_of_ReceiptsProven :
    (w : World) (crown : Dict Json) (n : ℕ)
    → ReceiptsProven w crown n
    → verify_receipts w crown ≡ ok n
unfolding verify_receipts
verify_receipts_of_ReceiptsProven w crown n p =
    let (us, z) = units w p.receipts p.replayed in
    rw (
      p.listed,
      ok-bind,
      filled p.receipts p.some_receipt,
      ok-bind,
      Zip-traverse (verify_receipt w) (λ x u. Replayed w x) (verify_receipt_of_Replayed w) 0
          p.receipts us z,
      ok-bind,
      p.counted,
    )

-- The receipts are accepted exactly if there is one, and each is attested, matches its chain and
-- grants no retry; the result is their number.
pub verify_receipts_iff :
    (w : World) (crown : Dict Json) (n : ℕ)
    → (verify_receipts w crown ≡ ok n) ↔ ReceiptsProven w crown n
verify_receipts_iff w crown n =
    (verify_receipts-ReceiptsProven w crown n, verify_receipts_of_ReceiptsProven w crown n)
