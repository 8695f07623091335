-- ===== src/R54/Classify/Laws.antt =====
-- Which subjects are alive, and what a case changes in its subject.
use ex4pm.Prelude.{
  ◌&&◌, ap, ok-bind, ◌∙◌, ◌↔◌, eq_iff, ◌==◌, from_expect, String, refl, ◌≡◌, Bool, true, false, not,
  List, [], ◌∷◌, Option, none, some, ok, string_Eq, contains, if◌then◌else◌, arith,
}
use ex4pm.Json.{Json, Dict, bool, str, get, lookup, set_key, pop, truthy}
use ex4pm.Text.{is_hex40, split}
use ex4pm.Subject.{passed, pass, default_text, text_of}
use ex4pm.Json.Laws.{is_str_iff, is_false_iff, lookup-set_key, lookup-pop}
use ex4pm.R54.Classify.{
  classify, classify_authority, classify_revisions, set_all, pop_all, mutate, Case,
}

-- The key holds a revision: 40 lower-case hexadecimal digits.
abbrev pub HoldsRevision : Dict Json → String → Type 0
HoldsRevision s key = (base : String) × (get key s ≡ str base) × (is_hex40 base ≡ true)

-- The subject passes every guard.
pub record Admissible (s : Dict Json) : Type 0 where
  pub consumer : get "consumer_repo" s ≡ str "seanchatmangpt/ex4pm"
  pub producer : get "producer_repo" s ≡ str "seanchatmangpt/ggen-marketplace"
  pub pack : get "producer_pack" s ≡ str "epistemic-sensor-factory-pack"
  pub consumer_base : HoldsRevision s "consumer_base"
  pub producer_head : HoldsRevision s "producer_head"
  pub no_do : get "consequential_do" s ≡ bool false
  pub authority : String
  pub has_authority : get "authority" s ≡ str authority
  pub may_verify : contains (split b'|' authority) "VERIFY" ≡ true
  pub may_not_do : contains (split b'|' authority) "DO" ≡ false
  pub has_root : truthy (get "evidence_root" s) ≡ true
  pub admitted : get "standing" s ≡ str "ADMITTED"

fence : (a b : Bool) → (a && not b) ≡ true → (a ≡ true) × (b ≡ false)
fence a b h = ground arith

classify-Admissible : (s : Dict Json) → classify s ≡ ok "ALIVE" → Admissible s
unfolding classify classify_revisions classify_authority is_hex40 split
classify-Admissible s h = passed _ _ _ h refl λ consumer h. passed _ _ _ h refl λ producer h.
    passed _ _ _ h refl λ pack h. from_expect _ _ _ h λ base p h. passed _ _ _ h refl λ base_hex h.
      from_expect _ _ _ h λ head q h. passed _ _ _ h refl λ head_hex h.
        passed _ _ _ h refl λ no_do h. from_expect _ _ _ h λ authority r h.
          passed _ _ _ h refl λ fenced h. passed _ _ _ h refl λ has_root h.
            passed _ _ _ h refl λ admitted h.
              let (may_verify, may_not_do) = fence _ _ fenced in
              record {
                consumer = (is_str_iff _ _).0 consumer;
                producer = (is_str_iff _ _).0 producer;
                pack = (is_str_iff _ _).0 pack;
                consumer_base = (
                  base,
                  default_text is_hex40 (lookup "consumer_base" s) base p refl base_hex,
                  base_hex,
                );
                producer_head = (
                  head,
                  default_text is_hex40 (lookup "producer_head" s) head q refl head_hex,
                  head_hex,
                );
                no_do = (is_false_iff _).0 no_do;
                authority = authority;
                has_authority =
                    default_text (λ t. contains (split b'|' t) "VERIFY") (lookup "authority" s)
                      authority r refl may_verify;
                may_verify = may_verify;
                may_not_do = may_not_do;
                has_root = has_root;
                admitted = (is_str_iff _ _).0 admitted;
              }

Admissible-classify : (s : Dict Json) → Admissible s → classify s ≡ ok "ALIVE"
unfolding classify classify_revisions classify_authority
Admissible-classify s a =
    let (base, p, base_hex) = a.consumer_base in
    let (head, q, head_hex) = a.producer_head in
    rw (
      (is_str_iff _ _).1 a.consumer,
      pass,
      (is_str_iff _ _).1 a.producer,
      pass,
      (is_str_iff _ _).1 a.pack,
      pass,
      text_of (lookup "consumer_base" s) p,
      ok-bind,
      base_hex,
      pass,
      text_of (lookup "producer_head" s) q,
      ok-bind,
      head_hex,
      pass,
      (is_false_iff _).1 a.no_do,
      pass,
      text_of (lookup "authority" s) a.has_authority,
      ok-bind,
      a.may_verify,
      a.may_not_do,
      pass,
      a.has_root,
      pass,
      (is_str_iff _ _).1 a.admitted,
      pass,
    )

-- A subject is alive exactly if it names this consumer, producer and pack, has both revisions as
-- 40 lower-case hexadecimal digits, forbids consequences, may verify and not do, has an evidence
-- root and is admitted.
pub alive_iff : (s : Dict Json) → (classify s ≡ ok "ALIVE") ↔ Admissible s
alive_iff s = (classify-Admissible s, Admissible-classify s)

-- The value that the last entry for a key sets, if there is one
abbrev pub last_set : String → Dict Json → Option Json → Option Json
last_set key [] old = old
last_set key ((k, v) ∷ rest) old = last_set key rest (if k == key then some v else old)

lookup-set_all :
    (key : String) (changes s : Dict Json)
    → lookup key (set_all changes s) ≡ last_set key changes (lookup key s)
unfolding set_all
lookup-set_all key [] s = refl
lookup-set_all key ((k, v) ∷ rest) s =
    lookup-set_all key rest (set_key k v s) ∙ ap (last_set key rest) (lookup-set_key k key v s)

lookup-pop_all :
    (key : String) (dead : List String) (s : Dict Json)
    → lookup key (pop_all dead s) ≡ (if contains dead key then none else lookup key s)
unfolding pop_all
lookup-pop_all key [] s = refl
lookup-pop_all key (k ∷ rest) s =
    lookup-pop_all key rest (pop k s)
    ∙ ground (arith, lookup-pop k key s, eq_iff k key, eq_iff key k)

-- In a mutated subject a deleted key is gone; any other key has the value that the case sets
-- last, or else the value of the base.
pub lookup-mutate :
    (key : String) (base : Dict Json) (case : Case)
    → lookup key (mutate base case)
      ≡ (if contains case.delete key then none else last_set key case.set (lookup key base))
unfolding mutate
lookup-mutate key base case =
    lookup-pop_all key case.delete (set_all case.set base) ∙ rw (lookup-set_all key case.set base)
