-- ===== src/Crown/Evidence/Laws.antt =====
-- What an accepted file manifest proves.
use ex4pm.Prelude.{
  refl, [], ◌∷◌, sym, ◌++◌, ◌↔◌, ℕ, String, ◌≡◌, true, List, Option, some, ok, arith, from_bind,
  nat_eq_iff, ok-injective, subst, ap, ◌∙◌, expect-eq-ok, ok-bind, from_expect, from_require,
  nat_Eq, string_Eq, eq_iff,
}
use ex4pm.Text.{str_len}
use ex4pm.Json.{Json, Dict, str, get, as_dict}
use ex4pm.Json.Laws.{as_str-eq-some}
use ex4pm.Crown.World.{World, Label, is_within}
use ex4pm.Crown.Evidence.{verify_file, load_verified_json, within}

-- The path goes on from the root.
abbrev pub Below : List String → List String → Type 0
Below root path = (rest : List String) × (path ≡ root ++ rest)

is_within-Below : (root path : List String) → is_within root path ≡ true → Below root path
is_within-Below [] path h = (path, refl)
is_within-Below (r ∷ root) [] h = cc
is_within-Below (r ∷ root) (p ∷ path) h =
    let (rest, e) = is_within-Below root path (ground arith) in
    (rest, λ i. sym ((eq_iff r p).0 (ground arith)) i ∷ e i)

Below-is_within : (root rest : List String) → is_within root (root ++ rest) ≡ true
Below-is_within [] rest = refl
Below-is_within (r ∷ root) rest = rw ((eq_iff r r).1 refl, Below-is_within root rest)

-- The manifest names a file inside the evidence root whose bytes have the digest that it states.
pub record Attested (w : World) (entry : Dict Json) (path : List String) : Type 0 where
  pub raw : String
  pub digest : String
  pub content : List ℕ
  pub named : get "path" entry ≡ str raw
  pub stated : get "sha256" entry ≡ str digest
  pub full_length : str_len digest ≡ 64
  pub reached : w.resolve raw ≡ path
  pub inside : Below w.root path
  pub regular : w.is_file path ≡ true
  pub holds : w.read path ≡ some content
  pub same_bytes : w.sha256 content ≡ digest

within-eq-ok :
    (w : World) (raw : String) {path : List String}
    → within w raw ≡ ok path
    → (w.resolve raw ≡ path) × (Below w.root path) × (w.is_file path ≡ true)
unfolding within
within-eq-ok w raw {path} h = from_require _ _ _ h λ inside h. from_require _ _ _ h λ regular h.
    let e = ok-injective h in
    (e, subst (Below w.root) e (is_within-Below w.root _ inside), rw (← e) regular)

pub verify_file-Attested :
    (w : World) (entry : Dict Json) (l : Label) (path : List String)
    → verify_file w entry l ≡ ok path
    → Attested w entry path
unfolding verify_file
verify_file-Attested w entry l path h = from_expect _ _ _ h λ raw p h.
    from_expect _ _ _ h λ digest q h. from_require _ _ _ h λ len64 h.
      from_bind _ _ h λ path' inside h. from_expect _ _ _ h λ content held h.
        from_require _ _ _ h λ same h.
          let (reached, within_root, regular) = within-eq-ok w raw inside in
          subst (Attested w entry) (ok-injective h) (record {
            raw = raw;
            digest = digest;
            content = content;
            named = as_str-eq-some _ p;
            stated = as_str-eq-some _ q;
            full_length = (nat_eq_iff _ _).0 len64;
            reached = reached;
            inside = within_root;
            regular = regular;
            holds = held;
            same_bytes = (eq_iff _ _).0 same;
          })

-- A manifest that is attested is accepted, whatever its label.
inside_root : (w : World) (path : List String) → Below w.root path → is_within w.root path ≡ true
inside_root w path (rest, e) = rw e (Below-is_within w.root rest)

pub verify_file_of_Attested :
    (w : World) (entry : Dict Json) (l : Label) {path : List String}
    → Attested w entry path
    → verify_file w entry l ≡ ok path
unfolding verify_file within
verify_file_of_Attested w entry l {path} a = rw (
  a.named,
  ok-bind,
  a.stated,
  ok-bind,
  (nat_eq_iff (str_len a.digest) 64).1 a.full_length,
  ok-bind,
  a.reached,
  inside_root w path a.inside,
  ok-bind,
  a.regular,
  ok-bind,
  ok-bind,
  a.holds,
  ok-bind,
  (eq_iff (w.sha256 a.content) a.digest).1 a.same_bytes,
  ok-bind,
)

-- A file manifest is accepted exactly if it names a regular file below the evidence root, states a
-- digest of 64 characters, and the file's bytes have that digest; the label does not matter.
pub verify_file_iff :
    (w : World) (entry : Dict Json) (l : Label) (path : List String)
    → (verify_file w entry l ≡ ok path) ↔ Attested w entry path
verify_file_iff w entry l path =
    (verify_file-Attested w entry l path, verify_file_of_Attested w entry l)

-- The object that is used was parsed from the bytes that have the stated digest.
pub record AttestedJson (w : World) (entry d : Dict Json) : Type 0 where
  pub path : List String
  pub file : Attested w entry path
  pub value : Json
  pub parsed : w.loads file.content ≡ some value
  pub object : as_dict value ≡ some d

some_content : {o : Option (List ℕ)} {a b : List ℕ} → o ≡ some a → o ≡ some b → a ≡ b
some_content p q = cc

pub load_verified_json-AttestedJson :
    (w : World) (entry : Dict Json) (l : Label) (d : Dict Json)
    → load_verified_json w entry l ≡ ok d
    → AttestedJson w entry d
unfolding load_verified_json
load_verified_json-AttestedJson w entry l d h = from_bind _ _ h λ path p h.
    from_expect _ _ _ h λ content held h. from_expect _ _ _ h λ value parsed h.
      let file = verify_file-Attested w entry l path p in
      record {
        path = path;
        file = file;
        value = value;
        parsed = ap w.loads (some_content file.holds held) ∙ parsed;
        object = expect-eq-ok _ _ h;
      }

pub load_verified_json_of_AttestedJson :
    (w : World) (entry d : Dict Json) (l : Label)
    → AttestedJson w entry d
    → load_verified_json w entry l ≡ ok d
unfolding load_verified_json
load_verified_json_of_AttestedJson w entry d l a = rw (
  verify_file_of_Attested w entry l a.file,
  ok-bind,
  a.file.holds,
  ok-bind,
  a.parsed,
  ok-bind,
  a.object,
)
