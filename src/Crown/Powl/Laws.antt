-- ===== src/Crown/Powl/Laws.antt =====
-- What `verify_powl` accepts.
use ex4pm.Prelude.{
  Option, none, ◌<◌, ℕ, String, ◌≡◌, ◌↔◌, ◌≤◌, refl, true, false, not, List, [], ◌∷◌, some, Result,
  ok, err, ◌>>=◌, from_bind, from_expect, from_require, All, arith, ok-bind, ok-injective, subst,
}
use ex4pm.Json.{
  value_or, Exception, Json, Dict, ℤ, pos, negsuc, bool, int, get, lookup, as_dict, to_int,
  less_than,
}
use ex4pm.Json.Laws.{is_true_iff}
use ex4pm.Crown.World.{Failure, powl_not_proven}
use ex4pm.Crown.Powl.{lift, require_true, powl_fields, verify_powl}

pub require_true-eq-ok :
    (refusal : String → Failure) (fields : List String) (d : Dict Json) {u : Unit {0}}
    → require_true refusal fields d ≡ ok u
    → All (λ f. get f d ≡ bool true) fields
unfolding require_true
require_true-eq-ok refusal [] d h = tt
require_true-eq-ok refusal (f ∷ fs) d h =
    from_require _ _ _ h λ here h. ((is_true_iff _).0 here, require_true-eq-ok refusal fs d h)

pub require_true_of_All :
    (refusal : String → Failure) (fields : List String) (d : Dict Json)
    → All (λ f. get f d ≡ bool true) fields
    → require_true refusal fields d ≡ ok tt
unfolding require_true ◌>>=◌
require_true_of_All refusal [] d h = refl
require_true_of_All refusal (f ∷ fs) d h =
    rw ((is_true_iff _).1 h.0, require_true_of_All refusal fs d h.1)

pub lift-eq-ok : {A : Type 0} (r : Result Exception A) {a : A} → lift r ≡ ok a → r ≡ ok a
lift-eq-ok (ok a) h = cc
lift-eq-ok (err e) h = cc

-- An integer that the key really holds: a missing key counts as 0.
abbrev pub CountsAtLeast : Dict Json → String → ℕ → Type 0
CountsAtLeast d key least =
    (v : Json) × (n : ℕ) × (lookup key d ≡ some v) × (to_int v ≡ ok (pos n)) × (least ≤ n)

counted :
    (o : Option Json) (least : ℕ) (n : ℤ)
    → 0 < least
    → lift (to_int (value_or (int (pos 0)) o)) ≡ ok n
    → not (less_than n least) ≡ true
    → (v : Json) × (m : ℕ) × (o ≡ some v) × (to_int v ≡ ok (pos m)) × (least ≤ m)
unfolding to_int
counted none least (pos m) big h t = ground arith
counted none least (negsuc m) big h t = ground arith
counted (some v) least (pos m) big h t = (v, m, refl, lift-eq-ok _ h, ground arith)
counted (some v) least (negsuc m) big h t = ground arith

-- The POWL evidence has its five proofs and its two corpora.
pub record PowlProven (crown powl : Dict Json) : Type 0 where
  pub object : as_dict (get "powl" crown) ≡ some powl
  pub proven : All (λ f. get f powl ≡ bool true) powl_fields
  pub cases : CountsAtLeast powl "generated_cases" 2048
  pub samples : CountsAtLeast powl "reactor_samples" 64

pub verify_powl-PowlProven :
    (crown powl : Dict Json) → verify_powl crown ≡ ok powl → PowlProven crown powl
unfolding verify_powl
verify_powl-PowlProven crown powl h = from_expect _ _ _ h λ powl' object h.
    from_bind _ _ h λ u proven h. from_bind _ _ h λ cases c h. from_require _ _ _ h λ many h.
      from_bind _ _ h λ samples s h. from_require _ _ _ h λ enough h.
        subst (PowlProven crown) (ok-injective h) (record {
          object = object;
          proven = require_true-eq-ok _ _ _ proven;
          cases = counted _ 2048 cases (omega arith) c many;
          samples = counted _ 64 samples (omega arith) s enough;
        })

at_least : (m least : ℕ) → least ≤ m → less_than (pos m) least ≡ false
at_least m least h = ground arith

pub verify_powl_of_PowlProven :
    (crown powl : Dict Json) → PowlProven crown powl → verify_powl crown ≡ ok powl
unfolding verify_powl
verify_powl_of_PowlProven crown powl p =
    let (v, n, found, whole, enough) = p.cases in
    let (v', n', found', whole', enough') = p.samples in
    rw (
      p.object,
      ok-bind,
      require_true_of_All powl_not_proven powl_fields powl p.proven,
      ok-bind,
      found,
      whole,
      ok-bind,
      at_least n 2048 enough,
      ok-bind,
      found',
      whole',
      ok-bind,
      at_least n' 64 enough',
      ok-bind,
    )

-- The POWL evidence is accepted exactly if its five proofs are `True` and the two corpora, which
-- it must state, count at least 2048 cases and 64 samples.
pub verify_powl_iff :
    (crown powl : Dict Json) → (verify_powl crown ≡ ok powl) ↔ PowlProven crown powl
verify_powl_iff crown powl =
    (verify_powl-PowlProven crown powl, verify_powl_of_PowlProven crown powl)
