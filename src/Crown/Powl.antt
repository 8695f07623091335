-- ===== src/Crown/Powl.antt =====
-- `verify_powl`: the five proofs and the two corpora of the POWL compiler.
pub mod Laws
use ex4pm.Prelude.{String, not, List, [], ◌∷◌, Result, ok, err, ◌>>=◌, ◌>>◌, require, expect}
use ex4pm.Json.{Json, Dict, Exception, pos, less_than, int, get, get_or, as_dict, is_true, to_int}
use ex4pm.Crown.World.{Failure, raised, missing_powl, powl_not_proven, few_cases, few_samples}

-- An exception of `int` leaves the court as it is.
abbrev pub lift : {A : Type 0} → Result Exception A → Result Failure A
lift (ok a) = ok a
lift (err e) = err (raised e)

-- `for field in fields: if d.get(field) is not True: fail(...)`
unfoldable pub require_true :
    (String → Failure) → List String → Dict Json → Result Failure (Unit {0})
require_true refusal [] d = ok tt
require_true refusal (field ∷ fields) d =
    let rest = require_true refusal fields d in
    require (is_true (get field d)) (refusal field) >> rest

abbrev pub powl_fields : List String
powl_fields =
    "soundness" ∷ "completeness" ∷ "correspondence" ∷ "compiler_refinement" ∷ "formal_proof" ∷ []

unfoldable pub verify_powl : Dict Json → Result Failure (Dict Json)
verify_powl crown = do
  powl ← expect (as_dict (get "powl" crown)) missing_powl
  require_true powl_not_proven powl_fields powl
  cases ← lift (to_int (get_or "generated_cases" (int (pos 0)) powl))
  require (not (less_than cases 2048)) few_cases
  samples ← lift (to_int (get_or "reactor_samples" (int (pos 0)) powl))
  require (not (less_than samples 64)) few_samples
  ok powl
