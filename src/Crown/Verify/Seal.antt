-- ===== src/Crown/Verify/Seal.antt =====
-- What the crown says of itself: `standing` is ignored, and `evidence_hash` seals all the rest.
use ex4pm.Prelude.{
  inr, inl, sym, ok-bind, ◌≢◌, ◌∙◌, ap, string_Eq, eq_iff, false, arith, ◌==◌, refl, ◌≡◌, String,
  [], ◌∷◌, Option,
}
use ex4pm.Crown.Sabotage.Laws.{verify_sabotage_of_SabotageDetected}
use ex4pm.Crown.Global.Laws.{verify_global_of_GlobalProven}
use ex4pm.Crown.Receipts.Laws.{verify_receipts_of_ReceiptsProven}
use ex4pm.Crown.Commands.Laws.{verify_commands_of_CommandsProven}
use ex4pm.Crown.Rails.Laws.{verify_rails_of_RailsAgree}
use ex4pm.Crown.Powl.Laws.{verify_powl_of_PowlProven}
use ex4pm.Crown.Identity.Laws.{verify_identity_of_IdentityProven}
use ex4pm.Crown.Verify.Accepts.{verify_crown-Accepted}
use ex4pm.Crown.Verify.{ok, supplied_hash, unsigned, Verdict, verify_crown}
use ex4pm.Crown.Evidence.{canonical_hash}
use ex4pm.Crown.Sabotage.{verify_sabotage}
use ex4pm.Crown.Global.{verify_global}
use ex4pm.Crown.Receipts.{verify_receipts}
use ex4pm.Crown.Commands.{verify_commands}
use ex4pm.Crown.Rails.{verify_rails}
use ex4pm.Crown.Powl.{verify_powl}
use ex4pm.Crown.Identity.{verify_identity}
use ex4pm.Json.{Json, Dict, str, set_key, pop}
use ex4pm.Json.Laws.{lookup-set_key, lookup-pop}
use ex4pm.Crown.World.{World}

pop-set_key : {V : Type 0} (k : String) (v : V) (d : Dict V) → pop k (set_key k v d) ≡ pop k d
unfolding pop set_key
pop-set_key k v [] = ground (arith, eq_iff k k)
pop-set_key k v ((j, w) ∷ d) = ground (arith, eq_iff j k, pop-set_key k v d)

-- Whatever standing the crown claims, the verdict is the same.
pub verify_crown-set_standing :
    (w : World) (crown : Dict Json) (claim : Json) (es et : Option String)
    → verify_crown w (set_key "standing" claim crown) es et ≡ verify_crown w crown es et
unfolding verify_crown verify_identity verify_powl verify_rails verify_commands verify_receipts
    verify_global verify_sabotage unsigned supplied_hash
verify_crown-set_standing w crown claim es et = simp (pop-set_key, lookup-set_key)

-- The crown with its evidence hash written in
pub seal : World → Dict Json → Dict Json
seal w crown = set_key "evidence_hash" (str (canonical_hash w (unsigned crown))) crown

pop-set_key_ne :
    {V : Type 0} (k j : String) (v : V) (d : Dict V)
    → (k == j) ≡ false
    → pop j (set_key k v d) ≡ set_key k v (pop j d)
unfolding pop set_key
pop-set_key_ne k j v [] h = rw h
pop-set_key_ne k j v ((i, w) ∷ d) h =
    ground (arith, eq_iff i j, eq_iff i k, eq_iff k j, pop-set_key_ne k j v d h)

unsigned-set_hash :
    (crown : Dict Json) (v : Json) → unsigned (set_key "evidence_hash" v crown) ≡ unsigned crown
unfolding unsigned
unsigned-set_hash crown v =
    ap (pop "evidence_hash") (pop-set_key_ne "evidence_hash" "standing" v crown refl)
    ∙ pop-set_key "evidence_hash" v (pop "standing" crown)

supplied_hash-set_hash :
    (crown : Dict Json) (v : Json) → supplied_hash (set_key "evidence_hash" v crown) ≡ v
unfolding supplied_hash
supplied_hash-set_hash crown v = simp (lookup-pop, lookup-set_key)

-- No court reads the evidence hash.
courts-set_hash :
    (w : World) (crown : Dict Json) (v : Json) (es et : Option String) (source : String)
    → (let c = set_key "evidence_hash" v crown in
        (verify_identity w c es et ≡ verify_identity w crown es et)
        × (verify_powl c ≡ verify_powl crown)
        × (verify_rails w c ≡ verify_rails w crown)
        × (verify_commands w c ≡ verify_commands w crown)
        × (verify_receipts w c ≡ verify_receipts w crown)
        × (verify_global w c source ≡ verify_global w crown source)
        × (verify_sabotage c ≡ verify_sabotage crown))
unfolding verify_identity verify_powl verify_rails verify_commands verify_receipts verify_global
    verify_sabotage
courts-set_hash w crown v es et source = (
  simp lookup-set_key,
  simp lookup-set_key,
  simp lookup-set_key,
  simp lookup-set_key,
  simp lookup-set_key,
  simp lookup-set_key,
  simp lookup-set_key,
)

-- An accepted crown is still accepted, with the same verdict, once its evidence hash is written
-- into it.
pub verify_crown-seal :
    (w : World) (crown : Dict Json) (es et : Option String) (v : Verdict)
    → verify_crown w crown es et ≡ ok v
    → verify_crown w (seal w crown) es et ≡ ok v
unfolding verify_crown seal
verify_crown-seal w crown es et v h =
    let a = verify_crown-Accepted w crown es et v h in
    let hash = canonical_hash w (unsigned crown) in
    let (i, p, r, c, n, g, s) = courts-set_hash w crown (str hash) es et v.source_sha in
    rw
      (
        i,
        verify_identity_of_IdentityProven w crown es et _ a.identity,
        ok-bind,
        p,
        verify_powl_of_PowlProven crown a.powl a.powl_proven,
        ok-bind,
        r,
        verify_rails_of_RailsAgree w crown _ a.rails,
        ok-bind,
        c,
        verify_commands_of_CommandsProven w crown _ a.commands,
        ok-bind,
        n,
        verify_receipts_of_ReceiptsProven w crown _ a.receipts,
        ok-bind,
        g,
        verify_global_of_GlobalProven w crown v.source_sha _ a.global,
        ok-bind,
        s,
        verify_sabotage_of_SabotageDetected crown _ a.sabotage,
        ok-bind,
        supplied_hash-set_hash crown (str hash),
        unsigned-set_hash crown (str hash),
      )
      (rw ((eq_iff hash hash).1 refl, ok-bind, a.has_cases, ok-bind, a.counted, ok-bind)
        (λ i. ok (record v { evidence_hash = sym a.hashed i })))

str-injective : {s t : String} → ◌≡◌ {A = Json} (str s) (str t) → s ≡ t
str-injective e = cc

-- A crown that carries any other evidence hash is refused.
pub verify_crown-wrong_seal :
    (w : World) (crown : Dict Json) (es et : Option String) (hash : String) (v : Verdict)
    → hash ≢ canonical_hash w (unsigned crown)
    → verify_crown w (set_key "evidence_hash" (str hash) crown) es et ≢ ok v
verify_crown-wrong_seal w crown es et hash v wrong h =
    let a = verify_crown-Accepted w _ es et v h in
    elim (rw (supplied_hash-set_hash crown (str hash), unsigned-set_hash crown (str hash)) at
      a.sealed) [ inl e ↦ cc | inr e ↦ wrong (str-injective e) ]
