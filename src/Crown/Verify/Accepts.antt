-- ===== src/Crown/Verify/Accepts.antt =====
-- The crowns that `verify` accepts, court by court.
use ex4pm.Prelude.{
  arith, inr, inl, ◌⊎◌, ◌↔◌, ok-injective, subst, from_expect, from_require, sym, ok-bind,
  from_bind, refl, ◌≡◌, String, Option, some,
}
use ex4pm.Json.Laws.{is_str_iff}
use ex4pm.Crown.Verify.{null, true, ok, Verdict, hash_agrees, supplied_hash, unsigned, verify_crown}
use ex4pm.Crown.Powl.Laws.{
  lift-eq-ok, PowlProven, verify_powl-PowlProven, verify_powl_of_PowlProven,
}
use ex4pm.Json.{Json, Dict, str, lookup, to_int}
use ex4pm.Crown.World.{World}
use ex4pm.Crown.Evidence.{canonical_hash}
use ex4pm.Crown.Identity.Laws.{
  IdentityProven, verify_identity-IdentityProven, verify_identity_of_IdentityProven,
}
use ex4pm.Crown.Rails.Laws.{RailsAgree, verify_rails-RailsAgree, verify_rails_of_RailsAgree}
use ex4pm.Crown.Commands.Laws.{
  CommandsProven, verify_commands-CommandsProven, verify_commands_of_CommandsProven,
}
use ex4pm.Crown.Receipts.Laws.{
  ReceiptsProven, verify_receipts-ReceiptsProven, verify_receipts_of_ReceiptsProven,
}
use ex4pm.Crown.Global.Laws.{
  GlobalProven, verify_global-GlobalProven, verify_global_of_GlobalProven,
}
use ex4pm.Crown.Sabotage.Laws.{
  SabotageDetected, verify_sabotage-SabotageDetected, verify_sabotage_of_SabotageDetected,
}

hash_agrees_iff :
    (v : Json) (hash : String) → (hash_agrees v hash ≡ true) ↔ ((v ≡ null) ⊎ (v ≡ str hash))
hash_agrees_iff null hash = (λ h. inl refl, λ h. refl)
hash_agrees_iff (str s) hash =
    (λ h. inr ((is_str_iff _ _).0 h), λ h. elim h [ inl e ↦ cc | inr e ↦ (is_str_iff _ _).1 e ])
hash_agrees_iff v hash = ground arith

pub record Accepted (w : World) (crown : Dict Json) (es et : Option String) (v : Verdict)
    : Type 0 where
  pub powl : Dict Json
  pub cases : Json
  pub identity :
      IdentityProven w crown es et (record { source_sha = v.source_sha; tree_sha = v.tree_sha })
  pub powl_proven : PowlProven crown powl
  pub rails : RailsAgree w crown v.rail_evidence
  pub commands : CommandsProven w crown v.commands
  pub receipts : ReceiptsProven w crown v.receipt_replays
  pub global : GlobalProven w crown v.source_sha v.global
  pub sabotage : SabotageDetected crown v.sabotage_cases
  pub hashed : v.evidence_hash ≡ canonical_hash w (unsigned crown)
  pub sealed :
      (supplied_hash crown ≡ null) ⊎ (supplied_hash crown ≡ str (canonical_hash w (unsigned crown)))
  pub has_cases : lookup "generated_cases" powl ≡ some cases
  pub counted : to_int cases ≡ ok v.powl_cases

pub verify_crown-Accepted :
    (w : World) (crown : Dict Json) (es et : Option String) (v : Verdict)
    → verify_crown w crown es et ≡ ok v
    → Accepted w crown es et v
unfolding verify_crown
verify_crown-Accepted w crown es et v h = from_bind _ _ h λ identity i h.
    from_bind _ _ h λ powl p h. from_bind _ _ h λ rails r h. from_bind _ _ h λ commands c h.
      from_bind _ _ h λ receipts n h. from_bind _ _ h λ global g h. from_bind _ _ h λ sabotage s h.
        from_require _ _ _ h λ sealed h. from_expect _ _ _ h λ cases has_cases h.
          from_bind _ _ h λ count counted h.
            subst (Accepted w crown es et) (ok-injective h) (record {
              powl = powl;
              cases = cases;
              identity = verify_identity-IdentityProven w crown es et identity i;
              powl_proven = verify_powl-PowlProven crown powl p;
              rails = verify_rails-RailsAgree w crown rails r;
              commands = verify_commands-CommandsProven w crown commands c;
              receipts = verify_receipts-ReceiptsProven w crown receipts n;
              global = verify_global-GlobalProven w crown identity.source_sha global g;
              sabotage = verify_sabotage-SabotageDetected crown sabotage s;
              hashed = refl;
              sealed = (hash_agrees_iff _ _).0 sealed;
              has_cases = has_cases;
              counted = lift-eq-ok _ counted;
            })

pub verify_crown_of_Accepted :
    (w : World) (crown : Dict Json) (es et : Option String) (v : Verdict)
    → Accepted w crown es et v
    → verify_crown w crown es et ≡ ok v
unfolding verify_crown
verify_crown_of_Accepted w crown es et v a =
    rw
      (
        verify_identity_of_IdentityProven w crown es et _ a.identity,
        ok-bind,
        verify_powl_of_PowlProven crown a.powl a.powl_proven,
        ok-bind,
        verify_rails_of_RailsAgree w crown _ a.rails,
        ok-bind,
        verify_commands_of_CommandsProven w crown _ a.commands,
        ok-bind,
        verify_receipts_of_ReceiptsProven w crown _ a.receipts,
        ok-bind,
        verify_global_of_GlobalProven w crown v.source_sha _ a.global,
        ok-bind,
        verify_sabotage_of_SabotageDetected crown _ a.sabotage,
        ok-bind,
        (hash_agrees_iff _ _).1 a.sealed,
        ok-bind,
        a.has_cases,
        ok-bind,
        a.counted,
        ok-bind,
      )
      (λ i. ok (record {
        source_sha = v.source_sha;
        tree_sha = v.tree_sha;
        evidence_hash = sym a.hashed i;
        powl_cases = v.powl_cases;
        rail_evidence = v.rail_evidence;
        commands = v.commands;
        receipt_replays = v.receipt_replays;
        global = v.global;
        sabotage_cases = v.sabotage_cases;
      }))

-- A crown is accepted with a verdict exactly if each of the seven courts accepts it, its evidence
-- hash, if it has one, is the canonical hash of the rest, and the verdict shows what they found.
pub verify_crown_iff :
    (w : World) (crown : Dict Json) (es et : Option String) (v : Verdict)
    → (verify_crown w crown es et ≡ ok v) ↔ Accepted w crown es et v
verify_crown_iff w crown es et v =
    (verify_crown-Accepted w crown es et v, verify_crown_of_Accepted w crown es et v)
