-- ===== src/Crown/Examples/Courts.antt =====
-- The seven courts, one by one, on the crown that is accepted.
use ex4pm.Crown.Sabotage.Laws.{verify_sabotage_iff, SabotageDetected}
use ex4pm.Crown.Receipts.Laws.{verify_receipts_iff, ReceiptsProven}
use ex4pm.Crown.Commands.Laws.{verify_commands_iff, CommandsProven}
use ex4pm.Crown.Identity.Laws.{verify_identity_iff, IdentityProven}
use ex4pm.Crown.Rails.Laws.{verify_rails_iff, RailsAgree}
use ex4pm.Crown.Global.Laws.{verify_global_iff, GlobalProven}
use ex4pm.Crown.Powl.Laws.{verify_powl_iff, PowlProven}
use ex4pm.Crown.Identity.{Identity, verify_identity}
use ex4pm.Json.{Json, Dict, int, pos}
use ex4pm.Prelude.{refl, ◌≡◌, ◌∷◌, none, some, ok, string_Eq, nat_Eq}
use ex4pm.Crown.Sabotage.{verify_sabotage}
use ex4pm.Crown.Global.{verify_global}
use ex4pm.Crown.Receipts.{verify_receipts}
use ex4pm.Crown.Commands.{verify_commands}
use ex4pm.Crown.Rails.{verify_rails}
use ex4pm.Crown.Powl.{verify_powl, powl_fields}
use ex4pm.Crown.Examples.{sha, crown, world, verdict, yes_fields, run}

abbrev identity : Identity
identity = record { source_sha = sha; tree_sha = sha }

abbrev powl : Dict Json
powl =
    ("generated_cases", int (pos 4096)) ∷ ("reactor_samples", int (pos 64)) ∷ yes_fields powl_fields

identity_runs : verify_identity world crown none (some sha) ≡ ok identity
unfolding run
identity_runs = refl

powl_runs : verify_powl crown ≡ ok powl
unfolding run
powl_runs = refl

rails_run : verify_rails world crown ≡ ok verdict.rail_evidence
unfolding run
rails_run = refl

commands_run : verify_commands world crown ≡ ok verdict.commands
unfolding run
commands_run = refl

receipts_run : verify_receipts world crown ≡ ok 1
unfolding run
receipts_run = refl

global_runs : verify_global world crown sha ≡ ok verdict.global
unfolding run
global_runs = refl

sabotage_runs : verify_sabotage crown ≡ ok 19
unfolding run
sabotage_runs = refl

verify_identity_iff_example : IdentityProven world crown none (some sha) identity
verify_identity_iff_example =
    (verify_identity_iff world crown none (some sha) identity).0 identity_runs

verify_powl_iff_example : PowlProven crown powl
verify_powl_iff_example = (verify_powl_iff crown powl).0 powl_runs

verify_rails_iff_example : RailsAgree world crown verdict.rail_evidence
verify_rails_iff_example = (verify_rails_iff world crown verdict.rail_evidence).0 rails_run

verify_commands_iff_example : CommandsProven world crown verdict.commands
verify_commands_iff_example = (verify_commands_iff world crown verdict.commands).0 commands_run

verify_receipts_iff_example : ReceiptsProven world crown 1
verify_receipts_iff_example = (verify_receipts_iff world crown 1).0 receipts_run

verify_global_iff_example : GlobalProven world crown sha verdict.global
verify_global_iff_example = (verify_global_iff world crown sha verdict.global).0 global_runs

verify_sabotage_iff_example : SabotageDetected crown 19
verify_sabotage_iff_example = (verify_sabotage_iff crown 19).0 sabotage_runs
