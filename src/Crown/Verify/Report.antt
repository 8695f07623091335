-- ===== src/Crown/Verify/Report.antt =====
-- What `main` lets the caller see: the exit status, the output and the file.
use ex4pm.Prelude.{refl, ℕ, ◌≡◌, String, Bool, Option, none, some, Result, ok, err, arith}
use ex4pm.Crown.Verify.{List, Verdict, verify, render, report, main}
use ex4pm.Crown.World.{World, Failure}

report_alive :
    (can_write : String → Bool) (output : Option String) (r : Result Failure Verdict)
    → (report can_write output r).exit ≡ 0
    → (v : Verdict) × (r ≡ ok v)
      × ((report can_write output r).printed ≡ some (render v))
      × ((report can_write output r).refused ≡ none)
unfolding report
report_alive can_write output (err e) h = absurd (omega arith)
report_alive can_write none (ok v) h = (v, refl, refl, refl)
report_alive can_write (some path) (ok v) h = (v, refl, ground arith, ground arith)

-- A run exits with 0 only for a crown that was verified, and then it prints that crown's verdict.
pub main_alive :
    (w : World) (can_write : String → Bool) (file : Option (List ℕ)) (es et output : Option String)
    → (main w can_write file es et output).exit ≡ 0
    → (v : Verdict) × (verify w file es et ≡ ok v)
      × ((main w can_write file es et output).printed ≡ some (render v))
      × ((main w can_write file es et output).refused ≡ none)
unfolding main
main_alive w can_write file es et output = report_alive can_write output (verify w file es et)
