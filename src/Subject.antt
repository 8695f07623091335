-- ===== src/Subject.antt =====
-- What the courts over consumer subjects share: the guards of `classify`, which return a reason,
-- and the reading of texts with a default.
use ex4pm.Prelude.{
  String, refl, ◌≡◌, Bool, true, false, Option, none, some, Result, ok, arith, string_Eq, ◌==◌,
  eq_iff,
}
use ex4pm.Json.{Json, Exception, str, null, as_str, value_or}
use ex4pm.Json.Laws.{as_str-eq-some}

-- `if not b: return reason`, before the rest of the function
unfoldable pub refuse_unless : Bool → String → Result Exception String → Result Exception String
refuse_unless true reason rest = rest
refuse_unless false reason rest = ok reason

-- A guard that let an alive subject through held.
pub passed :
    {P : Type 0} (b : Bool) (reason : String) (m : Result Exception String)
    → refuse_unless b reason m ≡ ok "ALIVE"
    → (reason == "ALIVE") ≡ false
    → (b ≡ true → m ≡ ok "ALIVE" → P)
    → P
unfolding refuse_unless
passed true reason m h n k = k refl h
passed false reason m h n k = absurd (ground (arith, eq_iff reason "ALIVE"))

pub pass : (reason : String) (m : Result Exception String) → refuse_unless true reason m ≡ m
unfolding refuse_unless
pass reason m = refl

pub refused :
    (reason : String) (m : Result Exception String) → refuse_unless false reason m ≡ ok reason
unfolding refuse_unless
refused reason m = refl

-- A text that passes a test which the default fails really stands there.
pub default_text :
    (test : String → Bool) (o : Option Json) (t : String)
    → as_str (value_or (str "") o) ≡ some t
    → test "" ≡ false
    → test t ≡ true
    → value_or null o ≡ str t
default_text test none t e fails h = absurd (ground arith)
default_text test (some v) t e fails h = as_str-eq-some v e

pub text_of :
    (o : Option Json) {t : String} → value_or null o ≡ str t → as_str (value_or (str "") o) ≡ some t
text_of none e = cc
text_of (some v) e = rw e
