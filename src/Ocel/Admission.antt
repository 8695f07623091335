-- ===== src/Ocel/Admission.antt =====
-- The tests on the command line, and `load_and_admit_receipt`.
pub mod Laws
pub mod Receipt
use ex4pm.Json.{
  Exception, Json, Dict, dict, Fields, end, get, get_or, as_dict, is_str, is_zero, os_error,
  attribute_error,
}
use Prim.Native.Char.{Char, char, code, IsScalar}
use Prim.Native.Nat.{compare, Ordering}
use ex4pm.Prelude.{
  ℕ, ◌+◌, String, Bool, true, false, not, ◌&&◌, ◌||◌, List, [], ◌∷◌, Option, none, some, Result, ok,
  err, ◌>>=◌, ◌>>◌, require, expect, ◌==◌, nat_Eq, string_Eq, leb, contains, Bool-cases, inl, inr,
  and_parts, arith, ◌≡◌, refl, if◌then◌else◌,
}
use ex4pm.Text.{strip, is_space}
use ex4pm.Regex.{Regex, one, seq, or, lit, some_of, times, fullmatch}
use ex4pm.Ocel.{
  Args, Loaded, value, malformed, raises, Refusal, usage, is_blank, malformed_repo, malformed_sha,
  no_receipt, invalid_json, not_an_object, wrong_subject, wrong_standing, no_zero_exit, raised,
}

abbrev pub standings : List String
standings =
    "UNKNOWN" ∷ "PARTIAL_ALIVE" ∷ "ALIVE" ∷ "BLOCKED" ∷ "BUILD_BROKEN" ∷ "UNSUPPORTED" ∷ "REFUSED"
    ∷ []

abbrev pub authority_domains : List String
authority_domains = "OBSERVE" ∷ "SELECT" ∷ "CONSTRUCT" ∷ "VERIFY" ∷ "DO" ∷ []

abbrev pub is_part : ℕ → Bool
is_part c = not (c == b'/' || is_space c)

-- `[^/\s]+/[^/\s]+`
abbrev pub repository_re : Regex
repository_re = seq (some_of is_part) (seq (lit "/") (some_of is_part))

abbrev pub is_hex : ℕ → Bool
is_hex c = leb b'0' c && leb c b'9' || (leb b'a' c && leb c b'f' || leb b'A' c && leb c b'F')

-- `(?:[0-9a-fA-F]{40}|[0-9a-fA-F]{64})`
abbrev pub sha_re : Regex
sha_re = or (times 40 (one is_hex)) (times 64 (one is_hex))

-- The characters of `text.lower()`. Only ASCII is lowered here; no other character has a lower
-- case that is a hexadecimal digit.
abbrev pub lower_code : ℕ → ℕ
lower_code c = if leb b'A' c && leb c b'Z' then c + 32 else c

IsScalar-lower_code : (n : ℕ) → IsScalar n → IsScalar (lower_code n)
IsScalar-lower_code n s = elim (Bool-cases (leb b'A' n && leb n b'Z')) [
  | inr other ↦ rw other s
  | inl upper ↦
      let (_, at_most) = and_parts (leb b'A' n) (leb n b'Z') upper in
      let small : compare (n + 32) 55296 ≡ Ordering.lt = ground arith in rw (upper, small) tt
]

unfoldable pub lower_char : Char → Char
unfolding IsScalar-lower_code
lower_char (char n s) = char (lower_code n) (IsScalar-lower_code n s)

unfoldable pub lower : String → String
unfolding lower_char
lower String.[] = ""
lower (String.◌∷◌ c s) = String.◌∷◌ (lower_char c) (lower s)

lower_runs : lower "AbZ09-" ≡ "abz09-"
unfolding lower
lower_runs = refl

-- `require_nonempty`
unfoldable pub require_nonempty : String → String → Result Refusal String
require_nonempty name text = do require (not (strip text == "")) (is_blank name); ok (strip text)

-- What argparse and the first part of `main` make of the command line
unfoldable pub check_args : Args → Result Refusal Args
check_args args = do
  require (contains standings args.standing) usage
  require (contains authority_domains args.authority_domain) usage
  activity ← require_nonempty "activity" args.activity
  agent_id ← require_nonempty "agent-id" args.agent_id
  run_id ← require_nonempty "run-id" args.run_id
  sequence ← require_nonempty "sequence" args.sequence
  repo ← require_nonempty "repo" args.repo
  sha ← require_nonempty "sha" args.sha
  require (fullmatch repository_re repo) malformed_repo
  require (fullmatch sha_re (lower sha)) malformed_sha
  ok (record {
    activity = activity;
    standing = args.standing;
    authority_domain = args.authority_domain;
    agent_id = agent_id;
    run_id = run_id;
    sequence = sequence;
    repo = repo;
    sha = lower sha;
    receipt = args.receipt;
    output = args.output;
  })

abbrev pub parsed : Loaded → Result Refusal Json
parsed (value v) = ok v
parsed malformed = err invalid_json
parsed (raises e) = err (raised e)

abbrev pub read : Result Exception (List ℕ) → Result Refusal (List ℕ)
read (ok raw) = ok raw
read (err e) = err (raised e)

-- `load_and_admit_receipt`: `file` is what reading the receipt gives, `none` where it is no regular
-- file; the result is the digest of the receipt's bytes.
unfoldable pub admit_receipt :
    (List ℕ → Loaded)
    → (List ℕ → String)
    → Option (Result Exception (List ℕ))
    → String
    → String
    → Result Refusal String
admit_receipt loads sha256 file expected_sha expected_standing = do
  reading ← expect file no_receipt
  raw ← read reading
  v ← parsed (loads raw)
  receipt ← expect (as_dict v) not_an_object
  require (is_str (get "subject_sha" receipt) expected_sha) wrong_subject
  require (is_str (get "standing" receipt) expected_standing) wrong_standing
  exit_codes ← expect (as_dict (get_or "exit_codes" (dict end) receipt)) (raised attribute_error)
  require (is_zero (get "mix_verify" exit_codes)) no_zero_exit
  ok (sha256 raw)
