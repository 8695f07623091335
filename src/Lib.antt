-- ===== src/Lib.antt =====
-- ex4pm: the Python programs of the repository that decide what is alive.
--
-- The programs below are modelled. Each reads evidence that others wrote, tests it guard by guard, and
-- ends with a verdict, so that a verdict can be believed without trusting the code that it is about.
--
-- scripts/verify-final-crown.py, the independent crown verifier: Crown.
--   Crown/World     what it sees outside (files, JSON, SHA-256, Git), and its refusals (`fail`)
--   Crown/Evidence  `within`, `verify_file`, `load_verified_json`, `canonical_hash`
--   Crown/Identity, Powl, Rails, Commands, Receipts, Global, Sabotage
--                   one court each: the function `verify_...` of the same name
--   Crown/Verify    `verify` (its part on a loaded crown is `verify_crown`) and `main`
--   A court is a function into Result Failure. Its Laws file has a record that says in terms of
--   the evidence what the court proves, and Crown/Verify/Accepts puts the seven records together.
-- scripts/qualify-fly-topology.py, which writes the attestations that the global court reads:
--   Topology        `field`, the tests on one machine, the spread tests and the summary
-- scripts/extract-ex4pm-plan-json.py, which finds the one plan in a stream of lines: Plan.
-- qualification/reference-remote/server.py, the handlers of the reference remote: Remote.
-- verification/r58-consumer/run_court.py: R58, with rdflib as a parameter `ask`.
-- qualification/epistemic_consumer_r54/verify.py: R54.
--   R54/Classify    `classify` and `mutate`
--   R54/Court       the loop of `main` over the cases
-- verification/r79-tcps-ready-set/verify.py: R79.
--   R79/Classify    `classify` and `main`
-- Subject has the guards that the two courts share, Failures the lists of failures.
-- scripts/emit-ocel.py, which emits one observation about a verification: Ocel.
--   Ocel/Admission  the tests on the command line (argparse's choices, `require_nonempty`, the two
--                   patterns) and `load_and_admit_receipt`
--   Ocel/Document   `build_ocel`
--   Ocel/Spool      `atomic_spool`, as a function and as the steps between which it may be stopped
--   Ocel/Post       `post_if_configured`
--   Ocel/Run        `main`, `canonical_digest` and `encode_document`
-- scripts/check-release-version.py: Release. scripts/inspect-hex-package.py: Package. The patterns that
-- these two share are in Version.
-- scripts/gen_agent_cards.py, the agent cards of the Elixir library: Cards.
--   Cards/Parse     `parse_file`: the modules of a source and the functions that its pattern finds
--   Cards/Clusters  `cluster_for`
--   Cards/Skills    `collect` and `make_skills`
--   Cards/Write     `make_card` and `main`, with the numbers of the README
--
-- Json has the values that `json.loads` gives and the tests that the programs make on them: `is_true`
-- is `is True`, `is_zero` is `== 0`, `is_str v s` is `v == s`, `truthy` is `bool(v)`. A dict is a list
-- of its entries in order; a missing key reads as `null`, as `get` does. Text has the methods of texts,
-- Prelude the tests, lists, sets and results that all parts use. Regex is what the scripts use of
-- Python's `re`: a pattern is a tree, `runs` tries its ways to match in `re`'s order (greedy ones first),
-- and `match`, `fullmatch`, `search` and `finditer` stand on it. Regex/Laws says without that order
-- what a pattern matches.
--
-- Parameters. The file system, the JSON reader and writer, SHA-256 and Git are the fields of World,
-- about which no theorem assumes anything; they are fixed while one run lasts. So are, in the other
-- parts, the parsed inputs, the digests, rdflib's answers, the bytes of a connection, and which
-- files can be written, each an argument of the function that uses it. The only hypothesis on a
-- parameter is that in Ocel the temporary file has another name than the output (`HasFreshNames`).
-- Loops are structural recursion, so there is no fuel. Numbers are not bounded, as in Python; the
-- limit of 4300 digits that `int` has for texts is written out.
--
-- Not modelled: the parsing of command lines; lone surrogates in JSON texts, since a text here is a
-- list of Unicode scalar values; the fixed text of the cards' README; the message texts of
-- failures, for which the data types Failure and Complaint stand. The case files of R54 and R79 are
-- read as records that have the keys that the loops take. In Ocel, `lower` lowers ASCII letters
-- only, which decides nothing, since no other character has a lower case that is a hexadecimal
-- digit. Where spooling fails is a parameter (`Fate`): before the temporary file is made, after any
-- number of its bytes, or at `os.replace`, and the temporary file then stays. `int` reads the
-- decimal digits of Unicode 14.0, those of CPython 3.11.
-- Everything in other languages is outside.
pub mod Prelude
pub mod Text
pub mod Json
pub mod Crown
pub mod Failures
pub mod Subject
pub mod R54
pub mod R79
pub mod Topology
pub mod Plan
pub mod R58
pub mod Remote
pub mod Regex
pub mod Version
pub mod Release
pub mod Package
pub mod Ocel
pub mod Cards
