-- ===== src/Cards/Parse.antt =====
-- `parse_file`: the modules of a source and the functions that its pattern finds. `def_re` matches only
-- lines that end behind the arguments, behind `do` or `:`, or with a comma and an equals sign.
pub mod Laws
pub mod Shape
pub mod Listed
use ex4pm.Prelude.{
  ℕ, String, Bool, true, false, not, ◌||◌, ◌&&◌, List, [], ◌∷◌, ◌++◌, Option, none, some, contains,
  ◌==◌, nat_Eq, string_Eq, leb, if◌then◌else◌,
}
use ex4pm.Text.{is_space, split_lines}
use ex4pm.Regex.{
  Regex, one, many, seq, or, group, not_before, at_end, lit, some_of, maybe, Match, match, group_of,
}
use ex4pm.Cards.{Module}

abbrev pub is_lower_start : ℕ → Bool
is_lower_start c = leb b'a' c && leb c b'z' || c == b'_'

abbrev pub is_alnum : ℕ → Bool
is_alnum c = leb b'A' c && leb c b'Z' || (leb b'0' c && leb c b'9' || is_lower_start c)

abbrev pub is_module_char : ℕ → Bool
is_module_char c = is_alnum c || c == b'.'

abbrev pub is_function_char : ℕ → Bool
is_function_char c = is_alnum c || (c == b'?' || c == b'!')

-- `[a-z_][a-zA-Z0-9_?!]*`
abbrev pub function_name : Regex
function_name = seq (one is_lower_start) (many is_function_char)

-- `(\([^)]*\))?`
abbrev pub arguments : Regex
arguments = maybe (group 3 (seq (lit "(") (seq (many (λ c. not (c == b')'))) (lit ")"))))

-- `(?:,[^=]*=.*|do|:)?`
abbrev pub body_start : Regex
body_start = maybe (
    or
      (seq (lit ",")
        (seq (many (λ c. not (c == b'='))) (seq (lit "=") (many (λ c. not (c == 10))))))
      (or (lit "do") (lit ":")))

abbrev pub def_re : Regex
def_re = seq (many is_space) (
    seq (lit "def") (
      seq (maybe (group 1 (lit "p"))) (
        seq (some_of is_space) (
          seq (group 2 function_name)
            (seq arguments (seq (many is_space) (seq body_start (seq (many is_space) at_end))))))))

abbrev pub skip_names : List String
skip_names =
    "init" ∷ "start_link" ∷ "handle_call" ∷ "handle_cast" ∷ "handle_info" ∷ "handle_demand"
    ∷ "handle_continue" ∷ "child_spec" ∷ []

abbrev pub text_of_group : ℕ → Match → String
text_of_group n m = text (group_of n m.groups)
  where
    text : Option String → String
    text none = ""
    text (some t) = t

abbrev pub takes_part : ℕ → Match → Bool
takes_part n m = is_given (group_of n m.groups)
  where
    is_given : Option String → Bool
    is_given none = false
    is_given (some t) = not (t == "")

-- The list of modules is `done` and `current`, which is its last.
pub record Parsing : Type 0 where
  pub done : List Module
  pub current : Option Module

abbrev pub modules_of : Parsing → List Module
modules_of p = p.done ++ listed p.current
  where
    listed : Option Module → List Module
    listed none = []
    listed (some m) = m ∷ []

abbrev pub add_function : String → Module → Module
add_function name m =
    if contains skip_names name || contains m.functions name
    then m
    else record { name = m.name; functions = m.functions ++ (name ∷ []) }

-- `is_word` says which characters `\b` takes for those of a word.
module _ (is_word : ℕ → Bool) where
  -- `\s*defmodule\s+([A-Za-z0-9_.]+)\s+do\b`
  abbrev pub module_re : Regex
  module_re = seq (many is_space) (
      seq (lit "defmodule") (
        seq (some_of is_space) (
          seq (group 1 (some_of is_module_char))
            (seq (some_of is_space) (seq (lit "do") (not_before is_word))))))

  abbrev pub read_def : Option Module → Option Match → Option Module
  read_def none d = none
  read_def (some m) none = some m
  read_def (some m) (some d) =
      some (if takes_part 1 d then m else add_function (text_of_group 2 d) m)

  abbrev pub read_matches : Parsing → Option Match → Option Match → Parsing
  read_matches p (some m) d = record {
    done = modules_of p;
    current = some (record { name = text_of_group 1 m; functions = [] });
  }
  read_matches p none d = record { done = p.done; current = read_def p.current d }

  -- The body of the loop
  unfoldable pub read_line : Parsing → String → Parsing
  read_line p line = read_matches p (match module_re line) (match def_re line)

  unfoldable pub read_lines : Parsing → List String → Parsing
  read_lines p [] = p
  read_lines p (line ∷ lines) = read_lines (read_line p line) lines

  unfoldable pub parse_file : String → List Module
  parse_file text =
      modules_of (read_lines (record { done = []; current = none }) (split_lines text))
