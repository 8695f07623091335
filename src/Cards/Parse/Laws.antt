-- ===== src/Cards/Parse/Laws.antt =====
-- What the loop over the lines computes, said without its state.
use mathlib.Core.List.{append_assoc, append-nil}
use ex4pm.Prelude.{
  ℕ, String, refl, sym, ap, ◌∙◌, ◌≡◌, Bool, ◌||◌, List, [], ◌∷◌, ◌++◌, Option, none, some, contains,
  string_Eq, Bool-cases, inl, inr, if◌then◌else◌,
}
use ex4pm.Text.{split_lines}
use ex4pm.Regex.{Match, match}
use ex4pm.Cards.{Module}
use ex4pm.Cards.Parse.{
  def_re, skip_names, text_of_group, takes_part, Parsing, modules_of, module_re, read_def,
  read_matches, read_line, read_lines, parse_file,
}

-- The values of a list in the order in which they first occur, behind those that are there already
abbrev pub extend : List String → List String → List String
extend fs [] = fs
extend fs (x ∷ xs) = extend (if contains fs x then fs else fs ++ (x ∷ [])) xs

abbrev pub names_of : Option Match → List String
names_of none = []
names_of (some d) =
    if takes_part 1 d || contains skip_names (text_of_group 2 d) then [] else text_of_group 2 d ∷ []

module _ (is_word : ℕ → Bool) where
  abbrev opens : String → Option Match
  opens line = match (module_re is_word) line

  abbrev pub unless_open : Option Match → List String → List String
  unless_open none names = names
  unless_open (some m) names = []

  -- The functions that the pattern finds in the lines before the next module
  abbrev pub listed_names : List String → List String
  listed_names [] = []
  listed_names (line ∷ lines) =
      unless_open (opens line) (names_of (match def_re line) ++ listed_names lines)

  abbrev pub with_opened : Option Match → List String → List Module → List Module
  with_opened none names modules = modules
  with_opened (some m) names modules =
      record { name = text_of_group 1 m; functions = extend [] names } ∷ modules

  -- Each line that opens a module, with the functions of the lines up to the next
  abbrev pub modules_in : List String → List Module
  modules_in [] = []
  modules_in (line ∷ lines) = with_opened (opens line) (listed_names lines) (modules_in lines)

  -- What becomes of the current module
  abbrev grown : Option Module → List String → List Module
  grown none names = []
  grown (some m) names = record { name = m.name; functions = extend m.functions names } ∷ []

  grown_by_def :
      (c : Option Module) (d : Option Match) (names : List String)
      → grown (read_def is_word c d) names ≡ grown c (names_of d ++ names)
  grown_by_def none d names = refl
  grown_by_def (some m) none names = refl
  grown_by_def (some m) (some d) names = elim (Bool-cases (takes_part 1 d)) [
    | inl hidden ↦ rw hidden refl
    | inr shown ↦ elim (Bool-cases (contains skip_names (text_of_group 2 d))) [
      | inl skip ↦ rw (shown, skip) refl
      | inr listed ↦ elim (Bool-cases (contains m.functions (text_of_group 2 d))) [
        | inl known ↦ rw (shown, listed, known) refl
        | inr fresh ↦ rw (shown, listed, fresh) refl
      ]
    ]
  ]

  modules_of-grown : (p : Parsing) → modules_of p ≡ p.done ++ grown p.current []
  modules_of-grown p = with_current p.done p.current
    where
      with_current :
          (done : List Module) (c : Option Module)
          → modules_of (record { done = done; current = c }) ≡ done ++ grown c []
      with_current done none = refl
      with_current done (some m) = refl

  abbrev Reads : Parsing → List String → Type 0
  Reads p lines =
      modules_of (read_lines is_word p lines)
      ≡ p.done ++ (grown p.current (listed_names lines) ++ modules_in lines)

  Reads-line :
      (p : Parsing) (line : String) (lines : List String) (o : Option Match)
      → opens line ≡ o
      → ((q : Parsing) → Reads q lines)
      → Reads p (line ∷ lines)
  unfolding read_lines read_line
  Reads-line p line lines none e later =
      let q : Parsing = record {
        done = p.done;
        current = read_def is_word p.current (match def_re line);
      } in
      ap (λ o. modules_of (read_lines is_word (read_matches is_word p o (match def_re line)) lines))
        e
      ∙ later q
      ∙ ap (λ x. p.done ++ (x ++ modules_in lines))
          (grown_by_def p.current (match def_re line) (listed_names lines))
      ∙ ap
          (λ o.
            p.done
            ++ (grown p.current (unless_open o (names_of (match def_re line) ++ listed_names lines))
                ++ with_opened o (listed_names lines) (modules_in lines)))
          (sym e)
  Reads-line p line lines (some m) e later =
      let opened : Module = record { name = text_of_group 1 m; functions = [] } in
      ap (λ o. modules_of (read_lines is_word (read_matches is_word p o (match def_re line)) lines))
        e
      ∙ later (record { done = modules_of p; current = some opened })
      ∙ ap (λ x. x ++ (grown (some opened) (listed_names lines) ++ modules_in lines))
          (modules_of-grown p)
      ∙ append_assoc p.done (grown p.current [])
          (grown (some opened) (listed_names lines) ++ modules_in lines)
      ∙ ap
          (λ o.
            p.done
            ++ (grown p.current (unless_open o (names_of (match def_re line) ++ listed_names lines))
                ++ with_opened o (listed_names lines) (modules_in lines)))
          (sym e)

  modules_of-read_lines : (p : Parsing) (lines : List String) → Reads p lines
  unfolding read_lines
  modules_of-read_lines p [] =
      modules_of-grown p ∙ ap (λ x. p.done ++ x) (sym (append-nil (grown p.current [])))
  modules_of-read_lines p (line ∷ lines) =
      Reads-line p line lines (opens line) refl (λ q. modules_of-read_lines q lines)

-- The modules of a source are the lines that match MODULE_RE, in their order, each with the names
-- that the lines up to the next such line give by DEF_RE, in the order in which they first occur,
-- without those behind `defp` and those that are left out. What else Elixir takes for the
-- definition of a function gives no name.
pub parse_file-modules_in :
    (is_word : ℕ → Bool) (text : String)
    → parse_file is_word text ≡ modules_in is_word (split_lines text)
unfolding parse_file
parse_file-modules_in is_word text =
    modules_of-read_lines is_word (record { done = []; current = none }) (split_lines text)
