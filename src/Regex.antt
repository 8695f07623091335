-- ===== src/Regex.antt =====
-- The part of Python's `re` that the scripts use: patterns over characters, and `match`, `search`,
-- `fullmatch` and `finditer` with the order in which `re` tries its choices.
pub mod Laws
pub mod Complete
pub mod Search
pub mod Scan
pub mod Shapes
pub mod Whole
use Prim.Native.Char.{Char, code}
use ex4pm.Prelude.{
  ℕ, zero, suc, ◌-◌, String, ◌<>◌, Bool, true, false, ◌||◌, not, any, List, [], ◌∷◌, ◌++◌, map,
  Option, none, some, ◌==◌, nat_Eq, string_Eq, if◌then◌else◌,
}

pub data Regex : Type 0 where
  -- One character of a class, and a class under `*`
  one many : (ℕ → Bool) → Regex
  empty : Regex
  seq or : Regex → Regex → Regex
  -- A numbered group
  group : ℕ → Regex → Regex
  -- `\b` behind a character of a word, `$`: nothing is taken, and the rest does not start with a
  -- character of the class, or is at the end of the text or before its last line break.
  not_before : (ℕ → Bool) → Regex
  at_end : Regex

-- `m.group(0)`, the numbered groups that took part, and the text after the match
pub record Match : Type 0 where
  pub groups : List (ℕ × String)
  pub taken : String
  pub rest : String

abbrev pub nothing : String → Match
nothing s = record { groups = []; taken = ""; rest = s }

abbrev pub take_one : Char → Match → Match
take_one c m = record m { taken = String.◌∷◌ c m.taken }

abbrev pub join : Match → Match → Match
join m n = record { groups = m.groups ++ n.groups; taken = m.taken <> n.taken; rest = n.rest }

abbrev pub enclose : ℕ → Match → Match
enclose n m = record m { groups = (n, m.taken) ∷ m.groups }

abbrev pub stops_at : (ℕ → Bool) → String → Bool
stops_at p String.[] = true
stops_at p (String.◌∷◌ c s) = not (p (code c))

abbrev pub at_last : String → Bool
at_last s = s == "" || s == "\n"

-- `[p]*`: the longest stretch first
unfoldable pub stretches : (ℕ → Bool) → String → List Match
stretches p String.[] = nothing "" ∷ []
stretches p (String.◌∷◌ c s) =
    let longer = map (take_one c) (stretches p s) in
    if p (code c) then longer ++ (nothing (String.◌∷◌ c s) ∷ []) else nothing (String.◌∷◌ c s) ∷ []

unfoldable pub each_then : List Match → (String → List Match) → List Match
each_then [] f = []
each_then (m ∷ ms) f = map (join m) (f m.rest) ++ each_then ms f

-- All ways to match from the start of a text, in the order in which they are tried
unfoldable pub runs : Regex → String → List Match
unfolding stretches each_then
runs (one p) String.[] = []
runs (one p) (String.◌∷◌ c s) =
    if p (code c) then record { groups = []; taken = String.◌∷◌ c ""; rest = s } ∷ [] else []
runs (many p) s = stretches p s
runs empty s = nothing s ∷ []
runs (seq a b) s = each_then (runs a s) (runs b)
runs (or a b) s = runs a s ++ runs b s
runs (group n r) s = map (enclose n) (runs r s)
runs (not_before p) s = if stops_at p s then nothing s ∷ [] else []
runs at_end s = if at_last s then nothing s ∷ [] else []

abbrev pub head : List Match → Option Match
head [] = none
head (m ∷ ms) = some m

-- `r.match(s)`
unfoldable pub match : Regex → String → Option Match
match r s = head (runs r s)

-- `r.fullmatch(s)`, as a truth value
unfoldable pub fullmatch : Regex → String → Bool
fullmatch r s = any (λ (m : Match). m.rest == "") (runs r s)

abbrev pub or_later : Option Match → Option Match → Option Match
or_later none later = later
or_later (some m) later = some m

-- `r.search(s)`: the match that starts first
unfoldable pub search : Regex → String → Option Match
search r String.[] = match r ""
search r (String.◌∷◌ c s) = or_later (match r (String.◌∷◌ c s)) (search r s)

-- `re.search` for `^r` with `re.MULTILINE`: the flag says that a line starts here.
unfoldable pub search_lines : Bool → Regex → String → Option Match
search_lines starts r String.[] = if starts then match r "" else none
search_lines starts r (String.◌∷◌ c s) =
    let later = search_lines (code c == b'\n') r s in
    if starts then or_later (match r (String.◌∷◌ c s)) later else later

abbrev pub taken_length : String → ℕ
taken_length String.[] = 0
taken_length (String.◌∷◌ c s) = suc (taken_length s)

-- `r.finditer(s)` for a pattern that takes at least one character: the next match is sought behind
-- the one before. The number tells how many characters of that one are left.
unfoldable pub finditer : Regex → ℕ → String → List Match
finditer r skip String.[] = []
finditer r (suc n) (String.◌∷◌ c s) = finditer r n s
finditer r zero (String.◌∷◌ c s) = elim (match r (String.◌∷◌ c s)) [
  | none ↦ finditer r zero s
  | some m ↦ m ∷ finditer r (taken_length m.taken - 1) s
]

-- The text of a group, if it took part
abbrev pub group_of : ℕ → List (ℕ × String) → Option String
group_of n [] = none
group_of n ((i, t) ∷ gs) = if i == n then some t else group_of n gs

-- The characters of a text one after the other, and `[p]+`
unfoldable pub lit : String → Regex
lit String.[] = empty
lit (String.◌∷◌ c s) = seq (one (λ d. d == code c)) (lit s)

abbrev pub some_of : (ℕ → Bool) → Regex
some_of p = seq (one p) (many p)

abbrev pub maybe : Regex → Regex
maybe r = or r empty

-- `r{n}`
abbrev pub times : ℕ → Regex → Regex
times zero r = empty
times (suc n) r = seq r (times n r)
