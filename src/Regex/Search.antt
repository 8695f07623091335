-- ===== src/Regex/Search.antt =====
-- What `match` and `search` return: a match wherever there is one, and the one that starts first.
use ex4pm.Prelude.{
  Any, inr, inl, ◌⊎◌, subst, ℕ, ◌≤◌, String, ◌<>◌, refl, sym, ap, ◌∙◌, ◌≡◌, List, [], ◌∷◌, Option,
  none, some, All, arith,
}
use Prim.Native.Char.{Char}
use text.Mathlib.TextLemmas.{nil-append, cons-append}
use ex4pm.Regex.{Regex, Match, runs, head, match, or_later, search, taken_length}
use ex4pm.Regex.Laws.{Matches, Sound, runs-Sound}
use ex4pm.Regex.Complete.{Finds, runs_complete}

-- The pattern does not match at the start of the text.
abbrev pub NoMatch : Regex → String → Type 0
NoMatch r s = (t rest : String) (g : List (ℕ × String)) → s ≡ t <> rest → Matches r t rest g → ⊥

-- What an answer of `match` says
abbrev pub Matched : Regex → String → Option Match → Type 0
Matched r s none = NoMatch r s
Matched r s (some m) = Sound r s m

head-Matched :
    (r : Regex) (s : String) (ms : List Match)
    → All (Sound r s) ms
    → (ms ≡ [] → NoMatch r s)
    → Matched r s (head ms)
head-Matched r s [] a k = k refl
head-Matched r s (m ∷ ms) a k = a.0

none_found : (r : Regex) (s : String) → runs r s ≡ [] → NoMatch r s
none_found r s e t rest g split h =
    elim (subst (Any (Finds t rest g)) e (runs_complete r s t rest g split h)) [ ]

pub match-Matched : (r : Regex) (s : String) → Matched r s (match r s)
unfolding match
match-Matched r s = head-Matched r s (runs r s) (runs-Sound r s) (none_found r s)

-- The pattern matches nowhere in the text.
abbrev pub Nowhere : Regex → String → Type 0
Nowhere r s =
    (before t rest : String) (g : List (ℕ × String))
    → s ≡ before <> (t <> rest)
    → Matches r t rest g
    → ⊥

-- No match starts earlier.
abbrev pub Leftmost : Regex → String → String → Type 0
Leftmost r s first =
    (before t rest : String) (g : List (ℕ × String))
    → s ≡ before <> (t <> rest)
    → Matches r t rest g
    → taken_length first ≤ taken_length before

-- What an answer of `search` says
abbrev pub Searched : Regex → String → Option Match → Type 0
Searched r s none = Nowhere r s
Searched r s (some m) =
    (before : String) × (s ≡ before <> (m.taken <> m.rest))
    × Matches r m.taken m.rest m.groups
    × Leftmost r s before

-- A place in a text is at its start or behind its first character.
pub placed :
    (c : Char) (s : String) (before t rest : String)
    → String.◌∷◌ c s ≡ before <> (t <> rest)
    → (before ≡ "") ⊎ ((b : String) × (before ≡ String.◌∷◌ c b) × (s ≡ b <> (t <> rest)))
placed c s String.[] t rest e = inl refl
placed c s (String.◌∷◌ d b) t rest e =
    let split = e ∙ cons-append d b (t <> rest) in inr (b, cc, cc)

at_start : (s t rest : String) → s ≡ "" <> (t <> rest) → s ≡ t <> rest
at_start s t rest e = e ∙ nil-append (t <> rest)

pub later-Nowhere :
    (r : Regex) (c : Char) (s : String)
    → NoMatch r (String.◌∷◌ c s)
    → Nowhere r s
    → Nowhere r (String.◌∷◌ c s)
later-Nowhere r c s here later before t rest g e h = elim (placed c s before t rest e) [
  | inl b_is ↦ here t rest g (at_start _ t rest (e ∙ ap (λ b. b <> (t <> rest)) b_is)) h
  | inr (b, _, split) ↦ later b t rest g split h
]

pub later-Leftmost :
    (r : Regex) (c : Char) (s first : String)
    → NoMatch r (String.◌∷◌ c s)
    → Leftmost r s first
    → Leftmost r (String.◌∷◌ c s) (String.◌∷◌ c first)
later-Leftmost r c s first here later before t rest g e h = elim (placed c s before t rest e) [
  | inl b_is ↦ absurd (here t rest g (at_start _ t rest (e ∙ ap (λ b. b <> (t <> rest)) b_is)) h)
  | inr (b, b_is, split) ↦ rw b_is (omega (arith, later b t rest g split h))
]

pub found_first : (r : Regex) (s : String) (m : Match) → Sound r s m → Searched r s (some m)
found_first r s m (split, h) =
    ("", split ∙ sym (nil-append (m.taken <> m.rest)), h, λ before t rest g e k. omega arith)

later-Searched :
    (r : Regex) (c : Char) (s : String) (here later : Option Match)
    → Matched r (String.◌∷◌ c s) here
    → Searched r s later
    → Searched r (String.◌∷◌ c s) (or_later here later)
later-Searched r c s (some m) later h k = found_first r (String.◌∷◌ c s) m h
later-Searched r c s none none h k = later-Nowhere r c s h k
later-Searched r c s none (some m) h (before, split, found, first) = (
  String.◌∷◌ c before,
  ap (λ x. String.◌∷◌ c x) split ∙ sym (cons-append c before (m.taken <> m.rest)),
  found,
  later-Leftmost r c s before h first,
)

ends : (b : String) → (b ≡ "") ⊎ ((c : Char) × (x : String) × (b ≡ String.◌∷◌ c x))
ends String.[] = inl refl
ends (String.◌∷◌ c x) = inr (c, x, refl)

pub no_text : (c : Char) (s : String) → ◌≡◌ {A = String} "" (String.◌∷◌ c s) → ⊥
no_text c s e = absurd (cc)

last-Nowhere : (r : Regex) → NoMatch r "" → Nowhere r ""
last-Nowhere r h before t rest g e k = elim (ends before) [
  | inl b_is ↦ h t rest g (at_start "" t rest (e ∙ ap (λ b. b <> (t <> rest)) b_is)) k
  | inr (c, b, b_is) ↦
      no_text c (b <> (t <> rest))
        (e ∙ ap (λ x. x <> (t <> rest)) b_is ∙ cons-append c b (t <> rest))
]

last-Searched : (r : Regex) (here : Option Match) → Matched r "" here → Searched r "" here
last-Searched r (some m) h = found_first r "" m h
last-Searched r none h = last-Nowhere r h

-- `search` returns the match that starts first, or none if the pattern matches nowhere.
pub search-Searched : (r : Regex) (s : String) → Searched r s (search r s)
unfolding search
search-Searched r String.[] = last-Searched r (match r "") (match-Matched r "")
search-Searched r (String.◌∷◌ c s) =
    later-Searched r c s (match r (String.◌∷◌ c s)) (search r s) (match-Matched r (String.◌∷◌ c s))
      (search-Searched r s)
