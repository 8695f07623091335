-- ===== src/Regex/Scan.antt =====
-- What `finditer` goes through: match after match, each the first behind the one before.
use Prim.Native.Char.{Char}
use text.Mathlib.TextLemmas.{nil-append, cons-append}
use ex4pm.Prelude.{
  ℕ, zero, suc, ◌-◌, String, ◌<>◌, refl, sym, ap, ◌∙◌, ◌≡◌, List, [], ◌∷◌, Option, none, some,
  arith,
}
use ex4pm.Regex.{Regex, Match, match, finditer, taken_length}
use ex4pm.Regex.Laws.{Matches}
use ex4pm.Regex.Search.{
  Matched, NoMatch, Nowhere, Leftmost, match-Matched, later-Nowhere, later-Leftmost, found_first,
  no_text,
}

-- The matches of a text, from left to right
abbrev pub Scanned : Regex → String → List Match → Type 0
Scanned r s [] = Nowhere r s
Scanned r s (m ∷ ms) =
    (before : String) × (s ≡ before <> (m.taken <> m.rest))
    × Matches r m.taken m.rest m.groups
    × Leftmost r s before
    × Scanned r m.rest ms

-- The pattern takes at least one character.
abbrev pub Takes : Regex → Type 0
Takes r = (t rest : String) (g : List (ℕ × String)) → Matches r t rest g → t ≡ "" → ⊥

Nowhere-in_nothing : (r : Regex) → Takes r → Nowhere r ""
Nowhere-in_nothing r takes String.[] String.[] rest g e h = takes "" rest g h refl
Nowhere-in_nothing r takes String.[] (String.◌∷◌ c t) rest g e h =
    absurd (no_text c (t <> rest) (e ∙ nil-append _ ∙ cons-append c t rest))
Nowhere-in_nothing r takes (String.◌∷◌ c b) t rest g e h =
    absurd (no_text c (b <> (t <> rest)) (e ∙ cons-append c b (t <> rest)))

later-Scanned :
    (r : Regex) (c : Char) (s : String) (ms : List Match)
    → NoMatch r (String.◌∷◌ c s)
    → Scanned r s ms
    → Scanned r (String.◌∷◌ c s) ms
later-Scanned r c s [] h k = later-Nowhere r c s h k
later-Scanned r c s (m ∷ ms) h (before, split, found, first, rest) = (
  String.◌∷◌ c before,
  ap (λ x. String.◌∷◌ c x) split ∙ sym (cons-append c before (m.taken <> m.rest)),
  found,
  later-Leftmost r c s before h first,
  rest,
)

-- What a match that is not empty leaves behind its first character
tail_of :
    (c : Char) (s taken rest : String)
    → String.◌∷◌ c s ≡ taken <> rest
    → (taken ≡ "" → ⊥)
    → (p : String) × (s ≡ p <> rest) × (taken_length taken - 1 ≡ taken_length p)
tail_of c s String.[] rest e n = absurd (n refl)
tail_of c s (String.◌∷◌ d p) rest e n = let split = e ∙ cons-append d p rest in (p, cc, omega arith)

turn :
    (r : Regex) (c : Char) (s : String)
    → Takes r
    → ((n : ℕ) (p rest : String)
        → s ≡ p <> rest
        → n ≡ taken_length p
        → Scanned r rest (finditer r n s))
    → (o : Option Match) → Matched r (String.◌∷◌ c s) o
    → Scanned r
        (String.◌∷◌ c s)
        (elim o [ none ↦ finditer r zero s | some m ↦ m ∷ finditer r (taken_length m.taken - 1) s ])
turn r c s takes ih none h = later-Scanned r c s _ h (ih 0 "" s (sym (nil-append s)) refl)
turn r c s takes ih (some m) h =
    let (before, split, found, first) = found_first r (String.◌∷◌ c s) m h in
    let (p, left, long) = tail_of c s m.taken m.rest h.0 (takes m.taken m.rest m.groups h.1) in
    (before, split, found, first, ih (taken_length m.taken - 1) p m.rest left long)

scan :
    (r : Regex)
    → Takes r
    → (s : String) (n : ℕ) (p rest : String) → s ≡ p <> rest
    → n ≡ taken_length p
    → Scanned r rest (finditer r n s)
unfolding finditer
scan r takes String.[] n String.[] rest e k =
    rw (sym (nil-append rest) ∙ sym e) (Nowhere-in_nothing r takes)
scan r takes String.[] n (String.◌∷◌ c p) rest e k =
    absurd (no_text c (p <> rest) (e ∙ cons-append c p rest))
scan r takes (String.◌∷◌ c s) zero String.[] rest e k = rw (sym (nil-append rest) ∙ sym e) (
    turn r c s takes (scan r takes s) (match r (String.◌∷◌ c s)) (match-Matched r (String.◌∷◌ c s)))
scan r takes (String.◌∷◌ c s) zero (String.◌∷◌ d p) rest e k = absurd (omega arith)
scan r takes (String.◌∷◌ c s) (suc n) String.[] rest e k = absurd (omega arith)
scan r takes (String.◌∷◌ c s) (suc n) (String.◌∷◌ d p) rest e k =
    let split = e ∙ cons-append d p rest in scan r takes s n p rest (cc) (omega arith)

-- `finditer` goes through the text in this way.
pub finditer-Scanned : (r : Regex) → Takes r → (s : String) → Scanned r s (finditer r 0 s)
finditer-Scanned r takes s = scan r takes s 0 "" s (sym (nil-append s)) refl
