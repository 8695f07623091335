-- ===== src/Regex/Whole.antt =====
-- `fullmatch`, and the numbers of times that patterns repeat a class.
use text.Mathlib.TextLemmas.{nil-append, cons-append, append-nil}
use ex4pm.Prelude.{
  ℕ, zero, suc, String, ◌<>◌, refl, sym, ap, ◌∙◌, subst, ◌≡◌, inl, inr, ◌↔◌, Bool, true, List, [],
  ◌∷◌, All, Any, any, Bool-cases, arith, eq_iff, ◌==◌, string_Eq,
}
use ex4pm.Text.{every_char, str_len}
use ex4pm.Regex.{Regex, one, Match, runs, fullmatch, times}
use ex4pm.Regex.Laws.{Matches, Sound, runs-Sound}
use ex4pm.Regex.Complete.{Finds, runs_complete}

whole_of :
    (r : Regex) (s : String) (ms : List Match)
    → All (Sound r s) ms
    → any (λ (m : Match). m.rest == "") ms ≡ true
    → (g : List (ℕ × String)) × Matches r s "" g
whole_of r s [] a h = absurd (cc)
whole_of r s (m ∷ ms) ((split, taken), later) h = elim (Bool-cases (m.rest == "")) [
  | inr goes_on ↦ whole_of r s ms later (ground arith)
  | inl ends ↦
      let at_end = (eq_iff m.rest "").0 ends in
      (
        m.groups,
        subst (λ x. Matches r x "" m.groups)
            (sym (split ∙ ap (λ x. m.taken <> x) at_end ∙ append-nil m.taken))
            (subst (λ x. Matches r m.taken x m.groups) at_end taken),
      )
]

found_whole :
    (s : String) (g : List (ℕ × String)) (ms : List Match)
    → Any (Finds s "" g) ms
    → any (λ (m : Match). m.rest == "") ms ≡ true
found_whole s g [] a = elim a [ ]
found_whole s g (m ∷ ms) (inl e) = ground (arith, eq_iff m.rest "", ap (λ (x : Match). x.rest) e)
found_whole s g (m ∷ ms) (inr a) = ground (arith, found_whole s g ms a)

pub fullmatch_iff :
    (r : Regex) (s : String) → (fullmatch r s ≡ true) ↔ ((g : List (ℕ × String)) × Matches r s "" g)
unfolding fullmatch
fullmatch_iff r s = (
  λ h. whole_of r s (runs r s) (runs-Sound r s) h,
  λ (g, m). found_whole s g (runs r s) (runs_complete r s s "" g (sym (append-nil s)) m),
)

-- A text of the class, of so many characters
abbrev pub OfLength : ℕ → (ℕ → Bool) → String → Type 0
OfLength n p t = (str_len t ≡ n) × (every_char p t ≡ true)

pub times-Matches :
    (n : ℕ) (p : ℕ → Bool) (t rest : String) (g : List (ℕ × String))
    → Matches (times n (one p)) t rest g
    → OfLength n p t × (g ≡ [])
unfolding every_char str_len
times-Matches zero p t rest g (t_is, g_is) = rw t_is ((refl, refl), g_is)
times-Matches (suc n) p t rest g (t1, t2, g1, g2, (c, is_c, t1_is, g1_is), later, t_is, g_is) =
    let ((long, every), g2_is) = times-Matches n p t2 rest g2 later in
    let whole =
      t_is
      ∙ ap (λ x. x <> t2) t1_is
      ∙ cons-append c "" t2
      ∙ ap (λ x. String.◌∷◌ c x) (nil-append t2) in
    (rw whole (ap suc long, ground arith), cc)

pub Matches-times :
    (n : ℕ) (p : ℕ → Bool) (t rest : String) → OfLength n p t → Matches (times n (one p)) t rest []
unfolding every_char str_len
Matches-times zero p String.[] rest (long, every) = (refl, refl)
Matches-times zero p (String.◌∷◌ c t) rest (long, every) = absurd (omega (arith, long))
Matches-times (suc n) p String.[] rest (long, every) = absurd (omega (arith, long))
Matches-times (suc n) p (String.◌∷◌ c t) rest (long, every) = (
  String.◌∷◌ c "",
  t,
  [],
  [],
  (c, ground arith, refl, refl),
  Matches-times n p t rest (omega (arith, long), ground arith),
  sym (cons-append c "" t ∙ ap (λ x. String.◌∷◌ c x) (nil-append t)),
  refl,
)
