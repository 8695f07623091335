-- ===== src/Regex/Complete.antt =====
-- The ways to match that `runs` tries.
use Prim.Native.Char.{code}
use text.Mathlib.TextLemmas.{nil-append, cons-append, append_assoc}
use ex4pm.Prelude.{
  Any, ℕ, String, ◌<>◌, refl, sym, ap, ◌∙◌, subst, ◌≡◌, inl, inr, Bool, true, List, [], ◌∷◌, ◌++◌,
  map, Bool-cases, arith,
}
use ex4pm.Text.{every_char}
use ex4pm.Regex.{
  Regex, one, many, empty, seq, or, group, not_before, at_end, Match, nothing, take_one, join,
  enclose, stops_at, at_last, stretches, each_then, runs,
}
use ex4pm.Regex.Laws.{Matches, Any-left, Any-right, Any-map}

-- The match that was asked for is among those found.
abbrev pub Finds : String → String → List (ℕ × String) → Match → Type 0
Finds t rest g m = m ≡ record { groups = g; taken = t; rest = rest }

found_here :
    (t rest : String) (g : List (ℕ × String)) (s : String)
    → s ≡ rest
    → t ≡ ""
    → g ≡ []
    → Finds t rest g (nothing s)
found_here t rest g s e e' e'' i = record { groups = sym e'' i; taken = sym e' i; rest = e i }

found_nothing : (p : ℕ → Bool) (rest : String) → Any (Finds "" rest []) (stretches p rest)
unfolding stretches
found_nothing p String.[] = inl refl
found_nothing p (String.◌∷◌ c s) = elim (Bool-cases (p (code c))) [
  | inr no_c ↦ rw no_c (inl refl)
  | inl is_c ↦ rw is_c (
      Any-right (Finds "" (String.◌∷◌ c s) []) (map (take_one c) (stretches p s))
        (nothing (String.◌∷◌ c s) ∷ []) (inl refl))
]

stretches_complete :
    (p : ℕ → Bool) (t rest : String)
    → every_char p t ≡ true
    → Any (Finds t rest []) (stretches p (t <> rest))
unfolding stretches every_char
stretches_complete p String.[] rest e = rw (nil-append rest) (found_nothing p rest)
stretches_complete p (String.◌∷◌ c t) rest e =
    let is_c : p (code c) ≡ true = ground arith in
    rw (cons-append c t rest, is_c)
      (Any-left (Finds (String.◌∷◌ c t) rest []) (map (take_one c) (stretches p (t <> rest)))
        (nothing (String.◌∷◌ c (t <> rest)) ∷ [])
        (Any-map (take_one c) (Finds t rest []) (Finds (String.◌∷◌ c t) rest [])
          (λ m h. ap (take_one c) h) (stretches p (t <> rest))
          (stretches_complete p t rest (ground arith))))

each_then_complete :
    (t1 t2 r1 rest : String) (g1 g2 : List (ℕ × String)) (f : String → List Match)
    → Any (Finds t2 rest g2) (f r1)
    → (ms : List Match) → Any (Finds t1 r1 g1) ms
    → Any (Finds (t1 <> t2) rest (g1 ++ g2)) (each_then ms f)
unfolding each_then
each_then_complete t1 t2 r1 rest g1 g2 f there [] here = elim here [ ]
each_then_complete t1 t2 r1 rest g1 g2 f there (m ∷ ms) (inr here) =
    Any-right (Finds (t1 <> t2) rest (g1 ++ g2)) _ _
      (each_then_complete t1 t2 r1 rest g1 g2 f there ms here)
each_then_complete t1 t2 r1 rest g1 g2 f there (m ∷ ms) (inl e) =
    let m1 : Match = record { groups = g1; taken = t1; rest = r1 } in
    subst
      (λ (n : Match).
        Any (Finds (t1 <> t2) rest (g1 ++ g2)) (map (join n) (f n.rest) ++ each_then ms f))
      (sym e)
      (Any-left (Finds (t1 <> t2) rest (g1 ++ g2)) _ _ (
        Any-map (join m1) (Finds t2 rest g2) (Finds (t1 <> t2) rest (g1 ++ g2))
          (λ n h. ap (join m1) h) (f r1) there))

-- Every way to match at the start of the text is tried.
pub runs_complete :
    (r : Regex) (s t rest : String) (g : List (ℕ × String))
    → s ≡ t <> rest
    → Matches r t rest g
    → Any (Finds t rest g) (runs r s)
unfolding runs
runs_complete (one p) s t rest g e (c, is_c, t_is, g_is) =
    rw
      (
        e
            ∙ ap (λ x. x <> rest) t_is
            ∙ cons-append c "" rest
            ∙ ap (λ x. String.◌∷◌ c x) (nil-append rest),
        is_c,
      )
      (inl (λ i. record { groups = sym g_is i; taken = sym t_is i; rest = rest }))
runs_complete (many p) s t rest g e (every, g_is) = rw (e, g_is) (stretches_complete p t rest every)
runs_complete empty s t rest g e (t_is, g_is) =
    inl (found_here t rest g s (e ∙ ap (λ x. x <> rest) t_is ∙ nil-append rest) t_is g_is)
runs_complete (seq a b) s t rest g e (t1, t2, g1, g2, first, second, t_is, g_is) =
    rw (t_is, g_is)
      (each_then_complete t1 t2 (t2 <> rest) rest g1 g2 (runs b)
        (runs_complete b (t2 <> rest) t2 rest g2 refl second) (runs a s)
        (runs_complete a s t1 (t2 <> rest) g1
          (e ∙ ap (λ x. x <> rest) t_is ∙ append_assoc t1 t2 rest) first))
runs_complete (or a b) s t rest g e (inl h) =
    Any-left (Finds t rest g) _ _ (runs_complete a s t rest g e h)
runs_complete (or a b) s t rest g e (inr h) =
    Any-right (Finds t rest g) _ _ (runs_complete b s t rest g e h)
runs_complete (group n r) s t rest g e (inner, h, g_is) = rw g_is (
    Any-map (enclose n) (Finds t rest inner) (Finds t rest ((n, t) ∷ inner))
      (λ m k. ap (enclose n) k) (runs r s) (runs_complete r s t rest inner e h))
runs_complete (not_before p) s t rest g e (stop, t_is, g_is) =
    let here : s ≡ rest = e ∙ ap (λ x. x <> rest) t_is ∙ nil-append rest in
    rw (ap (stops_at p) here ∙ stop) (inl (found_here t rest g s here t_is g_is))
runs_complete at_end s t rest g e (ends, t_is, g_is) =
    let here : s ≡ rest = e ∙ ap (λ x. x <> rest) t_is ∙ nil-append rest in
    rw (ap at_last here ∙ ends) (inl (found_here t rest g s here t_is g_is))
