-- ===== src/Release/Complete.antt =====
-- `INTERNAL_DEP.findall` lists the version of each internal dependency, wherever it stands.
use ex4pm.Regex.Search.{no_text}
use ex4pm.Prelude.{
  ℕ, ◌≤◌, leb, Bool-cases, String, ◌<>◌, refl, sym, ap, ◌∙◌, ◌≡◌, true, List, [], ◌∷◌, arith, ◌⊎◌,
  inl, inr, string_Eq, eq_iff, contains, map,
}
use text.Mathlib.TextLemmas.{append-nil, append_assoc, append_cancel_left, nil-append, cons-append}
use Prim.Native.Char.{code}
use ex4pm.Text.{every_char}
use ex4pm.Regex.{Match, group_of, taken_length, finditer}
use ex4pm.Regex.Scan.{Scanned, Takes, finditer-Scanned}
use ex4pm.Release.{internal_dep, text_or, dependency_versions}
use ex4pm.Release.Dependencies.{Dependency}
use ex4pm.Release.Spelled.{internal_dep-Dependency, Dependency-internal_dep}
use ex4pm.Release.Unique.{Dependency-unique, no_brace, one_brace, every-append}

-- The longer of two beginnings of a text continues the shorter.
continues :
    (a b x y : String)
    → taken_length a ≤ taken_length b
    → a <> x ≡ b <> y
    → (m : String) × (b ≡ a <> m) × (x ≡ m <> y)
continues String.[] b x y n e = (b, sym (nil-append b), sym (nil-append x) ∙ e)
continues (String.◌∷◌ c a) String.[] x y n e = absurd (omega arith)
continues (String.◌∷◌ c a) (String.◌∷◌ d b) x y n e =
    let split : String.◌∷◌ c (a <> x) ≡ String.◌∷◌ d (b <> y) =
      sym (cons-append c a x) ∙ e ∙ cons-append d b y in
    let (m, b_is, x_is) = continues a b x y (omega arith) (cc) in
    (
      m,
      ap (λ z. String.◌∷◌ d z) b_is
          ∙ sym (cons-append d a m)
          ∙ ap (λ z. z <> m) (ap (λ k. String.◌∷◌ k a) (cc)),
      x_is,
    )

Takes-dep : Takes internal_dep
Takes-dep t rest g h e =
    let (v, d, _) = internal_dep-Dependency t rest g h in
    let (brace, tail, t_is, _, _) = one_brace t v d in no_text brace tail (sym e ∙ t_is)

-- No dependency starts inside another.
not_inside :
    (t v t' v' x y rest rest' : String)
    → Dependency t v
    → Dependency t' v'
    → (x ≡ "" → ⊥)
    → (y ≡ "" → ⊥)
    → t ≡ x <> y
    → y <> rest ≡ t' <> rest'
    → ⊥
unfolding every_char
not_inside t v t' v' String.[] y rest rest' d d' n k e f = n refl
not_inside t v t' v' (String.◌∷◌ c x) String.[] rest rest' d d' n k e f = k refl
not_inside t v t' v' (String.◌∷◌ c x) (String.◌∷◌ b y) rest rest' d d' n k e f =
    let (brace, tail, t_is, _, free) = one_brace t v d in
    let (brace', tail', t'_is, is_brace, _) = one_brace t' v' d' in
    let behind : String.◌∷◌ brace tail ≡ String.◌∷◌ c (x <> String.◌∷◌ b y) =
      sym t_is ∙ e ∙ cons-append c x (String.◌∷◌ b y) in
    let same : String.◌∷◌ b (y <> rest) ≡ String.◌∷◌ brace' (tail' <> rest') =
      sym (cons-append b y rest)
      ∙ f
      ∙ ap (λ z. z <> rest') t'_is
      ∙ cons-append brace' tail' rest' in
    let tail_is : tail ≡ x <> String.◌∷◌ b y = cc in
    let b_is : b ≡ brace' = cc in
    let code_is = ap code b_is in
    absurd
      (ground (arith, ap (every_char no_brace) tail_is, every-append no_brace x (String.◌∷◌ b y)))

-- The versions of a scan
abbrev pub versions : List Match → List String
versions ms = map (λ (m : Match). text_or "" (group_of 1 m.groups)) ms

order : (a b : ℕ) → (a ≤ b) ⊎ (b ≤ a)
order a b = elim (Bool-cases (leb a b)) [ inl h ↦ inl (ground arith) | inr h ↦ inr (ground arith) ]

-- The place of a dependency against the first match
data Place (x taken : String) : Type 0 where
  same : x ≡ "" → Place x taken
  inside : (y : String) → (x ≡ "" → ⊥) → (y ≡ "" → ⊥) → taken ≡ x <> y → Place x taken
  later : (x' : String) → x ≡ taken <> x' → Place x taken

place : (x taken u w : String) → taken <> u ≡ x <> w → Place x taken
place x taken u w e = elim (order (taken_length taken) (taken_length x)) [
  | inl long ↦ let (x', x_is, _) = continues taken x u w long e in later x' x_is
  | inr short ↦
      let (y, taken_is, _) = continues x taken w u short (sym e) in
      elim (empty_or x) [
        | inl e' ↦ same e'
        | inr n ↦ elim (empty_or y) [
          | inl e' ↦ later "" (cc (append-nil x, append-nil taken))
          | inr k ↦ inside y n k taken_is
        ]
      ]
]
  where
    empty_or : (z : String) → (z ≡ "") ⊎ (z ≡ "" → ⊥)
    empty_or String.[] = inl refl
    empty_or (String.◌∷◌ c z) = inr (λ e. absurd (cc))

scan_lists :
    (ms : List Match) (text before t v rest : String)
    → Scanned internal_dep text ms
    → Dependency t v
    → text ≡ before <> (t <> rest)
    → contains (versions ms) v ≡ true
scan_lists [] text before t v rest nowhere d e =
    absurd (nowhere before t rest _ e (Dependency-internal_dep t v rest d))
scan_lists (m ∷ ms) text before t v rest (first, split, found, leftmost, scanned) d e =
    let (v1, d1, g_is) = internal_dep-Dependency m.taken m.rest m.groups found in
    let ordered = leftmost before t rest _ e (Dependency-internal_dep t v rest d) in
    let (x, before_is, left) =
      continues first before (m.taken <> m.rest) (t <> rest) ordered (sym split ∙ e) in
    elim (place x m.taken m.rest (t <> rest) left) [
      | same e' ↦
          let one =
            Dependency-unique m.taken t v1 v m.rest rest d1 d
              (left ∙ ap (λ z. z <> (t <> rest)) e' ∙ nil-append (t <> rest)) in
          ground (
            arith,
            eq_iff v (text_or "" (group_of 1 m.groups)),
            ap (λ g. text_or "" (group_of 1 g)) g_is,
          )
      | inside y n k taken_is ↦ absurd (
          not_inside m.taken v1 t v x y m.rest rest d1 d n k taken_is (
            append_cancel_left x _ _
              (sym (append_assoc x y m.rest) ∙ ap (λ z. z <> m.rest) (sym taken_is) ∙ left)))
      | later x' x_is ↦
          let onward =
            append_cancel_left m.taken m.rest (x' <> (t <> rest))
              (left ∙ ap (λ z. z <> (t <> rest)) x_is ∙ append_assoc m.taken x' (t <> rest)) in
          ground (arith, scan_lists ms m.rest x' t v rest scanned d onward)
    ]

-- Wherever a text has an internal dependency that is spelled with `~>` and a version of three
-- numbers, that version is among those compared.
pub dependency_versions-contains :
    (text before t v rest : String)
    → Dependency t v
    → text ≡ before <> (t <> rest)
    → contains (dependency_versions text) v ≡ true
unfolding dependency_versions
dependency_versions-contains text before t v rest d e =
    scan_lists (finditer internal_dep 0 text) text before t v rest
      (finditer-Scanned internal_dep Takes-dep text) d e
