-- ===== src/Text/Prefix.antt =====
-- `startswith`
use Prim.Native.Char.{code}
use text.Mathlib.TextEquality.{Char-path}
use text.Mathlib.TextLemmas.{nil-append, cons-append}
use ex4pm.Prelude.{
  String, ◌<>◌, refl, sym, ap, ◌∙◌, ◌≡◌, ◌↔◌, true, nat_Eq, nat_eq_iff, and_parts, arith,
}
use ex4pm.Text.{is_prefix}

prefix_rest : (p s : String) → is_prefix p s ≡ true → (r : String) × (s ≡ p <> r)
unfolding is_prefix
prefix_rest String.[] s h = (s, sym (nil-append s))
prefix_rest (String.◌∷◌ c p) String.[] h = absurd (cc)
prefix_rest (String.◌∷◌ c p) (String.◌∷◌ d s) h =
    let (same, more) = and_parts _ _ h in
    let (r, e) = prefix_rest p s more in
    let equal = Char-path d c (sym ((nat_eq_iff _ _).0 same)) in
    (
      r,
      ap (λ t. String.◌∷◌ d t) e ∙ ap (λ k. String.◌∷◌ k (p <> r)) equal ∙ sym (cons-append c p r),
    )

is_prefix-append : (p r : String) → is_prefix p (p <> r) ≡ true
unfolding is_prefix
is_prefix-append String.[] r = refl
is_prefix-append (String.◌∷◌ c p) r =
    rw (cons-append c p r, is_prefix-append p r) (ground (arith, nat_eq_iff (code c) (code c)))

-- A text starts with a prefix exactly if it is the prefix and a rest.
pub is_prefix_iff : (p s : String) → (is_prefix p s ≡ true) ↔ ((r : String) × (s ≡ p <> r))
is_prefix_iff p s = (prefix_rest p s, λ (r, e). ap (is_prefix p) e ∙ is_prefix-append p r)
