-- ===== src/Crown/Identity/Laws.antt =====
-- What `verify_identity` accepts.
use ex4pm.Prelude.{
  arith, inr, inl, ◌↔◌, ◌⊎◌, sym, ap, ◌∙◌, ok-injective, subst, eq_iff, from_require, nat_eq_iff,
  ok-bind, from_expect, refl, ◌≡◌, String, Option, none, some,
}
use ex4pm.Json.Laws.{as_str-eq-some}
use ex4pm.Crown.Identity.{true, ok, Identity, admits, verify_identity}
use ex4pm.Text.{str_len}
use ex4pm.Json.{Json, Dict, str, get}
use ex4pm.Crown.World.{World}

-- Nothing was expected, or this very sha.
abbrev pub Admitted : Option String → String → Type 0
Admitted expected sha = (expected ≡ none) ⊎ ((expected ≡ some "") ⊎ (expected ≡ some sha))

admits_iff :
    (expected : Option String) (sha : String) → (admits expected sha ≡ true) ↔ Admitted expected sha
admits_iff none sha = (λ h. inl refl, λ a. refl)
admits_iff (some e) sha = (
  λ h. inr (ground (arith, eq_iff e "", eq_iff sha e)),
  λ a. ground (arith, eq_iff e "", eq_iff sha e),
)

-- The crown names the commit and the tree that the repository has, and that were admitted.
pub record IdentityProven (w : World) (crown : Dict Json)
    (expected_source expected_tree : Option String) (i : Identity) : Type 0 where
  pub source_stated : get "source_sha" crown ≡ str i.source_sha
  pub tree_stated : get "tree_sha" crown ≡ str i.tree_sha
  pub source_length : str_len i.source_sha ≡ 40
  pub tree_length : str_len i.tree_sha ≡ 40
  pub head : w.rev_parse "HEAD" ≡ some i.source_sha
  pub head_tree : w.rev_parse "HEAD^{tree}" ≡ some i.tree_sha
  pub source_admitted : Admitted expected_source i.source_sha
  pub tree_admitted : Admitted expected_tree i.tree_sha

pub verify_identity-IdentityProven :
    (w : World) (crown : Dict Json) (es et : Option String) (i : Identity)
    → verify_identity w crown es et ≡ ok i
    → IdentityProven w crown es et i
unfolding verify_identity
verify_identity-IdentityProven w crown es et i h = from_expect _ _ _ h λ source stated h.
    from_require _ _ _ h λ source_length h. from_expect _ _ _ h λ tree tree_stated h.
      from_require _ _ _ h λ tree_length h. from_expect _ _ _ h λ head p h.
        from_expect _ _ _ h λ head_tree q h. from_require _ _ _ h λ same_source h.
          from_require _ _ _ h λ same_tree h. from_require _ _ _ h λ source_admitted h.
            from_require _ _ _ h λ tree_admitted h.
              subst (IdentityProven w crown es et) (ok-injective h) (record {
                source_stated = as_str-eq-some _ stated;
                tree_stated = as_str-eq-some _ tree_stated;
                source_length = (nat_eq_iff _ _).0 source_length;
                tree_length = (nat_eq_iff _ _).0 tree_length;
                head = p ∙ ap some (sym ((eq_iff _ _).0 same_source));
                head_tree = q ∙ ap some (sym ((eq_iff _ _).0 same_tree));
                source_admitted = (admits_iff _ _).0 source_admitted;
                tree_admitted = (admits_iff _ _).0 tree_admitted;
              })

pub verify_identity_of_IdentityProven :
    (w : World) (crown : Dict Json) (es et : Option String) (i : Identity)
    → IdentityProven w crown es et i
    → verify_identity w crown es et ≡ ok i
unfolding verify_identity
verify_identity_of_IdentityProven w crown es et i p = rw (
  p.source_stated,
  ok-bind,
  (nat_eq_iff (str_len i.source_sha) 40).1 p.source_length,
  ok-bind,
  p.tree_stated,
  ok-bind,
  (nat_eq_iff (str_len i.tree_sha) 40).1 p.tree_length,
  ok-bind,
  p.head,
  ok-bind,
  p.head_tree,
  ok-bind,
  (eq_iff i.source_sha i.source_sha).1 refl,
  ok-bind,
  (eq_iff i.tree_sha i.tree_sha).1 refl,
  ok-bind,
  (admits_iff es i.source_sha).1 p.source_admitted,
  ok-bind,
  (admits_iff et i.tree_sha).1 p.tree_admitted,
  ok-bind,
)

-- The identity is accepted exactly if the crown names the commit and the tree that Git reports,
-- by 40 characters each, and neither differs from one that was expected.
pub verify_identity_iff :
    (w : World) (crown : Dict Json) (es et : Option String) (i : Identity)
    → (verify_identity w crown es et ≡ ok i) ↔ IdentityProven w crown es et i
verify_identity_iff w crown es et i = (
  verify_identity-IdentityProven w crown es et i,
  verify_identity_of_IdentityProven w crown es et i,
)
