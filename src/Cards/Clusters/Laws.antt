-- ===== src/Cards/Clusters/Laws.antt =====
-- The cluster of a path, by its prefixes.
use ex4pm.Prelude.{
  ◌≢◌, Bool-cases, inl, inr, String, ◌<>◌, refl, sym, ap, ◌∙◌, subst, ◌≡◌, ◌↔◌, Bool, true, not,
  ◌||◌, List, [], ◌∷◌, some, all, contains, arith, ◌==◌, string_Eq, eq_iff,
}
use text.Mathlib.TextLemmas.{append-nil}
use ex4pm.Json.{keys}
use ex4pm.Text.{sorted, is_prefix, str_le, insert_by, sort_by}
use ex4pm.Text.Prefix.{is_prefix_iff}
use ex4pm.Cards.Clusters.{cluster_prefixes, prefixes_of, has_prefix, first_cluster, cluster_for}

-- The path begins with a prefix of this cluster.
abbrev pub LiesIn : String → String → Type 0
LiesIn rel cluster =
    (prefix : String) × (contains (prefixes_of cluster) prefix ≡ true)
    × ((rest : String) × (rel ≡ prefix <> rest))

has_prefix_iff :
    (rel : String) (ps : List String)
    → (has_prefix rel ps ≡ true)
      ↔ ((p : String) × (contains ps p ≡ true) × ((r : String) × (rel ≡ p <> r)))
has_prefix_iff rel [] = (λ h. absurd (cc), λ (p, m, r). absurd (cc))
has_prefix_iff rel (q ∷ ps) = (
  λ h. elim (Bool-cases (rel == q)) [
    | inl same ↦ (q, ground (arith, eq_iff q q), ("", (eq_iff rel q).0 same ∙ sym (append-nil q)))
    | inr other ↦ elim (Bool-cases (is_prefix q rel)) [
      | inl begins ↦ (q, ground (arith, eq_iff q q), (is_prefix_iff q rel).0 begins)
      | inr unlike ↦
          let (p, m, r) = (has_prefix_iff rel ps).0 (ground (arith, other, unlike, h)) in
          (p, ground (arith, m), r)
    ]
  ],
  λ (p, m, r). elim (Bool-cases (p == q)) [
    | inl same ↦
        let begins : is_prefix q rel ≡ true =
          subst (λ x. is_prefix x rel ≡ true) ((eq_iff p q).0 same) ((is_prefix_iff p rel).1 r) in
        ground (arith, begins)
    | inr other ↦
        ground (
          arith,
          (has_prefix_iff rel ps).1 (p, ground (arith, m, other, eq_iff p q, eq_iff q p), r),
        )
  ],
)

-- Of two beginnings of a text one begins with the other.
prefixes_meet :
    (p q s : String)
    → is_prefix p s ≡ true
    → is_prefix q s ≡ true
    → (is_prefix p q || is_prefix q p) ≡ true
unfolding is_prefix
prefixes_meet String.[] q s a b = refl
prefixes_meet (String.◌∷◌ c p) String.[] s a b = refl
prefixes_meet (String.◌∷◌ c p) (String.◌∷◌ d q) String.[] a b = absurd (cc)
prefixes_meet (String.◌∷◌ c p) (String.◌∷◌ d q) (String.◌∷◌ e s) a b =
    ground (arith, prefixes_meet p q s)

abbrev apart : String → String → Bool
apart c d =
    c == d
    || all (λ p. all (λ q. not (is_prefix p q || is_prefix q p)) (prefixes_of d)) (prefixes_of c)

all-apart : all (λ c. all (apart c) (keys cluster_prefixes)) (keys cluster_prefixes) ≡ true
unfolding is_prefix
all-apart = refl

all-contains :
    (t : String → Bool) (xs : List String) (a : String)
    → all t xs ≡ true
    → contains xs a ≡ true
    → t a ≡ true
all-contains t [] a h m = absurd (cc)
all-contains t (x ∷ xs) a h m = elim (Bool-cases (a == x)) [
  | inl same ↦ subst (λ y. t y ≡ true) (sym ((eq_iff a x).0 same)) (ground (arith, h))
  | inr other ↦
      all-contains t xs a (ground (arith, h)) (ground (arith, m, other, eq_iff a x, eq_iff x a))
]

-- Two clusters of one path are one.
one_cluster :
    (rel c d : String)
    → contains (keys cluster_prefixes) c ≡ true
    → contains (keys cluster_prefixes) d ≡ true
    → LiesIn rel c
    → LiesIn rel d
    → c ≡ d
one_cluster rel c d mc md (p, mp, rp) (q, mq, rq) = elim (Bool-cases (c == d)) [
  | inl same ↦ (eq_iff c d).0 same
  | inr other ↦
      let names : apart c d ≡ true =
        all-contains (apart c) (keys cluster_prefixes) d
          (all-contains (λ x. all (apart x) (keys cluster_prefixes)) (keys cluster_prefixes) c
            all-apart mc)
          md in
      let table : all (λ p. all (λ q. not (is_prefix p q || is_prefix q p)) (prefixes_of d))
            (prefixes_of c)
          ≡ true =
        ground (arith, names, other) in
      let row : not (is_prefix p q || is_prefix q p) ≡ true =
        all-contains (λ q. not (is_prefix p q || is_prefix q p)) (prefixes_of d) q
          (all-contains (λ p. all (λ q. not (is_prefix p q || is_prefix q p)) (prefixes_of d))
            (prefixes_of c) p table mp)
          mq in
      absurd (
        ground (
          arith,
          row,
          prefixes_meet p q rel ((is_prefix_iff p rel).1 rp) ((is_prefix_iff q rel).1 rq),
        ))
]

first_cluster-eq-some :
    (rel c : String) (cs : List String)
    → first_cluster rel cs ≡ some c
    → (contains cs c ≡ true) × (has_prefix rel (prefixes_of c) ≡ true)
unfolding first_cluster
first_cluster-eq-some rel c [] h = absurd (cc)
first_cluster-eq-some rel c (d ∷ cs) h = elim (Bool-cases (has_prefix rel (prefixes_of d))) [
  | inl here ↦
      let same : d ≡ c = ground (arith, h, here) in
      (
        ground (arith, eq_iff c d, eq_iff d c, same),
        subst (λ x. has_prefix rel (prefixes_of x) ≡ true) same here,
      )
  | inr not_here ↦
      let (m, p) = first_cluster-eq-some rel c cs (ground (arith, h, not_here)) in
      (ground (arith, m), p)
]

first_cluster-found :
    (rel c : String) (cs : List String)
    → ((d : String) → contains cs d ≡ true → LiesIn rel d → d ≡ c)
    → contains cs c ≡ true
    → has_prefix rel (prefixes_of c) ≡ true
    → first_cluster rel cs ≡ some c
unfolding first_cluster
first_cluster-found rel c [] only m p = absurd (cc)
first_cluster-found rel c (d ∷ cs) only m p = elim (Bool-cases (has_prefix rel (prefixes_of d))) [
  | inl here ↦
      rw here (
        ap some (only d (ground (arith, eq_iff d d)) ((has_prefix_iff rel (prefixes_of d)).0 here)))
  | inr not_here ↦
      let other : c ≢ d =
        λ e. ground (arith, not_here, subst (λ x. has_prefix rel (prefixes_of x) ≡ true) e p) in
      rw not_here (
        first_cluster-found rel c cs (λ e n. only e (ground (arith, n)))
          (ground (arith, m, eq_iff c d, eq_iff d c, other)) p)
]

same_names :
    (c : String) → contains (sorted (keys cluster_prefixes)) c ≡ contains (keys cluster_prefixes) c
unfolding sorted insert_by sort_by str_le
same_names c = ground arith

-- A path has a cluster exactly if it begins with one of that cluster's prefixes; there is then no
-- other, so the order in which the clusters are tried decides nothing.
pub cluster_for_iff :
    (rel c : String)
    → (cluster_for rel ≡ some c) ↔ ((contains (keys cluster_prefixes) c ≡ true) × LiesIn rel c)
unfolding cluster_for
cluster_for_iff rel c = (
  λ h.
      let (m, p) = first_cluster-eq-some rel c (sorted (keys cluster_prefixes)) h in
      (sym (same_names c) ∙ m, (has_prefix_iff rel (prefixes_of c)).0 p),
  λ (m, l).
      first_cluster-found rel c (sorted (keys cluster_prefixes))
        (λ d n k. one_cluster rel d c (sym (same_names d) ∙ n) m k l) (same_names c ∙ m)
        ((has_prefix_iff rel (prefixes_of c)).1 l),
)
