-- ===== src/Json/Laws.antt =====
-- What a test on a value says of it, and how writing and removing a key changes what a dict holds.
use ex4pm.Json.{Json, bool, str, as_str, is_str, is_true, is_false, Dict, lookup, set_key, pop}
use ex4pm.Prelude.{
  String, ◌≡◌, ◌↔◌, true, false, refl, [], ◌∷◌, ◌==◌, string_Eq, if◌then◌else◌, none, some, arith,
  eq_iff,
}

pub as_str-eq-some : (v : Json) {s : String} → as_str v ≡ some s → v ≡ str s
as_str-eq-some v h = ground arith

pub is_str_iff : (v : Json) (s : String) → (is_str v s ≡ true) ↔ (v ≡ str s)
is_str_iff (str t) s = ground (arith, eq_iff t s, eq_iff s s)
is_str_iff v s = ground arith

pub is_true_iff : (v : Json) → (is_true v ≡ true) ↔ (v ≡ bool true)
is_true_iff v = ground arith

pub is_false_iff : (v : Json) → (is_false v ≡ true) ↔ (v ≡ bool false)
is_false_iff v = ground arith

module _ {ℓ} {V : Type ℓ} where
  pub lookup-set_key :
      (k j : String) (v : V) (d : Dict V)
      → lookup j (set_key k v d) ≡ (if k == j then some v else lookup j d)
  unfolding set_key
  lookup-set_key k j v [] = refl
  lookup-set_key k j v ((i, w) ∷ d) =
      ground (arith, eq_iff k j, eq_iff i k, eq_iff i j, lookup-set_key k j v d)

  pub lookup-pop :
      (k j : String) (d : Dict V) → lookup j (pop k d) ≡ (if k == j then none else lookup j d)
  unfolding pop
  lookup-pop k j [] = ground arith
  lookup-pop k j ((i, w) ∷ d) = ground (arith, eq_iff k j, eq_iff i k, eq_iff i j, lookup-pop k j d)

  pub pop_absent : (k : String) (v : V) (d : Dict V) → pop k ((k, v) ∷ d) ≡ pop k d
  unfolding pop
  pop_absent k v d = ground (arith, eq_iff k k)
