-- ===== src/Crown/Rails/Groups.antt =====
-- What a differential group proves: its members are rails with one result hash.
use ex4pm.Prelude.{
  is_empty, set_of_one_value, ap, require-eq-ok, nat_eq_iff, one_value_of_set, ◌≤◌, String, ◌≡◌,
  refl, true, not, List, [], ◌∷◌, Option, none, some, ok, ◌>>=◌, from_bind, from_expect,
  from_require, All, arith, ok-bind, ok-injective, subst, traverse, length, to_set, string_Eq,
}
use ex4pm.Json.{is_hashable, Json, Dict, get, as_dict, as_list}
use ex4pm.Crown.Rails.{keep_hash, hash_of, member_hashes, verify_group}

-- The members of the group are rails, and all of them have one hash.
pub record Agrees (result_hashes : Dict String) (group : Json) : Type 0 where
  pub members : List Json
  pub g : Dict Json
  pub hash : String
  pub object : as_dict group ≡ some g
  pub named : as_list (get "rails" g) ≡ some members
  pub some_member : (m : Json) × (ms : List Json) × (members ≡ m ∷ ms)
  pub agree : All (λ m. hash_of result_hashes m ≡ some hash) members

pub not_empty :
    {A : Type 0} (xs : List A) → not (is_empty xs) ≡ true → (x : A) × (ys : List A) × (xs ≡ x ∷ ys)
not_empty [] h = cc
not_empty (x ∷ xs) h = (x, xs, refl)

pub filled :
    {A : Type 0} (xs : List A)
    → ((x : A) × (ys : List A) × (xs ≡ x ∷ ys))
    → not (is_empty xs) ≡ true
filled xs (x, ys, e) = rw e

hash_of-hashable :
    (rh : Dict String) (m : Json) {h : String} → hash_of rh m ≡ some h → is_hashable m ≡ true
hash_of-hashable rh m e = ground arith

abbrev HashesOf : Dict String → List Json → List String → Type 0
HashesOf rh [] [] = Unit
HashesOf rh [] (h ∷ hs) = ⊥
HashesOf rh (m ∷ ms) [] = ⊥
HashesOf rh (m ∷ ms) (h ∷ hs) = (hash_of rh m ≡ some h) × HashesOf rh ms hs

-- At most one hash for each member; if there is one for each, they are the members' own.
abbrev Collected : Dict String → List Json → List String → Type 0
Collected rh ms hs = (length hs ≤ length ms) × (length hs ≡ length ms → HashesOf rh ms hs)

keep_hash-Collected :
    (rh : Dict String) (m : Json) (ms : List Json) (o : Option String) (hs : List String)
    → ((hs : List String) → member_hashes rh ms ≡ ok hs → Collected rh ms hs)
    → hash_of rh m ≡ o
    → keep_hash o (member_hashes rh ms) ≡ ok hs
    → Collected rh (m ∷ ms) hs
unfolding keep_hash
keep_hash-Collected rh m ms none hs ih p k =
    let c = ih hs k in (omega arith, λ n. absurd (omega arith))
keep_hash-Collected rh m ms (some x) hs ih p k = from_bind _ _ k λ hs' r k.
    let c = ih hs' r in
    subst (Collected rh (m ∷ ms)) (ok-injective k) (omega arith, λ n. (p, c.1 (omega arith)))

member_hashes-Collected :
    (rh : Dict String) (ms : List Json) (hs : List String)
    → member_hashes rh ms ≡ ok hs
    → Collected rh ms hs
unfolding member_hashes
member_hashes-Collected rh [] [] h = (omega arith, λ n. tt)
member_hashes-Collected rh [] (x ∷ hs) h = cc
member_hashes-Collected rh (m ∷ ms) hs h =
    from_require _ _ _ h
      λ t k. keep_hash-Collected rh m ms (hash_of rh m) hs (member_hashes-Collected rh ms) refl k

agree-All :
    (rh : Dict String) (ms : List Json) (hs : List String) (hash : String)
    → HashesOf rh ms hs
    → All (λ h. h ≡ hash) hs
    → All (λ m. hash_of rh m ≡ some hash) ms
agree-All rh [] hs hash p q = tt
agree-All rh (m ∷ ms) [] hash p q = elim p [ ]
agree-All rh (m ∷ ms) (h ∷ hs) hash p q = (rw (← q.0) p.0, agree-All rh ms hs hash p.1 q.1)

verify_group-Agrees :
    (rh : Dict String) (group : Json) {u : Unit {0}}
    → verify_group rh group ≡ ok u
    → Agrees rh group
unfolding verify_group
verify_group-Agrees rh group h = from_expect _ _ _ h λ g object h.
    from_expect _ _ _ h λ members named h. from_require _ _ _ h λ filled h.
      from_bind _ _ h λ hashes collected h. from_require _ _ _ h λ known h.
        let (hash, same) = one_value_of_set hashes ((nat_eq_iff _ _).0 (require-eq-ok _ _ h)) in
        record {
          members = members;
          g = g;
          hash = hash;
          object = object;
          named = named;
          some_member = not_empty members filled;
          agree =
              agree-All rh members hashes hash
                ((member_hashes-Collected rh members hashes collected).1 ((nat_eq_iff _ _).0 known))
                same;
        }

member_hashes_of_agree :
    (rh : Dict String) (hash : String) (ms : List Json)
    → All (λ m. hash_of rh m ≡ some hash) ms
    → (hs : List String) × (member_hashes rh ms ≡ ok hs)
      × (length hs ≡ length ms)
      × All (λ h. h ≡ hash) hs
unfolding member_hashes keep_hash ◌>>=◌
member_hashes_of_agree rh hash [] a = ([], refl, refl, tt)
member_hashes_of_agree rh hash (m ∷ ms) a =
    let (hs, p, n, q) = member_hashes_of_agree rh hash ms a.1 in
    (hash ∷ hs, rw (a.0, hash_of-hashable rh m a.0, p), omega arith, (refl, q))

one_hash :
    (ms : List Json) (hs : List String) (hash : String)
    → ((m : Json) × (ms' : List Json) × (ms ≡ m ∷ ms'))
    → length hs ≡ length ms
    → All (λ h. h ≡ hash) hs
    → length (to_set hs) ≡ 1
one_hash ms [] hash (m, ms', e) n a = absurd (omega (arith, ap length e))
one_hash ms (h ∷ hs) hash e n a = ap length (set_of_one_value hash h hs a)

verify_group_of_Agrees :
    (rh : Dict String) (group : Json) → Agrees rh group → verify_group rh group ≡ ok tt
unfolding verify_group
verify_group_of_Agrees rh group a =
    let (hs, p, n, q) = member_hashes_of_agree rh a.hash a.members a.agree in
    rw (
      a.object,
      ok-bind,
      a.named,
      ok-bind,
      filled a.members a.some_member,
      ok-bind,
      p,
      ok-bind,
      (nat_eq_iff (length hs) (length a.members)).1 n,
      ok-bind,
      one_hash a.members hs a.hash a.some_member n q,
    )

pub All-groups :
    (rh : Dict String) (groups : List Json)
    → All (λ g. (u : Unit {0}) × (verify_group rh g ≡ ok u)) groups
    → All (Agrees rh) groups
All-groups rh [] a = tt
All-groups rh (g ∷ gs) a = (verify_group-Agrees rh g a.0.1, All-groups rh gs a.1)

pub each_group :
    (rh : Dict String) (groups : List Json)
    → All (Agrees rh) groups
    → (us : List (Unit {0})) × (traverse (verify_group rh) groups ≡ ok us)
unfolding traverse ◌>>=◌
each_group rh [] a = ([], refl)
each_group rh (g ∷ gs) a =
    let (us, p) = each_group rh gs a.1 in (tt ∷ us, rw (verify_group_of_Agrees rh g a.0, p))
