-- ===== src/Prelude/Results.antt =====
-- A Python call that may raise, and loops whose body may raise.
use mathlib.Core.Path.{◌≡◌, refl, subst}
use Prim.Native.Nat.{ℕ, suc}
use mathlib.Core.Bool.{Bool, true, false}
use mathlib.Core.Option.{Option, none, some}
use mathlib.Core.List.{List, [], ◌∷◌}
use native.Mathlib.Omega.{arith}
use ex4pm.Prelude.Lists.{All, enumerate}

pub data Result {ℓ} (E A : Type ℓ) : Type ℓ where
  ok : A → Result E A
  err : E → Result E A

infixl 5 ◌>>=◌ ◌>>◌
-- Shut, so that a proof takes a chain apart by `>>=-eq-ok`; a run opens it.
unfoldable pub ◌>>=◌ : {E A B : Type 0} → Result E A → (A → Result E B) → Result E B
ok a >>= f = f a
err e >>= f = err e

abbrev pub ◌>>◌ : {E B : Type 0} → Result E (Unit {0}) → Result E B → Result E B
m >> k = m >>= λ _. k

-- `if not b: raise e`
abbrev pub require : {E : Type 0} → Bool → E → Result E (Unit {0})
require true e = ok tt
require false e = err e

-- `if x is None: raise e`, for a value that a test lets through
abbrev pub expect : {E A : Type 0} → Option A → E → Result E A
expect none e = err e
expect (some a) e = ok a

pub >>=-eq-ok :
    {E A B : Type 0} (m : Result E A) (f : A → Result E B) {b : B}
    → (m >>= f) ≡ ok b
    → (a : A) × (m ≡ ok a) × (f a ≡ ok b)
unfolding ◌>>=◌
>>=-eq-ok (ok a) f h = (a, refl, h)
>>=-eq-ok (err e) f h = cc

pub ok-bind : {E A B : Type 0} (a : A) (f : A → Result E B) → (ok a >>= f) ≡ f a
unfolding ◌>>=◌
ok-bind a f = refl

pub err-bind : {E A B : Type 0} (e : E) (f : A → Result E B) → (err e >>= f) ≡ err e
unfolding ◌>>=◌
err-bind e f = refl

pub require-eq-ok : {E : Type 0} (b : Bool) (e : E) {u : Unit {0}} → require b e ≡ ok u → b ≡ true
require-eq-ok true e h = refl
require-eq-ok false e h = cc

pub expect-eq-ok : {E A : Type 0} (o : Option A) (e : E) {a : A} → expect o e ≡ ok a → o ≡ some a
expect-eq-ok none e h = cc
expect-eq-ok (some a) e h = cc

pub ok-injective : {E A : Type 0} {a b : A} → ◌≡◌ {A = Result E A} (ok a) (ok b) → a ≡ b
ok-injective h = cc

-- A chain that returned is taken apart from its first step on.
module _ {κ} {E B : Type 0} {b : B} {P : Type κ} where
  pub from_bind :
      {A : Type 0} (m : Result E A) (f : A → Result E B)
      → (m >>= f) ≡ ok b
      → ((a : A) → m ≡ ok a → f a ≡ ok b → P)
      → P
  from_bind m f h k = let (a, p, q) = >>=-eq-ok m f h in k a p q

  pub from_expect :
      {A : Type 0} (o : Option A) (e : E) (f : A → Result E B)
      → (expect o e >>= f) ≡ ok b
      → ((a : A) → o ≡ some a → f a ≡ ok b → P)
      → P
  from_expect o e f h k = from_bind _ _ h λ a p q. k a (expect-eq-ok o e p) q

  pub from_require :
      (t : Bool) (e : E) (m : Result E B)
      → (require t e >> m) ≡ ok b
      → (t ≡ true → m ≡ ok b → P)
      → P
  from_require t e m h k = from_bind _ _ h λ u p q. k (require-eq-ok t e p) q

module _ {E A B : Type 0} where
  -- A `for` loop that collects one value for each element; the first exception ends it.
  unfoldable pub traverse : (A → Result E B) → List A → Result E (List B)
  traverse f [] = ok []
  traverse f (x ∷ xs) = let rest = traverse f xs in do y ← f x; ys ← rest; ok (y ∷ ys)

  -- `ys` are the values of `f` on `xs`, one for one.
  abbrev pub Each : (A → Result E B) → List A → List B → Type 0
  Each f [] [] = Unit
  Each f [] (y ∷ ys) = ⊥
  Each f (x ∷ xs) [] = ⊥
  Each f (x ∷ xs) (y ∷ ys) = (f x ≡ ok y) × Each f xs ys

  pub traverse-Each :
      (f : A → Result E B) (xs : List A) (ys : List B) → traverse f xs ≡ ok ys → Each f xs ys
  unfolding traverse ◌>>=◌
  traverse-Each f [] [] h = tt
  traverse-Each f [] (y ∷ ys) h = cc
  traverse-Each f (x ∷ xs) [] h = ground arith
  traverse-Each f (x ∷ xs) (y ∷ ys) h = (ground arith, traverse-Each f xs ys (ground arith))

  pub Each-traverse :
      (f : A → Result E B) (xs : List A) (ys : List B) → Each f xs ys → traverse f xs ≡ ok ys
  unfolding traverse ◌>>=◌
  Each-traverse f [] [] h = refl
  Each-traverse f [] (y ∷ ys) h = elim h [ ]
  Each-traverse f (x ∷ xs) [] h = elim h [ ]
  Each-traverse f (x ∷ xs) (y ∷ ys) h = rw (h.0, Each-traverse f xs ys h.1)

  pub Each-All :
      (f : A → Result E B) (xs : List A) (ys : List B)
      → Each f xs ys
      → All (λ x. (y : B) × (f x ≡ ok y)) xs
  Each-All f [] ys h = tt
  Each-All f (x ∷ xs) [] h = elim h [ ]
  Each-All f (x ∷ xs) (y ∷ ys) h = ((y, h.0), Each-All f xs ys h.1)

module _ {A B : Type 0} where
  -- The two lists are as long as one another, and related place by place.
  abbrev pub Zip : (A → B → Type 0) → List A → List B → Type 0
  Zip R [] [] = Unit
  Zip R [] (y ∷ ys) = ⊥
  Zip R (x ∷ xs) [] = ⊥
  Zip R (x ∷ xs) (y ∷ ys) = R x y × Zip R xs ys

-- A loop over `enumerate(xs)` whose body decides a relation that the index does not matter to
module _ {E A B : Type 0} (f : ℕ × A → Result E B) (R : A → B → Type 0) where
  pub traverse-Zip :
      ((i : ℕ) (x : A) (y : B) → f (i, x) ≡ ok y → R x y)
      → (n : ℕ) (xs : List A) (ys : List B) → traverse f (enumerate n xs) ≡ ok ys
      → Zip R xs ys
  unfolding traverse
  traverse-Zip sound n [] [] h = tt
  traverse-Zip sound n [] (y ∷ ys) h = cc
  traverse-Zip sound n (x ∷ xs) ys h = from_bind _ _ h λ y p h. from_bind _ _ h λ ys' q h.
      subst (Zip R (x ∷ xs)) (ok-injective h) (sound n x y p, traverse-Zip sound (suc n) xs ys' q)

  pub Zip-traverse :
      ((i : ℕ) (x : A) (y : B) → R x y → f (i, x) ≡ ok y)
      → (n : ℕ) (xs : List A) (ys : List B) → Zip R xs ys
      → traverse f (enumerate n xs) ≡ ok ys
  unfolding traverse
  Zip-traverse complete n [] [] z = refl
  Zip-traverse complete n [] (y ∷ ys) z = elim z [ ]
  Zip-traverse complete n (x ∷ xs) [] z = elim z [ ]
  Zip-traverse complete n (x ∷ xs) (y ∷ ys) z =
      rw (complete n x y z.0, ok-bind, Zip-traverse complete (suc n) xs ys z.1, ok-bind)
