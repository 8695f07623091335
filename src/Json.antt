-- ===== src/Json.antt =====
-- The values that `json.loads` gives, with what the scripts do to them: `isinstance`, `dict.get`,
-- the comparisons with `is`, `==` and `in`, truth, and `int`.
-- A float is kept exactly, as a signed number of powers of two; its text is never needed.
pub mod Number
pub mod Laws
pub use Number.{
  ℤ, pos, negsuc, less_than, Exception, type_error, value_error, overflow_error, attribute_error,
  key_error, os_error, Float, finite, infinity, nan,
}
use Number.{int_of_float, int_of_str}
use ex4pm.Prelude.{
  ℕ, zero, suc, String, Bool, true, false, List, [], ◌∷◌, ◌==◌, nat_Eq, string_Eq, if◌then◌else◌,
  Option, none, some, Result, ok, err, not, map,
}

mutual
  pub data Json : Type 0 where
    null : Json
    bool : Bool → Json
    int : ℤ → Json
    float : Float → Json
    str : String → Json
    list : Items → Json
    dict : Fields → Json

  pub data Items : Type 0 where
    nil : Items
    cons : Json → Items → Items

  pub data Fields : Type 0 where
    end : Fields
    field : String → Json → Fields → Fields

-- A Python dict with string keys, in the order of its entries.
abbrev pub Dict {ℓ} : Type ℓ → Type ℓ
Dict V = List (String × V)

abbrev pub items : Items → List Json
items nil = []
items (cons v vs) = v ∷ items vs

abbrev pub entries : Fields → Dict Json
entries end = []
entries (field k v fs) = (k, v) ∷ entries fs

abbrev pub of_items : List Json → Items
of_items [] = nil
of_items (v ∷ vs) = cons v (of_items vs)

abbrev pub of_entries : Dict Json → Fields
of_entries [] = end
of_entries ((k, v) ∷ d) = field k v (of_entries d)

-- `x if isinstance(x, dict)`, and so for lists and texts
abbrev pub as_dict : Json → Option (Dict Json)
as_dict (dict fs) = some (entries fs)
as_dict _ = none

abbrev pub as_list : Json → Option (List Json)
as_list (list xs) = some (items xs)
as_list _ = none

abbrev pub as_str : Json → Option String
as_str (str s) = some s
as_str _ = none

-- `x is True`, `x is False`
abbrev pub is_true : Json → Bool
is_true (bool true) = true
is_true _ = false

abbrev pub is_false : Json → Bool
is_false (bool false) = true
is_false _ = false

-- `x == s` for a text `s`
abbrev pub is_str : Json → String → Bool
is_str (str t) s = t == s
is_str _ s = false

-- `x == 0`: `False` and a zero float are equal to 0.
abbrev pub is_zero : Json → Bool
is_zero (bool b) = not b
is_zero (int (pos zero)) = true
is_zero (float (finite negative zero e)) = true
is_zero _ = false

-- `bool(x)`
abbrev pub truthy : Json → Bool
truthy null = false
truthy (bool b) = b
truthy (int (pos zero)) = false
truthy (float (finite negative zero e)) = false
truthy (str s) = not (s == "")
truthy (list nil) = false
truthy (dict end) = false
truthy _ = true

-- A value that a dict or a set can hold as a key
abbrev pub is_hashable : Json → Bool
is_hashable (list xs) = false
is_hashable (dict fs) = false
is_hashable _ = true

-- `int(x)`
unfoldable pub to_int : Json → Result Exception ℤ
unfolding int_of_float int_of_str
to_int null = err type_error
to_int (bool b) = ok (pos (if b then 1 else 0))
to_int (int n) = ok n
to_int (float x) = int_of_float x
to_int (str s) = int_of_str s
to_int (list xs) = err type_error
to_int (dict fs) = err type_error

module _ {ℓ} {V : Type ℓ} where
  -- `d[k]`, with `none` for a missing key
  abbrev pub lookup : String → Dict V → Option V
  lookup k [] = none
  lookup k ((j, v) ∷ d) = if j == k then some v else lookup k d

  -- `list(d)`
  abbrev pub keys : Dict V → List String
  keys [] = []
  keys ((j, v) ∷ d) = j ∷ keys d

  -- `k in d`
  abbrev pub has_key : String → Dict V → Bool
  has_key k [] = false
  has_key k ((j, v) ∷ d) = if j == k then true else has_key k d

  -- `d[k] = v`
  unfoldable pub set_key : String → V → Dict V → Dict V
  set_key k v [] = (k, v) ∷ []
  set_key k v ((j, w) ∷ d) = if j == k then (j, v) ∷ d else (j, w) ∷ set_key k v d

  -- `d.pop(k, None)`
  unfoldable pub pop : String → Dict V → Dict V
  pop k [] = []
  pop k ((j, v) ∷ d) = let rest = pop k d in if j == k then rest else (j, v) ∷ rest

abbrev pub value_or : Json → Option Json → Json
value_or default none = default
value_or default (some v) = v

-- `d.get(k, default)`
abbrev pub get_or : String → Json → Dict Json → Json
get_or k default d = value_or default (lookup k d)

-- `d.get(k)`
abbrev pub get : String → Dict Json → Json
get k d = get_or k null d
