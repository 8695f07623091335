-- ===== src/Json/Number.antt =====
-- Python's integers, and `int(x)` of floats and texts.
use Prim.Native.Char.{code}
use ex4pm.Prelude.{
  ℕ, zero, suc, ◌+◌, ◌-◌, ◌*◌, ◌/◌, ◌^◌, String, ◌≡◌, refl, Bool, true, false, ◌&&◌, ltb, leb, ◌==◌,
  nat_Eq, string_Eq, if◌then◌else◌, Option, none, some, not, List, [], ◌∷◌, Result, ok, err,
}
use mathlib.Core.Option
use ex4pm.Text.{is_space}

-- `negsuc n` is -(n + 1).
pub data ℤ : Type 0 where
  pos : ℕ → ℤ
  negsuc : ℕ → ℤ

-- The exceptions that the interpreter and its library raise.
pub data Exception : Type 0 where
  type_error value_error overflow_error attribute_error key_error index_error os_error : Exception

abbrev pub negate : ℕ → ℤ
negate zero = pos zero
negate (suc n) = negsuc n

-- `a < n` for a natural number `n`
abbrev pub less_than : ℤ → ℕ → Bool
less_than (pos a) n = ltb a n
less_than (negsuc a) n = true

-- A double: an infinity, a NaN, or plus or minus `mantissa * 2 ^ exponent`.
pub data Float : Type 0 where
  finite : Bool → ℕ → ℤ → Float
  infinity : Bool → Float
  nan : Float

-- The whole part of `mantissa * 2 ^ exponent`
abbrev magnitude : ℕ → ℤ → ℕ
magnitude m (pos e) = m * 2 ^ e
magnitude m (negsuc e) = m / 2 ^ (e + 1)

unfoldable pub int_of_float : Float → Result Exception ℤ
int_of_float (finite negative m e) =
    if negative then ok (negate (magnitude m e)) else ok (pos (magnitude m e))
int_of_float (infinity negative) = err overflow_error
int_of_float nan = err value_error

-- The zeros of Unicode's decimal digits (version 14.0); the digits 1 to 9 follow each of them.
abbrev zeros : List ℕ
zeros =
    b'0' ∷ 0x660 ∷ 0x6f0 ∷ 0x7c0 ∷ 0x966 ∷ 0x9e6 ∷ 0xa66 ∷ 0xae6 ∷ 0xb66 ∷ 0xbe6 ∷ 0xc66 ∷ 0xce6
    ∷ 0xd66 ∷ 0xde6 ∷ 0xe50 ∷ 0xed0 ∷ 0xf20 ∷ 0x1040 ∷ 0x1090 ∷ 0x17e0 ∷ 0x1810 ∷ 0x1946 ∷ 0x19d0
    ∷ 0x1a80 ∷ 0x1a90 ∷ 0x1b50 ∷ 0x1bb0 ∷ 0x1c40 ∷ 0x1c50 ∷ 0xa620 ∷ 0xa8d0 ∷ 0xa900 ∷ 0xa9d0
    ∷ 0xa9f0 ∷ 0xaa50 ∷ 0xabf0 ∷ 0xff10 ∷ 0x104a0 ∷ 0x10d30 ∷ 0x11066 ∷ 0x110f0 ∷ 0x11136 ∷ 0x111d0
    ∷ 0x112f0 ∷ 0x11450 ∷ 0x114d0 ∷ 0x11650 ∷ 0x116c0 ∷ 0x11730 ∷ 0x118e0 ∷ 0x11950 ∷ 0x11c50
    ∷ 0x11d50 ∷ 0x11da0 ∷ 0x16a60 ∷ 0x16ac0 ∷ 0x16b50 ∷ 0x1d7ce ∷ 0x1d7d8 ∷ 0x1d7e2 ∷ 0x1d7ec
    ∷ 0x1d7f6 ∷ 0x1e140 ∷ 0x1e2f0 ∷ 0x1e950 ∷ 0x1fbf0 ∷ []

digit_from : List ℕ → ℕ → ℕ
digit_from [] c = 10
digit_from (z ∷ zs) c =
    let other = digit_from zs c in if leb z c && leb c (z + 9) then c - z else other

-- The value of a decimal digit, and 10 for any other character
digit_value : ℕ → ℕ
unfolding digit_from
digit_value c = digit_from zeros c

abbrev is_digit : ℕ → Bool
is_digit c = ltb (digit_value c) 10

-- Decimal digits, with single underscores between them. The flag says that a digit must follow.
digits : Bool → ℕ → String → Option ℕ
digits true acc String.[] = none
digits false acc String.[] = some acc
digits needs acc (String.◌∷◌ c s) =
    let d = code c in
    let next = digits false (acc * 10 + digit_value d) s in
    let gap = digits true acc s in
    if is_digit d then next else if d == b'_' then (if needs then none else gap) else none

count_digits : String → ℕ
count_digits String.[] = 0
count_digits (String.◌∷◌ c s) = if is_digit (code c) then suc (count_digits s) else count_digits s

-- The limit of `int` on the digits of a text
abbrev pub max_str_digits : ℕ
max_str_digits = 4300

signed : String → Option ℤ
signed String.[] = none
signed (String.◌∷◌ c s) =
    if code c == b'-'
    then Option.map negate (digits true 0 s)
    else if code c == b'+'
    then Option.map pos (digits true 0 s)
    else Option.map pos (digits true 0 (String.◌∷◌ c s))

-- The blanks that `int` skips at both ends: those of `str.isspace` less U+001C to U+001F
abbrev is_blank : ℕ → Bool
is_blank c = is_space c && not (leb 28 c && leb c 31)

skip_blanks : String → String
skip_blanks String.[] = ""
skip_blanks (String.◌∷◌ c s) =
    let rest = skip_blanks s in if is_blank (code c) then rest else String.◌∷◌ c s

drop_blanks : String → String
drop_blanks String.[] = ""
drop_blanks (String.◌∷◌ c s) =
    let rest = drop_blanks s in if is_blank (code c) && rest == "" then "" else String.◌∷◌ c rest

-- `int(s)`
unfoldable pub int_of_str : String → Result Exception ℤ
unfolding digits digit_value count_digits signed skip_blanks drop_blanks is_space
int_of_str s =
    if ltb max_str_digits (count_digits s)
    then err value_error
    else elim (signed (drop_blanks (skip_blanks s))) [ none ↦ err value_error | some n ↦ ok n ]

int_of_str_runs : int_of_str " -2_048 " ≡ ok (negsuc 2047)
unfolding int_of_str
int_of_str_runs = refl

-- `int("\u00a0\u0661\u0662")`
int_of_str_arabic : int_of_str "\u{a0}\u{661}\u{662}" ≡ ok (pos 12)
unfolding int_of_str
int_of_str_arabic = refl

-- `int("\x1c2048")` raises, though `"\x1c".isspace()`.
int_of_str_separator : int_of_str "\u{1c}2048" ≡ err value_error
unfolding int_of_str
int_of_str_separator = refl
