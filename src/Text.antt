-- ===== src/Text.antt =====
-- What the scripts use of Python's `str`: length, `strip`, `split`, `startswith`, the hexadecimal
-- identities of the regular expressions, and sorting. A text is a sequence of Unicode scalar
-- values.
pub mod Sorting
pub mod Prefix
use Prim.Native.Char.{Char, code}
use ex4pm.Prelude.{
  ℕ, zero, suc, String, Bool, true, false, ◌&&◌, ◌||◌, List, [], ◌∷◌, leb, ltb, ◌==◌, nat_Eq,
  string_Eq, if◌then◌else◌,
}

-- `len(s)`
unfoldable pub str_len : String → ℕ
str_len String.[] = 0
str_len (String.◌∷◌ c s) = suc (str_len s)

-- `s[:n]`
unfoldable pub take_chars : ℕ → String → String
take_chars zero s = ""
take_chars (suc n) String.[] = ""
take_chars (suc n) (String.◌∷◌ c s) = String.◌∷◌ c (take_chars n s)

-- `all(p(ord(c)) for c in s)`
unfoldable pub every_char : (ℕ → Bool) → String → Bool
every_char p String.[] = true
every_char p (String.◌∷◌ c s) = p (code c) && every_char p s

-- `str.isspace` of one character, which `strip` and `\s` use.
unfoldable pub is_space : ℕ → Bool
is_space c =
    leb 9 c && leb c 13
    || (leb 28 c && leb c 32
        || (c == 0x85
            || (c == 0xa0
                || (c == 0x1680
                    || (leb 0x2000 c && leb c 0x200a
                        || (c == 0x2028
                            || (c == 0x2029 || (c == 0x202f || (c == 0x205f || c == 0x3000)))))))))

unfoldable pub lstrip : String → String
lstrip String.[] = ""
lstrip (String.◌∷◌ c s) = let rest = lstrip s in if is_space (code c) then rest else String.◌∷◌ c s

unfoldable pub rstrip : String → String
rstrip String.[] = ""
rstrip (String.◌∷◌ c s) =
    let rest = rstrip s in if is_space (code c) && rest == "" then "" else String.◌∷◌ c rest

-- `s.strip()`
unfoldable pub strip : String → String
unfolding lstrip rstrip is_space
strip s = rstrip (lstrip s)

abbrev pub add_char : Char → List String → List String
add_char c [] = String.◌∷◌ c "" ∷ []
add_char c (w ∷ ws) = String.◌∷◌ c w ∷ ws

-- `s.split(sep)` for a separator of one character: the parts, of which there is at least one.
unfoldable pub split : ℕ → String → List String
split sep String.[] = "" ∷ []
split sep (String.◌∷◌ c s) = if code c == sep then "" ∷ split sep s else add_char c (split sep s)

unfoldable pub starts_with : ℕ → String → Bool
starts_with char String.[] = false
starts_with char (String.◌∷◌ c s) = code c == char

unfoldable pub is_lower_hex : ℕ → Bool
is_lower_hex c = leb b'0' c && leb c b'9' || leb b'a' c && leb c b'f'

-- `re.compile(r"^[0-9a-f]{40}$").fullmatch(s)`
unfoldable pub is_hex40 : String → Bool
unfolding str_len every_char is_lower_hex
is_hex40 s = str_len s == 40 && every_char is_lower_hex s

-- `s <= t`, by code points
unfoldable pub str_le : String → String → Bool
str_le String.[] t = true
str_le (String.◌∷◌ c s) String.[] = false
str_le (String.◌∷◌ c s) (String.◌∷◌ d t) = ltb (code c) (code d) || (code c == code d && str_le s t)

module _ {A : Type 0} (key : A → String) where
  -- Before the first whose key is not smaller
  unfoldable pub insert_by : A → List A → List A
  insert_by x [] = x ∷ []
  insert_by x (y ∷ ys) = if str_le (key x) (key y) then x ∷ y ∷ ys else y ∷ insert_by x ys

  -- `sorted(xs, key=key)`, which keeps the order of equal keys
  unfoldable pub sort_by : List A → List A
  sort_by [] = []
  sort_by (x ∷ xs) = insert_by x (sort_by xs)

-- `sorted(texts)`
unfoldable pub sorted : List String → List String
unfolding str_le insert_by sort_by
sorted ss = sort_by (λ s. s) ss

-- `s.startswith(prefix)`
unfoldable pub is_prefix : String → String → Bool
is_prefix String.[] s = true
is_prefix (String.◌∷◌ c p) String.[] = false
is_prefix (String.◌∷◌ c p) (String.◌∷◌ d s) = code c == code d && is_prefix p s

-- The ends of lines that `str.splitlines` knows
abbrev pub is_line_end : ℕ → Bool
is_line_end c =
    leb 10 c && leb c 13 || (leb 28 c && leb c 30 || (c == 0x85 || (c == 0x2028 || c == 0x2029)))

-- Behind a carriage return, a line feed ends no line of its own.
unfoldable pub lines_from : Bool → String → List String
lines_from after_return String.[] = []
lines_from after_return (String.◌∷◌ c s) =
    let rest = lines_from (code c == 13) s in
    if after_return && code c == 10
    then rest
    else if is_line_end (code c)
    then "" ∷ rest
    else add_char c rest

-- `s.splitlines()`
unfoldable pub split_lines : String → List String
unfolding lines_from
split_lines s = lines_from false s
