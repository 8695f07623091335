-- ===== src/Version.antt =====
-- The version patterns that scripts/check-release-version.py and scripts/inspect-hex-package.py share.
pub mod Laws
pub mod First
use ex4pm.Prelude.{ℕ, String, Bool, not, Option, none, some, ◌==◌, nat_Eq}
use ex4pm.Text.{is_space}
use ex4pm.Regex.{Regex, many, seq, group, lit, some_of, Match, search, group_of}

abbrev pub not_quote : ℕ → Bool
not_quote c = not (c == b'"')

-- `"([^"]+)"`
abbrev pub quoted : Regex
quoted = seq (lit "\"") (seq (group 1 (some_of not_quote)) (lit "\""))

abbrev pub keyed : String → Regex → Regex
keyed key gap = seq (lit key) (seq gap quoted)

-- `@version\s+"([^"]+)"`
abbrev pub at_version : Regex
at_version = keyed "@version" (some_of is_space)

-- `version:\s*"([^"]+)"`
abbrev pub version_key : Regex
version_key = keyed "version:" (many is_space)

abbrev pub first_group : Option Match → Option String
first_group none = none
first_group (some m) = group_of 1 m.groups

abbrev pub or_else_group : Option Match → Option String → Option String
or_else_group none other = other
or_else_group (some m) other = group_of 1 m.groups

-- `mix_version` and `project_version`: the loop over `VERSION_PATTERNS`
unfoldable pub mix_version : String → Option String
mix_version text = or_else_group (search at_version text) (first_group (search version_key text))
