-- ===== src/Updater/Versions.antt =====
-- internal/updater/updater.go: `isValidSemver`, `isHomebrewPath`, and the names of the modes.
use cull_snap.Base.{
  List, [], ◌∷◌, Bool, true, false, not, ◌&&◌, ◌==◌, leb, ltb, if◌then◌else◌, length,
}
use cull_snap.Paths.{Name, same, split}

abbrev pub off_mode : Name
off_mode = b'o' ∷ b'f' ∷ b'f' ∷ []

abbrev pub auto_mode : Name
auto_mode = b'a' ∷ b'u' ∷ b't' ∷ b'o' ∷ []

abbrev pub dev_version : Name
dev_version = b'd' ∷ b'e' ∷ b'v' ∷ []

-- The loop over the characters of a part: the first dash ends it.
unfoldable pub digits_to_dash : Name → Bool
digits_to_dash [] = true
digits_to_dash (c ∷ cs) =
    let rest = digits_to_dash cs in if leb b'0' c && leb c b'9' then rest else c == b'-'

abbrev pub is_part : Name → Bool
is_part [] = false
is_part (c ∷ cs) = digits_to_dash (c ∷ cs)

unfoldable pub all_parts : List Name → Bool
unfolding digits_to_dash
all_parts [] = true
all_parts (p ∷ ps) = is_part p && all_parts ps

-- `strings.TrimPrefix(version, "v")`
abbrev pub trim_v : Name → Name
trim_v [] = []
trim_v (c ∷ cs) = if c == b'v' then cs else c ∷ cs

unfoldable pub is_valid_semver : Name → Bool
unfolding all_parts
is_valid_semver [] = false
is_valid_semver (c ∷ cs) =
    let parts = split b'.' (trim_v (c ∷ cs)) in
    if same (c ∷ cs) dev_version then false else not (ltb (length parts) 2) && all_parts parts
