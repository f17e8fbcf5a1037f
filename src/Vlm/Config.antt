-- ===== src/Vlm/Config.antt =====
-- internal/vlm/config.go: the sanitizer of custom instructions, on texts of code points.
pub mod Lines
pub mod Sanitized
use cull_snap.Base.{
  ◌+◌, ◌-◌, ◌/◌, ◌%◌, ltb, ℕ, List, [], ◌∷◌, ◌++◌, Bool, true, false, not, ◌&&◌, ◌||◌, ◌==◌, leb,
  if◌then◌else◌, take,
}
use cull_snap.Paths.{Name}
use cull_snap.Paths.{split}

-- `unicode.IsSpace`
unfoldable pub is_space : ℕ → Bool
is_space c =
    (leb 9 c && leb c 13)
    || c == 32
    || c == 133
    || c == 160
    || c == 5760
    || (leb 8192 c && leb c 8202)
    || c == 8232
    || c == 8233
    || c == 8239
    || c == 8287
    || c == 12288

unfoldable pub trim_left : Name → Name
trim_left [] = []
trim_left (c ∷ cs) = let rest = trim_left cs in if is_space c then rest else c ∷ cs

abbrev pub is_nil : Name → Bool
is_nil [] = true
is_nil (c ∷ cs) = false

unfoldable pub trim_right : Name → Name
trim_right [] = []
trim_right (c ∷ cs) = let rest = trim_right cs in if is_nil rest && is_space c then [] else c ∷ rest

-- `strings.TrimSpace`
unfoldable pub trim_space : Name → Name
unfolding trim_left trim_right
trim_space s = trim_right (trim_left s)

-- `strings.HasPrefix`
unfoldable pub has_prefix : Name → Name → Bool
has_prefix [] s = true
has_prefix (x ∷ xs) [] = false
has_prefix (x ∷ xs) (c ∷ cs) = x == c && has_prefix xs cs

-- `sanitizePrefixes`
abbrev pub sanitize_prefixes : List Name
sanitize_prefixes =
    (b'S' ∷ b'y' ∷ b's' ∷ b't' ∷ b'e' ∷ b'm' ∷ b':' ∷ [])
    ∷ (b'A' ∷ b's' ∷ b's' ∷ b'i' ∷ b's' ∷ b't' ∷ b'a' ∷ b'n' ∷ b't' ∷ b':' ∷ [])
    ∷ (b'U' ∷ b's' ∷ b'e' ∷ b'r' ∷ b':' ∷ [])
    ∷ (b'R' ∷ b'e' ∷ b's' ∷ b'p' ∷ b'o' ∷ b'n' ∷ b'd' ∷ 32 ∷ b'w' ∷ b'i' ∷ b't' ∷ b'h' ∷ b':' ∷ [])
    ∷ (b'{' ∷ [])
    ∷ (b'}' ∷ [])
    ∷ []

unfoldable pub has_any_prefix : List Name → Name → Bool
unfolding has_prefix
has_any_prefix [] s = false
has_any_prefix (p ∷ ps) s = has_prefix p s || has_any_prefix ps s

unfoldable pub is_rejected : Name → Bool
unfolding has_any_prefix trim_space
is_rejected line = has_any_prefix sanitize_prefixes (trim_space line)

unfoldable pub keep_lines : List Name → List Name
unfolding is_rejected
keep_lines [] = []
keep_lines (l ∷ ls) = let rest = keep_lines ls in if is_rejected l then rest else l ∷ rest

-- `strings.Join` by line ends.
unfoldable pub join_lines : List Name → Name
join_lines [] = []
join_lines (l ∷ []) = l
join_lines (l ∷ m ∷ ms) = l ++ 10 ∷ join_lines (m ∷ ms)

abbrev pub max_custom_instructions_len : ℕ
max_custom_instructions_len = 500

unfoldable pub sanitize_custom_instructions : Name → Name
unfolding keep_lines join_lines trim_space
sanitize_custom_instructions input =
    take max_custom_instructions_len (trim_space (join_lines (keep_lines (split 10 input))))

-- `PromptVersion` of prompt.go.
abbrev pub prompt_version : ℕ
prompt_version = 1

abbrev pub hex_digit : ℕ → ℕ
hex_digit n = if ltb n 10 then b'0' + n else b'a' + (n - 10)

-- `hex.EncodeToString`
unfoldable pub encode_to_string : List ℕ → Name
encode_to_string [] = []
encode_to_string (b ∷ bs) = hex_digit (b / 16) ∷ hex_digit (b % 16) ∷ encode_to_string bs

-- `sha256.Sum256` is an argument.
unfoldable pub hash_custom_instructions : (Name → List ℕ) → Name → Name
unfolding encode_to_string
hash_custom_instructions sum256 [] = []
hash_custom_instructions sum256 (c ∷ cs) = encode_to_string (take 8 (sum256 (c ∷ cs)))
