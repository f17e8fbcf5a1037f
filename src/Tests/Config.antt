-- ===== src/Tests/Config.antt =====
-- internal/vlm/config.go on instructions of two lines.
use cull_snap.Base.{◌≤◌, [], ◌∷◌, false, ◌≡◌, refl, All, length}
use cull_snap.Paths.{Name}
use cull_snap.Paths.{split}
use cull_snap.Vlm.Config.{
  sanitize_custom_instructions, is_rejected, keep_lines, join_lines, trim_space, trim_left,
  trim_right, is_space, has_prefix, has_any_prefix,
}
use cull_snap.Vlm.Config.Sanitized.{sanitize_custom_instructions-IsSafe}

-- A line that begins with a brace, and " ok".
abbrev instructions : Name
instructions = 32 ∷ b'{' ∷ b'x' ∷ 10 ∷ 32 ∷ b'o' ∷ b'k' ∷ []

instructions-sanitized : sanitize_custom_instructions instructions ≡ b'o' ∷ b'k' ∷ []
unfolding sanitize_custom_instructions is_rejected keep_lines join_lines trim_space trim_left
    trim_right is_space has_prefix has_any_prefix split
instructions-sanitized = refl

sanitize_custom_instructions-IsSafe_example :
    All (λ l. is_rejected l ≡ false) (split 10 (sanitize_custom_instructions instructions))
    × (length (sanitize_custom_instructions instructions) ≤ 500)
sanitize_custom_instructions-IsSafe_example = sanitize_custom_instructions-IsSafe instructions
