-- ===== src/Vlm/Answers.antt =====
-- internal/vlm/parse.go: the search for a JSON object in an answer, on lists of code points.
pub mod Object
pub mod Ranking
use cull_snap.Base.{
  ℕ, zero, suc, ◌+◌, ◌-◌, List, [], ◌∷◌, Bool, true, false, not, ◌&&◌, ◌==◌, Option, none, some,
  if◌then◌else◌, take, drop,
}
use cull_snap.Paths.{Name}

-- Go's `int`, as far as a counter needs it.
pub data ℤ : Type 0 where
  pos negsuc : ℕ → ℤ

abbrev pub increment : ℤ → ℤ
increment (pos n) = pos (suc n)
increment (negsuc zero) = pos 0
increment (negsuc (suc n)) = negsuc n

abbrev pub decrement : ℤ → ℤ
decrement (pos zero) = negsuc 0
decrement (pos (suc n)) = pos n
decrement (negsuc n) = negsuc (suc n)

abbrev pub is_zero : ℤ → Bool
is_zero (pos zero) = true
is_zero (pos (suc n)) = false
is_zero (negsuc n) = false

-- `depth == 0 && start >= 0`, with `start` as `none` for -1.
abbrev pub ends : ℤ → Option ℕ → Option ℕ
ends d none = none
ends d (some s) = if is_zero d then some s else none

-- The result of the loop: where the object starts, and the index of its last character.
abbrev pub found_or : Option ℕ → ℕ → Option (ℕ × ℕ) → Option (ℕ × ℕ)
found_or none i rest = rest
found_or (some s) i rest = some (s, i)

-- The loop of `extractFirstJSONObject`, from the index `i` on.
unfoldable pub scan :
    (start : Option ℕ) (depth : ℤ) (in_string escaped : Bool) → ℕ → Name → Option (ℕ × ℕ)
scan start depth in_string escaped i [] = none
scan start depth in_string true i (ch ∷ rest) = scan start depth in_string false (suc i) rest
scan start depth true false i (ch ∷ rest) =
    let escapes = scan start depth true true (suc i) rest in
    let closes = scan start depth false false (suc i) rest in
    let goes_on = scan start depth true false (suc i) rest in
    if ch == b'\\' then escapes else if ch == b'"' then closes else goes_on
scan start depth false false i (ch ∷ rest) =
    let opens_string = scan start depth true false (suc i) rest in
    let opens =
      scan (if is_zero depth then some i else start) (increment depth) false false (suc i) rest in
    let closes = scan start (decrement depth) false false (suc i) rest in
    let goes_on = scan start depth false false (suc i) rest in
    if ch == b'"'
    then opens_string
    else if ch == b'{'
    then opens
    else if ch == b'}'
    then found_or (ends (decrement depth) start) i closes
    else goes_on

-- `text[start : i+1]`, or no text.
abbrev pub cut : Name → Option (ℕ × ℕ) → Name
cut text none = []
cut text (some (start, i)) = take (suc i - start) (drop start text)

unfoldable pub extract_first_json_object : Name → Name
extract_first_json_object text = cut text (scan none (pos 0) false false 0 text)
