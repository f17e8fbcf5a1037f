-- ===== src/Tests/Answers.antt =====
-- internal/vlm/parse.go on short answers.
use cull_snap.Base.{arith, ℕ, [], ◌∷◌, ◌++◌, ◌≡◌, refl, true, false, All, if◌then◌else◌}
use cull_snap.Paths.{Name, same}
use cull_snap.Vlm.Answers.{ℤ, pos, scan, extract_first_json_object}
use cull_snap.Vlm.Answers.Object.{
  IsPlain, Balanced, empty, char, string, braces, close, plain, extract_first_json_object-finds,
}
use cull_snap.Vlm.Answers.Ranking.{Unmarshal, map_ranking_result, RawRanked}

-- `"}":{}`
abbrev inside : Name
inside = b'"' ∷ b'}' ∷ b'"' ∷ b':' ∷ b'{' ∷ b'}' ∷ []

inside-Balanced : Balanced inside
inside-Balanced =
    string (plain b'}' (λ e. omega arith) (λ e. omega arith) close)
      (char b':' (λ e. omega arith) (λ e. omega arith) (λ e. omega arith) (braces empty empty))

-- `ok `
abbrev before : Name
before = b'o' ∷ b'k' ∷ []

before-IsPlain : All IsPlain before
before-IsPlain = (
  ((λ e. omega arith), (λ e. omega arith), (λ e. omega arith)),
  (((λ e. omega arith), (λ e. omega arith), (λ e. omega arith)), tt),
)

extract_first_json_object-finds_example :
    extract_first_json_object (before ++ ((b'{' ∷ inside ++ b'}' ∷ []) ++ before))
    ≡ b'{' ∷ inside ++ b'}' ∷ []
extract_first_json_object-finds_example =
    extract_first_json_object-finds before inside before before-IsPlain inside-Balanced

-- A closing brace before the object hides it.
hidden : extract_first_json_object (b'}' ∷ b'{' ∷ b'}' ∷ []) ≡ []
unfolding extract_first_json_object scan
hidden = refl

-- A decoder that reads what begins with a brace.
abbrev decode : Unmarshal ℕ
decode [] v = (v, false)
decode (c ∷ cs) v = if same (c ∷ []) (b'{' ∷ []) then (7, true) else (v, false)

decodes_not : decode (before ++ ((b'{' ∷ inside ++ b'}' ∷ []) ++ before)) 0 ≡ (0, false)
unfolding same
decodes_not = refl

abbrev item : ℤ → RawRanked ℕ
item i = record { photo_index = i; rank = pos 1; score = 5; notes = [] }

-- Of the indices 2, 0 and 3 for two photos, the first alone is kept.
one-ranked :
    map_ranking_result (item (pos 2) ∷ item (pos 0) ∷ item (pos 3) ∷ []) (before ∷ inside ∷ [])
    ≡ record { photo_path = inside; rank = pos 1; score = 5; notes = [] } ∷ []
unfolding map_ranking_result
one-ranked = refl
