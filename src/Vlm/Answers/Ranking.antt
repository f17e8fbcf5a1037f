-- ===== src/Vlm/Answers/Ranking.antt =====
-- internal/vlm/parse.go: the three tiers of the parsers, and `mapRankingResult`. The decoder of
-- encoding/json, which leaves what it has written even if it fails, and the search for a fenced
-- block are arguments.
use cull_snap.Base.{
  zero, suc, List, [], ◌∷◌, ◌++◌, Bool, false, Option, none, some, if◌then◌else◌, get_elem?, ◌≡◌,
  refl, All,
}
use cull_snap.Paths.{Name}
use cull_snap.Vlm.Answers.{ℤ, pos, negsuc, extract_first_json_object}
use cull_snap.Vlm.Answers.Object.{IsPlain, Balanced, extract_first_json_object-finds}

-- `json.Unmarshal` into a value: what the value is afterwards, and whether there is no error.
abbrev pub Unmarshal : Type 0 → Type 0
Unmarshal A = Name → A → A × Bool

-- Tier 3 on the object that was found, then the failure.
abbrev pub object_tier : {A : Type 0} → Unmarshal A → Name → A → Option A
object_tier unmarshal [] v = none
object_tier unmarshal (c ∷ cs) v =
    if (unmarshal (c ∷ cs) v).1 then some (unmarshal (c ∷ cs) v).0 else none

-- Tier 2 on the fenced block, if there is one.
abbrev pub fence_tier : {A : Type 0} → Unmarshal A → Option Name → Name → A → Option A
fence_tier unmarshal none raw v = object_tier unmarshal (extract_first_json_object raw) v
fence_tier unmarshal (some block) raw v =
    if (unmarshal block v).1
    then some (unmarshal block v).0
    else object_tier unmarshal (extract_first_json_object raw) (unmarshal block v).0

-- `ParseVLMScore` and the tiers of `ParseRankingResult`, from the zero value on.
unfoldable pub parse_tiers : {A : Type 0} → Unmarshal A → (Name → Option Name) → A → Name → Option A
parse_tiers unmarshal fence v raw =
    if (unmarshal raw v).1
    then some (unmarshal raw v).0
    else fence_tier unmarshal (fence raw) raw (unmarshal raw v).0

-- An entry of `rawRankingResult`; `A` is the type of a score.
pub record RawRanked (A : Type 0) : Type 0 where
  pub photo_index : ℤ
  pub rank : ℤ
  pub score : A
  pub notes : Name

-- `RankedPhoto`
pub record RankedPhoto (A : Type 0) : Type 0 where
  pub photo_path : Name
  pub rank : ℤ
  pub score : A
  pub notes : Name

-- The path of a 1-based index, if it is in range.
abbrev pub path_at : List Name → ℤ → Option Name
path_at paths (pos zero) = none
path_at paths (pos (suc n)) = get_elem? paths n
path_at paths (negsuc n) = none

module _ {A : Type 0} where
  abbrev pub ranked_at : RawRanked A → Option Name → List (RankedPhoto A) → List (RankedPhoto A)
  ranked_at item none rest = rest
  ranked_at item (some p) rest =
      record { photo_path = p; rank = item.rank; score = item.score; notes = item.notes } ∷ rest

  -- The loop of `mapRankingResult`.
  unfoldable pub map_ranking_result : List (RawRanked A) → List Name → List (RankedPhoto A)
  map_ranking_result [] paths = []
  map_ranking_result (item ∷ items) paths =
      ranked_at item (path_at paths item.photo_index) (map_ranking_result items paths)

-- If an answer is no JSON and has no fenced block, and has an object in which braces are balanced
-- and strings are closed after a text without a quote or a brace, the parsers give exactly what
-- that object decodes to, or an error if it does not decode.
pub parse_tiers-finds :
    {A : Type 0} (unmarshal : Unmarshal A) (fence : Name → Option Name) (v : A) (pre s post : Name)
    → All IsPlain pre
    → Balanced s
    → unmarshal (pre ++ ((b'{' ∷ s ++ b'}' ∷ []) ++ post)) v ≡ (v, false)
    → fence (pre ++ ((b'{' ∷ s ++ b'}' ∷ []) ++ post)) ≡ none
    → parse_tiers unmarshal fence v (pre ++ ((b'{' ∷ s ++ b'}' ∷ []) ++ post)) ≡ (
        if (unmarshal (b'{' ∷ s ++ b'}' ∷ []) v).1
        then some (unmarshal (b'{' ∷ s ++ b'}' ∷ []) v).0
        else none)
unfolding parse_tiers
parse_tiers-finds unmarshal fence v pre s post a b e f =
    rw (e, f, extract_first_json_object-finds pre s post a b) refl
