-- ===== src/App/Duplicates/Accounts.antt =====
-- Every image is accounted for in the result of the search for duplicates.
use mathlib.Core.List.{Permᴰ}
use cull_snap.Base.{ℕ, ◌+◌, List, [], ◌∷◌, map, length, ◌≡◌, All}
use cull_snap.Scoring.Clusters.Merge.{count}
use cull_snap.App.Duplicates.Follows.{Moved, joined, marked_paths, other_paths, IsRead}
use cull_snap.Dedupe.Groups.{Group}
use cull_snap.Dedupe.Sound.{paths}
use cull_snap.Dedupe.Best.{choose_best}
use cull_snap.Dedupe.Best.Chosen.{IsBest, is_marked}
use cull_snap.App.Duplicates.{Search, DedupeResult}

-- The sum of a number of each element.
abbrev pub total : {A : Type 0} → (A → ℕ) → List A → ℕ
total f [] = 0
total f (x ∷ xs) = f x + total f xs

module _ {H : Type 0} where
  -- How many photos are marked, and how many there are.
  abbrev marks : List (Group H) → ℕ
  marks gs = total (count is_marked) gs

  abbrev sizes : List (Group H) → ℕ
  sizes gs = total length gs

  module _ {F : Type 0} (c : Search F H) where
    open c use {
      quality, ai_score_of, done_best, sort, done_sort, date_cache, extract_date, system, done_move,
      stat,
    }

    -- What the result says of the groups, which were sorted by date after their best photos were
    -- chosen.
    pub record Accounts (gs hs : List (Group H)) (r : DedupeResult) : Type 0 where
      pub chosen : All (λ g. IsBest quality ai_score_of g (choose_best quality ai_score_of g)) gs
      pub sorted : Permᴰ hs (map (choose_best quality ai_score_of) gs)
      pub unique : map (λ f. f.path) r.unique_photos ≡ marked_paths hs
      pub others : Moved (other_paths hs) (map (λ f. f.path) (joined r.duplicate_groups))
      pub unique_read : All (IsRead c) r.unique_photos
      pub others_read : All (IsRead c) (joined r.duplicate_groups)
      pub one_each : length r.unique_photos ≡ length gs
      pub all : length r.unique_photos + total length r.duplicate_groups ≡ length (paths gs)
