-- ===== src/Tests/Rankings.antt =====
-- internal/storage on the rankings of one folder.
use cull_snap.Base.{ℕ, List, [], ◌∷◌, none, ◌≡◌, refl}
use cull_snap.Paths.{same}
use cull_snap.Storage.Rankings.{
  VlmRankingRow, VlmRankingGroupRow, Rankings, save_vlm_ranking, save_rows, without_group,
  without_ranked, get_vlm_rankings_for_folder, left_join, rows_of, aggregate, add_at, index_of,
}
use cull_snap.Storage.Rankings.Places.{group_for, from_rows}
use cull_snap.Storage.Rankings.RoundTrip.{
  IsForeign, Distinct, get_vlm_rankings_for_folder-save_vlm_ranking,
}
use cull_snap.Storage.Rankings.Groups.{get_vlm_rankings_for_folder-groups}

abbrev ranked : ℕ → ℕ → VlmRankingRow ℕ
ranked p n = record {
  photo_path = p ∷ [];
  rank = n;
  relative_score = 5;
  notes = [];
  tokens_used = 0;
}

abbrev group : ℕ → List (VlmRankingRow ℕ) → VlmRankingGroupRow ℕ
group l rs = record {
  folder_path = b'f' ∷ [];
  group_label = l ∷ [];
  photo_count = 2;
  explanation = [];
  model_name = [];
  prompt_version = 1;
  custom_instructions_hash = [];
  rankings = rs;
}

abbrev no_rankings : Rankings ℕ
no_rankings = record { groups = []; ranked = [] }

abbrev saved : Rankings ℕ
saved =
    save_vlm_ranking (group b'h' (ranked b'q' 1 ∷ []))
      (save_vlm_ranking (group b'g' (ranked b'p' 1 ∷ ranked b'q' 2 ∷ [])) no_rankings)

-- A ranking of the group is kept that a second save of the group does not have.
stale-kept :
    get_vlm_rankings_for_folder
      (λ rs. rs)
      (b'f' ∷ [])
      (save_vlm_ranking (group b'g' (ranked b'q' 1 ∷ [])) saved)
    ≡ group b'h' (ranked b'q' 1 ∷ []) ∷ group b'g' (ranked b'p' 1 ∷ ranked b'q' 1 ∷ []) ∷ []
unfolding get_vlm_rankings_for_folder left_join rows_of aggregate add_at index_of save_vlm_ranking
    save_rows without_group without_ranked same
stale-kept = refl

get_vlm_rankings_for_folder-groups_example :
    group_for (b'g' ∷ []) (get_vlm_rankings_for_folder (λ rs. rs) (b'f' ∷ []) saved)
    ≡ from_rows (b'g' ∷ []) (left_join (b'f' ∷ []) saved.groups saved.ranked) none
get_vlm_rankings_for_folder-groups_example =
    get_vlm_rankings_for_folder-groups (λ rs. rs) (b'f' ∷ []) (b'g' ∷ []) saved

abbrev two_photos : VlmRankingGroupRow ℕ
two_photos = group b'g' (ranked b'p' 1 ∷ ranked b'q' 2 ∷ [])

photos-Distinct : Distinct two_photos.rankings
unfolding same
photos-Distinct = ((refl, tt), (tt, tt))

none-IsForeign : IsForeign (b'f' ∷ []) no_rankings
none-IsForeign = record { no_groups = tt; no_ranked = tt }

get_vlm_rankings_for_folder-save_vlm_ranking_example :
    get_vlm_rankings_for_folder (λ rs. rs) (b'f' ∷ []) (save_vlm_ranking two_photos no_rankings)
    ≡ two_photos ∷ []
get_vlm_rankings_for_folder-save_vlm_ranking_example =
    get_vlm_rankings_for_folder-save_vlm_ranking (λ rs. rs) two_photos no_rankings none-IsForeign
      photos-Distinct refl
