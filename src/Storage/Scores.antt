-- ===== src/Storage/Scores.antt =====
-- internal/storage/sqlite.go: the tables of AI scores, VLM scores and token usage, and the calls that
-- delete what is known of a folder. A score is of any type.
pub mod Deleted
use cull_snap.Base.{
  ℕ, ◌+◌, List, [], ◌∷◌, ◌++◌, Bool, true, false, not, ◌&&◌, ◌||◌, Option, none, some, ltb,
  if◌then◌else◌,
}
use cull_snap.Paths.{Name, same}
use cull_snap.Storage.Tables.{get, put}
use cull_snap.Storage.Like.{like}
use cull_snap.Storage.Files.{in_directory}
use cull_snap.Storage.Faces.{Faces, delete_ai_data_for_folder}
use cull_snap.Storage.Rankings.{Rankings, delete_vlm_data_for_folder}

pub record AiScore (F : Type 0) : Type 0 where
  pub photo_path : Name
  pub overall_score : F
  pub face_count : ℕ
  pub provider : Name
  pub aesthetic_score : F
  pub sharpness_score : F
  pub best_face_sharpness : F
  pub eye_openness : F

pub record VlmScoreRow (F : Type 0) : Type 0 where
  pub photo_path : Name
  pub folder_path : Name
  pub aesthetic : F
  pub composition : F
  pub expression : F
  pub technical_qual : F
  pub scene_type : Name
  pub issues : Name
  pub explanation : Name
  pub tokens_used : ℕ
  pub model_name : Name
  pub model_variant : Name
  pub backend : Name
  pub prompt_version : ℕ
  pub custom_instructions_hash : Name
  pub scored_at : Name

pub record TokenUsageRow : Type 0 where
  pub provider : Name
  pub folder_path : Name
  pub stage : Name
  pub tokens_input : ℕ
  pub tokens_output : ℕ
  pub photo_count : ℕ

-- The tables that the analysis of photos fills.
pub record Analysis (F : Type 0) : Type 0 where
  pub faces : Faces
  pub ai_scores : List (AiScore F)
  pub vlm_scores : List (VlmScoreRow F)
  pub rankings : Rankings F
  pub token_usage : List TokenUsageRow

abbrev pub is_listed_folder : Name → List Name → Bool
is_listed_folder f [] = false
is_listed_folder f (g ∷ gs) = same g f || is_listed_folder f gs

module _ {F : Type 0} where
  abbrev pub ai_score_key : AiScore F → Name
  ai_score_key s = s.photo_path

  abbrev pub vlm_score_key : VlmScoreRow F → Name
  vlm_score_key s = s.photo_path

  unfoldable pub save_ai_score : AiScore F → Analysis F → Analysis F
  save_ai_score s t = record t { ai_scores = put ai_score_key s t.ai_scores }

  unfoldable pub get_ai_score : Name → Analysis F → Option (AiScore F)
  get_ai_score p t = get ai_score_key p t.ai_scores

  unfoldable pub get_ai_scores_for_folder : Name → List (AiScore F) → List (AiScore F)
  get_ai_scores_for_folder folder [] = []
  get_ai_scores_for_folder folder (s ∷ ss) =
      let rest = get_ai_scores_for_folder folder ss in
      if like (in_directory folder) s.photo_path then s ∷ rest else rest

  unfoldable pub save_vlm_score : VlmScoreRow F → Analysis F → Analysis F
  save_vlm_score s t = record t { vlm_scores = put vlm_score_key s t.vlm_scores }

  unfoldable pub get_vlm_score : Name → Analysis F → Option (VlmScoreRow F)
  get_vlm_score p t = get vlm_score_key p t.vlm_scores

  unfoldable pub get_vlm_scores_for_folder : Name → List (VlmScoreRow F) → List (VlmScoreRow F)
  get_vlm_scores_for_folder folder [] = []
  get_vlm_scores_for_folder folder (s ∷ ss) =
      let rest = get_vlm_scores_for_folder folder ss in
      if same s.folder_path folder then s ∷ rest else rest

  abbrev pub is_stale : ℕ → Name → VlmScoreRow F → Bool
  is_stale version hash s =
      ltb s.prompt_version version || not (same s.custom_instructions_hash hash)

  -- `GetStaleVLMFolders`, each folder once, in some order.
  unfoldable pub get_stale_vlm_folders : ℕ → Name → List (VlmScoreRow F) → List Name
  get_stale_vlm_folders version hash [] = []
  get_stale_vlm_folders version hash (s ∷ ss) =
      let rest = get_stale_vlm_folders version hash ss in
      if is_stale version hash s && not (is_listed_folder s.folder_path rest)
      then s.folder_path ∷ rest
      else rest

  unfoldable pub record_token_usage : TokenUsageRow → Analysis F → Analysis F
  record_token_usage u t = record t { token_usage = t.token_usage ++ u ∷ [] }

  unfoldable pub other_ai_scores : Name → List (AiScore F) → List (AiScore F)
  other_ai_scores folder [] = []
  other_ai_scores folder (s ∷ ss) =
      let rest = other_ai_scores folder ss in
      if like (in_directory folder) s.photo_path then rest else s ∷ rest

  unfoldable pub other_vlm_scores : Name → List (VlmScoreRow F) → List (VlmScoreRow F)
  other_vlm_scores folder [] = []
  other_vlm_scores folder (s ∷ ss) =
      let rest = other_vlm_scores folder ss in if same s.folder_path folder then rest else s ∷ rest

  -- `DeleteVLMDataForFolder`
  unfoldable pub delete_vlm_data : Name → Analysis F → Analysis F
  unfolding other_vlm_scores
  delete_vlm_data folder t = record t {
    vlm_scores = other_vlm_scores folder t.vlm_scores;
    rankings = delete_vlm_data_for_folder folder t.rankings;
  }

  -- The whole of `DeleteAIDataForFolder`.
  unfoldable pub delete_ai_data : Bool → Name → Analysis F → Analysis F
  unfolding delete_vlm_data other_ai_scores
  delete_ai_data fk folder t = delete_vlm_data folder (record t {
    faces = delete_ai_data_for_folder fk folder t.faces;
    ai_scores = other_ai_scores folder t.ai_scores;
  })

  -- `ClearAllVLMData`, without an error.
  unfoldable pub clear_all_vlm_data : Analysis F → Analysis F
  clear_all_vlm_data t = record t {
    vlm_scores = [];
    rankings = record { groups = []; ranked = [] };
    token_usage = [];
  }
