-- ===== src/App/Engine.antt =====
-- internal/vlm/provider.go: what the stages of internal/app/ai_methods.go send to the VLM manager and
-- get from it. A score is of any type; a field that no stage sets or reads is left out.
use cull_snap.Base.{ℕ, List, Bool, Option}
use cull_snap.Paths.{Name}

pub record ScoreRequest (F : Type 0) : Type 0 where
  pub photo_path : Name
  pub face_count : ℕ
  pub sharpness : F
  pub token_budget : ℕ
  pub custom_instructions : Name

-- `VLMScore`
pub record VlmScore (F : Type 0) : Type 0 where
  pub aesthetic : F
  pub composition : F
  pub expression : F
  pub technical_qual : F
  pub scene_type : Name
  pub issues : List Name
  pub explanation : Name
  pub tokens_used : ℕ

pub record PhotoContext (F : Type 0) : Type 0 where
  pub aesthetic : F
  pub sharpness : F

pub record RankRequest (F : Type 0) : Type 0 where
  pub photo_paths : List Name
  pub token_budget : ℕ
  pub photo_scores : List (PhotoContext F)
  pub custom_instructions : Name

pub record RankedPhoto (F : Type 0) : Type 0 where
  pub photo_path : Name
  pub rank : ℕ
  pub score : F
  pub notes : Name

pub record RankingResult (F : Type 0) : Type 0 where
  pub ranked : List (RankedPhoto F)
  pub explanation : Name
  pub tokens_used : ℕ

pub record ModelInfo : Type 0 where
  pub name : Name
  pub variant : Name
  pub backend : Name

-- The manager as the stages use it, with its state, and what they call of the standard library:
-- `json.Marshal` of a list of texts, `sha256.Sum256`, the order of float64, and the
-- zero of float64. An error is `none`.
pub record Engine (F : Type 0) : Type 1 where
  pub State : Type 0
  pub score_photo : ScoreRequest F → State → Option (VlmScore F) × State
  pub rank_photos : RankRequest F → State → Option (RankingResult F) × State
  pub provider_model_info : State → ModelInfo
  pub custom_instructions : State → Name
  pub marshal : List Name → Name
  pub sum256 : Name → List ℕ
  pub above : F → F → Bool
  pub no_score : F
