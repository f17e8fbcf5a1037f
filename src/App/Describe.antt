-- ===== src/App/Describe.antt =====
-- internal/app/ai_methods.go: `runVLMStage4`. A photo is its path. Whether the context is cancelled at
-- the i-th photo, the time that SQLite notes, the milliseconds that the stage takes, and
-- `sort.Slice` are arguments; writing to the database does not fail, and events are left out.
pub mod Again
pub mod Top
use cull_snap.Base.{
  ℕ, zero, suc, ◌+◌, ◌/◌, List, [], ◌∷◌, ◌++◌, Bool, true, false, ◌&&◌, ◌==◌, Option, none, some,
  ltb, if◌then◌else◌, length, take, map,
}
use cull_snap.Paths.{Name, same}
use cull_snap.Paths.Digits.{itoa}
use cull_snap.Storage.Files.{Files, set_config}
use cull_snap.Storage.Scores.{
  AiScore, VlmScoreRow, TokenUsageRow, Analysis, get_ai_score, get_vlm_score, save_vlm_score,
  record_token_usage,
}
use cull_snap.Vlm.Config.{hash_custom_instructions, prompt_version}
use cull_snap.Vlm.Plans.{HardwareTier, ExecutionPlan, calibration_key}
use cull_snap.App.Engine.{Engine, ScoreRequest, VlmScore, ModelInfo}

-- The database, the manager, and the counters of the stage.
pub record Run (F S : Type 0) : Type 0 where
  pub tables : Analysis F
  pub manager : S
  pub total_tokens : ℕ
  pub scored_count : ℕ
  pub cache_hits : ℕ

module _ {F : Type 0} (e : Engine F) where
  open e use {State, score_photo, provider_model_info, marshal, sum256, above, no_score}

  abbrev pub overall_or_zero : Option (AiScore F) → F
  overall_or_zero none = no_score
  overall_or_zero (some s) = s.overall_score

  abbrev pub scored_photos : List Name → Analysis F → List (Name × F)
  scored_photos photos t = map (λ p. (p, overall_or_zero (get_ai_score p t))) photos

  -- The adaptive threshold.
  unfoldable pub vlm_photos :
      (((Name × F) → (Name × F) → Bool) → List (Name × F) → List (Name × F))
      → ℕ
      → List Name
      → Analysis F
      → List Name
  vlm_photos sort n photos t =
      if ltb 0 n && ltb n (length photos)
      then map (λ q. q.0) (take n (sort (λ a b. above a.1 b.1) (scored_photos photos t)))
      else photos

  abbrev pub is_current : Name → Option (VlmScoreRow F) → Bool
  is_current hash none = false
  is_current hash (some s) =
      s.prompt_version == prompt_version && same s.custom_instructions_hash hash

  -- Whether the stored score of a photo is used again.
  unfoldable pub is_cached : Name → Analysis F → Name → Bool
  is_cached hash t p = is_current hash (get_vlm_score p t)

  abbrev pub score_request : Name → Name → Option (AiScore F) → ScoreRequest F
  score_request instructions p none = record {
    photo_path = p;
    face_count = 0;
    sharpness = no_score;
    token_budget = 280;
    custom_instructions = instructions;
  }
  score_request instructions p (some s) = record {
    photo_path = p;
    face_count = s.face_count;
    sharpness = s.sharpness_score;
    token_budget = 280;
    custom_instructions = instructions;
  }

  abbrev pub score_row : (folder hash now : Name) → ModelInfo → Name → VlmScore F → VlmScoreRow F
  score_row folder hash now info p s = record {
    photo_path = p;
    folder_path = folder;
    aesthetic = s.aesthetic;
    composition = s.composition;
    expression = s.expression;
    technical_qual = s.technical_qual;
    scene_type = s.scene_type;
    issues = marshal s.issues;
    explanation = s.explanation;
    tokens_used = s.tokens_used;
    model_name = info.name;
    model_variant = info.variant;
    backend = info.backend;
    prompt_version = prompt_version;
    custom_instructions_hash = hash;
    scored_at = now;
  }

  -- The rest of the loop body, after `ScorePhoto` returned.
  unfoldable pub save_result :
      (folder hash now : Name)
      → ModelInfo
      → Name
      → Option (VlmScore F) × State
      → Run F State
      → Run F State
  save_result folder hash now info p (none, s) r = record r { manager = s }
  save_result folder hash now info p (some score, s) r = record {
    tables = save_vlm_score (score_row folder hash now info p score) r.tables;
    manager = s;
    total_tokens = r.total_tokens + score.tokens_used;
    scored_count = suc r.scored_count;
    cache_hits = r.cache_hits;
  }

  -- The loop body.
  unfoldable pub describe_photo :
      (folder instructions now : Name) → ModelInfo → Name → Run F State → Run F State
  unfolding is_cached save_result
  describe_photo folder instructions now info p r =
      let hash = hash_custom_instructions sum256 instructions in
      if is_cached hash r.tables p
      then record r { cache_hits = suc r.cache_hits }
      else save_result folder hash now info p
          (score_photo (score_request instructions p (get_ai_score p r.tables)) r.manager) r

  -- The loop, from the photo numbered `i` on, and whether it came to its end.
  unfoldable pub describe_photos :
      (folder instructions now : Name)
      → ModelInfo
      → (ℕ → Bool)
      → ℕ
      → List Name
      → Run F State
      → Bool × Run F State
  unfolding describe_photo
  describe_photos folder instructions now info cancelled i [] r = (true, r)
  describe_photos folder instructions now info cancelled i (p ∷ ps) r =
      let rest =
        describe_photos folder instructions now info cancelled (suc i) ps
          (describe_photo folder instructions now info p r) in
      if cancelled i then (false, r) else rest

  -- The calibration and the token usage.
  unfoldable pub conclude :
      Name
      → HardwareTier
      → ModelInfo
      → ℕ
      → List Name
      → Bool × Run F State
      → Files
      → Run F State × Files
  conclude folder tier info elapsed photos (false, r) f = (r, f)
  conclude folder tier info elapsed photos (true, r) f = (
    record r {
      tables =
          if ltb 0 r.scored_count
          then record_token_usage
              (record {
                provider = info.backend ++ b'/' ∷ info.name;
                folder_path = folder;
                stage = b's' ∷ b't' ∷ b'a' ∷ b'g' ∷ b'e' ∷ b'4' ∷ [];
                tokens_input = 0;
                tokens_output = r.total_tokens;
                photo_count = r.scored_count;
              })
              r.tables
          else r.tables;
    },
    (if ltb 0 (length photos)
        then set_config (calibration_key tier info.backend info.name)
            (itoa (elapsed / length photos)) f
        else f),
  )

  unfoldable pub run_vlm_stage4 :
      (((Name × F) → (Name × F) → Bool) → List (Name × F) → List (Name × F))
      → (folder now : Name) → (ℕ → Bool)
      → ℕ
      → List Name
      → ExecutionPlan
      → Analysis F
      → State
      → Files
      → Run F State × Files
  unfolding vlm_photos describe_photos conclude
  run_vlm_stage4 sort folder now cancelled elapsed photos plan t s f =
      let chosen = vlm_photos sort plan.stage4_count photos t in
      let info = provider_model_info s in
      conclude folder plan.hardware_tier info elapsed chosen
        (describe_photos folder (e.custom_instructions s) now info cancelled 0 chosen
          (record { tables = t; manager = s; total_tokens = 0; scored_count = 0; cache_hits = 0 }))
        f
