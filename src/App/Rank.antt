-- ===== src/App/Rank.antt =====
-- internal/app/ai_methods.go: `runVLMStage5`. Whether the context is cancelled at the i-th cluster and
-- what `ORDER BY` does are arguments; writing to the database does not fail, and events are left out.
pub mod Requests
use cull_snap.Base.{
  ℕ, zero, suc, ◌+◌, List, [], ◌∷◌, ◌++◌, Bool, true, false, ◌&&◌, ◌||◌, ◌==◌, Option, none, some,
  ltb, leb, if◌then◌else◌, length, map,
}
use cull_snap.Paths.{Name, same}
use cull_snap.Storage.Faces.{FaceCluster, FaceDetection}
use cull_snap.Storage.Faces.Calls.{get_face_clusters, get_face_detections_for_cluster}
use cull_snap.Storage.Rankings.{
  Rankings, VlmRankingRow, VlmRankingGroupRow, Joined, save_vlm_ranking,
  get_vlm_rankings_for_folder,
}
use cull_snap.Storage.Scores.{VlmScoreRow, Analysis, get_vlm_score, record_token_usage}
use cull_snap.Vlm.Config.{hash_custom_instructions, prompt_version}
use cull_snap.App.Engine.{Engine, RankRequest, PhotoContext, RankedPhoto, RankingResult, ModelInfo}

-- The database, the manager, and the counters of the stage.
pub record Ranking (F S : Type 0) : Type 0 where
  pub tables : Analysis F
  pub manager : S
  pub stage5_tokens : ℕ
  pub stage5_groups : ℕ
  pub stage5_cache_hits : ℕ

unfoldable pub is_seen : Name → List Name → Bool
is_seen p [] = false
is_seen p (q ∷ qs) = same q p || is_seen p qs

-- The loop body over the detections.
unfoldable pub add_path : Name → List Name → List Name
unfolding is_seen
add_path p paths = if is_seen p paths || leb 5 (length paths) then paths else paths ++ p ∷ []

-- The loop over the detections, with `paths`, which are the names in `seen`.
unfoldable pub unique_paths : List FaceDetection → List Name → List Name
unfolding add_path
unique_paths [] paths = paths
unique_paths (d ∷ ds) paths = unique_paths ds (add_path d.photo_path paths)

module _ {F : Type 0} (e : Engine F) where
  open e use {State, rank_photos, provider_model_info, sum256, no_score}

  abbrev pub photo_context : Option (VlmScoreRow F) → PhotoContext F
  photo_context none = record { aesthetic = no_score; sharpness = no_score }
  photo_context (some s) = record { aesthetic = s.aesthetic; sharpness = s.technical_qual }

  -- The request for the detections of a cluster, if one is made.
  unfoldable pub rank_request : Name → List FaceDetection → Analysis F → Option (RankRequest F)
  unfolding unique_paths
  rank_request instructions ds t =
      let paths = unique_paths ds [] in
      if ltb (length ds) 2 || ltb (length paths) 2
      then none
      else some (record {
        photo_paths = paths;
        token_budget = 280;
        photo_scores = map (λ p. photo_context (get_vlm_score p t)) paths;
        custom_instructions = instructions;
      })

  -- `cachedRankings[label]`: of rows with one label, the last.
  unfoldable pub ranking_of : Name → List (VlmRankingGroupRow F) → Option (VlmRankingGroupRow F)
  ranking_of label [] = none
  ranking_of label (g ∷ gs) = elim (ranking_of label gs) [
    | none ↦ if same g.group_label label then some g else none
    | some h ↦ some h
  ]

  abbrev pub is_current_group : Name → Option (VlmRankingGroupRow F) → Bool
  is_current_group hash none = false
  is_current_group hash (some g) =
      g.prompt_version == prompt_version && same g.custom_instructions_hash hash

  -- Whether the stored ranking of a cluster is used again.
  unfoldable pub is_ranked_already : Name → List (VlmRankingGroupRow F) → FaceCluster → Bool
  unfolding ranking_of
  is_ranked_already hash cached c = is_current_group hash (ranking_of c.label cached)

  abbrev pub ranking_row : RankedPhoto F → VlmRankingRow F
  ranking_row r = record {
    photo_path = r.photo_path;
    rank = r.rank;
    relative_score = r.score;
    notes = r.notes;
    tokens_used = 0;
  }

  abbrev pub group_row :
      (folder hash : Name) → ModelInfo → FaceCluster → RankingResult F → VlmRankingGroupRow F
  group_row folder hash info c result = record {
    folder_path = folder;
    group_label = c.label;
    photo_count = length result.ranked;
    explanation = result.explanation;
    model_name = info.name;
    prompt_version = prompt_version;
    custom_instructions_hash = hash;
    rankings = map ranking_row result.ranked;
  }

  -- The rest of the loop body, after `RankPhotos` returned.
  unfoldable pub save_ranking :
      (folder hash : Name)
      → FaceCluster
      → Option (RankingResult F) × State
      → Ranking F State
      → Ranking F State
  save_ranking folder hash c (none, s) r = record r { manager = s }
  save_ranking folder hash c (some result, s) r = record {
    tables = record r.tables {
      rankings =
          save_vlm_ranking (group_row folder hash (provider_model_info s) c result)
            r.tables.rankings;
    };
    manager = s;
    stage5_tokens = r.stage5_tokens + result.tokens_used;
    stage5_groups = suc r.stage5_groups;
    stage5_cache_hits = r.stage5_cache_hits;
  }

  abbrev pub ask :
      (folder hash : Name)
      → FaceCluster
      → Option (RankRequest F)
      → Ranking F State
      → Ranking F State
  ask folder hash c none r = r
  ask folder hash c (some q) r = save_ranking folder hash c (rank_photos q r.manager) r

  -- The loop body.
  unfoldable pub rank_cluster :
      (folder instructions : Name)
      → List (VlmRankingGroupRow F)
      → FaceCluster
      → Ranking F State
      → Ranking F State
  unfolding is_ranked_already rank_request save_ranking
  rank_cluster folder instructions cached c r =
      let hash = hash_custom_instructions sum256 instructions in
      if ltb c.photo_count 2 || ltb 5 c.photo_count
      then r
      else if is_ranked_already hash cached c
      then record r { stage5_cache_hits = suc r.stage5_cache_hits }
      else ask folder hash c
          (rank_request instructions
            (get_face_detections_for_cluster c.id r.tables.faces.detections) r.tables)
          r

  -- The loop, from the cluster numbered `i` on, and whether it came to its end.
  unfoldable pub rank_clusters :
      (folder instructions : Name)
      → List (VlmRankingGroupRow F)
      → (ℕ → Bool)
      → ℕ
      → List FaceCluster
      → Ranking F State
      → Bool × Ranking F State
  unfolding rank_cluster
  rank_clusters folder instructions cached cancelled i [] r = (true, r)
  rank_clusters folder instructions cached cancelled i (c ∷ cs) r =
      let rest =
        rank_clusters folder instructions cached cancelled (suc i) cs
          (rank_cluster folder instructions cached c r) in
      if cancelled i then (false, r) else rest

  -- The token usage.
  unfoldable pub record_groups : Name → Bool × Ranking F State → Ranking F State
  record_groups folder (false, r) = r
  record_groups folder (true, r) = record r {
    tables =
        if ltb 0 r.stage5_groups
        then record_token_usage
            (record {
              provider =
                  (provider_model_info r.manager).backend
                  ++ b'/' ∷ (provider_model_info r.manager).name;
              folder_path = folder;
              stage = b's' ∷ b't' ∷ b'a' ∷ b'g' ∷ b'e' ∷ b'5' ∷ [];
              tokens_input = 0;
              tokens_output = r.stage5_tokens;
              photo_count = r.stage5_groups;
            })
            r.tables
        else r.tables;
  }

  -- Without visible clusters, the loop does nothing.
  unfoldable pub run_vlm_stage5 :
      (List (Joined F) → List (Joined F)) → Name → (ℕ → Bool) → Analysis F → State → Ranking F State
  unfolding rank_clusters record_groups
  run_vlm_stage5 order_by folder cancelled t s = record_groups folder (
      rank_clusters folder (e.custom_instructions s)
        (get_vlm_rankings_for_folder order_by folder t.rankings) cancelled 0
        (get_face_clusters false folder t.faces.clusters)
        (record {
          tables = t;
          manager = s;
          stage5_tokens = 0;
          stage5_groups = 0;
          stage5_cache_hits = 0;
        }))
