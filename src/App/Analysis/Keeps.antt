-- ===== src/App/Analysis/Keeps.antt =====
-- What the stages of an analysis leave of the tables that they do not fill.
use cull_snap.Base.{
  ℕ, suc, List, [], ◌∷◌, Bool, true, false, ◌||◌, Option, none, some, ltb, if_elim, length, ◌≡◌,
  refl, ◌∙◌,
}
use cull_snap.Paths.{Name}
use cull_snap.Storage.Faces.{FaceCluster, delete_face_clusters_for_folder}
use cull_snap.Storage.Rankings.{VlmRankingGroupRow, Joined}
use cull_snap.Storage.Scores.{Analysis, get_ai_scores_for_folder, record_token_usage}
use cull_snap.Scoring.Clusters.Whole.{cluster_faces_agglomerative-Partitions}
use cull_snap.Vlm.Config.{hash_custom_instructions}
use cull_snap.Storage.Faces.Calls.{get_face_clusters, get_face_detections_for_cluster}
use cull_snap.Storage.Rankings.{get_vlm_rankings_for_folder}
use cull_snap.App.Engine.{Engine, RankRequest, RankingResult}
use cull_snap.App.Rank.{
  is_ranked_already, rank_request, Ranking, ask, save_ranking, rank_cluster, rank_clusters,
  record_groups, run_vlm_stage5,
}
use cull_snap.App.People.{
  FaceEmbedding, Arithmetic, similarity, Person, save_person, save_people, cluster_people,
  load_embeddings, run_face_clustering,
}

module _ {F : Type 0} where
  -- Only the tables of faces differ.
  pub record SameScores (t u : Analysis F) : Type 0 where
    pub ai_scores : u.ai_scores ≡ t.ai_scores
    pub vlm_scores : u.vlm_scores ≡ t.vlm_scores
    pub rankings : u.rankings ≡ t.rankings
    pub token_usage : u.token_usage ≡ t.token_usage

  module _ (above : F → F → Bool) (minus_one : F) where
    save_person-SameScores :
        (folder : Name) (n : ℕ) (xs : List FaceEmbedding) (t : Analysis F)
        → SameScores t (save_person above minus_one true folder n xs t)
    save_person-SameScores folder n [] t = record {
      ai_scores = refl;
      vlm_scores = refl;
      rankings = refl;
      token_usage = refl;
    }
    save_person-SameScores folder n (x ∷ xs) t = record {
      ai_scores = refl;
      vlm_scores = refl;
      rankings = refl;
      token_usage = refl;
    }

    save_people-SameScores :
        (folder : Name) (i : ℕ) (cs : List Person) (t : Analysis F)
        → SameScores t (save_people above minus_one true folder i cs t)
    unfolding save_people
    save_people-SameScores folder i [] t = record {
      ai_scores = refl;
      vlm_scores = refl;
      rankings = refl;
      token_usage = refl;
    }
    save_people-SameScores folder i (c ∷ cs) t =
        let one = save_person-SameScores folder (suc i) c.faces t in
        let rest =
          save_people-SameScores folder (suc i) cs
            (save_person above minus_one true folder (suc i) c.faces t) in
        record {
          ai_scores = rest.ai_scores ∙ one.ai_scores;
          vlm_scores = rest.vlm_scores ∙ one.vlm_scores;
          rankings = rest.rankings ∙ one.rankings;
          token_usage = rest.token_usage ∙ one.token_usage;
        }

    -- The clustering ends, and changes the tables of faces only.
    pub run_face_clustering-SameScores :
        (m : Arithmetic) (column : ℕ → List ℕ) (folder : Name) (t : Analysis F)
        → (n : ℕ) × (u : Analysis F) × (run_face_clustering above minus_one m column true folder t
            ≡ some (n, u))
          × SameScores t u
    unfolding run_face_clustering
    run_face_clustering-SameScores m column folder t =
        of_embeddings
          (load_embeddings above minus_one column (get_ai_scores_for_folder folder t.ai_scores)
            (delete_face_clusters_for_folder true folder t.faces).detections)
          (record t { faces = delete_face_clusters_for_folder true folder t.faces })
          (record { ai_scores = refl; vlm_scores = refl; rankings = refl; token_usage = refl })
      where
        of_embeddings :
            (xs : List FaceEmbedding) (v : Analysis F)
            → SameScores t v
            → (n : ℕ) × (u : Analysis F) × (cluster_people above minus_one m true folder xs v
                ≡ some (n, u))
              × SameScores t u
        of_embeddings [] v k = (0, v, refl, k)
        of_embeddings (x ∷ xs) v k =
            let q =
              cluster_faces_agglomerative-Partitions (similarity m) (x ∷ xs)
                m.default_cluster_threshold in
            let s = save_people-SameScores folder 0 q.0 v in
            (
              length q.0,
              save_people above minus_one true folder 0 q.0 v,
              rw q.1 refl,
              record {
                ai_scores = s.ai_scores ∙ k.ai_scores;
                vlm_scores = s.vlm_scores ∙ k.vlm_scores;
                rankings = s.rankings ∙ k.rankings;
                token_usage = s.token_usage ∙ k.token_usage;
              },
            )

  module _ (e : Engine F) where
    open e use {State}

    rank_cluster-ai_scores :
        (folder instructions : Name) (cached : List (VlmRankingGroupRow F)) (c : FaceCluster)
        (r : Ranking F State)
        → (rank_cluster e folder instructions cached c r).tables.ai_scores ≡ r.tables.ai_scores
    unfolding rank_cluster
    rank_cluster-ai_scores folder instructions cached c r =
        let hash = hash_custom_instructions e.sum256 instructions in
        let request =
          rank_request e instructions
            (get_face_detections_for_cluster c.id r.tables.faces.detections) r.tables in
        if_elim {A = Ranking F State} (λ z. z.tables.ai_scores ≡ r.tables.ai_scores)
          (ltb c.photo_count 2 || ltb 5 c.photo_count) {x = r} (λ h. refl)
          (λ h.
            if_elim {A = Ranking F State} (λ z. z.tables.ai_scores ≡ r.tables.ai_scores)
              (is_ranked_already e hash cached c)
              {x = record r { stage5_cache_hits = suc r.stage5_cache_hits }}
              {y = ask e folder hash c request r} (λ k. refl) (λ k. asked hash request))
      where
        saved :
            (hash : Name) (o : Option (RankingResult F) × State)
            → (save_ranking e folder hash c o r).tables.ai_scores ≡ r.tables.ai_scores
        saved hash (none, s) = unfold save_ranking in refl
        saved hash (some x, s) = unfold save_ranking in refl

        asked :
            (hash : Name) (o : Option (RankRequest F))
            → (ask e folder hash c o r).tables.ai_scores ≡ r.tables.ai_scores
        asked hash none = refl
        asked hash (some q) = unfold save_ranking in saved hash (e.rank_photos q r.manager)

    rank_clusters-ai_scores :
        (folder instructions : Name) (cached : List (VlmRankingGroupRow F)) (cancelled : ℕ → Bool)
        (i : ℕ) (cs : List FaceCluster) (r : Ranking F State)
        → (rank_clusters e folder instructions cached cancelled i cs r).1.tables.ai_scores
          ≡ r.tables.ai_scores
    unfolding rank_clusters
    rank_clusters-ai_scores folder instructions cached cancelled i [] r = refl
    rank_clusters-ai_scores folder instructions cached cancelled i (c ∷ cs) r =
        if_elim {A = Bool × Ranking F State} (λ z. z.1.tables.ai_scores ≡ r.tables.ai_scores)
          (cancelled i) (λ h. refl)
          (λ h.
            rank_clusters-ai_scores folder instructions cached cancelled (suc i) cs
              (rank_cluster e folder instructions cached c r)
            ∙ rank_cluster-ai_scores folder instructions cached c r)

    record_groups-ai_scores :
        (folder : Name) (b : Bool) (r : Ranking F State)
        → (record_groups e folder (b, r)).tables.ai_scores ≡ r.tables.ai_scores
    unfolding record_groups record_token_usage
    record_groups-ai_scores folder false r = refl
    record_groups-ai_scores folder true r =
        if_elim {A = Analysis F} (λ z. z.ai_scores ≡ r.tables.ai_scores) (ltb 0 r.stage5_groups)
          (λ h. refl) (λ h. refl)

    -- Stage 5 leaves the scores of the pipeline.
    pub run_vlm_stage5-ai_scores :
        (order_by : List (Joined F) → List (Joined F)) (folder : Name) (cancelled : ℕ → Bool)
        (t : Analysis F) (s : State)
        → (run_vlm_stage5 e order_by folder cancelled t s).tables.ai_scores ≡ t.ai_scores
    unfolding run_vlm_stage5
    run_vlm_stage5-ai_scores order_by folder cancelled t s =
        let cs = get_face_clusters false folder t.faces.clusters in
        let cached = get_vlm_rankings_for_folder order_by folder t.rankings in
        let begun : Ranking F State = record {
          tables = t;
          manager = s;
          stage5_tokens = 0;
          stage5_groups = 0;
          stage5_cache_hits = 0;
        } in
        let ended = rank_clusters e folder (e.custom_instructions s) cached cancelled 0 cs begun in
        record_groups-ai_scores folder ended.0 ended.1
        ∙ rank_clusters-ai_scores folder (e.custom_instructions s) cached cancelled 0 cs begun
