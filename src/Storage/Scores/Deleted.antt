-- ===== src/Storage/Scores/Deleted.antt =====
-- What `DeleteAIDataForFolder` leaves of a folder.
use cull_snap.Base.{List, [], ◌∷◌, Bool, ◌≡◌, refl, arith}
use cull_snap.Paths.{Name}
use cull_snap.Storage.Faces.{
  FaceCluster, delete_ai_data_for_folder, delete_clusters, remaining, in_folder,
}
use cull_snap.Storage.Faces.Calls.{get_face_clusters}
use cull_snap.Storage.Rankings.{
  Rankings, Ranked, delete_ranked, VlmRankingGroupRow, delete_vlm_data_for_folder, delete_groups,
  left_join,
}
use cull_snap.Storage.Scores.{
  AiScore, VlmScoreRow, Analysis, other_ai_scores, other_vlm_scores, get_ai_scores_for_folder,
  get_vlm_scores_for_folder, delete_vlm_data, delete_ai_data,
}

pub no_clusters :
    (all : Bool) (folder : Name) (cs : List FaceCluster)
    → get_face_clusters all folder (remaining (in_folder folder) cs) ≡ []
unfolding get_face_clusters remaining
no_clusters all folder [] = refl
no_clusters all folder (c ∷ cs) = ground (arith, no_clusters all folder cs)

module _ {F : Type 0} where
  no_ai_scores :
      (folder : Name) (ss : List (AiScore F))
      → get_ai_scores_for_folder folder (other_ai_scores folder ss) ≡ []
  unfolding get_ai_scores_for_folder other_ai_scores
  no_ai_scores folder [] = refl
  no_ai_scores folder (s ∷ ss) = ground (arith, no_ai_scores folder ss)

  no_vlm_scores :
      (folder : Name) (ss : List (VlmScoreRow F))
      → get_vlm_scores_for_folder folder (other_vlm_scores folder ss) ≡ []
  unfolding get_vlm_scores_for_folder other_vlm_scores
  no_vlm_scores folder [] = refl
  no_vlm_scores folder (s ∷ ss) = ground (arith, no_vlm_scores folder ss)

  joined-delete_groups :
      (folder : Name) (gs : List (VlmRankingGroupRow F)) (rs : List (Ranked F))
      → left_join folder (delete_groups folder gs) rs ≡ []
  unfolding left_join delete_groups
  joined-delete_groups folder [] rs = refl
  joined-delete_groups folder (g ∷ gs) rs = ground (arith, joined-delete_groups folder gs rs)

  no_groups :
      (folder : Name) (t : Rankings F)
      → left_join folder
          (delete_vlm_data_for_folder folder t).groups
          (delete_vlm_data_for_folder folder t).ranked
        ≡ []
  unfolding delete_vlm_data_for_folder
  no_groups folder t = joined-delete_groups folder t.groups (delete_ranked folder t.ranked)

  -- After DeleteAIDataForFolder the queries for the folder find no score of either kind, no cluster,
  -- hidden or not, and no group of rankings.
  pub delete_ai_data-leaves :
      (fk all : Bool) (folder : Name) (t : Analysis F)
      → (get_ai_scores_for_folder folder (delete_ai_data fk folder t).ai_scores ≡ [])
        × (get_vlm_scores_for_folder folder (delete_ai_data fk folder t).vlm_scores ≡ [])
        × (get_face_clusters all folder (delete_ai_data fk folder t).faces.clusters ≡ [])
        × (left_join folder
              (delete_ai_data fk folder t).rankings.groups
              (delete_ai_data fk folder t).rankings.ranked
            ≡ [])
  unfolding delete_ai_data delete_vlm_data delete_ai_data_for_folder delete_clusters
  delete_ai_data-leaves fk all folder t = (
    no_ai_scores folder t.ai_scores,
    no_vlm_scores folder t.vlm_scores,
    no_clusters all folder t.faces.clusters,
    no_groups folder t.rankings,
  )
