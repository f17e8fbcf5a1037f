-- ===== src/Scoring/Clusters.antt =====
-- internal/scoring/clustering.go: `ClusterFacesAgglomerative`. The arithmetic on embeddings is an
-- interface; copies of an embedding are the embedding.
pub mod Search
pub mod Merge
pub mod Whole
pub mod Apart
use cull_snap.Base.{
  ℕ, zero, suc, ◌+◌, List, [], ◌∷◌, ◌++◌, Bool, true, false, ◌&&◌, Option, none, some,
  if◌then◌else◌, length, take, map,
}

-- Faces, their embeddings, and the operations of float32 that the code calls: `CosineSim`,
-- `averageEmbeddings`, the tests `>` and `<`, and the value -2.
pub record Similarity : Type 1 where
  pub Face : Type 0
  pub Embedding : Type 0
  pub Score : Type 0
  pub embedding : Face → Embedding
  pub average_embeddings : List Face → Embedding
  pub cosine_sim : Embedding → Embedding → Score
  pub above : Score → Score → Bool
  pub below : Score → Score → Bool
  pub lowest : Score

-- One of `clusters` with its flag in `active`.
pub record Cluster (F V : Type 0) : Type 0 where
  pub faces : List F
  pub centroid : V
  pub active : Bool

-- `bestSim`, and `bestI` with `bestJ` unless they are -1.
pub record Best (S : Type 0) : Type 0 where
  pub best_sim : S
  pub pair : Option (ℕ × ℕ)

-- `maxClusterFaces`
abbrev pub max_cluster_faces : ℕ
max_cluster_faces = 2000

module _ (m : Similarity) where
  open m use {
    Face, Embedding, Score, embedding, average_embeddings, cosine_sim, above, below, lowest,
  }

  unfoldable pub initial : List Face → List (Cluster Face Embedding)
  initial [] = []
  initial (f ∷ fs) = (record { faces = f ∷ []; centroid = embedding f; active = true }) ∷ initial fs

  -- The inner loop, from the cluster numbered `j` on.
  unfoldable pub closest_to :
      ℕ → Embedding → ℕ → List (Cluster Face Embedding) → Best Score → Best Score
  closest_to i c j [] b = b
  closest_to i c j (s ∷ ss) b =
      let sim = cosine_sim c s.centroid in
      closest_to i c (suc j) ss (
        if s.active && above sim b.best_sim
        then record { best_sim = sim; pair = some (i, j) }
        else b)

  -- The outer loop, from the cluster numbered `i` on.
  unfoldable pub closest_pair : ℕ → List (Cluster Face Embedding) → Best Score → Best Score
  unfolding closest_to
  closest_pair i [] b = b
  closest_pair i (s ∷ ss) b =
      closest_pair (suc i) ss (if s.active then closest_to i s.centroid (suc i) ss b else b)

  unfoldable pub faces_at : ℕ → List (Cluster Face Embedding) → List Face
  faces_at j [] = []
  faces_at zero (s ∷ ss) = s.faces
  faces_at (suc j) (s ∷ ss) = faces_at j ss

  unfoldable pub add_faces :
      List Face → ℕ → List (Cluster Face Embedding) → List (Cluster Face Embedding)
  add_faces fs i [] = []
  add_faces fs zero (s ∷ ss) =
      (record s { faces = s.faces ++ fs; centroid = average_embeddings (s.faces ++ fs) }) ∷ ss
  add_faces fs (suc i) (s ∷ ss) = s ∷ add_faces fs i ss

  unfoldable pub deactivate : ℕ → List (Cluster Face Embedding) → List (Cluster Face Embedding)
  deactivate j [] = []
  deactivate zero (s ∷ ss) = (record s { active = false }) ∷ ss
  deactivate (suc j) (s ∷ ss) = s ∷ deactivate j ss

  unfoldable pub merge : ℕ → ℕ → List (Cluster Face Embedding) → List (Cluster Face Embedding)
  unfolding faces_at add_faces deactivate
  merge i j ss = deactivate j (add_faces (faces_at j ss) i ss)

  -- The outer `for`, for so many rounds at most; no result says that they are not enough.
  unfoldable pub rounds :
      ℕ → Score → List (Cluster Face Embedding) → Option (List (Cluster Face Embedding))
  unfolding closest_pair merge
  rounds zero threshold ss = none
  rounds (suc n) threshold ss =
      let b = closest_pair 0 ss (record { best_sim = lowest; pair = none }) in
      elim b.pair [
        | none ↦ some ss
        | some p ↦
            if below b.best_sim threshold then some ss else rounds n threshold (merge p.0 p.1 ss)
      ]

  -- The clusters that are left.
  unfoldable pub collect : List (Cluster Face Embedding) → List (Cluster Face Embedding)
  collect [] = []
  collect (s ∷ ss) = let rest = collect ss in if s.active then s ∷ rest else rest

  -- A round more than there are faces.
  unfoldable pub cluster_faces_agglomerative :
      List Face → Score → Option (List (Cluster Face Embedding))
  unfolding initial rounds collect
  cluster_faces_agglomerative faces threshold =
      let fs = take max_cluster_faces faces in
      elim (rounds (suc (length fs)) threshold (initial fs)) [
        | none ↦ none
        | some ss ↦ some (collect ss)
      ]
