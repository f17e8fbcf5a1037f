-- ===== src/App/People.antt =====
-- internal/app/ai_methods.go: `runFaceClustering`, and the coding of embeddings as bytes. A float32 is
-- its bits. The column of embeddings, by the number of a detection, and the arithmetic on embeddings
-- are arguments; a query does not fail.
pub mod Bytes
pub mod Assigned
pub mod Saved
use cull_snap.Base.{
  ℕ, zero, suc, ◌+◌, ◌*◌, ◌/◌, ◌%◌, List, [], ◌∷◌, ◌++◌, Bool, true, false, Option, none, some,
  if◌then◌else◌, length,
}
use cull_snap.Paths.{Name}
use cull_snap.Paths.Digits.{itoa}
use cull_snap.Storage.Faces.{
  Faces, FaceDetection, save_face_cluster, assign_face_to_cluster, delete_face_clusters_for_folder,
}
use cull_snap.Storage.Faces.Calls.{get_face_detections, result_or}
use cull_snap.Storage.Scores.{AiScore, Analysis, get_ai_score, get_ai_scores_for_folder}
use cull_snap.Scoring.Clusters.{Similarity, Cluster, cluster_faces_agglomerative}

-- `binary.LittleEndian.PutUint32`
abbrev pub put_uint32 : ℕ → List ℕ
put_uint32 v = v % 256 ∷ v / 256 % 256 ∷ v / 65536 % 256 ∷ v / 16777216 % 256 ∷ []

unfoldable pub float32_slice_to_bytes : List ℕ → List ℕ
float32_slice_to_bytes [] = []
float32_slice_to_bytes (f ∷ fs) = put_uint32 f ++ float32_slice_to_bytes fs

abbrev pub uint32 : ℕ → ℕ → ℕ → ℕ → ℕ
uint32 a b c d = a + b * 256 + c * 65536 + d * 16777216

-- A length that is not a multiple of four gives no numbers.
unfoldable pub bytes_to_float32_slice : List ℕ → Option (List ℕ)
bytes_to_float32_slice [] = some []
bytes_to_float32_slice (a ∷ []) = none
bytes_to_float32_slice (a ∷ b ∷ []) = none
bytes_to_float32_slice (a ∷ b ∷ c ∷ []) = none
bytes_to_float32_slice (a ∷ b ∷ c ∷ d ∷ rest) = elim (bytes_to_float32_slice rest) [
  | none ↦ none
  | some fs ↦ some (uint32 a b c d ∷ fs)
]

-- `scoring.FaceEmbedding`
pub record FaceEmbedding : Type 0 where
  pub photo_path : Name
  pub detection_id : ℕ
  pub embedding : List ℕ

-- What the clusters are made with: `averageEmbeddings`, `CosineSim`, tests of float32, and
-- `DefaultClusterThreshold`.
pub record Arithmetic : Type 1 where
  pub Score : Type 0
  pub average_embeddings : List FaceEmbedding → List ℕ
  pub cosine_sim : List ℕ → List ℕ → Score
  pub above : Score → Score → Bool
  pub below : Score → Score → Bool
  pub lowest : Score
  pub default_cluster_threshold : Score

abbrev pub similarity : Arithmetic → Similarity
similarity m = record {
  Face = FaceEmbedding;
  Embedding = List ℕ;
  Score = m.Score;
  embedding = λ f. f.embedding;
  average_embeddings = m.average_embeddings;
  cosine_sim = m.cosine_sim;
  above = m.above;
  below = m.below;
  lowest = m.lowest;
}

abbrev pub Person : Type 0
Person = Cluster FaceEmbedding (List ℕ)

-- A detection with an embedding, before the others.
abbrev pub with_embedding :
    FaceDetection → Option (List ℕ) → List FaceEmbedding → List FaceEmbedding
with_embedding d none rest = rest
with_embedding d (some []) rest = rest
with_embedding d (some (f ∷ fs)) rest =
    (record { photo_path = d.photo_path; detection_id = d.id; embedding = f ∷ fs }) ∷ rest

-- The inner loop over the detections of a photo.
unfoldable pub embeddings_of : (ℕ → List ℕ) → List FaceDetection → List FaceEmbedding
unfolding bytes_to_float32_slice
embeddings_of column [] = []
embeddings_of column (d ∷ ds) =
    with_embedding d (bytes_to_float32_slice (column d.id)) (embeddings_of column ds)

-- `"Person %d"`
abbrev pub person_label : ℕ → Name
person_label n = b'P' ∷ b'e' ∷ b'r' ∷ b's' ∷ b'o' ∷ b'n' ∷ b' ' ∷ itoa n

-- The loop that assigns the faces; an error is only logged.
unfoldable pub assign_faces : Bool → ℕ → List FaceEmbedding → Faces → Faces
assign_faces fk c [] f = f
assign_faces fk c (x ∷ xs) f =
    assign_faces fk c xs (result_or f (assign_face_to_cluster fk x.detection_id c f))

module _ {F : Type 0} (above : F → F → Bool) (minus_one : F) where
  -- The loop over the photos with scores.
  unfoldable pub load_embeddings :
      (ℕ → List ℕ) → List (AiScore F) → List FaceDetection → List FaceEmbedding
  unfolding embeddings_of
  load_embeddings column [] ds = []
  load_embeddings column (s ∷ ss) ds =
      embeddings_of column (get_face_detections s.photo_path ds) ++ load_embeddings column ss ds

  abbrev pub better : Name → Option (AiScore F) → Name × F → Name × F
  better p none best = best
  better p (some s) best = if above s.overall_score best.1 then (p, s.overall_score) else best

  -- The representative photo, with `bestScore`.
  unfoldable pub representative : Analysis F → List FaceEmbedding → Name × F → Name × F
  representative t [] best = best
  representative t (x ∷ xs) best =
      representative t xs (better x.photo_path (get_ai_score x.photo_path t) best)

  -- The loop body for the cluster with this label.
  abbrev pub save_person : Bool → Name → ℕ → List FaceEmbedding → Analysis F → Analysis F
  save_person fk folder n [] t = t
  save_person fk folder n (x ∷ xs) t =
      let r = representative t (x ∷ xs) (x.photo_path, minus_one) in
      let saved = save_face_cluster folder (person_label n) r.0 (length (x ∷ xs)) t.faces in
      record t { faces = assign_faces fk saved.0 (x ∷ xs) saved.1 }

  -- The loop over the clusters, from the one numbered `i` on.
  unfoldable pub save_people : Bool → Name → ℕ → List Person → Analysis F → Analysis F
  unfolding assign_faces representative
  save_people fk folder i [] t = t
  save_people fk folder i (c ∷ cs) t =
      save_people fk folder (suc i) cs (save_person fk folder (suc i) c.faces t)

  abbrev pub save_all : Bool → Name → Option (List Person) → Analysis F → Option (ℕ × Analysis F)
  save_all fk folder none t = none
  save_all fk folder (some cs) t = some (length cs, save_people fk folder 0 cs t)

  abbrev pub cluster_people :
      Arithmetic → Bool → Name → List FaceEmbedding → Analysis F → Option (ℕ × Analysis F)
  cluster_people m fk folder [] t = some (0, t)
  cluster_people m fk folder (x ∷ xs) t =
      save_all fk folder
        (cluster_faces_agglomerative (similarity m) (x ∷ xs) m.default_cluster_threshold) t

  -- The number of clusters, and the tables; no result says that the clustering does not end.
  unfoldable pub run_face_clustering :
      Arithmetic → (ℕ → List ℕ) → Bool → Name → Analysis F → Option (ℕ × Analysis F)
  unfolding load_embeddings save_people
  run_face_clustering m column fk folder t =
      let cleared = delete_face_clusters_for_folder fk folder t.faces in
      let scores = get_ai_scores_for_folder folder t.ai_scores in
      cluster_people m fk folder (load_embeddings column scores cleared.detections)
        (record t { faces = cleared })
