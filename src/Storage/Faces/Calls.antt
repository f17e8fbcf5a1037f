-- ===== src/Storage/Faces/Calls.antt =====
-- internal/storage/sqlite.go: the queries on the tables of faces, and the calls that change them.
use cull_snap.Base.{ℕ, List, [], ◌∷◌, Bool, not, ◌&&◌, ◌||◌, Option, none, some, if◌then◌else◌}
use cull_snap.Paths.{Name, same}
use cull_snap.Storage.Faces.{
  Faces, in_folder, FaceCluster, in_cluster, FaceDetection, save_face_detection, save_face_cluster,
  rename_face_cluster, merge_face_clusters, hide_face_cluster, delete_ai_data_for_folder,
  delete_face_clusters_for_folder, assign_face_to_cluster,
}

-- `GetFaceClusters`, or with the flag `GetAllFaceClusters`.
unfoldable pub get_face_clusters : Bool → Name → List FaceCluster → List FaceCluster
get_face_clusters all folder [] = []
get_face_clusters all folder (r ∷ rs) =
    let rest = get_face_clusters all folder rs in
    if in_folder folder r && (all || not r.hidden) then r ∷ rest else rest

unfoldable pub get_face_detections_for_cluster : ℕ → List FaceDetection → List FaceDetection
get_face_detections_for_cluster c [] = []
get_face_detections_for_cluster c (d ∷ ds) =
    let rest = get_face_detections_for_cluster c ds in if in_cluster c d then d ∷ rest else rest

unfoldable pub get_face_detections : Name → List FaceDetection → List FaceDetection
get_face_detections photo [] = []
get_face_detections photo (d ∷ ds) =
    let rest = get_face_detections photo ds in if same d.photo_path photo then d ∷ rest else rest

-- A call that changes the tables.
pub data Call : Type 0 where
  save_detection : Name → Option ℕ → Call
  save_cluster : Name → Name → Name → ℕ → Call
  rename : ℕ → Name → Call
  merge : ℕ → ℕ → Call
  hide : ℕ → Bool → Call
  delete_ai_data : Name → Call
  delete_face_clusters : Name → Call
  assign_face : ℕ → ℕ → Call

abbrev pub result_or : Faces → Option Faces → Faces
result_or f none = f
result_or f (some g) = g

abbrev pub saved_or : Faces → Option (ℕ × Faces) → Faces
saved_or f none = f
saved_or f (some r) = r.1

-- The tables after a call; an error leaves them.
unfoldable pub run : Bool → Call → Faces → Faces
run fk (save_detection p c) f = saved_or f (save_face_detection fk p c f)
run fk (save_cluster d l p n) f = (save_face_cluster d l p n f).1
run fk (rename c l) f = rename_face_cluster c l f
run fk (merge s t) f = result_or f (merge_face_clusters fk s t f)
run fk (hide c h) f = hide_face_cluster c h f
run fk (delete_ai_data d) f = delete_ai_data_for_folder fk d f
run fk (delete_face_clusters d) f = delete_face_clusters_for_folder fk d f
run fk (assign_face d c) f = result_or f (assign_face_to_cluster fk d c f)
