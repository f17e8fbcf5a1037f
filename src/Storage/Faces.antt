-- ===== src/Storage/Faces.antt =====
-- internal/storage/sqlite.go: the tables of face clusters and face detections. The flag says whether
-- the connection enforces foreign keys. The measurements of a face are left out.
pub mod Calls
pub mod Linked
pub mod Keeps
pub mod Unenforced
pub mod Merge
use cull_snap.Base.{
  ℕ, ◌+◌, List, [], ◌∷◌, ◌++◌, Bool, true, false, not, ◌&&◌, ◌||◌, ◌==◌, Option, none, some,
  if◌then◌else◌, map,
}
use cull_snap.Paths.{Name, same}
use cull_snap.Storage.Like.{like}

pub record FaceDetection : Type 0 where
  pub id : ℕ
  pub photo_path : Name
  pub cluster_id : Option ℕ

pub record FaceCluster : Type 0 where
  pub id : ℕ
  pub folder_path : Name
  pub label : Name
  pub representative_path : Name
  pub photo_count : ℕ
  pub hidden : Bool

-- The two tables, and the numbers that AUTOINCREMENT gives next.
pub record Faces : Type 0 where
  pub clusters : List FaceCluster
  pub detections : List FaceDetection
  pub next_cluster : ℕ
  pub next_detection : ℕ

unfoldable pub has_cluster : ℕ → List FaceCluster → Bool
has_cluster c [] = false
has_cluster c (r ∷ rs) = r.id == c || has_cluster c rs

-- Whether a row may refer to a cluster.
unfoldable pub may_refer : Bool → Option ℕ → List FaceCluster → Bool
unfolding has_cluster
may_refer fk none cs = true
may_refer fk (some c) cs = not fk || has_cluster c cs

unfoldable pub save_face_detection : Bool → Name → Option ℕ → Faces → Option (ℕ × Faces)
unfolding may_refer
save_face_detection fk photo c f =
    if may_refer fk c f.clusters
    then some (
      f.next_detection,
      record f {
        detections =
            f.detections
            ++ (record { id = f.next_detection; photo_path = photo; cluster_id = c }) ∷ [];
        next_detection = f.next_detection + 1;
      },
    )
    else none

unfoldable pub save_face_cluster : Name → Name → Name → ℕ → Faces → ℕ × Faces
save_face_cluster folder label representative count f = (
  f.next_cluster,
  record f {
    clusters =
        f.clusters
        ++ (record {
          id = f.next_cluster;
          folder_path = folder;
          label = label;
          representative_path = representative;
          photo_count = count;
          hidden = false;
        })
          ∷ [];
    next_cluster = f.next_cluster + 1;
  },
)

-- `UPDATE face_clusters SET … WHERE id = ?`
unfoldable pub update_cluster :
    ℕ → (FaceCluster → FaceCluster) → List FaceCluster → List FaceCluster
update_cluster c g [] = []
update_cluster c g (r ∷ rs) = (if r.id == c then g r else r) ∷ update_cluster c g rs

unfoldable pub rename_face_cluster : ℕ → Name → Faces → Faces
rename_face_cluster c l f = record f {
  clusters = update_cluster c (λ r. record r { label = l }) f.clusters;
}

unfoldable pub hide_face_cluster : ℕ → Bool → Faces → Faces
hide_face_cluster c h f = record f {
  clusters = update_cluster c (λ r. record r { hidden = h }) f.clusters;
}

-- The rows that do not pass the test.
unfoldable pub remaining : (FaceCluster → Bool) → List FaceCluster → List FaceCluster
remaining test [] = []
remaining test (r ∷ rs) = let rest = remaining test rs in if test r then rest else r ∷ rest

-- Whether a row with this number passes the test.
unfoldable pub passes : (FaceCluster → Bool) → ℕ → List FaceCluster → Bool
passes test c [] = false
passes test c (r ∷ rs) = (r.id == c && test r) || passes test c rs

abbrev pub reset : (ℕ → Bool) → Option ℕ → Option ℕ
reset test none = none
reset test (some c) = if test c then none else some c

abbrev pub reset_cluster : (ℕ → Bool) → FaceDetection → FaceDetection
reset_cluster test d = record d { cluster_id = reset test d.cluster_id }

-- `DELETE FROM face_clusters WHERE …`, with the action `ON DELETE SET NULL`.
unfoldable pub delete_clusters : Bool → (FaceCluster → Bool) → Faces → Faces
unfolding remaining passes
delete_clusters fk test f = record f {
  clusters = remaining test f.clusters;
  detections =
      if fk then map (reset_cluster (λ c. passes test c f.clusters)) f.detections else f.detections;
}

unfoldable pub count_of : ℕ → List FaceCluster → Option ℕ
count_of c [] = none
count_of c (r ∷ rs) = if r.id == c then some r.photo_count else count_of c rs

abbrev pub moved : ℕ → ℕ → Option ℕ → Option ℕ
moved source target none = none
moved source target (some c) = if c == source then some target else some c

-- `UPDATE face_detections SET cluster_id = ? WHERE cluster_id = ?`
abbrev pub reassign : ℕ → ℕ → FaceDetection → FaceDetection
reassign source target d = record d { cluster_id = moved source target d.cluster_id }

abbrev pub refers_to : ℕ → Option ℕ → Bool
refers_to c none = false
refers_to c (some k) = k == c

abbrev pub in_cluster : ℕ → FaceDetection → Bool
in_cluster c d = refers_to c d.cluster_id

unfoldable pub any_in : ℕ → List FaceDetection → Bool
any_in c [] = false
any_in c (d ∷ ds) = in_cluster c d || any_in c ds

-- The sum for `photo_count`: a missing source makes it NULL, which the column refuses if there is a
-- row to update.
unfoldable pub add_counts : Option ℕ → ℕ → List FaceCluster → Option (List FaceCluster)
unfolding has_cluster update_cluster
add_counts none target cs = if has_cluster target cs then none else some cs
add_counts (some n) target cs =
    some (update_cluster target (λ r. record r { photo_count = r.photo_count + n }) cs)

unfoldable pub merge_rows :
    Bool → ℕ → List FaceDetection → Faces → Option (List FaceCluster) → Option Faces
unfolding delete_clusters
merge_rows fk source ds f none = none
merge_rows fk source ds f (some cs) =
    some (delete_clusters fk (λ r. r.id == source) (record f { clusters = cs; detections = ds }))

-- `MergeFaceClusters`: an error of a statement rolls the transaction back.
unfoldable pub merge_face_clusters : Bool → ℕ → ℕ → Faces → Option Faces
unfolding any_in has_cluster add_counts count_of merge_rows
merge_face_clusters fk source target f =
    if fk && any_in source f.detections && not (has_cluster target f.clusters)
    then none
    else merge_rows fk source (map (reassign source target) f.detections) f
        (add_counts (count_of source f.clusters) target f.clusters)

abbrev pub in_folder : Name → FaceCluster → Bool
in_folder folder r = same r.folder_path folder

unfoldable pub delete_face_clusters_for_folder : Bool → Name → Faces → Faces
unfolding delete_clusters
delete_face_clusters_for_folder fk folder f = delete_clusters fk (in_folder folder) (record f {
  detections = map (reset_cluster (λ c. passes (in_folder folder) c f.clusters)) f.detections;
})

unfoldable pub outside_folder : Name → List FaceDetection → List FaceDetection
outside_folder folder [] = []
outside_folder folder (d ∷ ds) =
    let rest = outside_folder folder ds in
    if like (folder ++ (b'/' ∷ b'%' ∷ [])) d.photo_path then rest else d ∷ rest

-- `DeleteAIDataForFolder`, as far as these two tables go.
unfoldable pub delete_ai_data_for_folder : Bool → Name → Faces → Faces
unfolding delete_clusters outside_folder
delete_ai_data_for_folder fk folder f =
    delete_clusters fk (in_folder folder)
      (record f { detections = outside_folder folder f.detections })

unfoldable pub assign : ℕ → ℕ → List FaceDetection → List FaceDetection
assign d c [] = []
assign d c (x ∷ xs) = (if x.id == d then record x { cluster_id = some c } else x) ∷ assign d c xs

unfoldable pub has_detection : ℕ → List FaceDetection → Bool
has_detection d [] = false
has_detection d (x ∷ xs) = x.id == d || has_detection d xs

unfoldable pub assign_face_to_cluster : Bool → ℕ → ℕ → Faces → Option Faces
unfolding assign has_detection has_cluster
assign_face_to_cluster fk d c f =
    if fk && has_detection d f.detections && not (has_cluster c f.clusters)
    then none
    else some (record f { detections = assign d c f.detections })
