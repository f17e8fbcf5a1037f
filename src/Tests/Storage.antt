-- ===== src/Tests/Storage.antt =====
-- internal/storage on tables of a few rows.
use cull_snap.Base.{
  ℕ, ◌+◌, List, [], ◌∷◌, true, false, none, some, ◌≡◌, ◌≢◌, refl, arith, All, map, length,
}
use cull_snap.Paths.{Name, same}
use cull_snap.Storage.Tables.{Unique, get, put, remove_key}
use cull_snap.Storage.Like.{like, lower, some_rest, starts_with, IsLiteral}
use cull_snap.Storage.Files.{Files, Call, select, rate, configure}
use cull_snap.Storage.Refines.{view, run_all, act_all, run_all-Refines}
use cull_snap.Storage.Meta.{
  CloudMediaMeta, delete_cloud_media_meta_by_prefix, outside,
  delete_cloud_media_meta_by_prefix-leaves,
}
use cull_snap.Storage.Recents.{Recent, recent_key, add_recent, keep_listed, is_listed}
use cull_snap.Storage.Faces.{
  Faces, FaceCluster, merge_face_clusters, count_of, reassign, any_in, has_cluster, add_counts,
  may_refer, merge_rows, update_cluster, delete_clusters, remaining, passes,
}
use cull_snap.Storage.Faces.Calls
use cull_snap.Storage.Faces.Calls
use cull_snap.Storage.Faces.Unenforced.{IsLinked, run-IsLinked}
use cull_snap.Storage.Faces.Merge.{merge_face_clusters-Merges}

abbrev empty_files : Files
empty_files = record { selections = []; exported = []; ratings = []; app_config = [] }

abbrev calls : List Call
calls =
    select (b'a' ∷ []) (b's' ∷ []) true
    ∷ rate (b'a' ∷ []) 3
    ∷ select (b'a' ∷ []) (b't' ∷ []) false
    ∷ configure (b'k' ∷ []) (b'v' ∷ [])
    ∷ []

run_all-Refines_example : view (run_all calls empty_files) ≡ act_all calls (view empty_files)
run_all-Refines_example = run_all-Refines calls empty_files

abbrev media : ℕ → CloudMediaMeta
media c = record {
  local_path = b'a' ∷ c ∷ b'b' ∷ b'/' ∷ b'1' ∷ [];
  remote_id = [];
  provider_id = [];
  remote_updated_at = 0;
}

abbrev prefix : Name
prefix = b'a' ∷ b'_' ∷ b'b' ∷ []

-- The underscore of an album's directory also matches the directory of another album.
underscore-matches : delete_cloud_media_meta_by_prefix prefix (media b'_' ∷ media b'x' ∷ []) ≡ []
unfolding delete_cloud_media_meta_by_prefix like lower some_rest
underscore-matches = refl

delete_cloud_media_meta_by_prefix-leaves_example :
    All
      (λ m. starts_with prefix m.local_path ≡ false)
      (delete_cloud_media_meta_by_prefix prefix (media b'_' ∷ media b'x' ∷ []))
    × (All IsLiteral prefix
        → delete_cloud_media_meta_by_prefix prefix (media b'_' ∷ media b'x' ∷ [])
          ≡ outside prefix (media b'_' ∷ media b'x' ∷ []))
delete_cloud_media_meta_by_prefix-leaves_example =
    delete_cloud_media_meta_by_prefix-leaves prefix (media b'_' ∷ media b'x' ∷ [])

abbrev recents : List Recent
recents =
    record { path = b'a' ∷ []; accessed_at = 1 } ∷ record { path = b'b' ∷ []; accessed_at = 2 } ∷ []

recents-Unique : Unique recent_key recents
unfolding get same
recents-Unique = (refl, (refl, tt))

recent-moved :
    map recent_key (add_recent (λ rs. rs) (b'a' ∷ []) 3 recents) ≡ (b'b' ∷ []) ∷ (b'a' ∷ []) ∷ []
unfolding add_recent keep_listed is_listed put remove_key same
recent-moved = refl

abbrev cluster : ℕ → ℕ → FaceCluster
cluster c n = record {
  id = c;
  folder_path = b'f' ∷ [];
  label = [];
  representative_path = [];
  photo_count = n;
  hidden = false;
}

abbrev two : Faces
two = record {
  clusters = cluster 1 2 ∷ cluster 2 3 ∷ [];
  detections = record { id = 1; photo_path = b'p' ∷ []; cluster_id = some 1 } ∷ [];
  next_cluster = 3;
  next_detection = 2;
}

-- A merge of a cluster with itself deletes it, and its face belongs to no cluster.
merged_with_itself :
    merge_face_clusters true 1 1 two
    ≡ some (record two {
      clusters = cluster 2 3 ∷ [];
      detections = record { id = 1; photo_path = b'p' ∷ []; cluster_id = none } ∷ [];
    })
unfolding merge_face_clusters any_in has_cluster add_counts merge_rows update_cluster
    delete_clusters remaining passes count_of
merged_with_itself = refl

first-counted : count_of 1 two.clusters ≡ some 2
unfolding count_of
first-counted = refl

second-counted : count_of 2 two.clusters ≡ some 3
unfolding count_of
second-counted = refl

one_is_not_two : ◌≢◌ {A = ℕ} 1 2
one_is_not_two = omega arith

merge_face_clusters-Merges_example :
    (g : Faces) × (merge_face_clusters true 1 2 two ≡ some g)
    × (count_of 1 g.clusters ≡ none)
    × (count_of 2 g.clusters ≡ some (3 + 2))
    × ((k : ℕ) → k ≢ 1 → k ≢ 2 → count_of k g.clusters ≡ count_of k two.clusters)
    × (g.detections ≡ map (reassign 1 2) two.detections)
    × (length (Calls.get_face_detections_for_cluster 2 g.detections)
        ≡ length (Calls.get_face_detections_for_cluster 1 two.detections)
          + length (Calls.get_face_detections_for_cluster 2 two.detections))
merge_face_clusters-Merges_example =
    merge_face_clusters-Merges true 1 2 2 3 two one_is_not_two first-counted second-counted

two-IsLinked : IsLinked two
unfolding may_refer has_cluster
two-IsLinked = (refl, tt)

second-there : has_cluster 2 two.clusters ≡ true
unfolding has_cluster
second-there = refl

run-IsLinked_example : IsLinked (Calls.run false (Calls.merge 1 2) two)
run-IsLinked_example =
    run-IsLinked (Calls.merge 1 2) two (one_is_not_two, second-there) two-IsLinked
