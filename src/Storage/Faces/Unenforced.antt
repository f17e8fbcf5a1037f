-- ===== src/Storage/Faces/Unenforced.antt =====
-- The links from detections to clusters on a connection of the pool that does not enforce foreign
-- keys.
use cull_snap.Base.{
  ◌+◌, if◌then◌else◌, ◌∙◌, All-append, ℕ, List, [], ◌∷◌, Bool, true, false, ◌==◌, Option, none,
  some, map, if_elim, ◌≡◌, ◌≢◌, refl, arith, All,
}
use cull_snap.Storage.Faces.{
  Faces, FaceCluster, FaceDetection, has_cluster, may_refer, remaining, passes, reset, in_folder,
  outside_folder, moved, reassign, add_counts, merge_rows, update_cluster, save_face_detection,
  save_face_cluster, rename_face_cluster, hide_face_cluster, delete_clusters,
  delete_ai_data_for_folder, delete_face_clusters_for_folder, assign_face_to_cluster,
  merge_face_clusters, count_of,
}
use cull_snap.Storage.Faces.Calls.{
  Call, save_detection, save_cluster, rename, merge, hide, delete_ai_data, delete_face_clusters,
  assign_face, run, result_or, saved_or,
}
use cull_snap.Storage.Faces.Linked.{
  Linked, Linked-more, Linked-delete, Linked-reassign, Linked-assign, Linked-outside, has_append,
  has_update, has_remaining,
}

-- What the caller of a call has to see to: a cluster that it names exists, a cluster is not merged
-- into itself, and a detection of a photo outside a folder is in no cluster of the folder that is
-- deleted.
abbrev pub Permits : Faces → Call → Type 0
Permits f (save_detection p c) = may_refer true c f.clusters ≡ true
Permits f (save_cluster d l p n) = Unit
Permits f (rename c l) = Unit
Permits f (merge s t) = (s ≢ t) × (has_cluster t f.clusters ≡ true)
Permits f (hide c h) = Unit
Permits f (delete_ai_data folder) =
    All (λ d. reset (λ c. passes (in_folder folder) c f.clusters) d.cluster_id ≡ d.cluster_id)
      (outside_folder folder f.detections)
Permits f (delete_face_clusters folder) = Unit
Permits f (assign_face d c) = has_cluster c f.clusters ≡ true

abbrev pub IsLinked : Faces → Type 0
IsLinked f = Linked f.clusters f.detections

Linked-remaining :
    (test : FaceCluster → Bool) (cs : List FaceCluster) (ds : List FaceDetection)
    → All (λ d. reset (λ c. passes test c cs) d.cluster_id ≡ d.cluster_id) ds
    → Linked cs ds
    → Linked (remaining test cs) ds
unfolding may_refer
Linked-remaining test cs [] a l = tt
Linked-remaining test cs (d ∷ ds) a l =
    (still d.cluster_id a.0 l.0, Linked-remaining test cs ds a.1 l.1)
  where
    kept : (c : ℕ) → (if passes test c cs then none else some c) ≡ some c → passes test c cs ≡ false
    kept c e = ground arith

    still :
        (o : Option ℕ)
        → reset (λ c. passes test c cs) o ≡ o
        → may_refer true o cs ≡ true
        → may_refer true o (remaining test cs) ≡ true
    still none e h = refl
    still (some c) e h = has_remaining test c cs (kept c e) h

-- No row but that of the source passes the test of a merge.
other_row :
    (source c : ℕ) (cs : List FaceCluster)
    → (c == source) ≡ false
    → passes (λ r. r.id == source) c cs ≡ false
unfolding passes
other_row source c [] e = refl
other_row source c (r ∷ rs) e = ground (arith, other_row source c rs)

moved_away :
    (source target : ℕ) (cs : List FaceCluster) (o : Option ℕ)
    → source ≢ target
    → reset (λ c. passes (λ r. r.id == source) c cs) (moved source target o) ≡ moved source target o
moved_away source target cs none h = refl
moved_away source target cs (some c) h =
    if_elim (λ o. reset (λ k. passes (λ r. r.id == source) k cs) o ≡ o) (c == source)
      (λ e. rw (other_row source target cs (ground arith)) refl)
      (λ e. rw (other_row source c cs e) refl)

All-moved :
    (source target : ℕ) (cs : List FaceCluster) (ds : List FaceDetection)
    → source ≢ target
    → All
        (λ d. reset (λ c. passes (λ r. r.id == source) c cs) d.cluster_id ≡ d.cluster_id)
        (map (reassign source target) ds)
All-moved source target cs [] h = tt
All-moved source target cs (d ∷ ds) h =
    (moved_away source target cs d.cluster_id h, All-moved source target cs ds h)

merged-IsLinked :
    (source target : ℕ) (f : Faces)
    → source ≢ target
    → has_cluster target f.clusters ≡ true
    → IsLinked f
    → IsLinked (result_or f (merge_face_clusters false source target f))
unfolding merge_face_clusters add_counts merge_rows delete_clusters
merged-IsLinked source target f n h l = counts (count_of source f.clusters)
  where
    ds : List FaceDetection
    ds = map (reassign source target) f.detections

    joined : Linked f.clusters ds
    joined = Linked-reassign source target f.clusters f.detections (ground arith) l

    deleted :
        (cs : List FaceCluster) → Linked cs ds → Linked (remaining (λ r. r.id == source) cs) ds
    deleted cs =
        Linked-remaining (λ r. r.id == source) cs ds (All-moved source target cs f.detections n)

    counts :
        (o : Option ℕ)
        → IsLinked (result_or f (merge_rows false source ds f (add_counts o target f.clusters)))
    counts none = rw h l
    counts (some k) =
        let g : FaceCluster → FaceCluster = λ r. record r { photo_count = r.photo_count + k } in
        deleted (update_cluster target g f.clusters) (
          Linked-more f.clusters (update_cluster target g f.clusters)
            (λ c e. has_update c target g (λ r. refl) f.clusters ∙ e) ds joined)

-- On a connection that does not enforce foreign keys, the program keeps the links itself. Let every
-- cluster that a detection names exist. Then it is so after every call, failing ones included, in
-- which a cluster that is named exists, no cluster is merged into itself, and no detection of a photo
-- outside the folder names a cluster that DeleteAIDataForFolder deletes.
pub run-IsLinked : (c : Call) (f : Faces) → Permits f c → IsLinked f → IsLinked (run false c f)
unfolding run save_face_detection save_face_cluster rename_face_cluster hide_face_cluster
    delete_ai_data_for_folder delete_face_clusters_for_folder assign_face_to_cluster delete_clusters
run-IsLinked (save_detection p c) f h l =
    if_elim (λ o. IsLinked (saved_or f o)) (may_refer false c f.clusters)
      (λ e. All-append _ f.detections _ l (h, tt)) (λ e. l)
run-IsLinked (save_cluster d k p n) f h l =
    Linked-more f.clusters _ (λ c e. has_append c f.clusters _ e) f.detections l
run-IsLinked (rename c k) f h l =
    Linked-more f.clusters _ (λ i e. has_update i c _ (λ r. refl) f.clusters ∙ e) f.detections l
run-IsLinked (merge s t) f h l = merged-IsLinked s t f h.0 h.1 l
run-IsLinked (hide c b) f h l =
    Linked-more f.clusters _ (λ i e. has_update i c _ (λ r. refl) f.clusters ∙ e) f.detections l
run-IsLinked (delete_ai_data folder) f h l =
    Linked-remaining (in_folder folder) f.clusters (outside_folder folder f.detections) h
      (Linked-outside folder f.clusters f.detections l)
run-IsLinked (delete_face_clusters folder) f h l =
    Linked-delete (in_folder folder) f.clusters f.detections l
run-IsLinked (assign_face d c) f h l = Linked-assign d c f.clusters f.detections (ground arith) l
