-- ===== src/Storage/Faces/Keeps.antt =====
-- Every call on the tables of faces keeps them consistent.
use cull_snap.Base.{
  All-weaken, All-append, ◌∙◌, ◌+◌, ℕ, ◌<◌, List, Bool, true, Option, none, some, map, ◌≡◌, refl,
  arith, if_elim, not, ◌&&◌,
}
use cull_snap.Storage.Faces.Calls.{
  Call, save_detection, save_cluster, rename, merge, hide, delete_ai_data, delete_face_clusters,
  assign_face, result_or, saved_or, run,
}
use cull_snap.Storage.Faces.{
  Faces, FaceCluster, FaceDetection, has_cluster, may_refer, save_face_detection, save_face_cluster,
  update_cluster, rename_face_cluster, hide_face_cluster, delete_clusters, count_of, reassign,
  any_in, add_counts, merge_rows, merge_face_clusters, delete_face_clusters_for_folder,
  delete_ai_data_for_folder, has_detection, assign_face_to_cluster,
}
use cull_snap.Storage.Faces.Linked.{
  IsConsistent, All-map, Linked-more, has_append, has_update, Linked-delete, Linked-reset,
  Linked-reassign, Linked-outside, Linked-assign, All-update, All-remaining, All-outside,
  All-assign,
}

delete-IsConsistent :
    (test : FaceCluster → Bool) (f : Faces)
    → IsConsistent f
    → IsConsistent (delete_clusters true test f)
unfolding delete_clusters
delete-IsConsistent test f v = record {
  linked = Linked-delete test f.clusters f.detections v.linked;
  clusters_below = All-remaining _ test f.clusters v.clusters_below;
  detections_below = All-map _ _ (λ d h. h) f.detections v.detections_below;
}

update-IsConsistent :
    (c : ℕ) (g : FaceCluster → FaceCluster)
    → ((r : FaceCluster) → (g r).id ≡ r.id)
    → (f : Faces) → IsConsistent f
    → IsConsistent (record f { clusters = update_cluster c g f.clusters })
update-IsConsistent c g h f v = record {
  linked =
      Linked-more f.clusters (update_cluster c g f.clusters)
        (λ k e. has_update k c g h f.clusters ∙ e) f.detections v.linked;
  clusters_below =
      All-update (λ r. r.id < f.next_cluster) g (λ r b. let q = h r in omega arith) c f.clusters
        v.clusters_below;
  detections_below = v.detections_below;
}

merge-IsConsistent :
    (source target : ℕ) (f : Faces)
    → IsConsistent f
    → IsConsistent (result_or f (merge_face_clusters true source target f))
unfolding merge_face_clusters add_counts merge_rows
merge-IsConsistent source target f v =
    if_elim (λ o. IsConsistent (result_or f o))
      (any_in source f.detections && not (has_cluster target f.clusters)) (λ e. v)
      (λ e. counts (count_of source f.clusters) (record {
        linked = Linked-reassign source target f.clusters f.detections e v.linked;
        clusters_below = v.clusters_below;
        detections_below = All-map _ _ (λ d h. h) f.detections v.detections_below;
      }))
  where
    ds : List FaceDetection
    ds = map (reassign source target) f.detections

    counts :
        (o : Option ℕ)
        → IsConsistent (record f { detections = ds })
        → IsConsistent (result_or f (merge_rows true source ds f (add_counts o target f.clusters)))
    counts none w =
        if_elim (λ m. IsConsistent (result_or f (merge_rows true source ds f m)))
          (has_cluster target f.clusters) (λ e. v)
          (λ e. delete-IsConsistent _ (record f { detections = ds }) w)
    counts (some n) w = delete-IsConsistent _ _ (
        update-IsConsistent target (λ r. record r { photo_count = r.photo_count + n }) (λ r. refl)
          (record f { detections = ds }) w)

pub run-IsConsistent : (c : Call) (f : Faces) → IsConsistent f → IsConsistent (run true c f)
unfolding run save_face_detection save_face_cluster rename_face_cluster hide_face_cluster
    delete_ai_data_for_folder delete_face_clusters_for_folder assign_face_to_cluster
run-IsConsistent (save_detection p c) f v =
    if_elim (λ o. IsConsistent (saved_or f o)) (may_refer true c f.clusters)
      (λ e. record {
        linked = All-append _ f.detections _ v.linked (e, tt);
        clusters_below = v.clusters_below;
        detections_below =
            All-append _ f.detections _
              (All-weaken (λ d h. omega arith) f.detections v.detections_below) (omega arith, tt);
      })
      (λ e. v)
run-IsConsistent (save_cluster d l p n) f v = record {
  linked = Linked-more f.clusters _ (λ c e. has_append c f.clusters _ e) f.detections v.linked;
  clusters_below =
      All-append _ f.clusters _ (All-weaken (λ r h. omega arith) f.clusters v.clusters_below)
        (omega arith, tt);
  detections_below = v.detections_below;
}
run-IsConsistent (rename c l) f v = update-IsConsistent c _ (λ r. refl) f v
run-IsConsistent (merge s t) f v = merge-IsConsistent s t f v
run-IsConsistent (hide c h) f v = update-IsConsistent c _ (λ r. refl) f v
run-IsConsistent (delete_ai_data folder) f v = delete-IsConsistent _ _ (record {
  linked = Linked-outside folder f.clusters f.detections v.linked;
  clusters_below = v.clusters_below;
  detections_below = All-outside _ folder f.detections v.detections_below;
})
run-IsConsistent (delete_face_clusters folder) f v = delete-IsConsistent _ _ (record {
  linked = Linked-reset _ f.clusters f.detections v.linked;
  clusters_below = v.clusters_below;
  detections_below = All-map _ _ (λ d h. h) f.detections v.detections_below;
})
run-IsConsistent (assign_face d c) f v =
    if_elim (λ o. IsConsistent (result_or f o))
      (has_detection d f.detections && not (has_cluster c f.clusters)) (λ e. v)
      (λ e. record {
        linked = Linked-assign d c f.clusters f.detections e v.linked;
        clusters_below = v.clusters_below;
        detections_below = All-assign _ d c (λ x h. h) f.detections v.detections_below;
      })
