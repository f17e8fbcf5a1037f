-- ===== src/Storage/Faces/Merge.antt =====
-- What `MergeFaceClusters` does with two clusters that exist.
use cull_snap.Base.{
  ℕ, ◌+◌, List, [], ◌∷◌, Bool, true, false, Option, none, some, map, length, ◌≡◌, ◌≢◌, refl, arith,
  ◌==◌, not, ◌&&◌, ◌∙◌, ap, sym,
}
use cull_snap.Storage.Faces.{
  Faces, FaceCluster, FaceDetection, has_cluster, update_cluster, remaining, passes, reset,
  reset_cluster, delete_clusters, count_of, moved, reassign, any_in, add_counts, merge_rows,
  merge_face_clusters,
}
use cull_snap.Storage.Faces.Calls.{get_face_detections_for_cluster}

has_count : (c n : ℕ) (cs : List FaceCluster) → count_of c cs ≡ some n → has_cluster c cs ≡ true
unfolding count_of has_cluster
has_count c n [] e = cc
has_count c n (r ∷ rs) e = ground (arith, has_count c n rs)

abbrev is_row : ℕ → FaceCluster → Bool
is_row c r = r.id == c

abbrev plus : ℕ → FaceCluster → FaceCluster
plus n r = record r { photo_count = r.photo_count + n }

count_removed : (s : ℕ) (cs : List FaceCluster) → count_of s (remaining (is_row s) cs) ≡ none
unfolding count_of remaining
count_removed s [] = refl
count_removed s (r ∷ rs) = ground (arith, count_removed s rs)

count_kept :
    (s k : ℕ) (cs : List FaceCluster) → k ≢ s → count_of k (remaining (is_row s) cs) ≡ count_of k cs
unfolding count_of remaining
count_kept s k [] n = refl
count_kept s k (r ∷ rs) n = ground (arith, count_kept s k rs)

count_added :
    (t m n : ℕ) (cs : List FaceCluster)
    → count_of t cs ≡ some n
    → count_of t (update_cluster t (plus m) cs) ≡ some (n + m)
unfolding count_of update_cluster
count_added t m n [] e = cc
count_added t m n (r ∷ rs) e = ground (arith, count_added t m n rs)

count_other :
    (t m k : ℕ) (cs : List FaceCluster)
    → k ≢ t
    → count_of k (update_cluster t (plus m) cs) ≡ count_of k cs
unfolding count_of update_cluster
count_other t m k [] e = refl
count_other t m k (r ∷ rs) e = ground (arith, count_other t m k rs)

not_passed : (s c : ℕ) (cs : List FaceCluster) → c ≢ s → passes (is_row s) c cs ≡ false
unfolding passes
not_passed s c [] n = refl
not_passed s c (r ∷ rs) n = ground (arith, not_passed s c rs)

none_reset :
    (s t : ℕ) (cs : List FaceCluster) (o : Option ℕ)
    → s ≢ t
    → reset (λ c. passes (is_row s) c cs) (moved s t o) ≡ moved s t o
none_reset s t cs none n = refl
none_reset s t cs (some c) n = ground (arith, not_passed s c cs, not_passed s t cs)

all_moved :
    (s t : ℕ) (cs : List FaceCluster) (ds : List FaceDetection)
    → s ≢ t
    → map (reset_cluster (λ c. passes (is_row s) c cs)) (map (reassign s t) ds)
      ≡ map (reassign s t) ds
all_moved s t cs [] n = refl
all_moved s t cs (d ∷ ds) n = rw (none_reset s t cs d.cluster_id n, all_moved s t cs ds n) refl

moved_length :
    (s t : ℕ) (ds : List FaceDetection)
    → s ≢ t
    → length (get_face_detections_for_cluster t (map (reassign s t) ds))
      ≡ length (get_face_detections_for_cluster s ds)
        + length (get_face_detections_for_cluster t ds)
unfolding get_face_detections_for_cluster
moved_length s t [] n = refl
moved_length s t (d ∷ ds) n = ground (arith, moved_length s t ds n)

no_error : (a b c : Bool) → c ≡ true → (a && b && not c) ≡ false
no_error a b c e = ground arith

-- The tables after the merge.
abbrev merged : Bool → ℕ → ℕ → ℕ → Faces → Faces
merged fk source target m f = delete_clusters fk (is_row source) (record f {
  clusters = update_cluster target (plus m) f.clusters;
  detections = map (reassign source target) f.detections;
})

detections_moved :
    (fk : Bool) (source target m : ℕ) (f : Faces)
    → source ≢ target
    → (merged fk source target m f).detections ≡ map (reassign source target) f.detections
unfolding delete_clusters
detections_moved true source target m f d = all_moved source target _ f.detections d
detections_moved false source target m f d = refl

merges :
    (fk : Bool) (source target m n : ℕ) (f : Faces)
    → count_of source f.clusters ≡ some m
    → count_of target f.clusters ≡ some n
    → merge_face_clusters fk source target f ≡ some (merged fk source target m f)
unfolding merge_face_clusters add_counts merge_rows
merges fk source target m n f p q =
    rw
      (
        no_error fk (any_in source f.detections) (has_cluster target f.clusters)
            (has_count target n f.clusters q),
        p,
      )
      refl

-- The merge of two different clusters that exist succeeds: the source is gone, the photos of both
-- are counted for the target, which has the detections of both; no detection is lost, those of other
-- clusters stay, and so do the counts of other clusters.
pub merge_face_clusters-Merges :
    (fk : Bool) (source target m n : ℕ) (f : Faces)
    → source ≢ target
    → count_of source f.clusters ≡ some m
    → count_of target f.clusters ≡ some n
    → (g : Faces) × (merge_face_clusters fk source target f ≡ some g)
      × (count_of source g.clusters ≡ none)
      × (count_of target g.clusters ≡ some (n + m))
      × ((k : ℕ) → k ≢ source → k ≢ target → count_of k g.clusters ≡ count_of k f.clusters)
      × (g.detections ≡ map (reassign source target) f.detections)
      × (length (get_face_detections_for_cluster target g.detections)
          ≡ length (get_face_detections_for_cluster source f.detections)
            + length (get_face_detections_for_cluster target f.detections))
unfolding delete_clusters
merge_face_clusters-Merges fk source target m n f d p q =
    let us = update_cluster target (plus m) f.clusters in
    let e = detections_moved fk source target m f d in
    (
      merged fk source target m f,
      merges fk source target m n f p q,
      count_removed source us,
      count_kept source target us (λ h. d (sym h)) ∙ count_added target m n f.clusters q,
      (λ k s t. count_kept source k us s ∙ count_other target m k f.clusters t),
      e,
      ap (λ ds. length (get_face_detections_for_cluster target ds)) e
          ∙ moved_length source target f.detections d,
    )
