-- ===== src/App/People/Saved.antt =====
-- What `runFaceClustering` leaves in the tables of faces.
use mathlib.Core.List.{map-append, append-nil, append_assoc}
use cull_snap.Base.{
  ◌+◌, All-weaken, ℕ, suc, List, [], ◌∷◌, ◌++◌, Bool, true, false, not, ◌&&◌, some, if_elim, length,
  take, map, ◌≡◌, ◌≢◌, refl, sym, ◌∙◌, ap, arith, All,
}
use cull_snap.Paths.{Name, same}
use cull_snap.Storage.Tables.{same_refl, same_left}
use cull_snap.Storage.Faces.{
  Faces, FaceCluster, in_folder, remaining, save_face_cluster, assign_face_to_cluster,
  delete_face_clusters_for_folder, delete_clusters, has_detection, has_cluster,
}
use cull_snap.Storage.Faces.Calls.{
  save_cluster, delete_face_clusters, assign_face, get_face_clusters, result_or, run,
}
use cull_snap.Storage.Faces.Linked.{IsConsistent}
use cull_snap.Storage.Faces.Keeps.{run-IsConsistent}
use cull_snap.Storage.Scores.{Analysis, get_ai_scores_for_folder}
use cull_snap.Storage.Scores.Deleted.{no_clusters}
use cull_snap.Scoring.Clusters.{max_cluster_faces}
use cull_snap.Scoring.Clusters.Merge.{count}
use cull_snap.Scoring.Clusters.Whole.{all_faces, cluster_faces_agglomerative-Partitions}
use cull_snap.App.People.Assigned.{put_in_last, map-same, save_person-put_in, save_people-put_in}
use cull_snap.App.People.{
  FaceEmbedding, Arithmetic, similarity, Person, person_label, assign_faces, save_person,
  save_people, load_embeddings, cluster_people, run_face_clustering,
}

-- The clusters of a folder, the hidden ones among them or not.
abbrev pub rows : Bool → Name → Faces → List FaceCluster
rows b folder f = get_face_clusters b folder f.clusters

abbrev pub id_label_and_count : FaceCluster → ℕ × Name × ℕ
id_label_and_count r = (r.id, r.label, r.photo_count)

-- The numbers, labels and sizes of clusters, from the number `n` and the label after `i` on.
abbrev pub numbered : ℕ → ℕ → List Person → List (ℕ × Name × ℕ)
numbered n i [] = []
numbered n i (c ∷ cs) = (n, person_label (suc i), length c.faces) ∷ numbered (n + 1) (suc i) cs

rows-append :
    (b : Bool) (folder : Name) (r : FaceCluster) (cs : List FaceCluster)
    → same r.folder_path folder ≡ true
    → r.hidden ≡ false
    → get_face_clusters b folder (cs ++ r ∷ []) ≡ get_face_clusters b folder cs ++ r ∷ []
unfolding get_face_clusters
rows-append true folder r [] e h = rw (e, h) refl
rows-append false folder r [] e h = rw (e, h) refl
rows-append b folder r (c ∷ cs) e h = ground (arith, rows-append b folder r cs)

rows-append_other :
    (b : Bool) (folder : Name) (r : FaceCluster) (cs : List FaceCluster)
    → same r.folder_path folder ≡ false
    → get_face_clusters b folder (cs ++ r ∷ []) ≡ get_face_clusters b folder cs
unfolding get_face_clusters
rows-append_other b folder r [] e = rw e refl
rows-append_other b folder r (c ∷ cs) e = ground (arith, rows-append_other b folder r cs)

rows-remaining :
    (b : Bool) (folder g : Name) (cs : List FaceCluster)
    → same folder g ≡ false
    → get_face_clusters b g (remaining (in_folder folder) cs) ≡ get_face_clusters b g cs
unfolding get_face_clusters remaining
rows-remaining b folder g [] e = refl
rows-remaining b folder g (c ∷ cs) e =
    ground (arith, same_left c.folder_path folder g, rows-remaining b folder g cs)

assign_faces-clusters :
    (c : ℕ) (xs : List FaceEmbedding) (f : Faces) → (assign_faces true c xs f).clusters ≡ f.clusters
unfolding assign_faces assign_face_to_cluster
assign_faces-clusters c [] f = refl
assign_faces-clusters c (x ∷ xs) f =
    assign_faces-clusters c xs _
    ∙ if_elim (λ o. (result_or f o).clusters ≡ f.clusters)
        (has_detection x.detection_id f.detections && not (has_cluster c f.clusters)) (λ e. refl)
        (λ e. refl)

assign_faces-IsConsistent :
    (c : ℕ) (xs : List FaceEmbedding) (f : Faces)
    → IsConsistent f
    → IsConsistent (assign_faces true c xs f)
unfolding assign_faces
assign_faces-IsConsistent c [] f v = v
assign_faces-IsConsistent c (x ∷ xs) f v =
    assign_faces-IsConsistent c xs _
      (unfold run in run-IsConsistent (assign_face x.detection_id c) f v)

-- The tables after some clusters of a folder were added.
record IsSaved (folder : Name) (f g : Faces) (added : List (ℕ × Name × ℕ)) : Type 0 where
  pub consistent : IsConsistent f → IsConsistent g
  pub listed :
      (b : Bool)
      → map id_label_and_count (rows b folder g) ≡ map id_label_and_count (rows b folder f) ++ added
  pub others : (b : Bool) (d : Name) → same folder d ≡ false → rows b d g ≡ rows b d f

save_face_cluster-IsSaved :
    (folder label photo : Name) (n : ℕ) (f : Faces)
    → IsSaved folder f
        (save_face_cluster folder label photo n f).1
        ((f.next_cluster, label, n) ∷ [])
unfolding save_face_cluster
save_face_cluster-IsSaved folder label photo n f =
    let row : FaceCluster = record {
      id = f.next_cluster;
      folder_path = folder;
      label = label;
      representative_path = photo;
      photo_count = n;
      hidden = false;
    } in
    record {
      consistent = λ v. unfold run in run-IsConsistent (save_cluster folder label photo n) f v;
      listed = λ b.
          ap (map id_label_and_count) (rows-append b folder row f.clusters (same_refl folder) refl)
          ∙ map-append _ _ _;
      others = λ b d e. rows-append_other b d row f.clusters e;
    }

assign_faces-IsSaved :
    (folder : Name) (added : List (ℕ × Name × ℕ)) (c : ℕ) (xs : List FaceEmbedding) (f g : Faces)
    → IsSaved folder f g added
    → IsSaved folder f (assign_faces true c xs g) added
assign_faces-IsSaved folder added c xs f g s =
    let kept = assign_faces-clusters c xs g in
    record {
      consistent = λ v. assign_faces-IsConsistent c xs g (s.consistent v);
      listed =
          λ b. ap (λ cs. map id_label_and_count (get_face_clusters b folder cs)) kept ∙ s.listed b;
      others = λ b d e. ap (get_face_clusters b d) kept ∙ s.others b d e;
    }

IsSaved-trans :
    (folder : Name) (f g h : Faces) (xs ys : List (ℕ × Name × ℕ))
    → IsSaved folder f g xs
    → IsSaved folder g h ys
    → IsSaved folder f h (xs ++ ys)
IsSaved-trans folder f g h xs ys s r = record {
  consistent = λ v. r.consistent (s.consistent v);
  listed = λ b.
      r.listed b
      ∙ ap (λ z. z ++ ys) (s.listed b)
      ∙ append_assoc (map id_label_and_count (rows b folder f)) xs ys;
  others = λ b d e. r.others b d e ∙ s.others b d e;
}

numbered-from : {n k : ℕ} (i : ℕ) (cs : List Person) → n ≡ k → numbered n i cs ≡ numbered k i cs
numbered-from i cs e = ap (λ n. numbered n i cs) e

IsSaved-same :
    (folder : Name) (f g : Faces) (xs ys : List (ℕ × Name × ℕ))
    → xs ≡ ys
    → IsSaved folder f g xs
    → IsSaved folder f g ys
IsSaved-same folder f g xs ys e s = record {
  consistent = s.consistent;
  listed = λ b. s.listed b ∙ ap (λ z. map id_label_and_count (rows b folder f) ++ z) e;
  others = s.others;
}

module _ {F : Type 0} (above : F → F → Bool) (minus_one : F) where
  save_person-IsSaved :
      (folder : Name) (n : ℕ) (xs : List FaceEmbedding) (t : Analysis F)
      → xs ≢ []
      → IsSaved folder t.faces
          (save_person above minus_one true folder n xs t).faces
          ((t.faces.next_cluster, person_label n, length xs) ∷ [])
  save_person-IsSaved folder n [] t h = absurd (h refl)
  save_person-IsSaved folder n (x ∷ xs) t h =
      assign_faces-IsSaved folder _ _ (x ∷ xs) t.faces _
        (save_face_cluster-IsSaved folder (person_label n) _ (length (x ∷ xs)) t.faces)

  save_people-IsSaved :
      (folder : Name) (i : ℕ) (cs : List Person) (t : Analysis F)
      → All (λ c. c.faces ≢ []) cs
      → IsSaved folder t.faces
          (save_people above minus_one true folder i cs t).faces
          (numbered t.faces.next_cluster i cs)
  unfolding save_people
  save_people-IsSaved folder i [] t a = record {
    consistent = λ v. v;
    listed = λ b. sym (append-nil _);
    others = λ b d e. refl;
  }
  save_people-IsSaved folder i (c ∷ cs) t a =
      let next = save_person above minus_one true folder (suc i) c.faces t in
      let one = save_person-put_in above minus_one folder (suc i) c.faces t a.0 in
      IsSaved-trans folder t.faces _ _
        ((t.faces.next_cluster, person_label (suc i), length c.faces) ∷ [])
        (numbered (t.faces.next_cluster + 1) (suc i) cs)
        (save_person-IsSaved folder (suc i) c.faces t a.0)
        (IsSaved-same folder next.faces _ _ _ (numbered-from (suc i) cs one.1)
          (save_people-IsSaved folder (suc i) cs next a.1))

  -- The embeddings that are clustered.
  abbrev pub embeddings : (ℕ → List ℕ) → Name → Analysis F → List FaceEmbedding
  embeddings column folder t =
      load_embeddings above minus_one column (get_ai_scores_for_folder folder t.ai_scores)
        (delete_face_clusters_for_folder true folder t.faces).detections

  -- The tables without the old clusters.
  abbrev cleared : Name → Analysis F → Analysis F
  cleared folder t = record t { faces = delete_face_clusters_for_folder true folder t.faces }

  cleared-IsSaved :
      (folder : Name) (t : Analysis F)
      → (IsConsistent t.faces → IsConsistent (cleared folder t).faces)
        × ((b : Bool) → rows b folder (cleared folder t).faces ≡ [])
        × ((b : Bool) (d : Name)
            → same folder d ≡ false
            → rows b d (cleared folder t).faces ≡ rows b d t.faces)
        × ((cleared folder t).faces.next_cluster ≡ t.faces.next_cluster)
  unfolding delete_face_clusters_for_folder delete_clusters
  cleared-IsSaved folder t = (
    (λ v. unfold run in run-IsConsistent (delete_face_clusters folder) t.faces v),
    (λ b. no_clusters b folder t.faces.clusters),
    (λ b d e. rows-remaining b folder d t.faces.clusters e),
    refl,
  )

  -- What the tables of faces hold when `cs` are saved as the clusters of a folder.
  abbrev pub IsClustered : Name → Analysis F → List Person → Analysis F → Type 0
  IsClustered folder t cs u =
      IsConsistent u.faces
      × ((b : Bool)
          → map id_label_and_count (rows b folder u.faces) ≡ numbered t.faces.next_cluster 0 cs)
      × ((b : Bool) (d : Name) → same folder d ≡ false → rows b d u.faces ≡ rows b d t.faces)
      × (u.faces.detections
          ≡ map (put_in_last t.faces.next_cluster cs)
              (delete_face_clusters_for_folder true folder t.faces).detections)

  -- Let foreign keys be enforced, and let the tables of faces be consistent. runFaceClustering ends
  -- and returns the number of clusters that it made of the first 2000 embeddings of the folder, each
  -- embedding being in them as often as it was loaded. The tables stay consistent. The clusters of
  -- the folder, hidden or not, are then exactly those, with the numbers from the next free one on,
  -- named Person 1, Person 2 and so on, with their numbers of faces. Other folders keep their
  -- clusters, hidden ones included. Each detection with a face in one of the clusters belongs to that
  -- cluster (to the last one, if there are several); all other detections are as
  -- DeleteFaceClustersForFolder left them.
  pub run_face_clustering-Clusters :
      (m : Arithmetic) (column : ℕ → List ℕ) (folder : Name) (t : Analysis F)
      → IsConsistent t.faces
      → (cs : List Person) × (u : Analysis F) × (run_face_clustering above minus_one m column true
            folder t
          ≡ some (length cs, u))
        × IsClustered folder t cs u
        × ((p : FaceEmbedding → Bool)
            → count p (all_faces (similarity m) cs)
              ≡ count p (take max_cluster_faces (embeddings column folder t)))
  unfolding run_face_clustering
  run_face_clustering-Clusters m column folder t v = of_embeddings (embeddings column folder t)
    where
      of_embeddings :
          (xs : List FaceEmbedding)
          → (cs : List Person) × (u : Analysis F) × (cluster_people above minus_one m true folder xs
                (cleared folder t)
              ≡ some (length cs, u))
            × IsClustered folder t cs u
            × ((p : FaceEmbedding → Bool)
                → count p (all_faces (similarity m) cs) ≡ count p (take max_cluster_faces xs))
      of_embeddings [] =
          let c = cleared-IsSaved folder t in
          (
            [],
            cleared folder t,
            refl,
            (
              c.0 v,
              (λ b. ap (map id_label_and_count) (c.1 b)),
              c.2,
              sym (map-same (cleared folder t).faces.detections),
            ),
            (λ p. refl),
          )
      of_embeddings (x ∷ xs) =
          let c = cleared-IsSaved folder t in
          let q =
            cluster_faces_agglomerative-Partitions (similarity m) (x ∷ xs)
              m.default_cluster_threshold in
          let full = All-weaken (λ k h. h.0) q.0 q.3 in
          let s = save_people-IsSaved folder 0 q.0 (cleared folder t) full in
          (
            q.0,
            save_people above minus_one true folder 0 q.0 (cleared folder t),
            rw q.1 refl,
            (
              s.consistent (c.0 v),
              (λ b.
                  s.listed b
                  ∙ ap
                      (λ z.
                        map id_label_and_count z
                        ++ numbered (cleared folder t).faces.next_cluster 0 q.0)
                      (c.1 b)
                  ∙ numbered-from 0 q.0 c.3),
              (λ b d e. s.others b d e ∙ c.2 b d e),
              save_people-put_in above minus_one folder 0 q.0 (cleared folder t) full
                  ∙ ap (λ n. map (put_in_last n q.0) (cleared folder t).faces.detections) c.3,
            ),
            q.2,
          )
