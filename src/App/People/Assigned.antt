-- ===== src/App/People/Assigned.antt =====
-- To which cluster each detection belongs after `runFaceClustering` has saved its clusters.
use cull_snap.Base.{
  ℕ, suc, ◌+◌, List, [], ◌∷◌, ◌++◌, Bool, true, false, not, ◌&&◌, ◌||◌, ◌==◌, some, if◌then◌else◌,
  map, ◌≡◌, ◌≢◌, refl, sym, ◌∙◌, ap, arith, All,
}
use cull_snap.Paths.{Name}
use cull_snap.Storage.Faces.{
  Faces, FaceCluster, FaceDetection, assign, assign_face_to_cluster, has_cluster, has_detection,
  save_face_cluster,
}
use cull_snap.Storage.Faces.Calls.{result_or}
use cull_snap.Storage.Scores.{Analysis}
use cull_snap.App.People.{
  FaceEmbedding, Person, person_label, assign_faces, representative, save_person, save_people, none,
  length,
}

abbrev pub has_face : ℕ → List FaceEmbedding → Bool
has_face d [] = false
has_face d (x ∷ xs) = (d == x.detection_id) || has_face d xs

-- A detection whose face is one of these belongs to this cluster.
abbrev pub put_in : ℕ → List FaceEmbedding → FaceDetection → FaceDetection
put_in n xs d = if has_face d.id xs then record d { cluster_id = some n } else d

-- The clusters have the numbers from `n` on; of two clusters with one face, the later one gets it.
abbrev pub put_in_last : ℕ → List Person → FaceDetection → FaceDetection
put_in_last n [] d = d
put_in_last n (c ∷ cs) d = put_in_last (n + 1) cs (put_in n c.faces d)

map-ext : {A B : Type 0} (f g : A → B) → ((x : A) → f x ≡ g x) → (xs : List A) → map f xs ≡ map g xs
map-ext f g h [] = refl
map-ext f g h (x ∷ xs) = rw (h x, map-ext f g h xs) refl

map-map :
    {A B C : Type 0} (f : B → C) (g : A → B) (xs : List A)
    → map f (map g xs) ≡ map (λ x. f (g x)) xs
map-map f g [] = refl
map-map f g (x ∷ xs) = ap (◌∷◌ (f (g x))) (map-map f g xs)

pub map-same : {A : Type 0} (xs : List A) → map (λ x. x) xs ≡ xs
map-same [] = refl
map-same (x ∷ xs) = ap (◌∷◌ x) (map-same xs)

abbrev one_put : ℕ → ℕ → FaceDetection → FaceDetection
one_put d c x = if x.id == d then record x { cluster_id = some c } else x

assign-map : (d c : ℕ) (ds : List FaceDetection) → assign d c ds ≡ map (one_put d c) ds
unfolding assign
assign-map d c [] = refl
assign-map d c (x ∷ xs) = ap (◌∷◌ (one_put d c x)) (assign-map d c xs)

put_one_more :
    (c : ℕ) (x : FaceEmbedding) (xs : List FaceEmbedding) (d : FaceDetection)
    → put_in c xs (one_put x.detection_id c d) ≡ put_in c (x ∷ xs) d
put_one_more c x xs d = by_tests (d.id == x.detection_id) (has_face d.id xs) refl refl
  where
    by_tests :
        (s h : Bool)
        → (d.id == x.detection_id) ≡ s
        → has_face d.id xs ≡ h
        → put_in c xs (one_put x.detection_id c d) ≡ put_in c (x ∷ xs) d
    by_tests true true e k = rw (e, k) refl
    by_tests true false e k = rw (e, k) refl
    by_tests false true e k = rw (e, k) refl
    by_tests false false e k = rw (e, k) refl

assigned_one :
    (d c : ℕ) (f : Faces)
    → has_cluster c f.clusters ≡ true
    → result_or f (assign_face_to_cluster true d c f)
      ≡ record f { detections = map (one_put d c) f.detections }
unfolding assign_face_to_cluster
assigned_one d c f h = by_test (has_detection d f.detections)
  where
    by_test :
        (b : Bool)
        → result_or f (
            if b && not (has_cluster c f.clusters)
            then none
            else some (record f { detections = assign d c f.detections }))
          ≡ record f { detections = map (one_put d c) f.detections }
    by_test true = rw h (ap (λ z. record f { detections = z }) (assign-map d c f.detections))
    by_test false = ap (λ z. record f { detections = z }) (assign-map d c f.detections)

-- All faces of a cluster that exists are assigned to it, and nothing else changes.
pub assign_faces_all :
    (c : ℕ) (xs : List FaceEmbedding) (f : Faces)
    → has_cluster c f.clusters ≡ true
    → assign_faces true c xs f ≡ record f { detections = map (put_in c xs) f.detections }
unfolding assign_faces
assign_faces_all c [] f h = ap (λ z. record f { detections = z }) (sym (map-same f.detections))
assign_faces_all c (x ∷ xs) f h =
    ap (assign_faces true c xs) (assigned_one x.detection_id c f h)
    ∙ assign_faces_all c xs (record f { detections = map (one_put x.detection_id c) f.detections })
        h
    ∙ ap (λ z. record f { detections = z })
        (map-map (put_in c xs) (one_put x.detection_id c) f.detections
          ∙ map-ext _ _ (put_one_more c x xs) f.detections)

has_cluster-added :
    (r : FaceCluster) (cs : List FaceCluster) → has_cluster r.id (cs ++ r ∷ []) ≡ true
unfolding has_cluster
has_cluster-added r [] = ground arith
has_cluster-added r (c ∷ cs) = let h = has_cluster-added r cs in ground arith

module _ {F : Type 0} (above : F → F → Bool) (minus_one : F) where
  -- One cluster: its faces belong to it, and the number after it comes next.
  pub save_person-put_in :
      (folder : Name) (n : ℕ) (xs : List FaceEmbedding) (t : Analysis F)
      → xs ≢ []
      → ((save_person above minus_one true folder n xs t).faces.detections
          ≡ map (put_in t.faces.next_cluster xs) t.faces.detections)
        × ((save_person above minus_one true folder n xs t).faces.next_cluster
            ≡ t.faces.next_cluster + 1)
  unfolding save_face_cluster
  save_person-put_in folder n [] t h = absurd (h refl)
  save_person-put_in folder n (x ∷ xs) t h =
      let r = representative above minus_one t (x ∷ xs) (x.photo_path, minus_one) in
      let row : FaceCluster = record {
        id = t.faces.next_cluster;
        folder_path = folder;
        label = person_label n;
        representative_path = r.0;
        photo_count = length (x ∷ xs);
        hidden = false;
      } in
      let all =
        assign_faces_all t.faces.next_cluster (x ∷ xs)
          (save_face_cluster folder (person_label n) r.0 (length (x ∷ xs)) t.faces).1
          (has_cluster-added row t.faces.clusters) in
      (ap (λ f. f.detections) all, ap (λ f. f.next_cluster) all)

  pub save_people-put_in :
      (folder : Name) (i : ℕ) (cs : List Person) (t : Analysis F)
      → All (λ c. c.faces ≢ []) cs
      → (save_people above minus_one true folder i cs t).faces.detections
        ≡ map (put_in_last t.faces.next_cluster cs) t.faces.detections
  unfolding save_people
  save_people-put_in folder i [] t a = sym (map-same t.faces.detections)
  save_people-put_in folder i (c ∷ cs) t a =
      let next = save_person above minus_one true folder (suc i) c.faces t in
      let one = save_person-put_in folder (suc i) c.faces t a.0 in
      save_people-put_in folder (suc i) cs next a.1
      ∙ ap (λ n. map (put_in_last n cs) next.faces.detections) one.1
      ∙ ap (map (put_in_last (t.faces.next_cluster + 1) cs)) one.0
      ∙ map-map (put_in_last (t.faces.next_cluster + 1) cs) (put_in t.faces.next_cluster c.faces)
          t.faces.detections
