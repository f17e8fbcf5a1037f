-- ===== src/Storage/Faces/Linked.antt =====
-- With foreign keys enforced, every call keeps the tables of faces consistent.
use cull_snap.Base.{
  All-weaken, ℕ, ◌<◌, List, [], ◌∷◌, ◌++◌, Bool, true, false, Option, none, some, if◌then◌else◌,
  map, ◌≡◌, refl, arith, All, if_elim, ◌==◌, not, ◌&&◌,
}
use cull_snap.Paths.{Name}
use cull_snap.Storage.Like.{like}
use cull_snap.Storage.Faces.{
  Faces, FaceCluster, FaceDetection, has_cluster, may_refer, update_cluster, remaining, passes,
  reset, reset_cluster, moved, reassign, refers_to, any_in, outside_folder, assign, has_detection,
}

-- Every cluster that a detection names exists.
abbrev pub Linked : List FaceCluster → List FaceDetection → Type 0
Linked cs ds = All (λ d. may_refer true d.cluster_id cs ≡ true) ds

-- The numbers in use are below the next ones.
pub record IsConsistent (f : Faces) : Type 0 where
  pub linked : Linked f.clusters f.detections
  pub clusters_below : All (λ r. r.id < f.next_cluster) f.clusters
  pub detections_below : All (λ d. d.id < f.next_detection) f.detections

pub All-map :
    {A B : Type 0} {P : A → Type 0} (Q : B → Type 0) (g : A → B) (h : (a : A) → P a → Q (g a))
    (xs : List A)
    → All P xs
    → All Q (map g xs)
All-map Q g h [] a = tt
All-map Q g h (x ∷ xs) a = (h x a.0, All-map Q g h xs a.1)

pub Linked-more :
    (cs cs' : List FaceCluster)
    → ((c : ℕ) → has_cluster c cs ≡ true → has_cluster c cs' ≡ true)
    → (ds : List FaceDetection) → Linked cs ds
    → Linked cs' ds
unfolding may_refer
Linked-more cs cs' h = All-weaken (λ d. more d.cluster_id)
  where
    more : (o : Option ℕ) → may_refer true o cs ≡ true → may_refer true o cs' ≡ true
    more none e = refl
    more (some c) e = h c e

pub has_append :
    (c : ℕ) (cs xs : List FaceCluster) → has_cluster c cs ≡ true → has_cluster c (cs ++ xs) ≡ true
unfolding has_cluster
has_append c [] xs e = cc
has_append c (r ∷ rs) xs e = ground (arith, has_append c rs xs)

pub has_update :
    (c k : ℕ) (g : FaceCluster → FaceCluster)
    → ((r : FaceCluster) → (g r).id ≡ r.id)
    → (cs : List FaceCluster) → has_cluster c (update_cluster k g cs) ≡ has_cluster c cs
unfolding has_cluster update_cluster
has_update c k g h [] = refl
has_update c k g h (r ∷ rs) = ground (arith, h r, has_update c k g h rs)

pub has_remaining :
    (test : FaceCluster → Bool) (c : ℕ) (cs : List FaceCluster)
    → passes test c cs ≡ false
    → has_cluster c cs ≡ true
    → has_cluster c (remaining test cs) ≡ true
unfolding has_cluster remaining passes
has_remaining test c [] p e = cc
has_remaining test c (r ∷ rs) p e = ground (arith, has_remaining test c rs)

pub Linked-delete :
    (test : FaceCluster → Bool) (cs : List FaceCluster) (ds : List FaceDetection)
    → Linked cs ds
    → Linked (remaining test cs) (map (reset_cluster (λ c. passes test c cs)) ds)
unfolding may_refer
Linked-delete test cs = All-map _ (reset_cluster (λ c. passes test c cs)) (λ d. still d.cluster_id)
  where
    still :
        (o : Option ℕ)
        → may_refer true o cs ≡ true
        → may_refer true (reset (λ c. passes test c cs) o) (remaining test cs) ≡ true
    still none e = refl
    still (some c) e = ground (arith, has_remaining test c cs)

pub Linked-reset :
    (test : ℕ → Bool) (cs : List FaceCluster) (ds : List FaceDetection)
    → Linked cs ds
    → Linked cs (map (reset_cluster test) ds)
unfolding may_refer
Linked-reset test cs = All-map _ (reset_cluster test) (λ d. still d.cluster_id)
  where
    still : (o : Option ℕ) → may_refer true o cs ≡ true → may_refer true (reset test o) cs ≡ true
    still none e = refl
    still (some c) e = ground arith

pub Linked-reassign :
    (source target : ℕ) (cs : List FaceCluster) (ds : List FaceDetection)
    → (any_in source ds && not (has_cluster target cs)) ≡ false
    → Linked cs ds
    → Linked cs (map (reassign source target) ds)
unfolding any_in may_refer
Linked-reassign source target cs [] e l = tt
Linked-reassign source target cs (d ∷ ds) e l =
    (first d.cluster_id (ground arith) l.0, Linked-reassign source target cs ds (ground arith) l.1)
  where
    first :
        (o : Option ℕ)
        → (refers_to source o && not (has_cluster target cs)) ≡ false
        → may_refer true o cs ≡ true
        → may_refer true (moved source target o) cs ≡ true
    first none q h = refl
    first (some c) q h = ground arith

pub Linked-outside :
    (folder : Name) (cs : List FaceCluster) (ds : List FaceDetection)
    → Linked cs ds
    → Linked cs (outside_folder folder ds)
unfolding outside_folder
Linked-outside folder cs [] l = tt
Linked-outside folder cs (d ∷ ds) l =
    if_elim (Linked cs) (like (folder ++ (b'/' ∷ b'%' ∷ [])) d.photo_path)
      (λ e. Linked-outside folder cs ds l.1) (λ e. (l.0, Linked-outside folder cs ds l.1))

pub Linked-assign :
    (d c : ℕ) (cs : List FaceCluster) (ds : List FaceDetection)
    → (has_detection d ds && not (has_cluster c cs)) ≡ false
    → Linked cs ds
    → Linked cs (assign d c ds)
unfolding has_detection assign may_refer
Linked-assign d c cs [] e l = tt
Linked-assign d c cs (x ∷ ds) e l =
    (first (x.id == d) refl l.0, Linked-assign d c cs ds (ground arith) l.1)
  where
    first :
        (b : Bool)
        → (x.id == d) ≡ b
        → may_refer true x.cluster_id cs ≡ true
        → may_refer true (if b then record x { cluster_id = some c } else x).cluster_id cs ≡ true
    first true q h = ground arith
    first false q h = h

pub All-update :
    (P : FaceCluster → Type 0) (g : FaceCluster → FaceCluster)
    → ((r : FaceCluster) → P r → P (g r))
    → (k : ℕ) (cs : List FaceCluster) → All P cs
    → All P (update_cluster k g cs)
unfolding update_cluster
All-update P g h k [] a = tt
All-update P g h k (r ∷ rs) a =
    (if_elim P (r.id == k) (λ e. h r a.0) (λ e. a.0), All-update P g h k rs a.1)

pub All-remaining :
    (P : FaceCluster → Type 0) (test : FaceCluster → Bool) (cs : List FaceCluster)
    → All P cs
    → All P (remaining test cs)
unfolding remaining
All-remaining P test [] a = tt
All-remaining P test (r ∷ rs) a =
    if_elim (All P) (test r) (λ e. All-remaining P test rs a.1)
      (λ e. (a.0, All-remaining P test rs a.1))

pub All-outside :
    (P : FaceDetection → Type 0) (folder : Name) (ds : List FaceDetection)
    → All P ds
    → All P (outside_folder folder ds)
unfolding outside_folder
All-outside P folder [] a = tt
All-outside P folder (d ∷ ds) a =
    if_elim (All P) (like (folder ++ (b'/' ∷ b'%' ∷ [])) d.photo_path)
      (λ e. All-outside P folder ds a.1) (λ e. (a.0, All-outside P folder ds a.1))

pub All-assign :
    (P : FaceDetection → Type 0) (d c : ℕ)
    → ((x : FaceDetection) → P x → P (record x { cluster_id = some c }))
    → (ds : List FaceDetection) → All P ds
    → All P (assign d c ds)
unfolding assign
All-assign P d c h [] a = tt
All-assign P d c h (x ∷ xs) a =
    (if_elim P (x.id == d) (λ e. h x a.0) (λ e. a.0), All-assign P d c h xs a.1)
