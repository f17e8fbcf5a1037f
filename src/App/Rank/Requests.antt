-- ===== src/App/Rank/Requests.antt =====
-- The requests that stage 5 makes of the detections of a cluster.
use mathlib.Core.Path.{subst}
use cull_snap.Base.{
  if-eq-some, ◌<◌, ◌≤◌, List, [], ◌∷◌, ◌++◌, Bool, true, false, ◌||◌, some, ltb, leb, if_elim,
  length, length-append, length-map, map, ◌≡◌, refl, ◌∙◌, arith, All, All-append, All-weaken,
}
use cull_snap.Paths.{Name}
use cull_snap.Storage.Tables.{same_refl, same_sym}
use cull_snap.Storage.Faces.{FaceDetection}
use cull_snap.Storage.Scores.{Analysis, get_vlm_score}
use cull_snap.App.Engine.{Engine, RankRequest}
use cull_snap.App.Rank.{is_seen, add_path, unique_paths, rank_request, photo_context}

-- No name occurs twice.
abbrev pub Distinct : List Name → Type 0
Distinct [] = Unit
Distinct (p ∷ ps) = (is_seen p ps ≡ false) × Distinct ps

abbrev pub photos_of : List FaceDetection → List Name
photos_of = map (λ d. d.photo_path)

is_seen-append :
    (p : Name) (ps qs : List Name) → is_seen p (ps ++ qs) ≡ (is_seen p ps || is_seen p qs)
unfolding is_seen
is_seen-append p [] qs = refl
is_seen-append p (x ∷ xs) qs = ground (arith, is_seen-append p xs qs)

Distinct-append :
    (p : Name) (ps : List Name) → is_seen p ps ≡ false → Distinct ps → Distinct (ps ++ p ∷ [])
unfolding is_seen
Distinct-append p [] s d = (refl, tt)
Distinct-append p (x ∷ xs) s d = (
  is_seen-append x xs (p ∷ []) ∙ ground (arith, same_sym x p, d.0),
  Distinct-append p xs (ground arith) d.1,
)

add_path_bounds :
    (p : Name) (ps : List Name)
    → length ps ≤ 5
    → (length ps ≤ length (add_path p ps)) × (length (add_path p ps) ≤ 5)
unfolding add_path
add_path_bounds p ps l =
    let n = length-append ps (p ∷ []) in
    if_elim (λ z. (length ps ≤ length z) × (length z ≤ 5)) (is_seen p ps || leb 5 (length ps))
      {x = ps} {y = ps ++ p ∷ []} (λ c. (omega arith, l))
      (λ c. (omega (arith, n), ground (arith, n)))

add_path-Distinct : (p : Name) (ps : List Name) → Distinct ps → Distinct (add_path p ps)
unfolding add_path
add_path-Distinct p ps d =
    if_elim Distinct (is_seen p ps || leb 5 (length ps)) (λ c. d)
      (λ c. Distinct-append p ps (ground arith) d)

add_path-more :
    (p q : Name) (ps : List Name) → is_seen q ps ≡ true → is_seen q (add_path p ps) ≡ true
unfolding add_path
add_path-more p q ps s =
    if_elim (λ z. is_seen q z ≡ true) (is_seen p ps || leb 5 (length ps)) (λ c. s)
      (λ c. is_seen-append q ps (p ∷ []) ∙ rw s refl)

add_path_seen :
    (p : Name) (ps : List Name) → length (add_path p ps) < 5 → is_seen p (add_path p ps) ≡ true
unfolding add_path
add_path_seen p ps =
    if_elim (λ z. length z < 5 → is_seen p z ≡ true) (is_seen p ps || leb 5 (length ps))
      (λ c l. ground arith) (λ c l. is_seen-append p ps (p ∷ []) ∙ ends (is_seen p ps))
  where
    ends : (b : Bool) → (b || is_seen p (p ∷ [])) ≡ true
    ends true = refl
    ends false = rw (same_refl p) refl

add_path-All :
    (P : Name → Type 0) (p : Name) (ps : List Name) → P p → All P ps → All P (add_path p ps)
unfolding add_path
add_path-All P p ps h a =
    if_elim (All P) (is_seen p ps || leb 5 (length ps)) (λ c. a)
      (λ c. All-append P ps (p ∷ []) a (h, tt))

-- What the loop over the detections leaves.
record Collected (ds : List FaceDetection) (ps qs : List Name) : Type 0 where
  pub grows : length ps ≤ length qs
  pub at_most : length qs ≤ 5
  pub distinct : Distinct qs
  pub more : (p : Name) → is_seen p ps ≡ true → is_seen p qs ≡ true
  pub covers : length qs < 5 → All (λ d. is_seen d.photo_path qs ≡ true) ds

unique_paths-Collected :
    (ds : List FaceDetection) (ps : List Name)
    → length ps ≤ 5
    → Distinct ps
    → Collected ds ps (unique_paths ds ps)
unfolding unique_paths
unique_paths-Collected [] ps l d = record {
  grows = omega arith;
  at_most = l;
  distinct = d;
  more = λ p s. s;
  covers = λ n. tt;
}
unique_paths-Collected (x ∷ xs) ps l d =
    let b = add_path_bounds x.photo_path ps l in
    let rest =
      unique_paths-Collected xs (add_path x.photo_path ps) b.1
        (add_path-Distinct x.photo_path ps d) in
    record {
      grows = omega (arith, b.0, rest.grows);
      at_most = rest.at_most;
      distinct = rest.distinct;
      more = λ p s. rest.more p (add_path-more x.photo_path p ps s);
      covers = λ n. (
        rest.more x.photo_path (add_path_seen x.photo_path ps (omega (arith, n, rest.grows))),
        rest.covers n,
      );
    }

unique_paths-All :
    (P : Name → Type 0) (ds : List FaceDetection) (ps : List Name)
    → All (λ d. P d.photo_path) ds
    → All P ps
    → All P (unique_paths ds ps)
unfolding unique_paths
unique_paths-All P [] ps h a = a
unique_paths-All P (d ∷ ds) ps h a =
    unique_paths-All P ds (add_path d.photo_path ps) h.1 (add_path-All P d.photo_path ps h.0 a)

-- Each detection shows one of the photos.
own_photos : (ds : List FaceDetection) → All (λ d. is_seen d.photo_path (photos_of ds) ≡ true) ds
unfolding is_seen
own_photos [] = tt
own_photos (d ∷ ds) =
    (rw (same_refl d.photo_path) refl, All-weaken (λ x h. ground arith) ds (own_photos ds))

-- A request that stage 5 makes for a cluster names two to five photos, none of them twice, each of
-- them shown by a detection of the cluster, and carries a context for each; if it names fewer than
-- five, it names the photo of every detection.
pub rank_request_bounds :
    {F : Type 0} (e : Engine F) (instructions : Name) (ds : List FaceDetection) (t : Analysis F)
    (q : RankRequest F)
    → rank_request e instructions ds t ≡ some q
    → (2 ≤ length q.photo_paths)
      × (length q.photo_paths ≤ 5)
      × Distinct q.photo_paths
      × All (λ p. is_seen p (photos_of ds) ≡ true) q.photo_paths
      × (length q.photo_scores ≡ length q.photo_paths)
      × (length q.photo_paths < 5 → All (λ d. is_seen d.photo_path q.photo_paths ≡ true) ds)
unfolding rank_request
rank_request_bounds {F} e instructions ds t q r =
    let made = if-eq-some (ltb (length ds) 2 || ltb (length (unique_paths ds [])) 2) r in
    let c = unique_paths-Collected ds [] (omega arith) tt in
    let from = unique_paths-All (λ p. is_seen p (photos_of ds) ≡ true) ds [] (own_photos ds) tt in
    subst Fits made.1 (
      at_least made.0,
      c.at_most,
      c.distinct,
      from,
      length-map (unique_paths ds []) (λ p. photo_context e (get_vlm_score p t)),
      c.covers,
    )
  where
    Fits : RankRequest F → Type 0
    Fits z =
        (2 ≤ length z.photo_paths)
        × (length z.photo_paths ≤ 5)
        × Distinct z.photo_paths
        × All (λ p. is_seen p (photos_of ds) ≡ true) z.photo_paths
        × (length z.photo_scores ≡ length z.photo_paths)
        × (length z.photo_paths < 5 → All (λ d. is_seen d.photo_path z.photo_paths ≡ true) ds)

    at_least :
        (ltb (length ds) 2 || ltb (length (unique_paths ds [])) 2) ≡ false
        → 2 ≤ length (unique_paths ds [])
    at_least h = ground arith
