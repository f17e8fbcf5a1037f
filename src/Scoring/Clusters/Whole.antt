-- ===== src/Scoring/Clusters/Whole.antt =====
-- What `ClusterFacesAgglomerative` returns.
use cull_snap.Base.{
  ℕ, zero, suc, ◌+◌, ◌<◌, List, [], ◌∷◌, ◌++◌, Bool, true, Option, none, some, if◌then◌else◌,
  if_elim, ◌≡◌, refl, arith, All, ◌⊎◌, inl, inr, ap, ◌∙◌, length, take, Bool-cases,
}
use cull_snap.Scoring.Clusters.{
  Similarity, Cluster, Best, merge, initial, collect, closest_pair, rounds,
  cluster_faces_agglomerative, max_cluster_faces,
}
use cull_snap.Scoring.Clusters.Search.{IsPair, closest_pair-IsPair}
use cull_snap.Scoring.Clusters.Merge.{
  count, count-append, total, actives, IsCentred, total-merge, actives-merge, merge-IsCentred,
}

module _ (m : Similarity) where
  open m use {Face, Embedding, Score, embedding, cosine_sim, above, below, lowest}

  abbrev pub start : Best Score
  start = record { best_sim = lowest; pair = none }

  -- The search of one round.
  abbrev pub search : List (Cluster Face Embedding) → Best Score
  search ss = closest_pair m 0 ss start

  search-IsPair : (ss : List (Cluster Face Embedding)) → IsPair m ss (search ss).pair
  search-IsPair ss =
      closest_pair-IsPair m ss 0 ss start (λ n. let e : 0 + n ≡ n = omega arith in rw e refl) tt

  -- The code stops at these clusters.
  abbrev pub Stops : Score → List (Cluster Face Embedding) → Type 0
  Stops t ss = ((search ss).pair ≡ none) ⊎ (below (search ss).best_sim t ≡ true)

  pub record Ended (t : Score) (ss r : List (Cluster Face Embedding)) : Type 0 where
    pub stops : Stops t r
    pub kept : (p : Face → Bool) → total m p r ≡ total m p ss
    pub centred : All (IsCentred m) ss → All (IsCentred m) r

  rounds_end :
      (n : ℕ) (t : Score) (ss : List (Cluster Face Embedding))
      → actives m ss < n
      → (r : List (Cluster Face Embedding)) × (rounds m n t ss ≡ some r) × Ended t ss r
  unfolding rounds
  rounds_end zero t ss l = elim l [ ]
  rounds_end (suc n) t ss l =
      found (search ss).pair refl (search-IsPair ss) (λ next k. rounds_end n t next k)
    where
      found :
          (o : Option (ℕ × ℕ))
          → (search ss).pair ≡ o
          → IsPair m ss o
          → ((next : List (Cluster Face Embedding))
              → actives m next < n
              → (r : List (Cluster Face Embedding)) × (rounds m n t next ≡ some r) × Ended t next r)
          → (r : List (Cluster Face Embedding)) × (rounds m (suc n) t ss ≡ some r) × Ended t ss r
      found none e q more =
          (ss, rw (rounds, e) refl, record { stops = inl e; kept = λ p. refl; centred = λ c. c })
      found (some p) e q more = elim (Bool-cases (below (search ss).best_sim t)) [
        | inl h ↦ (
          ss,
          rw (rounds, e, h) refl,
          record { stops = inr h; kept = λ f. refl; centred = λ c. c },
        )
        | inr h ↦
            (let next = merge m p.0 p.1 ss in
              let rest = more next (omega (arith, actives-merge m p.0 p.1 ss q.2)) in
              (
                rest.0,
                rw (rounds, e, h) rest.1,
                record {
                  stops = rest.2.stops;
                  kept = λ f. rest.2.kept f ∙ total-merge m f p.0 p.1 ss q.0 q.1 q.2;
                  centred = λ c. rest.2.centred (merge-IsCentred m p.0 p.1 ss c);
                },
              ))
      ]

  -- The faces of all clusters.
  abbrev pub all_faces : List (Cluster Face Embedding) → List Face
  all_faces [] = []
  all_faces (s ∷ ss) = s.faces ++ all_faces ss

  count-collect :
      (p : Face → Bool) (ss : List (Cluster Face Embedding))
      → count p (all_faces (collect m ss)) ≡ total m p ss
  unfolding collect
  count-collect p [] = refl
  count-collect p (s ∷ ss) =
      if_elim {A = List (Cluster Face Embedding)}
        (λ r. count p (all_faces r) ≡ (if s.active then count p s.faces else 0) + total m p ss)
        s.active
        (λ e. rw e (
          count-append p s.faces (all_faces (collect m ss))
          ∙ ap (λ n. count p s.faces + n) (count-collect p ss)))
        (λ e. rw e (omega (arith, count-collect p ss)))

  All-collect :
      (P : Cluster Face Embedding → Type 0) (ss : List (Cluster Face Embedding))
      → All P ss
      → All P (collect m ss)
  unfolding collect
  All-collect P [] a = tt
  All-collect P (s ∷ ss) a =
      if_elim (All P) s.active (λ e. (a.0, All-collect P ss a.1)) (λ e. All-collect P ss a.1)

  total-initial : (p : Face → Bool) (fs : List Face) → total m p (initial m fs) ≡ count p fs
  unfolding initial
  total-initial p [] = refl
  total-initial p (f ∷ fs) = omega (arith, total-initial p fs)

  actives-initial : (fs : List Face) → actives m (initial m fs) ≡ length fs
  unfolding initial
  actives-initial [] = refl
  actives-initial (f ∷ fs) = omega (arith, actives-initial fs)

  initial-IsCentred : (fs : List Face) → All (IsCentred m) (initial m fs)
  unfolding initial
  initial-IsCentred [] = tt
  initial-IsCentred (f ∷ fs) = ((λ e. cc, inr (f, refl, refl)), initial-IsCentred fs)

  pub ended :
      (faces : List Face) (t : Score)
      → (r : List (Cluster Face Embedding)) × (rounds m
            (suc (length (take max_cluster_faces faces)))
            t
            (initial m (take max_cluster_faces faces))
          ≡ some r)
        × Ended t (initial m (take max_cluster_faces faces)) r
  ended faces t =
      let fs = take max_cluster_faces faces in
      rounds_end (suc (length fs)) t (initial m fs) (omega (arith, actives-initial fs))

  -- Clustering ends; each of the first 2000 faces is in the clusters as often as it was given, no
  -- cluster is empty, and the centroid of each is the mean of its faces, or the embedding of its
  -- only face.
  pub cluster_faces_agglomerative-Partitions :
      (faces : List Face) (t : Score)
      → (r : List (Cluster Face Embedding)) × (cluster_faces_agglomerative m faces t ≡ some r)
        × ((p : Face → Bool) → count p (all_faces r) ≡ count p (take max_cluster_faces faces))
        × All (IsCentred m) r
  unfolding cluster_faces_agglomerative
  cluster_faces_agglomerative-Partitions faces t =
      let fs = take max_cluster_faces faces in
      let q = ended faces t in
      (
        collect m q.0,
        rw q.1 refl,
        (λ p. count-collect p q.0 ∙ q.2.kept p ∙ total-initial p fs),
        All-collect (IsCentred m) q.0 (q.2.centred (initial-IsCentred fs)),
      )
