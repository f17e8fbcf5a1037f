-- ===== src/Scoring/Clusters/Apart.antt =====
-- The clusters that `ClusterFacesAgglomerative` returns are apart.
use cull_snap.Base.{
  ℕ, suc, List, [], ◌∷◌, true, false, none, some, ◌&&◌, if_elim, ◌≡◌, refl, All, inl, inr, ap, ◌∙◌,
}
use cull_snap.Scoring.Clusters.{
  Similarity, Cluster, Best, collect, closest_to, closest_pair, cluster_faces_agglomerative,
}
use cull_snap.Scoring.Clusters.Search.{
  IsOrdered, AllActive, AllPairs, AllPairs-weaken, closest_pair_covers,
}
use cull_snap.Scoring.Clusters.Whole.{start, search, Stops, ended}

module _ (m : Similarity) where
  open m use {Face, Embedding, Score, embedding, cosine_sim, above, below, lowest}

  -- The centroids of each two clusters.
  abbrev pub EachTwo : (Embedding → Embedding → Type 0) → List (Cluster Face Embedding) → Type 0
  EachTwo P [] = Unit
  EachTwo P (s ∷ ss) = All (λ r. P s.centroid r.centroid) ss × EachTwo P ss

  collect-AllActive :
      (P : Embedding → Type 0) (ss : List (Cluster Face Embedding))
      → AllActive m P ss
      → All (λ r. P r.centroid) (collect m ss)
  unfolding collect
  collect-AllActive P [] a = tt
  collect-AllActive P (s ∷ ss) a =
      if_elim (All (λ r. P r.centroid)) s.active (λ e. (a.0 e, collect-AllActive P ss a.1))
        (λ e. collect-AllActive P ss a.1)

  collect-AllPairs :
      (P : Embedding → Embedding → Type 0) (ss : List (Cluster Face Embedding))
      → AllPairs m P ss
      → EachTwo P (collect m ss)
  unfolding collect
  collect-AllPairs P [] a = tt
  collect-AllPairs P (s ∷ ss) a =
      if_elim (EachTwo P) s.active
        (λ e. (collect-AllActive (P s.centroid) ss (a.0 e), collect-AllPairs P ss a.1))
        (λ e. collect-AllPairs P ss a.1)

  -- Without a pair the score is the first one.
  abbrev Untouched : Best Score → Type 0
  Untouched b = b.pair ≡ none → b.best_sim ≡ lowest

  closest_to-Untouched :
      (i : ℕ) (c : Embedding) (j : ℕ) (ss : List (Cluster Face Embedding)) (b : Best Score)
      → Untouched b
      → Untouched (closest_to m i c j ss b)
  unfolding closest_to
  closest_to-Untouched i c j [] b u = u
  closest_to-Untouched i c j (s ∷ ss) b u = closest_to-Untouched i c (suc j) ss _ (
      if_elim {A = Best Score} Untouched (s.active && above (cosine_sim c s.centroid) b.best_sim)
        (λ q e. cc) (λ q. u))

  closest_pair-Untouched :
      (i : ℕ) (ss : List (Cluster Face Embedding)) (b : Best Score)
      → Untouched b
      → Untouched (closest_pair m i ss b)
  unfolding closest_pair
  closest_pair-Untouched i [] b u = u
  closest_pair-Untouched i (s ∷ ss) b u = closest_pair-Untouched (suc i) ss _ (
      if_elim {A = Best Score} Untouched s.active
        (λ q. closest_to-Untouched i s.centroid (suc i) ss b u) (λ q. u))

  Stops-below :
      (t : Score) (ss : List (Cluster Face Embedding))
      → below lowest t ≡ true
      → Stops m t ss
      → below (search m ss).best_sim t ≡ true
  Stops-below t ss l (inl e) =
      ap (λ s. below s t) (closest_pair-Untouched 0 ss (start m) (λ q. refl) e) ∙ l
  Stops-below t ss l (inr e) = e

  -- For a threshold above -2, no two of the clusters that are returned have centroids whose
  -- similarity is above it.
  pub cluster_faces_agglomerative-AreApart :
      IsOrdered m
      → (faces : List Face) (t : Score) → below lowest t ≡ true
      → (r : List (Cluster Face Embedding)) × (cluster_faces_agglomerative m faces t ≡ some r)
        × EachTwo (λ v w. above (cosine_sim v w) t ≡ false) r
  unfolding cluster_faces_agglomerative
  cluster_faces_agglomerative-AreApart o faces t l =
      let q = ended m faces t in
      let b = Stops-below t q.0 l q.2.stops in
      (
        collect m q.0,
        rw q.1 refl,
        collect-AllPairs _ q.0 (
            AllPairs-weaken m (λ v w h. o.below_cut (cosine_sim v w) _ t b h) q.0
              (closest_pair_covers m o 0 q.0 (start m))),
      )
