-- ===== src/Tests/Scoring.antt =====
-- internal/scoring on three faces whose embeddings are numbers.
use cull_snap.Base.{
  ℕ, ◌+◌, ◌-◌, List, [], ◌∷◌, Bool, false, Option, none, some, ◌≡◌, refl, arith, All, ltb, take,
}
use cull_snap.Scoring.Clusters.{
  Similarity, Cluster, cluster_faces_agglomerative, rounds, initial, collect, closest_pair,
  closest_to, merge, faces_at, add_faces, deactivate, max_cluster_faces,
}
use cull_snap.Scoring.Clusters.Search.{IsOrdered}
use cull_snap.Scoring.Clusters.Merge.{count, IsCentred}
use cull_snap.Scoring.Clusters.Whole.{all_faces, cluster_faces_agglomerative-Partitions}
use cull_snap.Scoring.Clusters.Apart.{EachTwo, cluster_faces_agglomerative-AreApart}

abbrev first_or_zero : List ℕ → ℕ
first_or_zero [] = 0
first_or_zero (f ∷ fs) = f

abbrev numbers : Similarity
numbers = record {
  Face = ℕ;
  Embedding = ℕ;
  Score = ℕ;
  embedding = λ f. f;
  average_embeddings = first_or_zero;
  cosine_sim = λ a b. 100 - ((a - b) + (b - a));
  above = λ x y. ltb y x;
  below = ltb;
  lowest = 0;
}

numbers-IsOrdered : IsOrdered numbers
numbers-IsOrdered = record {
  above_trans = λ x y z h k. ground arith;
  above_irreflexive = λ x. ground arith;
  below_cut = λ x y t h k. ground arith;
}

abbrev three : List ℕ
three = 10 ∷ 50 ∷ 12 ∷ []

abbrev faces_of : Option (List (Cluster ℕ ℕ)) → List (List ℕ)
faces_of none = []
faces_of (some []) = []
faces_of (some (s ∷ ss)) = s.faces ∷ faces_of (some ss)

three-clustered :
    faces_of (cluster_faces_agglomerative numbers three 90) ≡ (10 ∷ 12 ∷ []) ∷ (50 ∷ []) ∷ []
unfolding cluster_faces_agglomerative rounds initial collect closest_pair closest_to merge faces_at
    add_faces deactivate
three-clustered = refl

cluster_faces_agglomerative-Partitions_example :
    (r : List (Cluster ℕ ℕ)) × (cluster_faces_agglomerative numbers three 90 ≡ some r)
    × ((p : ℕ → Bool) → count p (all_faces numbers r) ≡ count p (take max_cluster_faces three))
    × All (IsCentred numbers) r
cluster_faces_agglomerative-Partitions_example =
    cluster_faces_agglomerative-Partitions numbers three 90

cluster_faces_agglomerative-AreApart_example :
    (r : List (Cluster ℕ ℕ)) × (cluster_faces_agglomerative numbers three 90 ≡ some r)
    × EachTwo numbers (λ v w. ltb 90 (100 - ((v - w) + (w - v))) ≡ false) r
cluster_faces_agglomerative-AreApart_example =
    cluster_faces_agglomerative-AreApart numbers numbers-IsOrdered three 90 refl
