-- ===== src/Scoring/Clusters/Search.antt =====
-- What the two loops over the pairs of clusters find.
use cull_snap.Base.{
  ℕ, zero, suc, ◌+◌, ◌<◌, List, [], ◌∷◌, Bool, true, false, ◌&&◌, Option, none, some, if◌then◌else◌,
  if_elim, ◌≡◌, arith, Bool-cases, inl, inr, ◌∙◌, ap,
}
use cull_snap.Scoring.Clusters.{Similarity, Cluster, Best, closest_to, closest_pair}

-- What the tests of float32 satisfy, also where one side is no number.
pub record IsOrdered (m : Similarity) : Type 0 where
  pub above_trans : (x y z : m.Score) → m.above x y ≡ true → m.above y z ≡ true → m.above x z ≡ true
  pub above_irreflexive : (x : m.Score) → m.above x x ≡ false
  pub below_cut : (x y t : m.Score) → m.below y t ≡ true → m.above x y ≡ false → m.above x t ≡ false

module _ (m : Similarity) where
  open m use {Face, Embedding, Score, cosine_sim, above, below}

  abbrev pub active_at : ℕ → List (Cluster Face Embedding) → Bool
  active_at n [] = false
  active_at zero (s ∷ ss) = s.active
  active_at (suc n) (s ∷ ss) = active_at n ss

  -- The pair is one of two different active clusters.
  abbrev pub IsPair : List (Cluster Face Embedding) → Option (ℕ × ℕ) → Type 0
  IsPair ss none = Unit
  IsPair ss (some p) = (p.0 < p.1) × (active_at p.0 ss ≡ true) × (active_at p.1 ss ≡ true)

  -- The centroid of each active cluster.
  abbrev pub AllActive : (Embedding → Type 0) → List (Cluster Face Embedding) → Type 0
  AllActive P [] = Unit
  AllActive P (s ∷ ss) = (s.active ≡ true → P s.centroid) × AllActive P ss

  -- The centroids of each two active clusters.
  abbrev pub AllPairs : (Embedding → Embedding → Type 0) → List (Cluster Face Embedding) → Type 0
  AllPairs P [] = Unit
  AllPairs P (s ∷ ss) = (s.active ≡ true → AllActive (P s.centroid) ss) × AllPairs P ss

  pub AllActive-weaken :
      {P Q : Embedding → Type 0} (h : (v : Embedding) → P v → Q v)
      (ss : List (Cluster Face Embedding))
      → AllActive P ss
      → AllActive Q ss
  AllActive-weaken h [] a = tt
  AllActive-weaken h (s ∷ ss) a = ((λ e. h s.centroid (a.0 e)), AllActive-weaken h ss a.1)

  pub AllPairs-weaken :
      {P Q : Embedding → Embedding → Type 0} (h : (v w : Embedding) → P v w → Q v w)
      (ss : List (Cluster Face Embedding))
      → AllPairs P ss
      → AllPairs Q ss
  AllPairs-weaken h [] a = tt
  AllPairs-weaken h (s ∷ ss) a =
      ((λ e. AllActive-weaken (h s.centroid) ss (a.0 e)), AllPairs-weaken h ss a.1)

  -- `b` is at least as high as `a`.
  abbrev Raises : Best Score → Best Score → Type 0
  Raises a b = (x : Score) → above x a.best_sim ≡ false → above x b.best_sim ≡ false

  abbrev better : ℕ → ℕ → Bool → Score → Best Score → Best Score
  better i j active sim b =
      if active && above sim b.best_sim then record { best_sim = sim; pair = some (i, j) } else b

  module _ (o : IsOrdered m) where
    not_above : (x y z : Score) → above x z ≡ false → above y z ≡ true → above x y ≡ false
    not_above x y z e q = elim (Bool-cases (above x y)) [
      | inl h ↦ (let t = o.above_trans x y z h q in cc)
      | inr h ↦ h
    ]

    better-Raises :
        (i j : ℕ) (active : Bool) (sim : Score) (b : Best Score)
        → Raises b (better i j active sim b)
    better-Raises i j active sim b x e =
        if_elim {A = Best Score} (λ r. above x r.best_sim ≡ false) (active && above sim b.best_sim)
          (λ q. not_above x sim b.best_sim e (ground arith)) (λ q. e)

    better_covers :
        (i j : ℕ) (sim : Score) (b : Best Score)
        → above sim (better i j true sim b).best_sim ≡ false
    better_covers i j sim b =
        if_elim {A = Best Score} (λ r. above sim r.best_sim ≡ false) (above sim b.best_sim)
          (λ q. o.above_irreflexive sim) (λ q. q)

    closest_to-Raises :
        (i : ℕ) (c : Embedding) (j : ℕ) (ss : List (Cluster Face Embedding)) (b : Best Score)
        → Raises b (closest_to m i c j ss b)
    unfolding closest_to
    closest_to-Raises i c j [] b x e = e
    closest_to-Raises i c j (s ∷ ss) b x e =
        let sim = cosine_sim c s.centroid in
        closest_to-Raises i c (suc j) ss (better i j s.active sim b) x
          (better-Raises i j s.active sim b x e)

    -- No active cluster of the rest is closer than the result.
    closest_to_covers :
        (i : ℕ) (c : Embedding) (j : ℕ) (ss : List (Cluster Face Embedding)) (b : Best Score)
        → AllActive (λ v. above (cosine_sim c v) (closest_to m i c j ss b).best_sim ≡ false) ss
    unfolding closest_to
    closest_to_covers i c j [] b = tt
    closest_to_covers i c j (s ∷ ss) b =
        let sim = cosine_sim c s.centroid in
        (
          (λ e.
              closest_to-Raises i c (suc j) ss (better i j s.active sim b) sim
                (rw e (better_covers i j sim b))),
          closest_to_covers i c (suc j) ss (better i j s.active sim b),
        )

    abbrev from :
        ℕ → Cluster Face Embedding → List (Cluster Face Embedding) → Best Score → Best Score
    from i s ss b = if s.active then closest_to m i s.centroid (suc i) ss b else b

    from-Raises :
        (i : ℕ) (s : Cluster Face Embedding) (ss : List (Cluster Face Embedding)) (b : Best Score)
        → Raises b (from i s ss b)
    from-Raises i s ss b =
        if_elim {A = Best Score} (Raises b) s.active
          (λ q. closest_to-Raises i s.centroid (suc i) ss b) (λ q x e. e)

    closest_pair-Raises :
        (i : ℕ) (ss : List (Cluster Face Embedding)) (b : Best Score)
        → Raises b (closest_pair m i ss b)
    unfolding closest_pair
    closest_pair-Raises i [] b x e = e
    closest_pair-Raises i (s ∷ ss) b x e =
        closest_pair-Raises (suc i) ss (from i s ss b) x (from-Raises i s ss b x e)

    -- No two active clusters are closer than the result.
    pub closest_pair_covers :
        (i : ℕ) (ss : List (Cluster Face Embedding)) (b : Best Score)
        → AllPairs (λ v w. above (cosine_sim v w) (closest_pair m i ss b).best_sim ≡ false) ss
    unfolding closest_pair
    closest_pair_covers i [] b = tt
    closest_pair_covers i (s ∷ ss) b = (
      (λ e.
          AllActive-weaken
            (λ v h.
              closest_pair-Raises (suc i) ss (from i s ss b) (cosine_sim s.centroid v) (rw e h))
            ss (closest_to_covers i s.centroid (suc i) ss b)),
      closest_pair_covers (suc i) ss (from i s ss b),
    )

  -- The rest `ss` of `all` from the number `k` on.
  abbrev Rest : ℕ → List (Cluster Face Embedding) → List (Cluster Face Embedding) → Type 0
  Rest k all ss = (n : ℕ) → active_at (k + n) all ≡ active_at n ss

  Rest-suc :
      (k : ℕ) (all : List (Cluster Face Embedding)) (s : Cluster Face Embedding)
      (ss : List (Cluster Face Embedding))
      → Rest k all (s ∷ ss)
      → Rest (suc k) all ss
  Rest-suc k all s ss h n = let e : suc k + n ≡ k + suc n = omega arith in rw e (h (suc n))

  Rest-first :
      (k : ℕ) (all : List (Cluster Face Embedding)) (s : Cluster Face Embedding)
      (ss : List (Cluster Face Embedding))
      → Rest k all (s ∷ ss)
      → active_at k all ≡ s.active
  Rest-first k all s ss h = let e : k ≡ k + 0 = omega arith in ap (λ n. active_at n all) e ∙ h 0

  closest_to-IsPair :
      (all : List (Cluster Face Embedding)) (i : ℕ) (c : Embedding) (j : ℕ)
      (ss : List (Cluster Face Embedding)) (b : Best Score)
      → Rest j all ss
      → i < j
      → active_at i all ≡ true
      → IsPair all b.pair
      → IsPair all (closest_to m i c j ss b).pair
  unfolding closest_to
  closest_to-IsPair all i c j [] b r l a p = p
  closest_to-IsPair all i c j (s ∷ ss) b r l a p =
      let sim = cosine_sim c s.centroid in
      closest_to-IsPair all i c (suc j) ss (better i j s.active sim b) (Rest-suc j all s ss r)
        (omega arith) a
        (if_elim {A = Best Score} (λ t. IsPair all t.pair) (s.active && above sim b.best_sim)
          (λ q. (l, a, Rest-first j all s ss r ∙ ground arith)) (λ q. p))

  -- What the search finds is a pair of active clusters.
  pub closest_pair-IsPair :
      (all : List (Cluster Face Embedding)) (i : ℕ) (ss : List (Cluster Face Embedding))
      (b : Best Score)
      → Rest i all ss
      → IsPair all b.pair
      → IsPair all (closest_pair m i ss b).pair
  unfolding closest_pair
  closest_pair-IsPair all i [] b r p = p
  closest_pair-IsPair all i (s ∷ ss) b r p =
      closest_pair-IsPair all (suc i) ss _ (Rest-suc i all s ss r) (
        if_elim {A = Best Score} (λ t. IsPair all t.pair) s.active
          (λ q.
            closest_to-IsPair all i s.centroid (suc i) ss b (Rest-suc i all s ss r) (omega arith)
              (Rest-first i all s ss r ∙ q) p)
          (λ q. p))
