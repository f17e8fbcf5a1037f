-- ===== src/Scoring/Clusters/Merge.antt =====
-- What a merge of two clusters keeps, and that one cluster fewer is active after it.
use cull_snap.Base.{
  ◌≢◌, one_if, ℕ, zero, suc, ◌+◌, ◌<◌, List, [], ◌∷◌, ◌++◌, Bool, true, if◌then◌else◌, ◌≡◌, refl,
  arith, All, ◌⊎◌, inl, ap, ◌∙◌,
}
use cull_snap.Scoring.Clusters.{Similarity, Cluster, faces_at, add_faces, deactivate, merge}
use cull_snap.Scoring.Clusters.Search.{active_at}

-- How many pass a test.
abbrev pub count : {A : Type 0} → (A → Bool) → List A → ℕ
count p [] = 0
count p (x ∷ xs) = one_if (p x) + count p xs

pub count-append :
    {A : Type 0} (p : A → Bool) (xs ys : List A) → count p (xs ++ ys) ≡ count p xs + count p ys
count-append p [] ys = omega arith
count-append p (x ∷ xs) ys = omega (arith, count-append p xs ys)

module _ (m : Similarity) where
  open m use {Face, Embedding, embedding, average_embeddings}

  -- The faces of the active clusters that pass a test.
  abbrev pub total : (Face → Bool) → List (Cluster Face Embedding) → ℕ
  total p [] = 0
  total p (s ∷ ss) = (if s.active then count p s.faces else 0) + total p ss

  abbrev pub actives : List (Cluster Face Embedding) → ℕ
  actives [] = 0
  actives (s ∷ ss) = one_if s.active + actives ss

  -- There are faces, and the centroid is their mean, or the embedding of the only one.
  abbrev pub IsCentred : Cluster Face Embedding → Type 0
  IsCentred s =
      (s.faces ≢ [])
      × ((s.centroid ≡ average_embeddings s.faces)
          ⊎ ((f : Face) × (s.faces ≡ f ∷ []) × (s.centroid ≡ embedding f)))

  append-not_nil : (fs gs : List Face) → fs ≢ [] → fs ++ gs ≢ []
  append-not_nil [] gs n = absurd (n refl)
  append-not_nil (f ∷ fs) gs n = λ e. cc

  actives-add_faces :
      (fs : List Face) (i : ℕ) (ss : List (Cluster Face Embedding))
      → actives (add_faces m fs i ss) ≡ actives ss
  unfolding add_faces
  actives-add_faces fs i [] = refl
  actives-add_faces fs zero (s ∷ ss) = refl
  actives-add_faces fs (suc i) (s ∷ ss) = ap (λ n. one_if s.active + n) (actives-add_faces fs i ss)

  active_at-add_faces :
      (fs : List Face) (i n : ℕ) (ss : List (Cluster Face Embedding))
      → active_at m n (add_faces m fs i ss) ≡ active_at m n ss
  unfolding add_faces
  active_at-add_faces fs i n [] = refl
  active_at-add_faces fs zero zero (s ∷ ss) = refl
  active_at-add_faces fs zero (suc n) (s ∷ ss) = refl
  active_at-add_faces fs (suc i) zero (s ∷ ss) = refl
  active_at-add_faces fs (suc i) (suc n) (s ∷ ss) = active_at-add_faces fs i n ss

  faces_at-add_faces :
      (fs : List Face) (i j : ℕ) (ss : List (Cluster Face Embedding))
      → i < j
      → faces_at m j (add_faces m fs i ss) ≡ faces_at m j ss
  unfolding add_faces faces_at
  faces_at-add_faces fs i j [] l = refl
  faces_at-add_faces fs zero zero (s ∷ ss) l = elim l [ ]
  faces_at-add_faces fs zero (suc j) (s ∷ ss) l = refl
  faces_at-add_faces fs (suc i) zero (s ∷ ss) l = elim l [ ]
  faces_at-add_faces fs (suc i) (suc j) (s ∷ ss) l = faces_at-add_faces fs i j ss (omega arith)

  total-add_faces :
      (p : Face → Bool) (fs : List Face) (i : ℕ) (ss : List (Cluster Face Embedding))
      → active_at m i ss ≡ true
      → total p (add_faces m fs i ss) ≡ total p ss + count p fs
  unfolding add_faces
  total-add_faces p fs i [] a = cc
  total-add_faces p fs zero (s ∷ ss) a = rw a (omega (arith, count-append p s.faces fs))
  total-add_faces p fs (suc i) (s ∷ ss) a = omega (arith, total-add_faces p fs i ss a)

  total-deactivate :
      (p : Face → Bool) (j : ℕ) (ss : List (Cluster Face Embedding))
      → active_at m j ss ≡ true
      → total p (deactivate m j ss) + count p (faces_at m j ss) ≡ total p ss
  unfolding deactivate faces_at
  total-deactivate p j [] a = cc
  total-deactivate p zero (s ∷ ss) a = rw a (omega arith)
  total-deactivate p (suc j) (s ∷ ss) a = omega (arith, total-deactivate p j ss a)

  actives-deactivate :
      (j : ℕ) (ss : List (Cluster Face Embedding))
      → active_at m j ss ≡ true
      → suc (actives (deactivate m j ss)) ≡ actives ss
  unfolding deactivate
  actives-deactivate j [] a = cc
  actives-deactivate zero (s ∷ ss) a = rw a (omega arith)
  actives-deactivate (suc j) (s ∷ ss) a = omega (arith, actives-deactivate j ss a)

  pub total-merge :
      (p : Face → Bool) (i j : ℕ) (ss : List (Cluster Face Embedding))
      → i < j
      → active_at m i ss ≡ true
      → active_at m j ss ≡ true
      → total p (merge m i j ss) ≡ total p ss
  unfolding merge
  total-merge p i j ss l a b =
      let added = add_faces m (faces_at m j ss) i ss in
      let e = ap (count p) (faces_at-add_faces (faces_at m j ss) i j ss l) in
      omega (
        arith,
        e,
        total-deactivate p j added (active_at-add_faces (faces_at m j ss) i j ss ∙ b),
        total-add_faces p (faces_at m j ss) i ss a,
      )

  pub actives-merge :
      (i j : ℕ) (ss : List (Cluster Face Embedding))
      → active_at m j ss ≡ true
      → suc (actives (merge m i j ss)) ≡ actives ss
  unfolding merge
  actives-merge i j ss b =
      actives-deactivate j (add_faces m (faces_at m j ss) i ss)
        (active_at-add_faces (faces_at m j ss) i j ss ∙ b)
      ∙ actives-add_faces (faces_at m j ss) i ss

  add_faces-IsCentred :
      (fs : List Face) (i : ℕ) (ss : List (Cluster Face Embedding))
      → All IsCentred ss
      → All IsCentred (add_faces m fs i ss)
  unfolding add_faces
  add_faces-IsCentred fs i [] c = tt
  add_faces-IsCentred fs zero (s ∷ ss) c = ((append-not_nil s.faces fs c.0.0, inl refl), c.1)
  add_faces-IsCentred fs (suc i) (s ∷ ss) c = (c.0, add_faces-IsCentred fs i ss c.1)

  deactivate-IsCentred :
      (j : ℕ) (ss : List (Cluster Face Embedding))
      → All IsCentred ss
      → All IsCentred (deactivate m j ss)
  unfolding deactivate
  deactivate-IsCentred j [] c = tt
  deactivate-IsCentred zero (s ∷ ss) c = c
  deactivate-IsCentred (suc j) (s ∷ ss) c = (c.0, deactivate-IsCentred j ss c.1)

  pub merge-IsCentred :
      (i j : ℕ) (ss : List (Cluster Face Embedding))
      → All IsCentred ss
      → All IsCentred (merge m i j ss)
  unfolding merge
  merge-IsCentred i j ss c = deactivate-IsCentred j _ (add_faces-IsCentred (faces_at m j ss) i ss c)
