-- ===== src/Dedupe/Best/Top.antt =====
-- The loop over the scores of a group ends with the highest one.
use mathlib.Core.List.{Mem, mem-cons_self, mem-cons_of_mem}
use mathlib.Core.Path.{subst}
use cull_snap.Base.{
  ℕ, ◌<◌, List, [], ◌∷◌, true, false, ◌≡◌, refl, sym, ◌∙◌, All, ◌⊎◌, inl, inr, Bool-cases,
  All-weaken,
}
use cull_snap.Dedupe.Best.{Quality, PhotoScores, weighted, best_index, best_photo}

module _ {F : Type 0} (q : Quality F) where
  open q use {above, minus_infinity}

  -- The order of float64 without NaN.
  pub record IsOrder : Type 0 where
    pub irreflexive : (a : F) → above a a ≡ false
    pub asymmetric : (a b : F) → above a b ≡ true → above b a ≡ false
    pub transitive : (a b c : F) → above a b ≡ false → above b c ≡ false → above a c ≡ false
    pub least : (a : F) → above minus_infinity a ≡ false

  -- The score with this position is one of these, and none has more weight.
  pub record IsTop (weight : PhotoScores F → F) (k : ℕ) (ss : List (PhotoScores F)) : Type 0 where
    pub score : PhotoScores F
    pub among : Mem score ss
    pub position : score.at ≡ k
    pub top : All (λ r. above (weight r) (weight score) ≡ false) ss

  -- What the loop ends with: the start, or one of the scores.
  record Ends (n : ℕ) (weight : PhotoScores F → F) (best : ℕ × F) (ss : List (PhotoScores F))
      : Type 0 where
    pub value : F
    pub from :
        ((best_index q weight best ss ≡ best.0) × (value ≡ best.1))
        ⊎ ((s : PhotoScores F) × Mem s ss
            × (s.at < n)
            × (best_index q weight best ss ≡ s.at)
            × (value ≡ weight s))
    pub start : above best.1 value ≡ false
    pub top : All (λ r. above (weight r) value ≡ false) ss

  best_index-Ends :
      IsOrder
      → (weight : PhotoScores F → F) (best : ℕ × F) (ss : List (PhotoScores F)) (n : ℕ)
      → All (λ s. s.at < n) ss
      → Ends n weight best ss
  unfolding best_index
  best_index-Ends o weight best [] n a0 = record {
    value = best.1;
    from = inl (refl, refl);
    start = o.irreflexive best.1;
    top = tt;
  }
  best_index-Ends o weight best (s ∷ ss) n b0 = elim (Bool-cases (above (weight s) best.1)) [
    | inl e ↦
        (let r = best_index-Ends o weight (s.at, weight s) ss n b0.1 in
          let step : best_index q weight best (s ∷ ss) ≡ best_index q weight (s.at, weight s) ss =
            rw e refl in
          record {
            value = r.value;
            from = inr (taken r.from step);
            start =
                o.transitive best.1 (weight s) r.value (o.asymmetric (weight s) best.1 e) r.start;
            top = (r.start, r.top);
          })
    | inr e ↦
        (let r = best_index-Ends o weight best ss n b0.1 in
          let step : best_index q weight best (s ∷ ss) ≡ best_index q weight best ss = rw e refl in
          record {
            value = r.value;
            from = kept r.from step;
            start = r.start;
            top = (o.transitive (weight s) best.1 r.value e r.start, r.top);
          })
  ]
    where
      taken :
          {k m : ℕ} {v : F}
          → ((k ≡ s.at) × (v ≡ weight s))
            ⊎ ((r : PhotoScores F) × Mem r ss × (r.at < n) × (k ≡ r.at) × (v ≡ weight r))
          → m ≡ k
          → (r : PhotoScores F) × Mem r (s ∷ ss) × (r.at < n) × (m ≡ r.at) × (v ≡ weight r)
      taken (inl (a, b)) e = (s, mem-cons_self, b0.0, e ∙ a, b)
      taken (inr (r, m, l, a, b)) e = (r, mem-cons_of_mem s m, l, e ∙ a, b)

      kept :
          {k m : ℕ} {v : F}
          → ((k ≡ best.0) × (v ≡ best.1))
            ⊎ ((r : PhotoScores F) × Mem r ss × (r.at < n) × (k ≡ r.at) × (v ≡ weight r))
          → m ≡ k
          → ((m ≡ best.0) × (v ≡ best.1))
            ⊎ ((r : PhotoScores F) × Mem r (s ∷ ss) × (r.at < n) × (m ≡ r.at) × (v ≡ weight r))
      kept (inl (a, b)) e = inl (e ∙ a, b)
      kept (inr (r, m, l, a, b)) e = inr (r, mem-cons_of_mem s m, l, e ∙ a, b)

  pub best_photo-IsTop :
      IsOrder
      → (s : PhotoScores F) (ss : List (PhotoScores F)) (n : ℕ) → All (λ s. s.at < n) (s ∷ ss)
      → (best_photo q (s ∷ ss) < n) × IsTop (weighted q (s ∷ ss)) (best_photo q (s ∷ ss)) (s ∷ ss)
  unfolding best_photo
  best_photo-IsTop o s ss n a = of (best_index-Ends o weight (s.at, minus_infinity) (s ∷ ss) n a)
    where
      weight : PhotoScores F → F
      weight = weighted q (s ∷ ss)

      of :
          Ends n weight (s.at, minus_infinity) (s ∷ ss)
          → (best_index q weight (s.at, minus_infinity) (s ∷ ss) < n)
            × IsTop weight (best_index q weight (s.at, minus_infinity) (s ∷ ss)) (s ∷ ss)
      of e = elim e.from [
        | inl (k, v) ↦ (
          subst (λ z. z < n) (sym k) a.0,
          record {
            score = s;
            among = mem-cons_self;
            position = sym k;
            top =
                All-weaken
                  (λ r h.
                    o.transitive (weight r) minus_infinity (weight s)
                      (subst (λ z. above (weight r) z ≡ false) v h) (o.least (weight s)))
                  (s ∷ ss) e.top;
          },
        )
        | inr (r, m, l, k, v) ↦ (
          subst (λ z. z < n) (sym k) l,
          record {
            score = r;
            among = m;
            position = sym k;
            top = subst (λ z. All (λ x. above (weight x) z ≡ false) (s ∷ ss)) v e.top;
          },
        )
      ]
