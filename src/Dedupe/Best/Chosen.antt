-- ===== src/Dedupe/Best/Chosen.antt =====
-- Which photo of a group is marked by `FindBestPhotos`.
use cull_snap.Scoring.Clusters.Merge.{count}
use mathlib.Core.Path.{subst}
use Prim.Native.Nat.{min}
use cull_snap.Paths.{Name}
use cull_snap.Base.{
  ℕ, zero, suc, ◌+◌, ◌==◌, ◌≤◌, ◌<◌, List, [], ◌∷◌, Bool, true, false, ◌≡◌, refl, sym, ◌∙◌, All,
  ◌⊎◌, inl, inr, none, All-weaken, Option, map, length, arith, some, ap,
}
use cull_snap.Dedupe.Groups.{PhotoInfo, Group, shared}
use cull_snap.Dedupe.Best.{
  Quality, PhotoScores, weighted, best_photo, collect_scores, flag, Measured, measured_photo,
  added_scores, choose_best, find_best_photos, Measured, added_scores, measured_photo,
}
use cull_snap.Dedupe.Best.Top.{IsOrder, IsTop, best_photo-IsTop}

abbrev pub is_marked : {H : Type 0} → PhotoInfo H → Bool
is_marked p = p.is_unique

-- Whether the photo with this number is marked.
abbrev pub marked_at : {H : Type 0} → ℕ → Group H → Bool
marked_at k [] = false
marked_at zero (p ∷ ps) = p.is_unique
marked_at (suc k) (p ∷ ps) = marked_at k ps

module _ {F : Type 0} (q : Quality F) where
  module _ {H : Type 0} (ai_score_of : Name → Option F) where
    collect_bounds :
        (i : ℕ) (g : Group H) → All (λ s. s.at < i + length g) (collect_scores q ai_score_of i g)
    unfolding collect_scores
    collect_bounds i [] = tt
    collect_bounds i (p ∷ ps) = with_scores (measured_photo q p.path p.hash) (
        All-weaken (λ s l. omega arith) (collect_scores q ai_score_of (suc i) ps)
          (collect_bounds (suc i) ps))
      where
        with_scores :
            (m : Option (Measured F))
            → All (λ s. s.at < i + suc (length ps)) (collect_scores q ai_score_of (suc i) ps)
            → All
                (λ s. s.at < i + suc (length ps))
                (added_scores q ai_score_of i p.path m (collect_scores q ai_score_of (suc i) ps))
        with_scores none a = a
        with_scores (some m) a = (omega arith, a)

    -- Marks change nothing else.
    flag_same : (k i : ℕ) (g : Group H) → map shared (flag q k i g) ≡ map shared g
    unfolding flag
    flag_same k i [] = refl
    flag_same k i (p ∷ ps) = ap (λ ps. shared p ∷ ps) (flag_same k (suc i) ps)

    count-flag_none : (k i : ℕ) (g : Group H) → k < i → count is_marked (flag q k i g) ≡ 0
    unfolding flag
    count-flag_none k i [] l = refl
    count-flag_none k i (p ∷ ps) l =
        let e : (i == k) ≡ false = ground arith in
        rw (e, count-flag_none k (suc i) ps (omega arith)) refl

    -- Exactly one photo is marked.
    count-flag :
        (j i : ℕ) (g : Group H)
        → j < length g
        → (count is_marked (flag q (i + j) i g) ≡ 1) × (marked_at j (flag q (i + j) i g) ≡ true)
    unfolding flag
    count-flag j i [] l = absurd (omega (arith, l))
    count-flag zero i (p ∷ ps) l =
        let e : (i == i + 0) ≡ true = ground arith in
        rw (e, count-flag_none (i + 0) (suc i) ps (omega arith)) (refl, refl)
    count-flag (suc j) i (p ∷ ps) l =
        let e : (i == suc i + j) ≡ false = ground arith in
        let k : i + suc j ≡ suc i + j = omega arith in
        let rest = count-flag j (suc i) ps (omega arith) in
        subst
          (λ z.
            (count is_marked (flag q z i (p ∷ ps)) ≡ 1)
            × (marked_at (suc j) (flag q z i (p ∷ ps)) ≡ true))
          (sym k) (rw e (omega (arith, rest.0), rest.1))

    -- What `FindBestPhotos` makes of a group: only the marks change, one photo is marked if there is
    -- one; and if two or more photos were compared, the marked one is measured and no other has
    -- more weight.
    pub record IsBest (g h : Group H) : Type 0 where
      pub same : map shared h ≡ map shared g
      pub one : count is_marked h ≡ min 1 (length g)
      pub best :
          (length g ≤ 1)
          ⊎ (collect_scores q ai_score_of 0 g ≡ [])
          ⊎ ((k : ℕ) × (marked_at k h ≡ true)
              × IsTop q
                  (weighted q (collect_scores q ai_score_of 0 g))
                  k
                  (collect_scores q ai_score_of 0 g))

    choose_best-IsBest : IsOrder q → (g : Group H) → IsBest g (choose_best q ai_score_of g)
    unfolding choose_best
    choose_best-IsBest o [] = record { same = refl; one = refl; best = inl (omega arith) }
    choose_best-IsBest o (p ∷ []) = record { same = refl; one = refl; best = inl (omega arith) }
    choose_best-IsBest o (p ∷ r ∷ ps) = of (collect_scores q ai_score_of 0 (p ∷ r ∷ ps)) refl (
        All-weaken (λ s l. omega (arith, l)) (collect_scores q ai_score_of 0 (p ∷ r ∷ ps))
          (collect_bounds 0 (p ∷ r ∷ ps)))
      where
        scores : List (PhotoScores F)
        scores = collect_scores q ai_score_of 0 (p ∷ r ∷ ps)

        marked :
            (k : ℕ)
            → k < length (p ∷ r ∷ ps)
            → (scores ≡ []) ⊎ IsTop q (weighted q scores) k scores
            → IsBest (p ∷ r ∷ ps) (flag q k 0 (p ∷ r ∷ ps))
        marked k l t =
            let marks = count-flag k 0 (p ∷ r ∷ ps) l in
            let zero_k : 0 + k ≡ k = omega arith in
            let least : min 1 (length (p ∷ r ∷ ps)) ≡ 1 = omega arith in
            let one : count is_marked (flag q k 0 (p ∷ r ∷ ps)) ≡ 1 =
              subst (λ z. count is_marked (flag q z 0 (p ∷ r ∷ ps)) ≡ 1) zero_k marks.0 in
            let here : marked_at k (flag q k 0 (p ∷ r ∷ ps)) ≡ true =
              subst (λ z. marked_at k (flag q z 0 (p ∷ r ∷ ps)) ≡ true) zero_k marks.1 in
            record {
              same = flag_same k 0 (p ∷ r ∷ ps);
              one = one ∙ sym least;
              best = inr (elim t [ inl e ↦ inl e | inr top ↦ inr (k, here, top) ]);
            }

        of :
            (ss : List (PhotoScores F))
            → scores ≡ ss
            → All (λ s. s.at < length (p ∷ r ∷ ps)) scores
            → IsBest (p ∷ r ∷ ps) (flag q (best_photo q scores) 0 (p ∷ r ∷ ps))
        of [] e a =
            let k : best_photo q scores ≡ 0 = ap (best_photo q) e ∙ (unfold best_photo in refl) in
            subst (λ z. IsBest (p ∷ r ∷ ps) (flag q z 0 (p ∷ r ∷ ps))) (sym k)
              (marked 0 (omega arith) (inl e))
        of (s ∷ ss) e a =
            let chosen =
              best_photo-IsTop q o s ss (length (p ∷ r ∷ ps))
                (subst (All (λ s. s.at < length (p ∷ r ∷ ps))) e a) in
            subst (λ z. IsBest (p ∷ r ∷ ps) (flag q z 0 (p ∷ r ∷ ps))) (sym (ap (best_photo q) e))
              (marked (best_photo q (s ∷ ss)) chosen.0 (
                inr
                  (subst (λ z. IsTop q (weighted q z) (best_photo q (s ∷ ss)) z) (sym e) chosen.1)))

    -- While the context is not cancelled, FindBestPhotos ends on every group. It changes only the
    -- marks; in each group that is not empty exactly one photo is marked; and in a group of two or
    -- more in which an image can be measured, the marked photo is a measured one and no measured
    -- photo of the group has a higher weighted score, where the scores are ordered as numbers are.
    pub find_best_photos-IsBest :
        IsOrder q
        → (done : ℕ → Bool) → ((i : ℕ) → done i ≡ false)
        → (i : ℕ) (gs : List (Group H))
        → (find_best_photos q ai_score_of done i gs ≡ some (map (choose_best q ai_score_of) gs))
          × All (λ g. IsBest g (choose_best q ai_score_of g)) gs
    unfolding find_best_photos
    find_best_photos-IsBest o done never i [] = (refl, tt)
    find_best_photos-IsBest o done never i (g ∷ gs) =
        let rest = find_best_photos-IsBest o done never (suc i) gs in
        (rw (never i, rest.0) refl, (choose_best-IsBest o g, rest.1))
