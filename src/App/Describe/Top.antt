-- ===== src/App/Describe/Top.antt =====
-- The adaptive threshold of stage 4 chooses the photos with the highest scores.
use mathlib.Core.Path.{subst}
use mathlib.Core.List.{Permᴰ}
use cull_snap.Base.{
  ◌⊎◌, ℕ, zero, suc, ◌<◌, List, [], ◌∷◌, ◌++◌, Bool, false, length, take, drop, map, ◌≡◌, refl, sym,
  ◌∙◌, ap, arith, All, lt→ltb, length-take, length-map, All-take, All-drop, inl, inr,
}
use cull_snap.Paths.{Name}
use cull_snap.Storage.Scores.{Analysis, get_ai_score}
use cull_snap.App.Engine.{Engine}
use cull_snap.App.Describe.{overall_or_zero, scored_photos, vlm_photos, suc}

-- No element is less than an earlier one.
abbrev pub IsOrdered : {A : Type 0} → (A → A → Bool) → List A → Type 0
IsOrdered lt [] = Unit
IsOrdered lt (x ∷ xs) = All (λ y. lt y x ≡ false) xs × IsOrdered lt xs

-- `sort.Slice` by one order.
pub record Sorts {A : Type 0} (lt : A → A → Bool) (sort : List A → List A) : Type 0 where
  pub permutes : (xs : List A) → Permᴰ (sort xs) xs
  pub orders : (xs : List A) → IsOrdered lt (sort xs)

All-Permᴰ : {A : Type 0} (P : A → Type 0) {xs ys : List A} → Permᴰ xs ys → All P ys → All P xs
All-Permᴰ P Permᴰ.nil a = tt
All-Permᴰ P (Permᴰ.cons q d) a = (subst P (sym q) a.0, All-Permᴰ P d a.1)
All-Permᴰ P (Permᴰ.swap q r) a = (subst P (sym q) a.1.0, (subst P (sym r) a.0, a.1.1))
All-Permᴰ P (Permᴰ.trans c d) a = All-Permᴰ P c (All-Permᴰ P d a)

pub map-Permᴰ :
    {A B : Type 0} (f : A → B) {xs ys : List A} → Permᴰ xs ys → Permᴰ (map f xs) (map f ys)
map-Permᴰ f Permᴰ.nil = Permᴰ.nil
map-Permᴰ f (Permᴰ.cons q d) = Permᴰ.cons (ap f q) (map-Permᴰ f d)
map-Permᴰ f (Permᴰ.swap q r) = Permᴰ.swap (ap f q) (ap f r)
map-Permᴰ f (Permᴰ.trans c d) = Permᴰ.trans (map-Permᴰ f c) (map-Permᴰ f d)

take-map-drop :
    {A B : Type 0} (f : A → B) (n : ℕ) (xs : List A)
    → map f (take n xs) ++ map f (drop n xs) ≡ map f xs
take-map-drop f zero xs = refl
take-map-drop f (suc n) [] = refl
take-map-drop f (suc n) (x ∷ xs) = rw (take-map-drop f n xs) refl

-- An element that is taken is not greater than one that is dropped.
take-IsOrdered :
    {A : Type 0} (lt : A → A → Bool) (n : ℕ) (xs : List A)
    → IsOrdered lt xs
    → All (λ x. All (λ y. lt y x ≡ false) (drop n xs)) (take n xs)
take-IsOrdered lt zero xs o = tt
take-IsOrdered lt (suc n) [] o = tt
take-IsOrdered lt (suc n) (x ∷ xs) o = (All-drop _ n xs o.0, take-IsOrdered lt n xs o.1)

length-Permᴰ : {A : Type 0} {xs ys : List A} → Permᴰ xs ys → length xs ≡ length ys
length-Permᴰ Permᴰ.nil = refl
length-Permᴰ (Permᴰ.cons q d) = ap suc (length-Permᴰ d)
length-Permᴰ (Permᴰ.swap q r) = refl
length-Permᴰ (Permᴰ.trans c d) = length-Permᴰ c ∙ length-Permᴰ d

module _ {F : Type 0} (e : Engine F) (t : Analysis F) where
  open e use {above}

  -- The score by which a photo is chosen.
  abbrev pub score_of : Name → F
  score_of p = overall_or_zero e (get_ai_score p t)

  -- Each entry has the score of its photo.
  abbrev IsScored : Name × F → Type 0
  IsScored q = q.1 ≡ score_of q.0

  scored_photos-IsScored : (photos : List Name) → All IsScored (scored_photos e photos t)
  scored_photos-IsScored [] = tt
  scored_photos-IsScored (p ∷ ps) = (refl, scored_photos-IsScored ps)

  map-scored_photos : (photos : List Name) → map (λ q. q.0) (scored_photos e photos t) ≡ photos
  map-scored_photos [] = refl
  map-scored_photos (p ∷ ps) = rw (map-scored_photos ps) refl

  -- By the scores of the entries, hence by those of the photos.
  abbrev pub NotBelow : List Name → List Name → Type 0
  NotBelow chosen rest = All (λ p. All (λ q. above (score_of q) (score_of p) ≡ false) rest) chosen

  by_photos :
      (xs ys : List (Name × F))
      → All IsScored xs
      → All IsScored ys
      → All (λ x. All (λ y. above y.1 x.1 ≡ false) ys) xs
      → NotBelow (map (λ q. q.0) xs) (map (λ q. q.0) ys)
  by_photos [] ys a b o = tt
  by_photos (x ∷ xs) ys a b o = (each ys b o.0, by_photos xs ys a.1 b o.1)
    where
      each :
          (zs : List (Name × F))
          → All IsScored zs
          → All (λ y. above y.1 x.1 ≡ false) zs
          → All (λ q. above (score_of q) (score_of x.0) ≡ false) (map (λ q. q.0) zs)
      each [] c d = tt
      each (z ∷ zs) c d = ((rw (sym c.0, sym a.0) d.0), each zs c.1 d.1)

  -- Let sort.Slice order its elements and lose none, and let more photos be given than the plan
  -- allows. If the plan allows none, stage 4 chooses all photos. Otherwise it chooses as many as
  -- the plan allows: the chosen photos and the others are the given ones in some order, and no other
  -- photo has a higher score than a chosen one, where a photo without a score counts as zero.
  pub vlm_photos-IsTop :
      (sort : ((Name × F) → (Name × F) → Bool) → List (Name × F) → List (Name × F))
      → Sorts (λ a b. above a.1 b.1) (sort (λ a b. above a.1 b.1))
      → (n : ℕ) (photos : List Name) → n < length photos
      → ((n ≡ 0) × (vlm_photos e sort n photos t ≡ photos))
        ⊎ ((rest : List Name) × (length (vlm_photos e sort n photos t) ≡ n)
            × Permᴰ (vlm_photos e sort n photos t ++ rest) photos
            × NotBelow (vlm_photos e sort n photos t) rest)
  unfolding vlm_photos
  vlm_photos-IsTop sort ok zero photos m = inl (refl, refl)
  vlm_photos-IsTop sort ok (suc k) photos m =
      let n = suc k in
      let l : 0 < n = omega arith in
      let entries = scored_photos e photos t in
      let s = sort (λ a b. above a.1 b.1) entries in
      let perm = ok.permutes entries in
      let scored = All-Permᴰ IsScored perm (scored_photos-IsScored photos) in
      let q : length (map (λ x. x.0) (take n s)) ≡ n = omega (
        arith,
        length-map (take n s) (λ x. x.0),
        length-take n s,
        length-Permᴰ perm,
        length-map {B = Name × F} photos (λ p. (p, overall_or_zero e (get_ai_score p t))),
      ) in
      let same_photos : Permᴰ (map (λ x. x.0) s) photos =
        subst (Permᴰ (map (λ x. x.0) s)) (map-scored_photos photos) (map-Permᴰ (λ x. x.0) perm) in
      inr (
        rw (lt→ltb 0 n l, lt→ltb n (length photos) m)
          (
            map (λ x. x.0) (drop n s),
            q,
            subst (λ z. Permᴰ z photos) (sym (take-map-drop (λ x. x.0) n s)) same_photos,
            by_photos (take n s) (drop n s) (All-take IsScored n s scored)
                (All-drop IsScored n s scored)
                (take-IsOrdered (λ a b. above a.1 b.1) n s (ok.orders entries)),
          ))
