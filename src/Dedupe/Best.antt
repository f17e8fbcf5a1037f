-- ===== src/Dedupe/Best.antt =====
-- internal/dedupe/quality.go: `FindBestPhotos`. What is measured of an image (`none` if it cannot be
-- loaded or is too small), `ExposureScore` and the arithmetic of float64 are an interface. The photo
-- that the source holds by a pointer is a position in its group here.
pub mod Top
pub mod Chosen
use cull_snap.Base.{
  ℕ, zero, suc, ◌+◌, ◌/◌, List, [], ◌∷◌, Bool, true, false, ◌==◌, ◌&&◌, ◌||◌, not, Option, none,
  some, if◌then◌else◌, map, length,
}
use cull_snap.Paths.{Name}
use cull_snap.Dedupe.Groups.{PhotoInfo, Group}

-- The numbers of `photoScores` that are measured.
pub record Measured (F : Type 0) : Type 0 where
  pub sharpness : F
  pub noise : F
  pub contrast : F
  pub mean_luminance : F
  pub highlight_clip : F
  pub shadow_clip : F

-- `photoScores`; the AI score and its flag are one field.
pub record PhotoScores (F : Type 0) : Type 0 where
  pub at : ℕ
  pub measured : Measured F
  pub ai_face_score : Option F

-- float64, `sort.Float64s`, which keeps the number of values, and the weights.
pub record Quality (F : Type 0) : Type 0 where
  pub above : F → F → Bool
  pub is_float_zero : F → Bool
  pub plus : F → F → F
  pub minus : F → F → F
  pub times : F → F → F
  pub over : F → F → F
  pub half : F
  pub one : F
  pub minus_infinity : F
  pub sort_floats : List F → List F
  pub measure : Name → Option (Measured F)
  pub exposure_score : Measured F → F → F
  pub weight_sharpness : F
  pub weight_exposure : F
  pub weight_noise : F
  pub weight_contrast : F
  pub ai_face_weight : F

module _ {F : Type 0} (q : Quality F) where
  open q use {
    above, is_float_zero, plus, minus, times, over, half, one, minus_infinity, sort_floats, measure,
    exposure_score, weight_sharpness, weight_exposure, weight_noise, weight_contrast,
    ai_face_weight,
  }

  -- The smallest of a value and others.
  unfoldable pub min_of : F → List F → F
  min_of m [] = m
  min_of m (v ∷ vs) = min_of (if above m v then v else m) vs

  unfoldable pub max_of : F → List F → F
  max_of m [] = m
  max_of m (v ∷ vs) = max_of (if above v m then v else m) vs

  -- The value that `normalizeMinMax` puts for one of its values.
  unfoldable pub normalized : List F → F → F
  unfolding min_of max_of
  normalized [] v = v
  normalized (x ∷ xs) v =
      let low = min_of x xs in
      let range = minus (max_of x xs) low in
      if is_float_zero range then half else over (minus v low) range

  -- The element with this number, which the caller has.
  abbrev pub nth : F → ℕ → List F → F
  nth d i [] = d
  nth d zero (v ∷ vs) = v
  nth d (suc i) (v ∷ vs) = nth d i vs

  unfoldable pub median : List F → F
  median vs = nth half (length vs / 2) (sort_floats vs)

  abbrev pub blended : F → Option F → F
  blended base none = base
  blended base (some a) = plus (times base (minus one ai_face_weight)) (times a ai_face_weight)

  -- `weighted`, for a photo among these.
  unfoldable pub weighted : List (PhotoScores F) → PhotoScores F → F
  unfolding normalized median
  weighted scores s =
      let middle = median (map (λ r. r.measured.mean_luminance) scores) in
      let exposure = λ (r : PhotoScores F). exposure_score r.measured middle in
      let sharpness = normalized (map (λ r. r.measured.sharpness) scores) s.measured.sharpness in
      let exposed = normalized (map exposure scores) (exposure s) in
      let noise = normalized (map (λ r. r.measured.noise) scores) s.measured.noise in
      let contrast = normalized (map (λ r. r.measured.contrast) scores) s.measured.contrast in
      let base =
        plus
          (plus (plus (times weight_sharpness sharpness) (times weight_exposure exposed))
            (times weight_noise (minus one noise)))
          (times weight_contrast contrast) in
      blended base s.ai_face_score

  -- The loop with `bestIdx` and `bestScore`, where the first is the position in the group.
  unfoldable pub best_index : (PhotoScores F → F) → ℕ × F → List (PhotoScores F) → ℕ
  best_index weight best [] = best.0
  best_index weight best (s ∷ ss) =
      best_index weight (if above (weight s) best.1 then (s.at, weight s) else best) ss

  -- The position of `bestPhoto`, or of the first photo if there is none.
  unfoldable pub best_photo : List (PhotoScores F) → ℕ
  unfolding weighted best_index
  best_photo [] = 0
  best_photo (s ∷ ss) = best_index (weighted (s ∷ ss)) (s.at, minus_infinity) (s ∷ ss)

  abbrev pub added_scores :
      (Name → Option F)
      → ℕ
      → Name
      → Option (Measured F)
      → List (PhotoScores F)
      → List (PhotoScores F)
  added_scores ai_score_of i p none rest = rest
  added_scores ai_score_of i p (some m) rest =
      record { at = i; measured = m; ai_face_score = ai_score_of p } ∷ rest

  module _ {H : Type 0} where
    abbrev pub measured_photo : Name → Option H → Option (Measured F)
    measured_photo p none = none
    measured_photo p (some h) = measure p

    -- The flags, for the photos of a group from the i-th on.
    unfoldable pub flag : ℕ → ℕ → Group H → Group H
    flag k i [] = []
    flag k i (p ∷ ps) = record p { is_unique = i == k } ∷ flag k (suc i) ps

    abbrev pub is_single : Group H → Bool
    is_single g = length g == 0 || length g == 1

    abbrev pub with_group : Group H → Option (List (Group H)) → Option (List (Group H))
    with_group g none = none
    with_group g (some gs) = some (g ∷ gs)

    module _ (ai_score_of : Name → Option F) where
      -- The loop over the photos of a group, from the i-th on.
      unfoldable pub collect_scores : ℕ → Group H → List (PhotoScores F)
      collect_scores i [] = []
      collect_scores i (p ∷ ps) =
          added_scores ai_score_of i p.path (measured_photo p.path p.hash)
            (collect_scores (suc i) ps)

      unfoldable pub choose_best : Group H → Group H
      unfolding collect_scores best_photo flag
      choose_best [] = []
      choose_best (p ∷ []) = record p { is_unique = true } ∷ []
      choose_best (p ∷ r ∷ ps) = flag (best_photo (collect_scores 0 (p ∷ r ∷ ps))) 0 (p ∷ r ∷ ps)

      -- `FindBestPhotos`, from the i-th group on; `none` if the goroutine of a group found the context
      -- cancelled.
      unfoldable pub find_best_photos : (ℕ → Bool) → ℕ → List (Group H) → Option (List (Group H))
      unfolding choose_best
      find_best_photos done i [] = some []
      find_best_photos done i (g ∷ gs) =
          let rest = with_group (choose_best g) (find_best_photos done (suc i) gs) in
          if done i && not (is_single g) then none else rest
