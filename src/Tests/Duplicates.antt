-- ===== src/Tests/Duplicates.antt =====
-- The choice of the best photos, and the whole search for duplicates, on the photos of Tests/Dedupe,
-- where numbers stand for float64.
use cull_snap.Base.{
  ℕ, ◌+◌, ◌-◌, ◌*◌, ◌/◌, List, [], ◌∷◌, ◌≡◌, refl, true, false, Option, none, some, leb, ltb, map,
  All, arith,
}
use cull_snap.Paths.{Name}
use cull_snap.Dedupe.Best.{
  median, collect_scores, best_photo, best_index, weighted, normalized, min_of, max_of, flag,
  Quality, Measured, choose_best, find_best_photos, collect_scores, best_photo, best_index,
  weighted, normalized, median,
}
use cull_snap.Dedupe.Best.Top.{IsOrder}
use cull_snap.Dedupe.Best.Chosen.{IsBest, find_best_photos-IsBest}
use cull_snap.App.Duplicates.{Search, Library}
use cull_snap.App.Duplicates.Accounts.{Accounts}
use cull_snap.Tests.Dedupe.{apart, file, value_of, entries, never, result}
use cull_snap.Tests.Mover.{across_drives}

-- The larger the first letter of a name, the sharper the image.
abbrev sharp : Name → Option (Measured ℕ)
sharp [] = none
sharp (c ∷ cs) = some (record {
  sharpness = c;
  noise = 1;
  contrast = 1;
  mean_luminance = 100;
  highlight_clip = 0;
  shadow_clip = 0;
})

abbrev quality : Quality ℕ
quality = record {
  above = λ a b. ltb b a;
  is_float_zero = λ a. leb a 0;
  plus = λ a b. a + b;
  minus = λ a b. a - b;
  times = λ a b. a * b;
  over = λ a b. 10 * a / b;
  half = 5;
  one = 10;
  minus_infinity = 0;
  sort_floats = λ vs. vs;
  measure = sharp;
  exposure_score = λ m middle. 1;
  weight_sharpness = 50;
  weight_exposure = 25;
  weight_noise = 15;
  weight_contrast = 10;
  ai_face_weight = 4;
}

quality-IsOrder : IsOrder quality
quality-IsOrder = record {
  irreflexive = λ a. ground arith;
  asymmetric = λ a b h. ground arith;
  transitive = λ a b c h k. ground arith;
  least = λ a. ground arith;
}

abbrev no_ai : Name → Option ℕ
no_ai p = none

-- Of the photos 10 and 12, the second is marked.
second_marked :
    map (map (λ p. p.is_unique)) (map (choose_best quality no_ai) result)
    ≡ (false ∷ true ∷ []) ∷ (true ∷ []) ∷ []
unfolding choose_best collect_scores best_photo best_index weighted normalized median min_of max_of
    flag
second_marked = refl

find_best_photos-IsBest_example :
    (find_best_photos quality no_ai never 0 result ≡ some (map (choose_best quality no_ai) result))
    × All (λ g. IsBest quality no_ai g (choose_best quality no_ai g)) result
find_best_photos-IsBest_example =
    find_best_photos-IsBest quality no_ai quality-IsOrder never (λ i. refl) 0 result

abbrev search : Search ℕ ℕ
search = record {
  order_recents = λ rs. rs;
  now = 1;
  entries = entries;
  distance = apart;
  hash = value_of;
  done_hash = never;
  done_group = never;
  quality = quality;
  ai_score_of = no_ai;
  done_best = never;
  sort = λ lt ms. ms;
  done_sort = never;
  date_cache = λ p. none;
  extract_date = λ p. none;
  system = across_drives;
  done_move = never;
  stat = λ p. some (100, 7);
}

abbrev library : Library
library = record { recents = []; disk = record { path = file 10; content = 1 ∷ [] } ∷ [] }
