-- ===== src/Tests/App.antt =====
-- internal/app with scores that are numbers, and a manager that counts its calls.
use mathlib.Core.List.{Permᴰ}
use mathlib.Core.List.Permᴰ
use cull_snap.Base.{
  ◌⊎◌, ℕ, suc, ◌<◌, ◌≤◌, List, [], ◌∷◌, ◌++◌, Bool, true, false, none, some, ltb, if◌then◌else◌,
  if_elim, length, ◌≡◌, refl, arith, All, All-weaken,
}
use cull_snap.Paths.{Name, same}
use cull_snap.Storage.Files.{Files, get_config}
use cull_snap.Storage.Tables.{get}
use cull_snap.Storage.Faces.{Faces, FaceDetection}
use cull_snap.Storage.Scores.{Analysis, AiScore}
use cull_snap.Vlm.Plans.{ExecutionPlan, build_execution_plan, tier_basic}
use cull_snap.App.Engine.{Engine, VlmScore, RankRequest}
use cull_snap.App.Describe.{vlm_photos, run_vlm_stage4}
use cull_snap.App.Describe.Again.{run_vlm_stage4-again, config_after}
use cull_snap.App.Describe.Top.{IsOrdered, Sorts, NotBelow, vlm_photos-IsTop}
use cull_snap.App.Rank.{rank_request, unique_paths, add_path, is_seen}
use cull_snap.App.Rank.Requests.{Distinct, photos_of, rank_request_bounds}
use cull_snap.App.Settings.{
  Machine, or_default, thumbs_in, text_local, load_or_init_config, persist_config,
}
use cull_snap.App.Settings.Loaded.{
  IsValid, load_or_init_config-IsValid, load_or_init_config-persist_config,
}
use cull_snap.Storage.Scores.{get_ai_score, get_vlm_score}

abbrev good_score : VlmScore ℕ
good_score = record {
  aesthetic = 7;
  composition = 6;
  expression = 5;
  technical_qual = 4;
  scene_type = [];
  issues = [];
  explanation = b'x' ∷ [];
  tokens_used = 9;
}

abbrev pub engine : Engine ℕ
engine = record {
  State = ℕ;
  score_photo = λ q s. (some good_score, suc s);
  rank_photos = λ q s. (none, suc s);
  provider_model_info = λ s. record { name = []; variant = []; backend = [] };
  custom_instructions = λ s. [];
  marshal = λ x. [];
  sum256 = λ x. [];
  above = λ a b. ltb b a;
  no_score = 0;
}

abbrev pub photo : ℕ → Name
photo c = b'/' ∷ b'd' ∷ b'/' ∷ c ∷ []

abbrev row : ℕ → ℕ → AiScore ℕ
row c n = record {
  photo_path = photo c;
  overall_score = n;
  face_count = 0;
  provider = [];
  aesthetic_score = n;
  sharpness_score = n;
  best_face_sharpness = 0;
  eye_openness = 0;
}

abbrev pub no_faces : Faces
no_faces = record { clusters = []; detections = []; next_cluster = 1; next_detection = 1 }

abbrev pub tables : Analysis ℕ
tables = record {
  faces = no_faces;
  ai_scores = row b'a' 3 ∷ row b'b' 8 ∷ [];
  vlm_scores = [];
  rankings = record { groups = []; ranked = [] };
  token_usage = [];
}

abbrev pub photos : List Name
photos = photo b'a' ∷ photo b'b' ∷ photo b'c' ∷ []

abbrev pub files : Files
files = record { selections = []; exported = []; ratings = []; app_config = [] }

module _ {A : Type 0} (lt : A → A → Bool) where
  abbrev pub insert : A → List A → List A
  insert x [] = x ∷ []
  insert x (y ∷ ys) = if lt y x then y ∷ insert x ys else x ∷ y ∷ ys

  abbrev pub sorted : List A → List A
  sorted [] = []
  sorted (x ∷ xs) = insert x (sorted xs)

  insert-Permᴰ : (x : A) (ys : List A) → Permᴰ (insert x ys) (x ∷ ys)
  insert-Permᴰ x [] = Permᴰ.refl (x ∷ [])
  insert-Permᴰ x (y ∷ ys) =
      if_elim (λ z. Permᴰ z (x ∷ y ∷ ys)) (lt y x)
        (λ e. Permᴰ.trans (Permᴰ.cons refl (insert-Permᴰ x ys)) (Permᴰ.swap refl refl))
        (λ e. Permᴰ.refl (x ∷ y ∷ ys))

  sorted-Permᴰ : (xs : List A) → Permᴰ (sorted xs) xs
  sorted-Permᴰ [] = Permᴰ.nil
  sorted-Permᴰ (x ∷ xs) =
      Permᴰ.trans (insert-Permᴰ x (sorted xs)) (Permᴰ.cons refl (sorted-Permᴰ xs))

  module _ (asym : (a b : A) → lt a b ≡ true → lt b a ≡ false)
      (trans : (a b c : A) → lt a b ≡ false → lt b c ≡ false → lt a c ≡ false) where
    All-insert : (P : A → Type 0) (x : A) (ys : List A) → P x → All P ys → All P (insert x ys)
    All-insert P x [] h a = (h, tt)
    All-insert P x (y ∷ ys) h a =
        if_elim (All P) (lt y x) (λ e. (a.0, All-insert P x ys h a.1)) (λ e. (h, a))

    insert-IsOrdered : (x : A) (ys : List A) → IsOrdered lt ys → IsOrdered lt (insert x ys)
    insert-IsOrdered x [] o = (tt, tt)
    insert-IsOrdered x (y ∷ ys) o =
        if_elim (IsOrdered lt) (lt y x)
          (λ e. (All-insert (λ z. lt z y ≡ false) x ys (asym y x e) o.0, insert-IsOrdered x ys o.1))
          (λ e. ((e, All-weaken (λ z h. trans z y x h e) ys o.0), o))

    sorted-IsOrdered : (xs : List A) → IsOrdered lt (sorted xs)
    sorted-IsOrdered [] = tt
    sorted-IsOrdered (x ∷ xs) = insert-IsOrdered x (sorted xs) (sorted-IsOrdered xs)

abbrev pub higher : (Name × ℕ) → (Name × ℕ) → Bool
higher a b = ltb b.1 a.1

sorted-Sorts : Sorts higher (sorted higher)
sorted-Sorts = record {
  permutes = sorted-Permᴰ higher;
  orders = sorted-IsOrdered higher (λ a b e. ground arith) (λ a b c e f. ground arith);
}

top_two : vlm_photos engine sorted 2 photos tables ≡ photo b'b' ∷ photo b'a' ∷ []
unfolding vlm_photos get_ai_score get same
top_two = refl

vlm_photos-IsTop_example :
    ((◌≡◌ {A = ℕ} 2 0) × (vlm_photos engine sorted 2 photos tables ≡ photos))
    ⊎ ((rest : List Name) × (length (vlm_photos engine sorted 2 photos tables) ≡ 2)
        × Permᴰ (vlm_photos engine sorted 2 photos tables ++ rest) photos
        × NotBelow engine tables (vlm_photos engine sorted 2 photos tables) rest)
vlm_photos-IsTop_example = vlm_photos-IsTop engine tables sorted sorted-Sorts 2 photos (omega arith)

abbrev plan : ExecutionPlan
plan = build_execution_plan 2 tier_basic

run_vlm_stage4-again_example :
    let first = (run_vlm_stage4 engine sorted [] [] (λ i. false) 10 photos plan tables 0 files).0 in
    let again =
      run_vlm_stage4 engine sorted [] [] (λ i. false) 10 photos plan first.tables 5 files in
    (again.0 ≡ record {
      tables = first.tables;
      manager = 5;
      total_tokens = 0;
      scored_count = 0;
      cache_hits = length (vlm_photos engine sorted plan.stage4_count photos tables);
    })
    × ((j : Name)
        → get_config j again.1
          ≡ config_after plan.hardware_tier
              (engine.provider_model_info 5)
              10
              (length (vlm_photos engine sorted plan.stage4_count photos tables))
              j
              (get_config j files))
run_vlm_stage4-again_example =
    run_vlm_stage4-again engine (λ q s e. cc) sorted [] [] [] 10 10 photos plan tables 0 5 files
      files refl

abbrev seen_in : ℕ → ℕ → FaceDetection
seen_in d c = record { id = d; photo_path = photo c; cluster_id = some 1 }

abbrev group : List FaceDetection
group = seen_in 1 b'a' ∷ seen_in 2 b'b' ∷ seen_in 3 b'a' ∷ []

abbrev group_request : RankRequest ℕ
group_request = record {
  photo_paths = photo b'a' ∷ photo b'b' ∷ [];
  token_budget = 280;
  photo_scores =
      (record { aesthetic = 0; sharpness = 0 }) ∷ (record { aesthetic = 0; sharpness = 0 }) ∷ [];
  custom_instructions = [];
}

group-request : rank_request engine [] group tables ≡ some group_request
unfolding rank_request unique_paths add_path is_seen get_vlm_score get same
group-request = refl

rank_request_bounds_example :
    (2 ≤ length group_request.photo_paths)
    × (length group_request.photo_paths ≤ 5)
    × Distinct group_request.photo_paths
    × All (λ p. is_seen p (photos_of group) ≡ true) group_request.photo_paths
    × (length group_request.photo_scores ≡ length group_request.photo_paths)
    × (length group_request.photo_paths < 5
        → All (λ d. is_seen d.photo_path group_request.photo_paths ≡ true) group)
rank_request_bounds_example = rank_request_bounds engine [] group tables group_request group-request

-- A cluster of two faces, with a ranking under its label.
abbrev folder : Name
folder = b'/' ∷ b'd' ∷ []

abbrev ranked : Analysis ℕ
ranked = record {
  faces = record {
    clusters =
        (record {
          id = 1;
          folder_path = folder;
          label = b'P' ∷ [];
          representative_path = photo b'a';
          photo_count = 2;
          hidden = false;
        })
        ∷ [];
    detections = group;
    next_cluster = 2;
    next_detection = 4;
  };
  ai_scores = [];
  vlm_scores = [];
  rankings = record {
    groups =
        (record {
          folder_path = folder;
          group_label = b'P' ∷ [];
          photo_count = 2;
          explanation = [];
          model_name = [];
          prompt_version = 1;
          custom_instructions_hash = [];
          rankings = [];
        })
        ∷ [];
    ranked = [];
  };
  token_usage = [];
}

abbrev laptop : Machine
laptop = record {
  is_darwin = false;
  num_cpu = 4;
  probe = record {
    os = [];
    arch = [];
    cpus = 4;
    ram_mb = 8000;
    fd_soft_limit = 1024;
    ffmpeg_ready = false;
    storage_hint = [];
  };
  user_cache_dir = b'/' ∷ b'c' ∷ [];
  user_home_dir = b'/' ∷ b'h' ∷ [];
  marshal = λ p. [];
}

load_or_init_config-IsValid_example : IsValid laptop (load_or_init_config laptop files).0
load_or_init_config-IsValid_example = load_or_init_config-IsValid laptop files refl

load_or_init_config-persist_config_example :
    let c = (load_or_init_config laptop files).0 in
    load_or_init_config laptop (persist_config laptop c files) ≡ (
      record c {
        cache_dir = or_default (thumbs_in laptop.user_cache_dir) c.cache_dir;
        ai_provider = or_default text_local c.ai_provider;
        probe = laptop.probe;
      },
      persist_config laptop c files,
    )
load_or_init_config-persist_config_example =
    load_or_init_config-persist_config laptop (load_or_init_config laptop files).0 files
      (load_or_init_config-IsValid laptop files refl)
