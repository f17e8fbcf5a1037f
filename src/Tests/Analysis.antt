-- ===== src/Tests/Analysis.antt =====
-- The analysis of a folder with three photos, whose embeddings are numbers.
use cull_snap.Base.{
  ℕ, ◌+◌, ◌*◌, ◌-◌, List, [], ◌∷◌, Bool, true, false, Option, some, ltb, length, take, ◌≡◌, refl,
  arith, All, none,
}
use cull_snap.Paths.{Name, same}
use cull_snap.Storage.Like.{like, lower}
use cull_snap.Storage.Faces.{FaceDetection, FaceCluster, may_refer, delete_face_clusters_for_folder}
use cull_snap.Storage.Faces.Calls.{get_face_detections}
use cull_snap.Storage.Faces.Linked.{IsConsistent}
use cull_snap.Storage.Scores.{Analysis, get_ai_score, get_ai_scores_for_folder}
use cull_snap.Scoring.Clusters.Merge.{count}
use cull_snap.Scoring.Clusters.Whole.{all_faces}
use cull_snap.Scoring.Clusters.{max_cluster_faces}
use cull_snap.Vlm.Plans.{tier_capable}
use cull_snap.App.Rank.{is_seen}
use cull_snap.App.People.{
  FaceEmbedding, Arithmetic, Person, similarity, run_face_clustering, load_embeddings,
}
use cull_snap.App.People.Saved.{IsClustered, embeddings, run_face_clustering-Clusters}
use cull_snap.App.Score.{CompositeScore, Scoring, score_photos}
use cull_snap.App.Score.Sums.{
  IsOrder, Counts, NotAbove, scored_or, successes, faces_found, score_photos-Sums, photos_of_faces,
}
use cull_snap.App.Analysis.{Circumstances, Setup, World, End, analysed, run_ai_analysis_pipeline}
use cull_snap.App.Analysis.Again.{IsSmooth, run_ai_analysis_pipeline-again}
use cull_snap.App.Analysis.Keeps.{SameScores}
use cull_snap.Tests.App.{engine, photo, tables, photos, files, sorted}

abbrev first_number : List ℕ → ℕ
first_number [] = 0
first_number (f ∷ fs) = f

abbrev first_embedding : List FaceEmbedding → List ℕ
first_embedding [] = []
first_embedding (f ∷ fs) = f.embedding

abbrev numbers : Arithmetic
numbers = record {
  Score = ℕ;
  average_embeddings = first_embedding;
  cosine_sim = λ a b. 100 - ((first_number a - first_number b) + (first_number b - first_number a));
  above = λ x y. ltb y x;
  below = ltb;
  lowest = 0;
  default_cluster_threshold = 90;
}

-- A photo with a face, whose embedding is one number.
abbrev portrait : CompositeScore ℕ
portrait = record {
  aesthetic_score = 5;
  sharpness_score = 6;
  best_face_sharp = 7;
  eye_openness = 1;
  face_count = 1;
  faces = 1;
  embeddings = (10 ∷ []) ∷ [];
  provider = [];
}

abbrev execute : Name → Option (CompositeScore ℕ)
execute p = some portrait

abbrev overall : CompositeScore ℕ → ℕ
overall c = c.aesthetic_score

abbrev seen_once : ℕ → Option ℕ → FaceDetection
seen_once d c = record { id = d; photo_path = photo b'a'; cluster_id = c }

-- Two detections in a photo with scores; the second belongs to an old cluster, which is hidden.
abbrev old_cluster : FaceCluster
old_cluster = record {
  id = 1;
  folder_path = b'/' ∷ b'd' ∷ [];
  label = [];
  representative_path = photo b'a';
  photo_count = 1;
  hidden = true;
}

abbrev peopled : Analysis ℕ
peopled = record tables {
  faces = record {
    clusters = old_cluster ∷ [];
    detections = seen_once 1 none ∷ seen_once 2 (some 1) ∷ [];
    next_cluster = 2;
    next_detection = 3;
  };
}

peopled-IsConsistent : IsConsistent peopled.faces
unfolding may_refer
peopled-IsConsistent = record {
  linked = (refl, (refl, tt));
  clusters_below = (omega arith, tt);
  detections_below = (omega arith, (omega arith, tt));
}

-- The bytes of an embedding, by the number of its detection.
abbrev column_of : ℕ → List ℕ
column_of d = 40 * d ∷ 0 ∷ 0 ∷ 0 ∷ []

two_faces : length (embeddings engine.above 0 column_of (b'/' ∷ b'd' ∷ []) peopled) ≡ 2
unfolding load_embeddings get_ai_scores_for_folder get_face_detections
    delete_face_clusters_for_folder like lower same
two_faces = refl

run_face_clustering-Clusters_example :
    (cs : List Person) × (u : Analysis ℕ) × (run_face_clustering engine.above 0 numbers column_of
        true
        (b'/' ∷ b'd' ∷ [])
        peopled
      ≡ some (length cs, u))
    × IsClustered engine.above 0 (b'/' ∷ b'd' ∷ []) peopled cs u
    × ((p : FaceEmbedding → Bool)
        → count p (all_faces (similarity numbers) cs)
          ≡ count p (
              take max_cluster_faces
                (embeddings engine.above 0 column_of (b'/' ∷ b'd' ∷ []) peopled)))
run_face_clustering-Clusters_example =
    run_face_clustering-Clusters engine.above 0 numbers column_of (b'/' ∷ b'd' ∷ []) peopled
      peopled-IsConsistent

above-IsOrder : IsOrder engine.above overall execute
above-IsOrder = record {
  irreflexive = λ a. ground arith;
  asymmetric = λ a b e. ground arith;
  transitive = λ a b c e f. ground arith;
}

abbrev begun : Scoring ℕ
begun = record {
  tables = tables;
  column = [];
  scored = 0;
  total_faces = 0;
  top_photo = [];
  top_score = 0;
}

score_photos-Sums_example :
    ((q : Name)
      → get_ai_score q (score_photos engine.above overall true execute photos begun).tables
        ≡ scored_or engine.above overall execute
            (get_ai_score q tables)
            q
            (is_seen q photos)
            (execute q))
    × Counts engine.above overall execute begun
        (score_photos engine.above overall true execute photos begun)
        (successes engine.above overall execute photos)
        (faces_found engine.above overall execute photos)
        (photos_of_faces engine.above overall execute photos)
    × All
        (λ p.
          NotAbove engine.above overall execute
            (score_photos engine.above overall true execute photos begun).top_score
            (execute p))
        photos
score_photos-Sums_example =
    score_photos-Sums engine.above overall execute above-IsOrder photos begun

abbrev setup : Setup ℕ
setup = record {
  engine = engine;
  arithmetic = numbers;
  overall_score = overall;
  minus_one = 0;
  sort = sorted;
  order_by = λ js. js;
  tier = tier_capable;
}

abbrev calm : Circumstances ℕ
calm = record {
  photos = some photos;
  is_changed = λ p. false;
  cancelled_filtering = λ i. false;
  cancelled_scoring = false;
  cancelled_describing = λ i. false;
  cancelled_ranking = λ i. false;
  taken = λ ps. ps;
  execute = execute;
  now = [];
  elapsed = 100;
}

calm-IsSmooth : IsSmooth setup calm
calm-IsSmooth = record {
  not_cancelled = λ i. refl;
  not_cancelled_scoring = refl;
  takes_all = λ p qs. refl;
  succeeds = λ p e. cc;
}

abbrev world : World ℕ ℕ
world = record { tables = tables; column = []; files = files; manager = some 0 }

run_ai_analysis_pipeline-again_example :
    (r : End ℕ) × (u : World ℕ ℕ) × (n : ℕ) × (t : Analysis ℕ) × (run_ai_analysis_pipeline setup
        calm
        (photo b'a')
        world
      ≡ some (r, u))
    × (run_ai_analysis_pipeline setup calm (photo b'a') u
        ≡ some (analysed 0 0 n [] 0, record u { tables = t }))
    × SameScores u.tables t
run_ai_analysis_pipeline-again_example =
    run_ai_analysis_pipeline-again setup calm (photo b'a') calm-IsSmooth calm (photo b'a')
      (photo b'b' ∷ photo b'c' ∷ []) world refl refl (λ i. refl) (λ q. refl)
