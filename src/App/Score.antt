-- ===== src/App/Score.antt =====
-- internal/app/ai_methods.go: `scoreAndSavePhoto` and the workers that call it. Reading, decoding and the
-- pipeline are one argument, without a result when one of them fails; the workers take the photos in
-- any order, one after another. Writing to the database does not fail, and events are left out. The
-- column of embeddings stands beside the table of detections, by their numbers.
pub mod Sums
use cull_snap.Base.{
  ℕ, zero, suc, ◌+◌, List, [], ◌∷◌, ◌++◌, Bool, true, false, ◌==◌, Option, none, some,
  if◌then◌else◌, length,
}
use cull_snap.Paths.{Name}
use cull_snap.Storage.Faces.{Faces, save_face_detection}
use cull_snap.Storage.Faces.Calls.{saved_or}
use cull_snap.Storage.Scores.{AiScore, Analysis, save_ai_score}
use cull_snap.App.People.{float32_slice_to_bytes}

-- `scoring.CompositeScore`: the scores, and for each face its embedding, if there is one.
pub record CompositeScore (F : Type 0) : Type 0 where
  pub aesthetic_score : F
  pub sharpness_score : F
  pub best_face_sharp : F
  pub eye_openness : F
  pub face_count : ℕ
  pub faces : ℕ
  pub embeddings : List (List ℕ)
  pub provider : Name

-- The database and the counters of the stage.
pub record Scoring (F : Type 0) : Type 0 where
  pub tables : Analysis F
  pub column : List (ℕ × List ℕ)
  pub scored : ℕ
  pub total_faces : ℕ
  pub top_photo : Name
  pub top_score : F

-- The embedding of a detection, or no bytes.
unfoldable pub stored : List (ℕ × List ℕ) → ℕ → List ℕ
stored [] d = []
stored (e ∷ es) d = let rest = stored es d in if e.0 == d then e.1 else rest

abbrev pub embedding_at : List (List ℕ) → ℕ → List ℕ
embedding_at [] i = []
embedding_at (e ∷ es) zero = e
embedding_at (e ∷ es) (suc i) = embedding_at es i

abbrev pub store_embedding : ℕ → List ℕ → List (ℕ × List ℕ) → List (ℕ × List ℕ)
store_embedding d [] column = column
store_embedding d (f ∷ fs) column = (d, float32_slice_to_bytes (f ∷ fs)) ∷ column

-- The loop over the faces: those from the one numbered `i` on, so many of them.
unfoldable pub save_faces :
    Bool → Name → List (List ℕ) → (n i : ℕ) → Faces × List (ℕ × List ℕ) → Faces × List (ℕ × List ℕ)
save_faces fk photo es zero i s = s
save_faces fk photo es (suc n) i s = save_faces fk photo es n (suc i) (
  saved_or s.0 (save_face_detection fk photo none s.0),
  store_embedding s.0.next_detection (embedding_at es i) s.1,
)

module _ {F : Type 0} (above : F → F → Bool) (overall_score : CompositeScore F → F) where
  abbrev pub ai_score : Name → CompositeScore F → AiScore F
  ai_score p c = record {
    photo_path = p;
    overall_score = overall_score c;
    face_count = c.face_count;
    provider = c.provider;
    aesthetic_score = c.aesthetic_score;
    sharpness_score = c.sharpness_score;
    best_face_sharpness = c.best_face_sharp;
    eye_openness = c.eye_openness;
  }

  -- From the saving of the score on.
  abbrev pub save_score : Bool → Name → Option (CompositeScore F) → Scoring F → Scoring F
  save_score fk p none r = r
  save_score fk p (some c) r =
      let t = save_ai_score (ai_score p c) r.tables in
      let saved = save_faces fk p c.embeddings c.faces 0 (t.faces, r.column) in
      let is_top = above (overall_score c) r.top_score in
      record {
        tables = record t { faces = saved.0 };
        column = saved.1;
        scored = suc r.scored;
        total_faces = r.total_faces + c.faces;
        top_photo = if is_top then p else r.top_photo;
        top_score = if is_top then overall_score c else r.top_score;
      }

  unfoldable pub score_and_save_photo :
      Bool → (Name → Option (CompositeScore F)) → Name → Scoring F → Scoring F
  unfolding save_faces
  score_and_save_photo fk execute p r = save_score fk p (execute p) r

  -- The workers, in the order in which they take the photos.
  unfoldable pub score_photos :
      Bool → (Name → Option (CompositeScore F)) → List Name → Scoring F → Scoring F
  unfolding score_and_save_photo
  score_photos fk execute [] r = r
  score_photos fk execute (p ∷ ps) r =
      score_photos fk execute ps (score_and_save_photo fk execute p r)
