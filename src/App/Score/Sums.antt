-- ===== src/App/Score/Sums.antt =====
-- What the scoring of photos leaves, whatever the order of the workers.
use cull_snap.Base.{
  ◌++◌, ◌||◌, ℕ, zero, suc, ◌+◌, List, [], ◌∷◌, Bool, true, false, Option, none, some,
  if◌then◌else◌, if_elim, ◌≡◌, refl, sym, ◌∙◌, ap, arith, All, replicate, map,
}
use cull_snap.Paths.{Name, same}
use mathlib.Core.List.{append-nil, append_assoc, map-append}
use cull_snap.Storage.Tables.{same_eq, get-put}
use cull_snap.Storage.Faces.{Faces, save_face_detection, may_refer, FaceDetection}
use cull_snap.Storage.Faces.Calls.{save_detection, run}
use cull_snap.Storage.Faces.Linked.{IsConsistent}
use cull_snap.Storage.Faces.Keeps.{run-IsConsistent}
use cull_snap.Storage.Scores.{AiScore, ai_score_key, get_ai_score, save_ai_score}
use cull_snap.App.Rank.{is_seen}
use cull_snap.App.Score.{
  CompositeScore, Scoring, save_faces, ai_score, save_score, score_and_save_photo, score_photos,
}

save_faces-IsConsistent :
    (photo : Name) (es : List (List ℕ)) (n i : ℕ) (s : Faces × List (ℕ × List ℕ))
    → IsConsistent s.0
    → IsConsistent (save_faces true photo es n i s).0
unfolding save_faces
save_faces-IsConsistent photo es zero i s v = v
save_faces-IsConsistent photo es (suc n) i s v =
    save_faces-IsConsistent photo es n (suc i) _
      (unfold run in run-IsConsistent (save_detection photo none) s.0 v)

-- The detections that were added, by the photos that they show.
abbrev pub IsAdded : List FaceDetection → List FaceDetection → List Name → Type 0
IsAdded ds ds' photos =
    (added : List FaceDetection) × (ds' ≡ ds ++ added) × (map (λ d. d.photo_path) added ≡ photos)

IsAdded-trans :
    (ds es fs : List FaceDetection) (ps qs : List Name)
    → IsAdded ds es ps
    → IsAdded es fs qs
    → IsAdded ds fs (ps ++ qs)
IsAdded-trans ds es fs ps qs (xs, e, h) (ys, d, k) = (
  xs ++ ys,
  d ∙ ap (λ z. z ++ ys) e ∙ append_assoc ds xs ys,
  map-append (λ d. d.photo_path) xs ys ∙ rw (h, k) refl,
)

save_faces-IsAdded :
    (fk : Bool) (photo : Name) (es : List (List ℕ)) (n i : ℕ) (s : Faces × List (ℕ × List ℕ))
    → IsAdded s.0.detections (save_faces fk photo es n i s).0.detections (replicate n photo)
unfolding save_faces save_face_detection may_refer
save_faces-IsAdded fk photo es zero i s = ([], sym (append-nil s.0.detections), refl)
save_faces-IsAdded fk photo es (suc n) i s =
    let row : FaceDetection = record {
      id = s.0.next_detection;
      photo_path = photo;
      cluster_id = none;
    } in
    IsAdded-trans s.0.detections (s.0.detections ++ row ∷ []) _ (photo ∷ []) (replicate n photo)
      (row ∷ [], refl, refl) (save_faces-IsAdded fk photo es n (suc i) _)

module _ {F : Type 0} (above : F → F → Bool) (overall_score : CompositeScore F → F)
    (execute : Name → Option (CompositeScore F)) where
  -- The row of a photo that is scored, or the old one.
  abbrev pub scored_or :
      Option (AiScore F) → Name → Bool → Option (CompositeScore F) → Option (AiScore F)
  scored_or old p false o = old
  scored_or old p true none = old
  scored_or old p true (some c) = some (ai_score above overall_score p c)

  abbrev one_of : Option (CompositeScore F) → ℕ
  one_of none = 0
  one_of (some c) = 1

  abbrev faces_of : Option (CompositeScore F) → ℕ
  faces_of none = 0
  faces_of (some c) = c.faces

  -- How many of the photos have a score, and how many faces they show.
  abbrev pub successes : List Name → ℕ
  successes [] = 0
  successes (p ∷ ps) = one_of (execute p) + successes ps

  abbrev pub faces_found : List Name → ℕ
  faces_found [] = 0
  faces_found (p ∷ ps) = faces_of (execute p) + faces_found ps

  -- Each photo, as often as it shows a face.
  abbrev pub photos_of_faces : List Name → List Name
  photos_of_faces [] = []
  photos_of_faces (p ∷ ps) = replicate (faces_of (execute p)) p ++ photos_of_faces ps

  get_ai_score-saved :
      (fk : Bool) (p q : Name) (c : CompositeScore F) (r : Scoring F)
      → get_ai_score q (save_score above overall_score fk p (some c) r).tables
        ≡ (if same p q then some (ai_score above overall_score p c) else get_ai_score q r.tables)
  unfolding get_ai_score save_ai_score
  get_ai_score-saved fk p q c r =
      get-put ai_score_key q (ai_score above overall_score p c) r.tables.ai_scores

  scored_none : (q : Name) (old : Option (AiScore F)) (b : Bool) → scored_or old q b none ≡ old
  scored_none q old true = refl
  scored_none q old false = refl

  scored_same :
      {p q : Name}
      → p ≡ q
      → (c : CompositeScore F) (b : Bool)
      → scored_or (some (ai_score above overall_score p c)) q b (some c)
        ≡ some (ai_score above overall_score q c)
  scored_same e c true = refl
  scored_same e c false = ap (λ z. some (ai_score above overall_score z c)) e

  pub get_ai_score-score_photos :
      (fk : Bool) (q : Name) (ps : List Name) (r : Scoring F)
      → get_ai_score q (score_photos above overall_score fk execute ps r).tables
        ≡ scored_or (get_ai_score q r.tables) q (is_seen q ps) (execute q)
  unfolding score_photos is_seen score_and_save_photo
  get_ai_score-score_photos fk q [] r = refl
  get_ai_score-score_photos fk q (p ∷ ps) r =
      get_ai_score-score_photos fk q ps (score_and_save_photo above overall_score fk execute p r)
      ∙ step (execute p) (same p q) refl refl
    where
      step :
          (o : Option (CompositeScore F)) (b : Bool)
          → execute p ≡ o
          → same p q ≡ b
          → scored_or
              (get_ai_score q (save_score above overall_score fk p o r).tables)
              q
              (is_seen q ps)
              (execute q)
            ≡ scored_or (get_ai_score q r.tables) q (b || is_seen q ps) (execute q)
      step none false e h = refl
      step none true e h =
          rw (ap execute (sym (same_eq p q h)) ∙ e)
            (scored_none q (get_ai_score q r.tables) (is_seen q ps))
      step (some c) false e h =
          ap (λ z. scored_or z q (is_seen q ps) (execute q))
            (get_ai_score-saved fk p q c r ∙ rw h refl)
      step (some c) true e h =
          let k : execute q ≡ some c = ap execute (sym (same_eq p q h)) ∙ e in
          rw (get_ai_score-saved fk p q c r, h, k) (scored_same (same_eq p q h) c (is_seen q ps))

  -- What is counted, and the detections that are added.
  pub record Counts (r r' : Scoring F) (n k : ℕ) (photos : List Name) : Type 0 where
    pub scored : r'.scored ≡ r.scored + n
    pub total_faces : r'.total_faces ≡ r.total_faces + k
    pub detections : IsAdded r.tables.faces.detections r'.tables.faces.detections photos
    pub consistent : IsConsistent r.tables.faces → IsConsistent r'.tables.faces

  save_score-Counts :
      (p : Name) (o : Option (CompositeScore F)) (r : Scoring F)
      → Counts r
          (save_score above overall_score true p o r)
          (one_of o)
          (faces_of o)
          (replicate (faces_of o) p)
  unfolding save_ai_score
  save_score-Counts p none r = record {
    scored = omega arith;
    total_faces = omega arith;
    detections = ([], sym (append-nil r.tables.faces.detections), refl);
    consistent = λ v. v;
  }
  save_score-Counts p (some c) r = record {
    scored = omega arith;
    total_faces = refl;
    detections = save_faces-IsAdded true p c.embeddings c.faces 0 (r.tables.faces, r.column);
    consistent = save_faces-IsConsistent p c.embeddings c.faces 0 (r.tables.faces, r.column);
  }

  score_photos-Counts :
      (ps : List Name) (r : Scoring F)
      → Counts r
          (score_photos above overall_score true execute ps r)
          (successes ps)
          (faces_found ps)
          (photos_of_faces ps)
  unfolding score_photos score_and_save_photo
  score_photos-Counts [] r = record {
    scored = omega arith;
    total_faces = omega arith;
    detections = ([], sym (append-nil r.tables.faces.detections), refl);
    consistent = λ v. v;
  }
  score_photos-Counts (p ∷ ps) r =
      let one = save_score-Counts p (execute p) r in
      let rest = score_photos-Counts ps (save_score above overall_score true p (execute p) r) in
      record {
        scored = omega (arith, one.scored, rest.scored);
        total_faces = omega (arith, one.total_faces, rest.total_faces);
        detections =
            IsAdded-trans r.tables.faces.detections _ _ _ (photos_of_faces ps) one.detections
              rest.detections;
        consistent = λ v. rest.consistent (one.consistent v);
      }

  -- The order of scores, where equal ones count as not above each other.
  pub record IsOrder : Type 0 where
    pub irreflexive : (a : F) → above a a ≡ false
    pub asymmetric : (a b : F) → above a b ≡ true → above b a ≡ false
    pub transitive : (a b c : F) → above a b ≡ false → above b c ≡ false → above a c ≡ false

  abbrev pub NotAbove : F → Option (CompositeScore F) → Type 0
  NotAbove top none = Unit
  NotAbove top (some c) = above (overall_score c) top ≡ false

  save_score_top :
      IsOrder
      → (p : Name) (o : Option (CompositeScore F)) (r : Scoring F)
      → (above r.top_score (save_score above overall_score true p o r).top_score ≡ false)
        × NotAbove (save_score above overall_score true p o r).top_score o
  save_score_top q p none r = (q.irreflexive r.top_score, tt)
  save_score_top q p (some c) r =
      if_elim (λ z. (above r.top_score z ≡ false) × (above (overall_score c) z ≡ false))
        (above (overall_score c) r.top_score)
        (λ e. (q.asymmetric (overall_score c) r.top_score e, q.irreflexive (overall_score c)))
        (λ e. (q.irreflexive r.top_score, e))

  score_photos_top :
      IsOrder
      → (ps : List Name) (r : Scoring F)
      → (above r.top_score (score_photos above overall_score true execute ps r).top_score ≡ false)
        × All
            (λ p.
              NotAbove (score_photos above overall_score true execute ps r).top_score (execute p))
            ps
  unfolding score_photos score_and_save_photo
  score_photos_top q [] r = (q.irreflexive r.top_score, tt)
  score_photos_top q (p ∷ ps) r =
      let one = save_score_top q p (execute p) r in
      let next = save_score above overall_score true p (execute p) r in
      let rest = score_photos_top q ps next in
      let last = (score_photos above overall_score true execute ps next).top_score in
      (
        q.transitive r.top_score next.top_score last one.0 rest.0,
        (weaken (execute p) next.top_score last one.1 rest.0, rest.1),
      )
    where
      weaken :
          (o : Option (CompositeScore F)) (a b : F)
          → NotAbove a o
          → above a b ≡ false
          → NotAbove b o
      weaken none a b n e = tt
      weaken (some c) a b n e = q.transitive (overall_score c) a b n e

  -- With foreign keys enforced, for scores that are ordered as numbers are (no NaN), and in whatever
  -- order the workers take the photos: a photo that was taken and has a result has the row of that
  -- result, and every other photo keeps its row; the counts are those of the results and of their
  -- faces; the old detections stay as they are, and after them one is added for each face, with the
  -- path of its photo, so that the tables of faces stay consistent; and no result is above the top
  -- score.
  pub score_photos-Sums :
      IsOrder
      → (ps : List Name) (r : Scoring F)
      → ((q : Name)
          → get_ai_score q (score_photos above overall_score true execute ps r).tables
            ≡ scored_or (get_ai_score q r.tables) q (is_seen q ps) (execute q))
        × Counts r
            (score_photos above overall_score true execute ps r)
            (successes ps)
            (faces_found ps)
            (photos_of_faces ps)
        × All
            (λ p.
              NotAbove (score_photos above overall_score true execute ps r).top_score (execute p))
            ps
  score_photos-Sums o ps r = (
    (λ q. get_ai_score-score_photos true q ps r),
    score_photos-Counts ps r,
    (score_photos_top o ps r).1,
  )
