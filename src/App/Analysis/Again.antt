-- ===== src/App/Analysis/Again.antt =====
-- A second analysis of a folder in which nothing has changed.
use mathlib.Core.Path.{subst}
use cull_snap.Base.{
  Bool-cases, All-weaken, ℕ, suc, List, [], ◌∷◌, Bool, true, false, not, ◌&&◌, ◌||◌, Option, none,
  some, ltb, if_elim, ◌≡◌, ◌≢◌, refl, sym, ◌∙◌, ap, arith, All, ◌⊎◌, inl, inr,
}
use cull_snap.Paths.{Name, same}
use cull_snap.Storage.Tables.{same_refl, get}
use cull_snap.Storage.Scores.{ai_score_key, AiScore, Analysis, get_ai_score}
use cull_snap.Vlm.Plans.{build_execution_plan, ExecutionPlan}
use cull_snap.App.Describe.Again.{run_vlm_stage4-ai_scores}
use cull_snap.App.Analysis.Keeps.{
  SameScores, run_face_clustering-SameScores, run_vlm_stage5-ai_scores,
}
use cull_snap.App.Rank.{is_seen}
use cull_snap.App.Score.{CompositeScore, score_photos, stored}
use cull_snap.App.Score.Sums.{scored_or, get_ai_score-score_photos}
use cull_snap.App.Analysis.{
  Circumstances, Setup, World, End, analysed, EngineState, is_scored, filter_photos, start,
  describe, rank, vlm_stages, score_stages, after_filter, after_scan, run_ai_analysis_pipeline,
}

module _ {F : Type 0} (s : Setup F) where
  open s use {engine, arithmetic, overall_score, minus_one, sort, order_by, tier}

  -- Every photo has a score.
  abbrev AllScored : List Name → Analysis F → Type 0
  AllScored ps t = All (λ p. is_scored s (get_ai_score p t) ≡ true) ps

  filter_photos_scored :
      (c : Circumstances F) (t : Analysis F) (i : ℕ) (ps : List Name)
      → ((j : ℕ) → c.cancelled_filtering j ≡ false)
      → ((p : Name) → c.is_changed p ≡ false)
      → AllScored ps t
      → filter_photos s c t i ps ≡ some []
  unfolding filter_photos
  filter_photos_scored c t i [] n h a = refl
  filter_photos_scored c t i (p ∷ ps) n h a =
      rw (n i, h p, a.0, filter_photos_scored c t (suc i) ps n h a.1) refl

  -- What is filtered out has a score.
  filter_photos-scored :
      (c : Circumstances F) (t : Analysis F) (i : ℕ) (ps : List Name)
      → ((j : ℕ) → c.cancelled_filtering j ≡ false)
      → (qs : List Name) × (filter_photos s c t i ps ≡ some qs)
        × All (λ p. (is_seen p qs ≡ true) ⊎ (is_scored s (get_ai_score p t) ≡ true)) ps
  unfolding filter_photos is_seen
  filter_photos-scored c t i [] n = ([], refl, tt)
  filter_photos-scored c t i (p ∷ ps) n =
      let rest = filter_photos-scored c t (suc i) ps n in
      elim (Bool-cases (is_scored s (get_ai_score p t) && not (c.is_changed p))) [
        | inl e ↦ (rest.0, rw (n i, e, rest.1) refl, (inr (ground arith), rest.2))
        | inr e ↦ (
          p ∷ rest.0,
          rw (n i, e, rest.1) refl,
          (inl (rw (same_refl p) refl), All-weaken (λ q h. later p q rest.0 h) ps rest.2),
        )
      ]
    where
      seen : (b : Bool) {c : Bool} → c ≡ true → (b || c) ≡ true
      seen true h = refl
      seen false h = h

      later :
          (x q : Name) (qs : List Name)
          → (is_seen q qs ≡ true) ⊎ (is_scored s (get_ai_score q t) ≡ true)
          → (is_seen q (x ∷ qs) ≡ true) ⊎ (is_scored s (get_ai_score q t) ≡ true)
      later x q qs (inl h) = inl (seen (same x q) h)
      later x q qs (inr h) = inr h

  -- What the scoring leaves has scores.
  scored_or-scored :
      (execute : Name → Option (CompositeScore F)) (old : Option (AiScore F)) (p : Name) (b : Bool)
      (o : Option (CompositeScore F))
      → o ≢ none
      → (b ≡ true) ⊎ (is_scored s old ≡ true)
      → is_scored s (scored_or engine.above overall_score execute old p b o) ≡ true
  scored_or-scored execute old p true none n h = absurd (n refl)
  scored_or-scored execute old p true (some c) n h = refl
  scored_or-scored execute old p false o n (inl h) = cc
  scored_or-scored execute old p false o n (inr h) = h

  -- A run that nothing disturbs until the scores are saved.
  pub record IsSmooth (c : Circumstances F) : Type 0 where
    pub not_cancelled : (i : ℕ) → c.cancelled_filtering i ≡ false
    pub not_cancelled_scoring : c.cancelled_scoring ≡ false
    pub takes_all : (p : Name) (qs : List Name) → is_seen p (c.taken qs) ≡ is_seen p qs
    pub succeeds : (p : Name) → c.execute p ≢ none

  -- The tables of one world have the scores of another.
  abbrev SameAi : Analysis F → Analysis F → Type 0
  SameAi t u = u.ai_scores ≡ t.ai_scores

  describe-SameAi :
      (c : Circumstances F) (folder : Name) (photos : List Name) (plan : ExecutionPlan)
      (m : EngineState s) (w : World F (EngineState s))
      → SameAi w.tables (describe s c folder photos plan m w).tables
  describe-SameAi c folder photos plan m w =
      if_elim {A = World F (EngineState s)} (λ z. SameAi w.tables z.tables) plan.vlm_enabled {y = w}
        (λ h.
          run_vlm_stage4-ai_scores engine sort folder c.now c.cancelled_describing c.elapsed photos
            plan w.tables m w.files)
        (λ h. refl)

  rank-SameAi :
      (c : Circumstances F) (folder : Name) (plan : ExecutionPlan) (o : Option (EngineState s))
      (w : World F (EngineState s))
      → SameAi w.tables (rank s c folder plan o w).tables
  rank-SameAi c folder plan none w = refl
  rank-SameAi c folder plan (some m) w =
      if_elim {A = World F (EngineState s)} (λ z. SameAi w.tables z.tables)
        (ltb 0 plan.stage5_count) {y = w}
        (λ h. run_vlm_stage5-ai_scores engine order_by folder c.cancelled_ranking w.tables m)
        (λ h. refl)

  vlm_stages-SameAi :
      (c : Circumstances F) (folder : Name) (photos : List Name) (n : ℕ)
      (o : Option (EngineState s)) (w : World F (EngineState s))
      → SameAi w.tables (vlm_stages s c folder photos n o w).tables
  vlm_stages-SameAi c folder photos n none w = refl
  vlm_stages-SameAi c folder photos n (some m) w =
      let plan = build_execution_plan n tier in
      let v = describe s c folder photos plan m w in
      rank-SameAi c folder plan v.manager v ∙ describe-SameAi c folder photos plan m w

  AllScored-SameAi :
      (ps : List Name) (t u : Analysis F) → SameAi t u → AllScored ps t → AllScored ps u
  unfolding get_ai_score
  AllScored-SameAi ps t u q a =
      subst (λ z. All (λ p. is_scored s (get ai_score_key p z) ≡ true) ps) (sym q) a

  known :
      (p : Name) (t : Analysis F)
      → (is_seen p [] ≡ true) ⊎ (is_scored s (get_ai_score p t) ≡ true)
      → is_scored s (get_ai_score p t) ≡ true
  unfolding is_seen
  known p t (inl h) = cc
  known p t (inr h) = h

  -- A smooth run comes to its end, and leaves every photo with a score.
  module _ (c : Circumstances F) (folder : Name) (smooth : IsSmooth c) where
    score_stages-AllScored :
        (ps qs : List Name) (w : World F (EngineState s))
        → All (λ p. (is_seen p qs ≡ true) ⊎ (is_scored s (get_ai_score p w.tables) ≡ true)) ps
        → (r : End F) × (u : World F (EngineState s)) × (score_stages s c folder qs w ≡ some (r, u))
          × AllScored ps u.tables
    score_stages-AllScored ps qs w a =
        let r = score_photos engine.above overall_score true c.execute (c.taken qs) (start s w) in
        let v : World F (EngineState s) = record w { tables = r.tables; column = r.column } in
        let q =
          run_face_clustering-SameScores engine.above minus_one arithmetic (stored r.column) folder
            r.tables in
        let u : World F (EngineState s) = record v { tables = q.1 } in
        let scored : AllScored ps r.tables =
          All-weaken {Q = λ p. is_scored s (get_ai_score p r.tables) ≡ true}
            (λ p h.
              rw
                (
                  get_ai_score-score_photos engine.above overall_score c.execute true p (c.taken qs)
                      (start s w),
                  smooth.takes_all p qs,
                )
                (scored_or-scored c.execute (get_ai_score p w.tables) p (is_seen p qs) (c.execute p)
                  (smooth.succeeds p) h))
            ps a in
        (
          analysed r.scored r.total_faces q.0 r.top_photo r.top_score,
          vlm_stages s c folder qs r.scored w.manager u,
          rw (smooth.not_cancelled_scoring, q.2) refl,
          AllScored-SameAi ps r.tables _
              (vlm_stages-SameAi c folder qs r.scored w.manager u ∙ q.3.ai_scores) scored,
        )

    after_filter-AllScored :
        (ps : List Name) (o : List Name) (w : World F (EngineState s))
        → All (λ p. (is_seen p o ≡ true) ⊎ (is_scored s (get_ai_score p w.tables) ≡ true)) ps
        → (r : End F) × (u : World F (EngineState s)) × (after_filter s c folder (some o) w
            ≡ some (r, u))
          × AllScored ps u.tables
    after_filter-AllScored ps [] w a =
        let q =
          run_face_clustering-SameScores engine.above minus_one arithmetic (stored w.column) folder
            w.tables in
        (
          analysed 0 0 q.0 [] engine.no_score,
          record w { tables = q.1 },
          rw q.2 refl,
          AllScored-SameAi ps w.tables q.1 q.3.ai_scores
              (All-weaken (λ p h. known p w.tables h) ps a),
        )
    after_filter-AllScored ps (q ∷ qs) w a = score_stages-AllScored ps (q ∷ qs) w a

    -- Let nothing disturb a run until the scores are saved. It comes to its end; and if the folder is
    -- analysed again while its photos are the same and none is newer than its score, that run scores
    -- nothing: it only clusters the faces again, and leaves the manager, the settings, the embeddings
    -- and all scores, rankings and token counts as they were.
    pub run_ai_analysis_pipeline-again :
        (c' : Circumstances F) (p : Name) (ps : List Name) (w : World F (EngineState s))
        → c.photos ≡ some (p ∷ ps)
        → c'.photos ≡ some (p ∷ ps)
        → ((i : ℕ) → c'.cancelled_filtering i ≡ false)
        → ((q : Name) → c'.is_changed q ≡ false)
        → (r : End F) × (u : World F (EngineState s)) × (n : ℕ) × (t : Analysis F)
          × (run_ai_analysis_pipeline s c folder w ≡ some (r, u))
          × (run_ai_analysis_pipeline s c' folder u
              ≡ some (analysed 0 0 n [] engine.no_score, record u { tables = t }))
          × SameScores u.tables t
    unfolding run_ai_analysis_pipeline
    run_ai_analysis_pipeline-again c' p ps w e e' n h =
        let f = filter_photos-scored c w.tables 0 (p ∷ ps) smooth.not_cancelled in
        let first = after_filter-AllScored (p ∷ ps) f.0 w f.2 in
        let u = first.1 in
        let q =
          run_face_clustering-SameScores engine.above minus_one arithmetic (stored u.column) folder
            u.tables in
        (
          first.0,
          u,
          q.0,
          q.1,
          ap (λ o. after_scan s c folder o w) e
              ∙ ap (λ o. after_filter s c folder o w) f.1
              ∙ first.2,
          ap (λ o. after_scan s c' folder o u) e'
              ∙ ap (λ o. after_filter s c' folder o u)
                  (filter_photos_scored c' u.tables 0 (p ∷ ps) n h first.3)
              ∙ rw q.2 refl,
          q.3,
        )
