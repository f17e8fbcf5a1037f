-- ===== src/App/Analysis.antt =====
-- internal/app/ai_methods.go: `runAIAnalysisPipeline`, of the stages that Score, People, Describe and
-- Rank model. What the directory, the files, the context, the photos and the workers do is an argument;
-- events and times are left out. Foreign keys are taken as enforced, as on the connection on which
-- the pragma ran.
pub mod Keeps
pub mod Again
use cull_snap.Base.{
  ℕ, zero, suc, List, [], ◌∷◌, Bool, true, false, ◌&&◌, Option, none, some, ltb, if◌then◌else◌, not,
}
use cull_snap.Paths.{Name}
use cull_snap.Storage.Files.{Files}
use cull_snap.Storage.Rankings.{Joined}
use cull_snap.Storage.Scores.{AiScore, Analysis, get_ai_score}
use cull_snap.Vlm.Plans.{HardwareTier, ExecutionPlan, build_execution_plan}
use cull_snap.App.Engine.{Engine}
use cull_snap.App.Describe.{run_vlm_stage4}
use cull_snap.App.Rank.{run_vlm_stage5}
use cull_snap.App.People.{Arithmetic, run_face_clustering}
use cull_snap.App.Score.{CompositeScore, Scoring, stored, score_photos}

-- What a run meets: the photos that the scan finds (nothing is an error), whether a file is newer than
-- its score or cannot be looked at, whether the context is cancelled at the i-th photo, after the
-- workers, and in the two last stages, and which photos the workers take, in their order.
pub record Circumstances (F : Type 0) : Type 0 where
  pub photos : Option (List Name)
  pub is_changed : Name → Bool
  pub cancelled_filtering : ℕ → Bool
  pub cancelled_scoring : Bool
  pub cancelled_describing : ℕ → Bool
  pub cancelled_ranking : ℕ → Bool
  pub taken : List Name → List Name
  pub execute : Name → Option (CompositeScore F)
  pub now : Name
  pub elapsed : ℕ

-- What does not change: the arithmetic, `sort.Slice`, `ORDER BY`, the tier, and -1.
pub record Setup (F : Type 0) : Type 1 where
  pub engine : Engine F
  pub arithmetic : Arithmetic
  pub overall_score : CompositeScore F → F
  pub minus_one : F
  pub sort : ((Name × F) → (Name × F) → Bool) → List (Name × F) → List (Name × F)
  pub order_by : List (Joined F) → List (Joined F)
  pub tier : HardwareTier

-- The database, the settings, and the manager, if there is one.
pub record World (F S : Type 0) : Type 0 where
  pub tables : Analysis F
  pub column : List (ℕ × List ℕ)
  pub files : Files
  pub manager : Option S

pub data End (F : Type 0) : Type 0 where
  scan_failed no_photos cancelled_while_filtering cancelled_while_scoring : End F
  analysed : (scored faces clusters : ℕ) (top_photo : Name) (top_score : F) → End F

module _ {F : Type 0} (s : Setup F) where
  open s use {engine, arithmetic, overall_score, minus_one, sort, order_by, tier}

  abbrev pub EngineState : Type 0
  EngineState = engine.State

  abbrev pub is_scored : Option (AiScore F) → Bool
  is_scored none = false
  is_scored (some a) = true

  abbrev pub skip_if : Bool → Name → Option (List Name) → Option (List Name)
  skip_if b p none = none
  skip_if true p (some ps) = some ps
  skip_if false p (some ps) = some (p ∷ ps)

  -- `toScore`, from the photo numbered `i` on, or nothing if the context is cancelled.
  unfoldable pub filter_photos : Circumstances F → Analysis F → ℕ → List Name → Option (List Name)
  filter_photos c t i [] = some []
  filter_photos c t i (p ∷ ps) =
      let rest =
        skip_if (is_scored (get_ai_score p t) && not (c.is_changed p)) p
          (filter_photos c t (suc i) ps) in
      if c.cancelled_filtering i then none else rest

  abbrev pub start : World F EngineState → Scoring F
  start w = record {
    tables = w.tables;
    column = w.column;
    scored = 0;
    total_faces = 0;
    top_photo = [];
    top_score = engine.no_score;
  }

  abbrev pub describe :
      Circumstances F
      → Name
      → List Name
      → ExecutionPlan
      → EngineState
      → World F EngineState
      → World F EngineState
  describe c folder photos plan m w =
      let r =
        run_vlm_stage4 engine sort folder c.now c.cancelled_describing c.elapsed photos plan
          w.tables m w.files in
      if plan.vlm_enabled
      then record w { tables = r.0.tables; manager = some r.0.manager; files = r.1 }
      else w

  abbrev pub rank :
      Circumstances F
      → Name
      → ExecutionPlan
      → Option EngineState
      → World F EngineState
      → World F EngineState
  rank c folder plan none w = w
  rank c folder plan (some m) w =
      let r = run_vlm_stage5 engine order_by folder c.cancelled_ranking w.tables m in
      if ltb 0 plan.stage5_count
      then record w { tables = r.tables; manager = some r.manager }
      else w

  -- The stages of the VLM, if there is a manager.
  abbrev pub vlm_stages :
      Circumstances F
      → Name
      → List Name
      → ℕ
      → Option EngineState
      → World F EngineState
      → World F EngineState
  vlm_stages c folder photos scored none w = w
  vlm_stages c folder photos scored (some m) w =
      let plan = build_execution_plan scored tier in
      let described = describe c folder photos plan m w in
      rank c folder plan described.manager described

  abbrev pub with_clusters :
      Option (ℕ × Analysis F)
      → World F EngineState
      → (ℕ → World F EngineState → End F × World F EngineState)
      → Option (End F × World F EngineState)
  with_clusters none w k = none
  with_clusters (some r) w k = some (k r.0 (record w { tables = r.1 }))

  abbrev pub cluster : Name → World F EngineState → Option (ℕ × Analysis F)
  cluster folder w =
      run_face_clustering engine.above minus_one arithmetic (stored w.column) true folder w.tables

  -- From the workers on.
  abbrev pub score_stages :
      Circumstances F
      → Name
      → List Name
      → World F EngineState
      → Option (End F × World F EngineState)
  score_stages c folder photos w =
      let r = score_photos engine.above overall_score true c.execute (c.taken photos) (start w) in
      let v = record w { tables = r.tables; column = r.column } in
      if c.cancelled_scoring
      then some (cancelled_while_scoring, v)
      else with_clusters (cluster folder v) v (λ n u. (
        analysed r.scored r.total_faces n r.top_photo r.top_score,
        vlm_stages c folder photos r.scored w.manager u,
      ))

  abbrev pub after_filter :
      Circumstances F
      → Name
      → Option (List Name)
      → World F EngineState
      → Option (End F × World F EngineState)
  after_filter c folder none w = some (cancelled_while_filtering, w)
  after_filter c folder (some []) w =
      with_clusters (cluster folder w) w (λ n u. (analysed 0 0 n [] engine.no_score, u))
  after_filter c folder (some (p ∷ ps)) w = score_stages c folder (p ∷ ps) w

  abbrev pub after_scan :
      Circumstances F
      → Name
      → Option (List Name)
      → World F EngineState
      → Option (End F × World F EngineState)
  after_scan c folder none w = some (scan_failed, w)
  after_scan c folder (some []) w = some (no_photos, w)
  after_scan c folder (some (p ∷ ps)) w =
      after_filter c folder (filter_photos c w.tables 0 (p ∷ ps)) w

  -- How the run ends and what it leaves; no result says that the clustering does not end.
  unfoldable pub run_ai_analysis_pipeline :
      Circumstances F → Name → World F EngineState → Option (End F × World F EngineState)
  unfolding filter_photos
  run_ai_analysis_pipeline c folder w = after_scan c folder c.photos w
