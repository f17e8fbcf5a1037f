-- ===== src/App/Describe/Again.antt =====
-- A second run of stage 4 asks the model for nothing.
use cull_snap.Base.{
  ◌/◌, ◌&&◌, ℕ, suc, ◌+◌, List, [], ◌∷◌, Bool, true, false, Option, none, some, ltb, if◌then◌else◌,
  if_elim, length, ◌≡◌, ◌≢◌, refl, ◌∙◌, ap, arith, All, All-weaken,
}
use cull_snap.Paths.{Name, same}
use cull_snap.Storage.Files.{Files, get_config, set_config}
use cull_snap.App.Settings.Loaded.{get_config-set_config}
use cull_snap.Vlm.Plans.{calibration_key}
use cull_snap.Paths.Digits.{itoa}
use cull_snap.Storage.Tables.{same_refl, get-put}
use cull_snap.Storage.Scores.{
  Analysis, vlm_score_key, get_ai_score, get_vlm_score, save_vlm_score, record_token_usage,
}
use cull_snap.Vlm.Config.{hash_custom_instructions}
use cull_snap.Vlm.Plans.{ExecutionPlan, HardwareTier}
use cull_snap.App.Engine.{Engine, ScoreRequest, VlmScore, ModelInfo}
use cull_snap.App.Describe.{
  Run, score_request, score_row, is_current, is_cached, save_result, describe_photo,
  describe_photos, conclude, vlm_photos, run_vlm_stage4, TokenUsageRow,
}

-- A setting, after the calibration of a run over `n` photos was stored.
abbrev pub config_after : HardwareTier → ModelInfo → ℕ → ℕ → Name → Name → Name
config_after tier info elapsed n j before =
    if ltb 0 n && same (calibration_key tier info.backend info.name) j
    then itoa (elapsed / n)
    else before

module _ {F : Type 0} (e : Engine F) where
  open e use {State, score_photo, provider_model_info, custom_instructions, sum256}

  abbrev uncancelled : ℕ → Bool
  uncancelled i = false

  -- The stored scores of these photos are used again.
  abbrev AllCached : Name → List Name → Analysis F → Type 0
  AllCached hash ps t = All (λ p. is_cached e hash t p ≡ true) ps

  -- What the stage leaves of the tables.
  record Kept (hash : Name) (t u : Analysis F) : Type 0 where
    pub scores : u.ai_scores ≡ t.ai_scores
    pub cached : (q : Name) → is_cached e hash t q ≡ true → is_cached e hash u q ≡ true

  Kept-trans : (hash : Name) {t u v : Analysis F} → Kept hash t u → Kept hash u v → Kept hash t v
  Kept-trans hash k l = record {
    scores = l.scores ∙ k.scores;
    cached = λ q c. l.cached q (k.cached q c);
  }

  is_cached-save_vlm_score :
      (folder hash now : Name) (info : ModelInfo) (p : Name) (s : VlmScore F) (t : Analysis F)
      (q : Name)
      → is_cached e hash (save_vlm_score (score_row e folder hash now info p s) t) q
        ≡ (if same p q then true else is_cached e hash t q)
  unfolding is_cached save_vlm_score get_vlm_score
  is_cached-save_vlm_score folder hash now info p s t q =
      ap (is_current e hash)
        (get-put vlm_score_key q (score_row e folder hash now info p s) t.vlm_scores)
      ∙ current (same p q)
    where
      current :
          (c : Bool)
          → is_current e hash
              (if c then some (score_row e folder hash now info p s) else get_vlm_score q t)
            ≡ (if c then true else is_current e hash (get_vlm_score q t))
      current true = same_refl hash
      current false = refl

  either : (c : Bool) {x : Bool} → x ≡ true → (if c then true else x) ≡ true
  either true k = refl
  either false k = k

  -- Every request is answered.
  abbrev Answers : Type 0
  Answers = (req : ScoreRequest F) (s : State) → (score_photo req s).0 ≢ none

  module _ (folder instructions now : Name) (info : ModelInfo) where
    abbrev key : Name
    key = hash_custom_instructions sum256 instructions

    abbrev described : Name → Run F State → Run F State
    described = describe_photo e folder instructions now info

    describe_photo-Kept : (p : Name) (r : Run F State) → Kept key r.tables (described p r).tables
    unfolding describe_photo save_result
    describe_photo-Kept p r =
        if_elim {A = Run F State} (λ z. Kept key r.tables z.tables) (is_cached e key r.tables p)
          (λ c. record { scores = refl; cached = λ q k. k })
          (λ c.
            saved
              (score_photo (score_request e instructions p (get_ai_score p r.tables)) r.manager))
      where
        saved :
            (o : Option (VlmScore F) × State)
            → Kept key r.tables (save_result e folder key now info p o r).tables
        saved (none, s) = record { scores = refl; cached = λ q k. k }
        saved (some score, s) = record {
          scores = unfold save_vlm_score in refl;
          cached = λ q k.
              is_cached-save_vlm_score folder key now info p score r.tables q ∙ either (same p q) k;
        }

    describe_photo_cached :
        Answers → (p : Name) (r : Run F State) → is_cached e key (described p r).tables p ≡ true
    unfolding describe_photo save_result
    describe_photo_cached answers p r =
        if_elim {A = Run F State} (λ z. is_cached e key z.tables p ≡ true)
          (is_cached e key r.tables p) (λ c. c)
          (λ c.
            saved _ (answers (score_request e instructions p (get_ai_score p r.tables)) r.manager))
      where
        saved :
            (o : Option (VlmScore F) × State)
            → o.0 ≢ none
            → is_cached e key (save_result e folder key now info p o r).tables p ≡ true
        saved (none, s) n = absurd (n refl)
        saved (some score, s) n =
            is_cached-save_vlm_score folder key now info p score r.tables p ∙ rw (same_refl p) refl

    abbrev loop : (ℕ → Bool) → ℕ → List Name → Run F State → Bool × Run F State
    loop = describe_photos e folder instructions now info

    describe_photos-Kept :
        (cancelled : ℕ → Bool) (i : ℕ) (ps : List Name) (r : Run F State)
        → Kept key r.tables (loop cancelled i ps r).1.tables
    unfolding describe_photos
    describe_photos-Kept cancelled i [] r = record { scores = refl; cached = λ q k. k }
    describe_photos-Kept cancelled i (p ∷ ps) r =
        if_elim {A = Bool × Run F State} (λ z. Kept key r.tables z.1.tables) (cancelled i)
          (λ c. record { scores = refl; cached = λ q k. k })
          (λ c.
            Kept-trans key (describe_photo-Kept p r)
              (describe_photos-Kept cancelled (suc i) ps (described p r)))

    -- The loop comes to its end with every score stored.
    describe_photos-AllCached :
        Answers
        → (i : ℕ) (ps : List Name) (r : Run F State)
        → ((loop uncancelled i ps r).0 ≡ true) × AllCached key ps (loop uncancelled i ps r).1.tables
    unfolding describe_photos
    describe_photos-AllCached answers i [] r = (refl, tt)
    describe_photos-AllCached answers i (p ∷ ps) r =
        let rest = describe_photos-AllCached answers (suc i) ps (described p r) in
        let kept = describe_photos-Kept uncancelled (suc i) ps (described p r) in
        (rest.0, (kept.cached p (describe_photo_cached answers p r), rest.1))

    -- A loop over such photos only counts them.
    describe_photos_again :
        (i : ℕ) (ps : List Name) (r : Run F State)
        → AllCached key ps r.tables
        → loop uncancelled i ps r ≡ (true, record r { cache_hits = r.cache_hits + length ps })
    unfolding describe_photos describe_photo
    describe_photos_again i [] r a =
        let q : r.cache_hits + 0 ≡ r.cache_hits = omega arith in rw q refl
    describe_photos_again i (p ∷ ps) r a =
        let q : suc r.cache_hits + length ps ≡ r.cache_hits + suc (length ps) = omega arith in
        rw
          (
            a.0,
            describe_photos_again (suc i) ps (record r { cache_hits = suc r.cache_hits }) a.1,
            q,
          )
          refl

  recorded-Kept :
      (hash : Name) (u : TokenUsageRow) (t : Analysis F) → Kept hash t (record_token_usage u t)
  unfolding record_token_usage is_cached get_vlm_score
  recorded-Kept hash u t = record { scores = refl; cached = λ q k. k }

  Kept-refl : (hash : Name) (t : Analysis F) → Kept hash t t
  Kept-refl hash t = record { scores = refl; cached = λ q k. k }

  conclude-Kept :
      (hash folder : Name) (tier : HardwareTier) (info : ModelInfo) (elapsed : ℕ) (ps : List Name)
      (b : Bool) (r : Run F State) (f : Files)
      → Kept hash r.tables (conclude e folder tier info elapsed ps (b, r) f).0.tables
  unfolding conclude
  conclude-Kept hash folder tier info elapsed ps false r f = Kept-refl hash r.tables
  conclude-Kept hash folder tier info elapsed ps true r f =
      if_elim (Kept hash r.tables) (ltb 0 r.scored_count) (λ c. recorded-Kept hash _ r.tables)
        (λ c. Kept-refl hash r.tables)

  vlm_photos_same :
      (sort : ((Name × F) → (Name × F) → Bool) → List (Name × F) → List (Name × F)) (n : ℕ)
      (photos : List Name) (t u : Analysis F)
      → u.ai_scores ≡ t.ai_scores
      → vlm_photos e sort n photos u ≡ vlm_photos e sort n photos t
  unfolding vlm_photos get_ai_score
  vlm_photos_same sort n photos t u q =
      ap (λ a. vlm_photos e sort n photos (record t { ai_scores = a })) q

  -- Stage 4 leaves the scores of the pipeline.
  pub run_vlm_stage4-ai_scores :
      (sort : ((Name × F) → (Name × F) → Bool) → List (Name × F) → List (Name × F))
      (folder now : Name) (cancelled : ℕ → Bool) (elapsed : ℕ) (photos : List Name)
      (plan : ExecutionPlan) (t : Analysis F) (s : State) (f : Files)
      → (run_vlm_stage4 e sort folder now cancelled elapsed photos plan t s f).0.tables.ai_scores
        ≡ t.ai_scores
  unfolding run_vlm_stage4
  run_vlm_stage4-ai_scores sort folder now cancelled elapsed photos plan t s f =
      let chosen = vlm_photos e sort plan.stage4_count photos t in
      let start : Run F State = record {
        tables = t;
        manager = s;
        total_tokens = 0;
        scored_count = 0;
        cache_hits = 0;
      } in
      let info = provider_model_info s in
      let ended = loop folder (custom_instructions s) now info cancelled 0 chosen start in
      let kept = conclude-Kept [] folder plan.hardware_tier info elapsed chosen ended.0 ended.1 f in
      let before =
        describe_photos-Kept folder (custom_instructions s) now info cancelled 0 chosen start in
      kept.scores ∙ before.scores

  -- A run in which every stored score is used.
  run_vlm_stage4-cached :
      (sort : ((Name × F) → (Name × F) → Bool) → List (Name × F) → List (Name × F))
      (folder now : Name) (elapsed : ℕ) (photos : List Name) (plan : ExecutionPlan) (u : Analysis F)
      (s : State) (f : Files)
      → AllCached
          (hash_custom_instructions sum256 (custom_instructions s))
          (vlm_photos e sort plan.stage4_count photos u)
          u
      → (run_vlm_stage4 e sort folder now uncancelled elapsed photos plan u s f).0 ≡ record {
        tables = u;
        manager = s;
        total_tokens = 0;
        scored_count = 0;
        cache_hits = length (vlm_photos e sort plan.stage4_count photos u);
      }
  unfolding run_vlm_stage4 conclude
  run_vlm_stage4-cached sort folder now elapsed photos plan u s f a =
      let chosen = vlm_photos e sort plan.stage4_count photos u in
      let q : 0 + length chosen ≡ length chosen = omega arith in
      ap (λ l. (conclude e folder plan.hardware_tier (provider_model_info s) elapsed chosen l f).0)
        (describe_photos_again folder (custom_instructions s) now (provider_model_info s) 0 chosen _
          a)
      ∙ rw q refl

  -- The settings after a run in which every stored score is used.
  cached_config :
      (sort : ((Name × F) → (Name × F) → Bool) → List (Name × F) → List (Name × F))
      (folder now : Name) (elapsed : ℕ) (photos : List Name) (plan : ExecutionPlan) (u : Analysis F)
      (s : State) (f : Files) (j : Name)
      → AllCached
          (hash_custom_instructions sum256 (custom_instructions s))
          (vlm_photos e sort plan.stage4_count photos u)
          u
      → get_config j (run_vlm_stage4 e sort folder now uncancelled elapsed photos plan u s f).1
        ≡ config_after plan.hardware_tier
            (provider_model_info s)
            elapsed
            (length (vlm_photos e sort plan.stage4_count photos u))
            j
            (get_config j f)
  unfolding run_vlm_stage4
  cached_config sort folder now elapsed photos plan u s f j a =
      let chosen = vlm_photos e sort plan.stage4_count photos u in
      let info = provider_model_info s in
      ap (λ l. get_config j (conclude e folder plan.hardware_tier info elapsed chosen l f).1)
        (describe_photos_again folder (custom_instructions s) now info 0 chosen _ a)
      ∙ of (calibration_key plan.hardware_tier info.backend info.name) chosen
    where
      of :
          (k : Name) (ps : List Name)
          → get_config j
              (if ltb 0 (length ps) then set_config k (itoa (elapsed / length ps)) f else f)
            ≡ (if ltb 0 (length ps) && same k j then itoa (elapsed / length ps) else get_config j f)
      of k [] = refl
      of k (p ∷ ps) =
          let l : ltb 0 (length (p ∷ ps)) ≡ true = ground arith in
          rw l (get_config-set_config j k (itoa (elapsed / length (p ∷ ps))) f)

  -- Let every request be answered, and let the stage not be cancelled. If it runs again for the same
  -- photos with the same custom instructions, whatever the state of the manager and the settings are
  -- then, the manager is asked for nothing, no score, ranking, face or token count is changed, and
  -- every photo of the first run is a cache hit. If any photo was chosen, the setting with the
  -- calibration of the machine and the model is set to the time of this run for each; no other
  -- setting is changed.
  pub run_vlm_stage4-again :
      Answers
      → (sort : ((Name × F) → (Name × F) → Bool) → List (Name × F) → List (Name × F))
        (folder now now' : Name) (elapsed elapsed' : ℕ) (photos : List Name) (plan : ExecutionPlan)
        (t : Analysis F) (s s' : State) (f f' : Files)
      → custom_instructions s' ≡ custom_instructions s
      → let first = (run_vlm_stage4 e sort folder now uncancelled elapsed photos plan t s f).0 in
        let again =
          run_vlm_stage4 e sort folder now' uncancelled elapsed' photos plan first.tables s' f' in
        (again.0 ≡ record {
          tables = first.tables;
          manager = s';
          total_tokens = 0;
          scored_count = 0;
          cache_hits = length (vlm_photos e sort plan.stage4_count photos t);
        })
        × ((j : Name)
            → get_config j again.1
              ≡ config_after plan.hardware_tier
                  (provider_model_info s')
                  elapsed'
                  (length (vlm_photos e sort plan.stage4_count photos t))
                  j
                  (get_config j f'))
  unfolding run_vlm_stage4
  run_vlm_stage4-again answers sort folder now now' elapsed elapsed' photos plan t s s' f f' q =
      let chosen = vlm_photos e sort plan.stage4_count photos t in
      let start : Run F State = record {
        tables = t;
        manager = s;
        total_tokens = 0;
        scored_count = 0;
        cache_hits = 0;
      } in
      let info = provider_model_info s in
      let ended = loop folder (custom_instructions s) now info uncancelled 0 chosen start in
      let kept =
        conclude-Kept (hash_custom_instructions sum256 (custom_instructions s)) folder
          plan.hardware_tier info elapsed chosen ended.0 ended.1 f in
      let before =
        describe_photos-Kept folder (custom_instructions s) now info uncancelled 0 chosen start in
      let all =
        describe_photos-AllCached folder (custom_instructions s) now info answers 0 chosen start in
      let first =
        (run_vlm_stage4 e sort folder now uncancelled elapsed photos plan t s f).0.tables in
      let same_photos : vlm_photos e sort plan.stage4_count photos first ≡ chosen =
        vlm_photos_same sort plan.stage4_count photos t first (kept.scores ∙ before.scores) in
      let cached : AllCached (hash_custom_instructions sum256 (custom_instructions s'))
          (vlm_photos e sort plan.stage4_count photos first) first =
        rw (q, same_photos) (All-weaken (λ p. kept.cached p) chosen all.1) in
      (
        run_vlm_stage4-cached sort folder now' elapsed' photos plan first s' f' cached
            ∙ rw same_photos refl,
        λ j.
            cached_config sort folder now' elapsed' photos plan first s' f' j cached
            ∙ rw same_photos refl,
      )
