-- ===== src/Vlm/Manager/Threads.antt =====
-- The goroutines of the manager, and the steps of the whole: each step is one section of
-- `Vlm.Manager` by one goroutine, or an answer of the provider, in any order.
use cull_snap.Base.{
  ℕ, ◌+◌, List, [], ◌∷◌, ◌++◌, Bool, true, false, Option, none, some, ◌≡◌, if◌then◌else◌,
}
use cull_snap.Paths.{Name}
use cull_snap.Vlm.Manager.{
  Manager, ManagerConfig, Provider, Channel, ManagerEvent, Next, returns, fails, calls_provider,
  set_provider, update_config, set_custom_instructions, remove, ensure_running, start_end,
  stop_begin, stop_end, health_tick, health_result, crash_begin, crash_give_up, crash_retry,
  infer_begin, infer_end, reset_idle_timer_locked, new_manager,
}

-- Where a goroutine stands while it does not hold the mutex.
pub data Thread : Type 0 where
  -- in `provider.Start`, called for `EnsureRunning`; the flag says that an inference follows
  start_call : Bool → Thread
  -- in `provider.Stop`
  stop_call : Thread
  -- between `EnsureRunning` and the section that reads the provider
  infer_ready : Thread
  -- in `provider.ScorePhoto` or `provider.RankPhotos`
  infer_call : Thread
  -- in `healthLoop`, with its context and its failures: before a tick, and in `provider.Health`
  health_wait health_ask : ℕ → ℕ → Thread
  -- in `handleCrash`: with the restarts used up, before the context is read, and in the wait
  crash_over crash_read : Thread
  crash_wait : ℕ → Thread
  -- in `provider.Start`, called for `handleCrash`
  restart_call : Thread

-- The manager with its goroutines. `restarts` counts the calls of `provider.Start` by `handleCrash`
-- and the waits that may still lead to one; it is no variable of the program.
pub record Sys : Type 0 where
  pub manager : Manager
  pub threads : List Thread
  pub restarts : ℕ

abbrev pub ensured : Bool → Next → List Thread
ensured infer calls_provider = start_call infer ∷ []
ensured infer returns = if infer then infer_ready ∷ [] else []
ensured infer fails = []

-- The health loop that a successful start leaves behind.
abbrev pub watched : Option ℕ → Next → List Thread
watched (some c) returns = health_wait c 0 ∷ []
watched _ _ = []

abbrev pub stopping : Next → List Thread
stopping calls_provider = stop_call ∷ []
stopping _ = []

abbrev pub restarting : Next → List Thread
restarting calls_provider = restart_call ∷ []
restarting _ = []

abbrev pub asked : Bool → ℕ → ℕ → Thread
asked true c failures = health_ask c failures
asked false c failures = health_wait c failures

abbrev pub inferring : Option Provider → List Thread
inferring none = []
inferring (some p) = infer_call ∷ []

abbrev pub waiting : Option ℕ → List Thread
waiting none = []
waiting (some c) = crash_wait c ∷ []

-- `t` does a section that gives `m`, and goes on as `ts`.
abbrev pub goes_on : Manager → List Thread → List Thread → List Thread → Sys → Sys
goes_on m pre ts post s = record s { manager = m; threads = pre ++ ts ++ post }

-- A call of `Stop` that finds the manager `m`.
abbrev pub stop_from : Manager → Sys → Sys
stop_from m s = goes_on (stop_begin m).0 [] (stopping (stop_begin m).1) s.threads s

-- `provider.Start` has returned.
abbrev pub start_from : Bool → ℕ → List Thread → (Next → List Thread) → List Thread → Sys → Sys
start_from done now pre more post s =
    goes_on (start_end done now s.manager).0 pre
      (watched (start_end done now s.manager).0.health_ctx (start_end done now s.manager).1
        ++ more (start_end done now s.manager).1)
      post s

-- The first section of `handleCrash`, of the goroutine between `pre` and `post`.
abbrev pub crash_from : List Thread → List Thread → Sys → Sys
crash_from pre post s = record {
  manager = (crash_begin s.manager).0;
  threads = pre ++ (if (crash_begin s.manager).1 then crash_over else crash_read) ∷ post;
  restarts = if (crash_begin s.manager).1 then s.restarts else s.restarts + 1;
}

pub data Step (s : Sys) : Sys → Type 0 where
  -- calls of the manager's methods
  provide : (p : Provider) → Step s (record s { manager = set_provider p s.manager })
  configure :
      (cfg : ManagerConfig)
      → cfg.max_restarts ≡ s.manager.config.max_restarts
      → Step s (record s { manager = update_config cfg s.manager })
  instruct : (i : Name) → Step s (record s { manager = set_custom_instructions i s.manager })
  reset : Step s (record s { manager = reset_idle_timer_locked s.manager })
  ensure :
      (infer : Bool)
      → Step s (
          goes_on
            (ensure_running s.manager).0
            []
            (ensured infer (ensure_running s.manager).1)
            s.threads
            s)
  stop : Step s (stop_from s.manager s)
  -- the receiver of the events takes one
  receive :
      (c : Channel) (e : ManagerEvent) (rest : List ManagerEvent)
      → s.manager.events ≡ some c
      → c.queue ≡ e ∷ rest
      → Step s
          (record s { manager = record s.manager { events = some (record c { queue = rest }) } })
  -- an idle timer fires, and its function calls `Stop`
  fire : (t : ℕ) → Step s (stop_from (record s.manager { timers = remove t s.manager.timers }) s)
  -- the goroutines
  started :
      (infer done : Bool) (now : ℕ) (pre post : List Thread)
      → s.threads ≡ pre ++ start_call infer ∷ post
      → Step s (start_from done now pre (ensured infer) post s)
  stopped :
      (pre post : List Thread)
      → s.threads ≡ pre ++ stop_call ∷ post
      → Step s (goes_on (stop_end s.manager) pre [] post s)
  infer_starts :
      (req : Name) (pre post : List Thread)
      → s.threads ≡ pre ++ infer_ready ∷ post
      → Step s (goes_on s.manager pre (inferring (infer_begin req s.manager).0) post s)
  inferred :
      (ok : Bool) (pre post : List Thread)
      → s.threads ≡ pre ++ infer_call ∷ post
      → Step s (goes_on (infer_end ok s.manager) pre [] post s)
  tick :
      (c failures : ℕ) (pre post : List Thread)
      → s.threads ≡ pre ++ health_wait c failures ∷ post
      → Step s (goes_on s.manager pre (asked (health_tick s.manager) c failures ∷ []) post s)
  healthy :
      (c failures : ℕ) (answer : Bool) (pre post : List Thread)
      → s.threads ≡ pre ++ health_ask c failures ∷ post
      → (health_result answer failures).1 ≡ false
      → Step s (goes_on s.manager pre (health_wait c (health_result answer failures).0 ∷ []) post s)
  -- the second failure in a row: the first section of `handleCrash`
  crashes :
      (c failures : ℕ) (answer : Bool) (pre post : List Thread)
      → s.threads ≡ pre ++ health_ask c failures ∷ post
      → (health_result answer failures).1 ≡ true
      → Step s (crash_from pre post s)
  -- the loop of a cancelled context ends
  exits :
      (c failures : ℕ) (pre post : List Thread)
      → s.threads ≡ pre ++ health_wait c failures ∷ post
      → remove c s.manager.contexts ≡ s.manager.contexts
      → Step s (goes_on s.manager pre [] post s)
  gives_up :
      (pre post : List Thread)
      → s.threads ≡ pre ++ crash_over ∷ post
      → Step s (goes_on (crash_give_up s.manager) pre [] post s)
  reads_context :
      (pre post : List Thread)
      → s.threads ≡ pre ++ crash_read ∷ post
      → Step s (goes_on s.manager pre (waiting s.manager.health_ctx) post s)
  wait_cancelled :
      (c : ℕ) (pre post : List Thread)
      → s.threads ≡ pre ++ crash_wait c ∷ post
      → remove c s.manager.contexts ≡ s.manager.contexts
      → Step s (goes_on s.manager pre [] post s)
  retries :
      (c : ℕ) (pre post : List Thread)
      → s.threads ≡ pre ++ crash_wait c ∷ post
      → Step s (goes_on (crash_retry s.manager).0 pre (restarting (crash_retry s.manager).1) post s)
  restarted :
      (done : Bool) (now : ℕ) (pre post : List Thread)
      → s.threads ≡ pre ++ restart_call ∷ post
      → Step s (start_from done now pre (λ n. []) post s)

pub data Reach (s : Sys) : Sys → Type 0 where
  here : Reach s s
  next : {t u : Sys} → Reach s t → Step t u → Reach s u

-- `NewManager`, before any call.
abbrev pub initial : ManagerConfig → Option ℕ → Sys
initial cfg events = record { manager = new_manager cfg events; threads = []; restarts = 0 }
