-- ===== src/Vlm/Manager.antt =====
-- internal/vlm/manager.go: the state of the manager, and each of its lock-protected sections as a
-- function. A section ends where the source unlocks the mutex; what the goroutine does next is the
-- second part of the result. Numbers stand for times and for the identities of timers and contexts.
-- A negative `MaxRestarts` or `IdleTimeout` acts as 0 in every test of the source, so both are
-- natural numbers.
pub mod Threads
pub mod Invariant
pub mod Always
pub mod Restarts
pub mod Stopping
use cull_snap.Base.{
  ℕ, zero, suc, ◌+◌, ◌*◌, ◌/◌, ◌-◌, List, [], ◌∷◌, ◌++◌, Bool, true, false, not, ◌||◌, ◌&&◌, ◌==◌,
  ltb, leb, Option, none, some, if◌then◌else◌, length,
}
use cull_snap.Paths.{Name}

-- `ManagerState`
pub data State : Type 0 where
  off starting ready busy idle shutting_down crashed error : State

-- `ManagerConfig`, as far as the manager reads it.
pub record ManagerConfig : Type 0 where
  pub keep_alive : Bool
  pub idle_timeout : ℕ
  pub max_restarts : ℕ
  pub restart_backoff : ℕ

-- `VLMProvider`: what `ModelInfo` says of it.
pub record Provider : Type 0 where
  pub model_name : Name
  pub backend : Name
  pub ram_usage : ℕ

-- The type of a `ManagerEvent`.
pub data EventType : Type 0 where
  state_change crash failure : EventType

pub record ManagerEvent : Type 0 where
  pub type : EventType
  pub state : State

-- The channel of events: its capacity and what waits in it.
pub record Channel : Type 0 where
  pub capacity : ℕ
  pub queue : List ManagerEvent

-- `Manager`. `timers` are the idle timers that can still fire, and `contexts` the contexts of
-- health monitors that are not cancelled; Go's runtime keeps both.
pub record Manager : Type 0 where
  pub state : State
  pub provider : Option Provider
  pub config : ManagerConfig
  pub idle_timer : Option ℕ
  pub timers : List ℕ
  pub restart_count : ℕ
  pub events : Option Channel
  pub started_at : Option ℕ
  pub infer_count : ℕ
  pub stop_health : Option ℕ
  pub health_ctx : Option ℕ
  pub contexts : List ℕ
  pub next_id : ℕ
  pub custom_instructions : Name

unfoldable pub new_manager : ManagerConfig → Option ℕ → Manager
new_manager cfg events = record {
  state = off;
  provider = none;
  config = cfg;
  idle_timer = none;
  timers = [];
  restart_count = 0;
  events = elim events [ none ↦ none | some n ↦ some (record { capacity = n; queue = [] }) ];
  started_at = none;
  infer_count = 0;
  stop_health = none;
  health_ctx = none;
  contexts = [];
  next_id = 0;
  custom_instructions = [];
}

unfoldable pub set_provider : Provider → Manager → Manager
set_provider p m = record m { provider = some p }

unfoldable pub update_config : ManagerConfig → Manager → Manager
update_config cfg m = record m { config = cfg }

unfoldable pub set_custom_instructions : Name → Manager → Manager
set_custom_instructions s m = record m { custom_instructions = s }

-- `emitLocked`: an event is dropped if the channel is full.
send : EventType → State → Option Channel → Option Channel
send t s none = none
send t s (some c) =
    if ltb (length c.queue) c.capacity
    then some (record c { queue = c.queue ++ record { type = t; state = s } ∷ [] })
    else some c

unfoldable pub emit_locked : EventType → Manager → Manager
unfolding send
emit_locked t m = record m { events = send t m.state m.events }

-- The list without an identity: what `Stop` of a timer and `cancel` of a context leave.
unfoldable pub remove : ℕ → List ℕ → List ℕ
remove x [] = []
remove x (y ∷ ys) = let rest = remove x ys in if x == y then rest else y ∷ rest

pub stopped : Option ℕ → List ℕ → List ℕ
stopped none live = live
stopped (some x) live = remove x live

unfoldable pub cancel_idle_timer_locked : Manager → Manager
unfolding stopped
cancel_idle_timer_locked m = record m { idle_timer = none; timers = stopped m.idle_timer m.timers }

-- `time.AfterFunc`
abbrev pub arm : Manager → Manager
arm m = record m {
  idle_timer = some m.next_id;
  timers = m.next_id ∷ m.timers;
  next_id = m.next_id + 1;
}

unfoldable pub reset_idle_timer_locked : Manager → Manager
reset_idle_timer_locked m =
    let c = cancel_idle_timer_locked m in
    if m.config.keep_alive || m.config.idle_timeout == 0 then c else arm c

unfoldable pub cancel_health_monitor_locked : Manager → Manager
unfolding stopped
cancel_health_monitor_locked m = record m {
  stop_health = none;
  contexts = stopped m.stop_health m.contexts;
}

unfoldable pub start_health_monitor_locked : Manager → Manager
start_health_monitor_locked m =
    let c = cancel_health_monitor_locked m in
    record c {
      stop_health = some c.next_id;
      health_ctx = some c.next_id;
      contexts = c.next_id ∷ c.contexts;
      next_id = c.next_id + 1;
    }

-- What a call does after a section: it returns, with or without an error, or it calls the provider.
pub data Next : Type 0 where
  returns fails calls_provider : Next

-- `startLocked` up to the call of `provider.Start`.
unfoldable pub start_begin : Manager → Manager × Next
start_begin m = elim m.provider [
  | none ↦ (m, fails)
  | some p ↦ (emit_locked state_change (record m { state = starting }), calls_provider)
]

-- `startLocked` after `provider.Start` has returned at the time `now`.
unfoldable pub start_end : Bool → ℕ → Manager → Manager × Next
start_end false now m = (emit_locked failure (record m { state = error }), fails)
start_end true now m = (
  emit_locked state_change (
      start_health_monitor_locked
        (reset_idle_timer_locked (record m { state = ready; started_at = some now }))),
  returns,
)

-- `EnsureRunning` up to its return or the call of `provider.Start`.
unfoldable pub ensure_in : State → Manager → Manager × Next
ensure_in ready m = (reset_idle_timer_locked m, returns)
ensure_in busy m = (reset_idle_timer_locked m, returns)
ensure_in idle m = (reset_idle_timer_locked m, returns)
ensure_in starting m = (m, returns)
ensure_in shutting_down m = (m, fails)
ensure_in off m = start_begin m
ensure_in crashed m = start_begin m
ensure_in error m = start_begin m

unfoldable pub ensure_running : Manager → Manager × Next
unfolding ensure_in
ensure_running m = ensure_in m.state m

-- `Stop` up to its return or the call of `provider.Stop`.
unfoldable pub stop_in : State → Manager → Manager × Next
stop_in off m = (m, returns)
stop_in shutting_down m = (m, returns)
stop_in _ m = (
  emit_locked state_change (
      cancel_health_monitor_locked (cancel_idle_timer_locked (record m { state = shutting_down }))),
  calls_provider,
)

unfoldable pub stop_begin : Manager → Manager × Next
unfolding stop_in
stop_begin m = stop_in m.state m

-- `Stop` after `provider.Stop` has returned.
unfoldable pub stop_end : Manager → Manager
stop_end m = emit_locked state_change (record m { state = off })

-- `healthLoop` at a tick: is the provider to be asked?
unfoldable pub is_up : State → Bool
is_up ready = true
is_up busy = true
is_up idle = true
is_up _ = false

unfoldable pub health_tick : Manager → Bool
health_tick m = is_up m.state && (elim m.provider [ none ↦ false | some p ↦ true ])

-- The failures in a row after a check, and whether the loop calls `handleCrash`.
unfoldable pub health_result : Bool → ℕ → ℕ × Bool
health_result true failures = (0, false)
health_result false failures = (failures + 1, leb 2 (failures + 1))

-- The first section of `handleCrash`; the flag says that the restarts are used up.
unfoldable pub crash_begin : Manager → Manager × Bool
crash_begin m =
    let c = record m { state = crashed; restart_count = m.restart_count + 1 } in
    (emit_locked crash c, ltb m.config.max_restarts c.restart_count)

unfoldable pub crash_give_up : Manager → Manager
crash_give_up m = emit_locked failure (record m { state = error })

-- `for i := 1; i < restartCount; i++ { backoff *= 2 }`, with the rounds left.
unfoldable pub double : ℕ → ℕ → ℕ
double zero backoff = backoff
double (suc rounds) backoff = double rounds (backoff * 2)

unfoldable pub backoff : Manager → ℕ
unfolding double
backoff m = double (m.restart_count - 1) m.config.restart_backoff

-- The last section of `handleCrash`, after the wait.
retry_in : State → Manager → Manager × Next
retry_in off m = (m, returns)
retry_in shutting_down m = (m, returns)
retry_in _ m = start_begin m

unfoldable pub crash_retry : Manager → Manager × Next
unfolding retry_in
crash_retry m = retry_in m.state m

-- `ScorePhoto` and `RankPhotos`: the section that reads the provider and stamps the instructions on
-- a request, and the one after the provider has answered.
unfoldable pub infer_begin : Name → Manager → Option Provider × Name
infer_begin req m = (m.provider, elim req [ [] ↦ m.custom_instructions | c ∷ cs ↦ c ∷ cs ])

unfoldable pub infer_end : Bool → Manager → Manager
infer_end ok m =
    reset_idle_timer_locked
      (record m { infer_count = if ok then m.infer_count + 1 else m.infer_count })

-- `Status`, at the time `now`.
pub record ManagerStatus : Type 0 where
  pub state : State
  pub model_name : Name
  pub backend : Name
  pub uptime : Option ℕ
  pub restart_count : ℕ
  pub infer_count : ℕ
  pub ram_usage_mb : ℕ

unfoldable pub status : ℕ → Manager → ManagerStatus
unfolding is_up
status now m = record {
  state = m.state;
  model_name = elim m.provider [ none ↦ [] | some p ↦ p.model_name ];
  backend = elim m.provider [ none ↦ [] | some p ↦ p.backend ];
  uptime = elim m.started_at [
    | none ↦ none
    | some t ↦ if is_up m.state then some (now - t) else none
  ];
  restart_count = m.restart_count;
  infer_count = m.infer_count;
  ram_usage_mb = elim m.provider [ none ↦ 0 | some p ↦ p.ram_usage / (1024 * 1024) ];
}
