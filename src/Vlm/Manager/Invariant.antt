-- ===== src/Vlm/Manager/Invariant.antt =====
-- What holds of the manager after every sequence of steps, in every order of the goroutines.
use cull_snap.Base.{
  ◌||◌, ℕ, ◌+◌, ◌≤◌, List, [], ◌∷◌, ◌≡◌, ◌≢◌, refl, Bool, true, false, Option, none, some, ◌==◌,
  if◌then◌else◌, length, length-append, arith, ap,
}
use cull_snap.Vlm.Manager.{
  State, off, starting, ready, busy, idle, shutting_down, crashed, error, Manager, Provider,
  Channel, EventType, state_change, crash, failure, send, emit_locked, remove, stopped,
  cancel_idle_timer_locked, arm, reset_idle_timer_locked, cancel_health_monitor_locked,
  start_health_monitor_locked, start_begin, start_end, ensure_in, ensure_running, stop_in,
  stop_begin, stop_end, crash_begin, crash_give_up, retry_in, crash_retry, infer_end,
}

-- At most one is live, and it is the one that the manager knows.
abbrev pub AtMost : Option ℕ → List ℕ → Type 0
AtMost o [] = Unit
AtMost none (t ∷ ts) = ⊥
AtMost (some x) (t ∷ ts) = (x ≡ t) × (ts ≡ [])

abbrev pub known : Option ℕ → List ℕ
known none = []
known (some c) = c ∷ []

abbrev pub InCapacity : Option Channel → Type 0
InCapacity none = Unit
InCapacity (some c) = length c.queue ≤ c.capacity

pub record Inv (m : Manager) : Type 0 where
  -- one idle timer at most can fire
  pub one_timer : AtMost m.idle_timer m.timers
  -- the live health contexts: the one that the manager can cancel, or none
  pub one_monitor : m.contexts ≡ known m.stop_health
  pub ne_busy : m.state ≢ busy
  pub ne_idle : m.state ≢ idle
  pub in_capacity : InCapacity m.events

-- A provider that is up has a health monitor.
abbrev pub IsWatched : Manager → Type 0
IsWatched m = m.state ≡ ready → m.stop_health ≢ none

pub stopped-AtMost : (o : Option ℕ) (ts : List ℕ) → AtMost o ts → stopped o ts ≡ []
unfolding stopped remove
stopped-AtMost none [] h = refl
stopped-AtMost none (t ∷ ts) h = absurd h
stopped-AtMost (some x) [] h = refl
stopped-AtMost (some x) (t ∷ ts) h = ground arith

pub stopped-known : (o : Option ℕ) (ts : List ℕ) → ts ≡ known o → stopped o ts ≡ []
unfolding stopped remove
stopped-known none ts h = h
stopped-known (some x) ts h = ground arith

pub remove-AtMost : (o : Option ℕ) (t : ℕ) (ts : List ℕ) → AtMost o ts → AtMost o (remove t ts)
unfolding remove
remove-AtMost o t [] h = tt
remove-AtMost none t (u ∷ ts) h = absurd h
remove-AtMost (some x) t (u ∷ []) h = ground arith
remove-AtMost (some x) t (u ∷ v ∷ ts) h = absurd (let q = h.1 in cc)

send-InCapacity :
    (t : EventType) (s : State) (c : Option Channel) → InCapacity c → InCapacity (send t s c)
unfolding send
send-InCapacity t s none h = tt
send-InCapacity t s (some c) h =
    ground (arith, length-append c.queue (record { type = t; state = s } ∷ []))

emit_locked-Inv : (t : EventType) {m : Manager} → Inv m → Inv (emit_locked t m)
unfolding emit_locked
emit_locked-Inv t {m} v = record {
  one_timer = v.one_timer;
  one_monitor = v.one_monitor;
  ne_busy = v.ne_busy;
  ne_idle = v.ne_idle;
  in_capacity = send-InCapacity t m.state m.events v.in_capacity;
}

cancel_idle_timer_locked-Inv : {m : Manager} → Inv m → Inv (cancel_idle_timer_locked m)
unfolding cancel_idle_timer_locked
cancel_idle_timer_locked-Inv {m} v = record {
  one_timer = rw (stopped-AtMost m.idle_timer m.timers v.one_timer) tt;
  one_monitor = v.one_monitor;
  ne_busy = v.ne_busy;
  ne_idle = v.ne_idle;
  in_capacity = v.in_capacity;
}

arm-Inv : {m : Manager} → Inv m → m.timers ≡ [] → Inv (arm m)
arm-Inv v e = record {
  one_timer = (refl, e);
  one_monitor = v.one_monitor;
  ne_busy = v.ne_busy;
  ne_idle = v.ne_idle;
  in_capacity = v.in_capacity;
}

if-Inv : (c : Bool) {m n : Manager} → Inv m → Inv n → Inv (if c then m else n)
if-Inv true v w = v
if-Inv false v w = w

pub reset_idle_timer_locked-Inv : {m : Manager} → Inv m → Inv (reset_idle_timer_locked m)
unfolding reset_idle_timer_locked
reset_idle_timer_locked-Inv {m} v =
    if-Inv (m.config.keep_alive || m.config.idle_timeout == 0) (cancel_idle_timer_locked-Inv v)
      (arm-Inv (cancel_idle_timer_locked-Inv v) (no_timer v))
  where
    no_timer : Inv m → (cancel_idle_timer_locked m).timers ≡ []
    no_timer w = unfold cancel_idle_timer_locked in stopped-AtMost m.idle_timer m.timers w.one_timer

cancel_health_monitor_locked-Inv : {m : Manager} → Inv m → Inv (cancel_health_monitor_locked m)
unfolding cancel_health_monitor_locked
cancel_health_monitor_locked-Inv {m} v = record {
  one_timer = v.one_timer;
  one_monitor = stopped-known m.stop_health m.contexts v.one_monitor;
  ne_busy = v.ne_busy;
  ne_idle = v.ne_idle;
  in_capacity = v.in_capacity;
}

start_health_monitor_locked-Inv : {m : Manager} → Inv m → Inv (start_health_monitor_locked m)
unfolding start_health_monitor_locked cancel_health_monitor_locked
start_health_monitor_locked-Inv {m} v = record {
  one_timer = v.one_timer;
  one_monitor = ap (◌∷◌ m.next_id) (stopped-known m.stop_health m.contexts v.one_monitor);
  ne_busy = v.ne_busy;
  ne_idle = v.ne_idle;
  in_capacity = v.in_capacity;
}

-- A new state that is not one of the unused two.
with_state-Inv :
    (s : State) {m : Manager} → s ≢ busy → s ≢ idle → Inv m → Inv (record m { state = s })
with_state-Inv s b i v = record {
  one_timer = v.one_timer;
  one_monitor = v.one_monitor;
  ne_busy = b;
  ne_idle = i;
  in_capacity = v.in_capacity;
}

start_at : (o : Option Provider) {m : Manager} → m.provider ≡ o → Inv m → Inv (start_begin m).0
unfolding start_begin
start_at none {m} e v = rw (e, start_begin) v
start_at (some p) {m} e v =
    rw (e, start_begin)
      (emit_locked-Inv state_change (with_state-Inv starting (λ q. cc) (λ q. cc) v))

start_begin-Inv : {m : Manager} → Inv m → Inv (start_begin m).0
start_begin-Inv {m} v = start_at m.provider refl v

pub start_end-Inv : (done : Bool) (now : ℕ) {m : Manager} → Inv m → Inv (start_end done now m).0
unfolding start_end
start_end-Inv false now v = emit_locked-Inv failure (with_state-Inv error (λ e. cc) (λ e. cc) v)
start_end-Inv true now {m} v =
    emit_locked-Inv state_change
      (start_health_monitor_locked-Inv (reset_idle_timer_locked-Inv (up m v)))
  where
    up : (m : Manager) → Inv m → Inv (record m { state = ready; started_at = some now })
    up m w = record {
      one_timer = w.one_timer;
      one_monitor = w.one_monitor;
      ne_busy = λ e. cc;
      ne_idle = λ e. cc;
      in_capacity = w.in_capacity;
    }

ensure_in-Inv : (s : State) {m : Manager} → Inv m → Inv (ensure_in s m).0
unfolding ensure_in
ensure_in-Inv ready v = reset_idle_timer_locked-Inv v
ensure_in-Inv busy v = reset_idle_timer_locked-Inv v
ensure_in-Inv idle v = reset_idle_timer_locked-Inv v
ensure_in-Inv starting v = v
ensure_in-Inv shutting_down v = v
ensure_in-Inv off v = start_begin-Inv v
ensure_in-Inv crashed v = start_begin-Inv v
ensure_in-Inv error v = start_begin-Inv v

stop_in-Inv : (s : State) {m : Manager} → Inv m → Inv (stop_in s m).0
unfolding stop_in
stop_in-Inv off v = v
stop_in-Inv shutting_down v = v
stop_in-Inv _ v = emit_locked-Inv state_change (
    cancel_health_monitor_locked-Inv
      (cancel_idle_timer_locked-Inv (with_state-Inv shutting_down (λ e. cc) (λ e. cc) v)))

pub stop_begin-Inv : {m : Manager} → Inv m → Inv (stop_begin m).0
unfolding stop_begin
stop_begin-Inv {m} v = stop_in-Inv m.state v

pub ensure_running-Inv : {m : Manager} → Inv m → Inv (ensure_running m).0
unfolding ensure_running
ensure_running-Inv {m} v = ensure_in-Inv m.state v

pub stop_end-Inv : {m : Manager} → Inv m → Inv (stop_end m)
unfolding stop_end
stop_end-Inv v = emit_locked-Inv state_change (with_state-Inv off (λ e. cc) (λ e. cc) v)

pub crash_begin-Inv : {m : Manager} → Inv m → Inv (crash_begin m).0
unfolding crash_begin
crash_begin-Inv {m} v = emit_locked-Inv crash (down m v)
  where
    down :
        (m : Manager)
        → Inv m
        → Inv (record m { state = crashed; restart_count = m.restart_count + 1 })
    down m w = record {
      one_timer = w.one_timer;
      one_monitor = w.one_monitor;
      ne_busy = λ e. cc;
      ne_idle = λ e. cc;
      in_capacity = w.in_capacity;
    }

pub crash_give_up-Inv : {m : Manager} → Inv m → Inv (crash_give_up m)
unfolding crash_give_up
crash_give_up-Inv v = emit_locked-Inv failure (with_state-Inv error (λ e. cc) (λ e. cc) v)

retry_in-Inv : (s : State) {m : Manager} → Inv m → Inv (retry_in s m).0
unfolding retry_in
retry_in-Inv off v = v
retry_in-Inv shutting_down v = v
retry_in-Inv _ v = start_begin-Inv v

pub crash_retry-Inv : {m : Manager} → Inv m → Inv (crash_retry m).0
unfolding crash_retry
crash_retry-Inv {m} v = retry_in-Inv m.state v

pub infer_end-Inv : (ok : Bool) {m : Manager} → Inv m → Inv (infer_end ok m)
unfolding infer_end
infer_end-Inv ok {m} v = reset_idle_timer_locked-Inv (counted m v)
  where
    counted :
        (m : Manager)
        → Inv m
        → Inv (record m { infer_count = if ok then m.infer_count + 1 else m.infer_count })
    counted m w = record {
      one_timer = w.one_timer;
      one_monitor = w.one_monitor;
      ne_busy = w.ne_busy;
      ne_idle = w.ne_idle;
      in_capacity = w.in_capacity;
    }
