-- ===== src/Vlm/Manager/Always.antt =====
-- The invariants along every sequence of steps.
use cull_snap.Base.{
  ◌||◌, ◌==◌, ℕ, List, ◌∷◌, ◌≡◌, refl, Bool, true, false, Option, none, some, if◌then◌else◌, arith,
}
use cull_snap.Vlm.Manager.{
  State, off, starting, ready, busy, idle, shutting_down, crashed, error, Manager, ManagerConfig,
  Provider, Channel, ManagerEvent, set_provider, update_config, set_custom_instructions,
  emit_locked, remove, cancel_idle_timer_locked, arm, reset_idle_timer_locked,
  cancel_health_monitor_locked, start_health_monitor_locked, start_begin, start_end, ensure_in,
  ensure_running, stop_in, stop_begin, stop_end, crash_begin, crash_give_up, retry_in, crash_retry,
  infer_end, new_manager,
}
use cull_snap.Vlm.Manager.Threads.{
  Sys, Step, provide, configure, instruct, reset, ensure, stop, receive, fire, started,
  infer_starts, inferred, tick, healthy, crashes, exits, gives_up, reads_context, wait_cancelled,
  retries, restarted, Reach, here, next, initial,
}
use cull_snap.Vlm.Manager.Threads
use cull_snap.Vlm.Manager.Invariant.{
  Inv, IsWatched, InCapacity, remove-AtMost, reset_idle_timer_locked-Inv, start_end-Inv,
  ensure_running-Inv, stop_begin-Inv, stop_end-Inv, crash_begin-Inv, crash_give_up-Inv,
  crash_retry-Inv, infer_end-Inv,
}

fire-Inv : (t : ℕ) {m : Manager} → Inv m → Inv (record m { timers = remove t m.timers })
fire-Inv t {m} v = record {
  one_timer = remove-AtMost m.idle_timer t m.timers v.one_timer;
  one_monitor = v.one_monitor;
  ne_busy = v.ne_busy;
  ne_idle = v.ne_idle;
  in_capacity = v.in_capacity;
}

receive-InCapacity :
    (o : Option Channel) (c : Channel) (e : ManagerEvent) (rest : List ManagerEvent)
    → o ≡ some c
    → c.queue ≡ e ∷ rest
    → InCapacity o
    → InCapacity (some (record c { queue = rest }))
receive-InCapacity none c e rest p q h = cc
receive-InCapacity (some d) c e rest p q h = ground arith

Step-Inv : {s t : Sys} → Step s t → Inv s.manager → Inv t.manager
unfolding set_provider update_config set_custom_instructions
Step-Inv (provide p) v = record {
  one_timer = v.one_timer;
  one_monitor = v.one_monitor;
  ne_busy = v.ne_busy;
  ne_idle = v.ne_idle;
  in_capacity = v.in_capacity;
}
Step-Inv (configure cfg e) v = record {
  one_timer = v.one_timer;
  one_monitor = v.one_monitor;
  ne_busy = v.ne_busy;
  ne_idle = v.ne_idle;
  in_capacity = v.in_capacity;
}
Step-Inv (instruct i) v = record {
  one_timer = v.one_timer;
  one_monitor = v.one_monitor;
  ne_busy = v.ne_busy;
  ne_idle = v.ne_idle;
  in_capacity = v.in_capacity;
}
Step-Inv {s} (receive c e rest p q) v = record {
  one_timer = v.one_timer;
  one_monitor = v.one_monitor;
  ne_busy = v.ne_busy;
  ne_idle = v.ne_idle;
  in_capacity = receive-InCapacity s.manager.events c e rest p q v.in_capacity;
}
Step-Inv reset v = reset_idle_timer_locked-Inv v
Step-Inv (ensure infer) v = ensure_running-Inv v
Step-Inv stop v = stop_begin-Inv v
Step-Inv (fire t) v = stop_begin-Inv (fire-Inv t v)
Step-Inv (started infer done now pre post e) v = start_end-Inv done now v
Step-Inv (Threads.stopped pre post e) v = stop_end-Inv v
Step-Inv (infer_starts req pre post e) v = v
Step-Inv (inferred ok pre post e) v = infer_end-Inv ok v
Step-Inv (tick c n pre post e) v = v
Step-Inv (healthy c n a pre post e h) v = v
Step-Inv (crashes c n a pre post e h) v = crash_begin-Inv v
Step-Inv (exits c n pre post e h) v = v
Step-Inv (gives_up pre post e) v = crash_give_up-Inv v
Step-Inv (reads_context pre post e) v = v
Step-Inv (wait_cancelled c pre post e h) v = v
Step-Inv (retries c pre post e) v = crash_retry-Inv v
Step-Inv (restarted done now pre post e) v = start_end-Inv done now v

start_at-IsWatched :
    (o : Option Provider) (m : Manager) → m.provider ≡ o → IsWatched m → IsWatched (start_begin m).0
unfolding start_begin emit_locked
start_at-IsWatched none m e h = rw (e, start_begin) h
start_at-IsWatched (some p) m e h = rw (e, start_begin) (λ q. cc)

if-IsWatched :
    (c : Bool) (m n : Manager) → IsWatched m → IsWatched n → IsWatched (if c then m else n)
if-IsWatched true m n h k = h
if-IsWatched false m n h k = k

reset-IsWatched : (m : Manager) → IsWatched m → IsWatched (reset_idle_timer_locked m)
unfolding reset_idle_timer_locked cancel_idle_timer_locked
reset-IsWatched m h =
    if-IsWatched (m.config.keep_alive || m.config.idle_timeout == 0) (cancel_idle_timer_locked m)
      (arm (cancel_idle_timer_locked m)) h h

ensure_in-IsWatched : (s : State) (m : Manager) → IsWatched m → IsWatched (ensure_in s m).0
unfolding ensure_in
ensure_in-IsWatched ready m h = reset-IsWatched m h
ensure_in-IsWatched busy m h = reset-IsWatched m h
ensure_in-IsWatched idle m h = reset-IsWatched m h
ensure_in-IsWatched starting m h = h
ensure_in-IsWatched shutting_down m h = h
ensure_in-IsWatched off m h = start_at-IsWatched m.provider m refl h
ensure_in-IsWatched crashed m h = start_at-IsWatched m.provider m refl h
ensure_in-IsWatched error m h = start_at-IsWatched m.provider m refl h

start_end-IsWatched : (done : Bool) (now : ℕ) (m : Manager) → IsWatched (start_end done now m).0
unfolding start_end emit_locked start_health_monitor_locked
start_end-IsWatched false now m = λ e. cc
start_end-IsWatched true now m = λ e q. cc

stop_in-IsWatched : (s : State) (m : Manager) → IsWatched m → IsWatched (stop_in s m).0
unfolding stop_in emit_locked cancel_health_monitor_locked cancel_idle_timer_locked
stop_in-IsWatched off m h = h
stop_in-IsWatched shutting_down m h = h
stop_in-IsWatched _ m h = λ e. cc

stop_begin-IsWatched : (m : Manager) → IsWatched m → IsWatched (stop_begin m).0
unfolding stop_begin
stop_begin-IsWatched m h = stop_in-IsWatched m.state m h

retry_in-IsWatched : (s : State) (m : Manager) → IsWatched m → IsWatched (retry_in s m).0
unfolding retry_in
retry_in-IsWatched off m h = h
retry_in-IsWatched shutting_down m h = h
retry_in-IsWatched _ m h = start_at-IsWatched m.provider m refl h

Step-IsWatched : {s t : Sys} → Step s t → IsWatched s.manager → IsWatched t.manager
unfolding set_provider update_config set_custom_instructions ensure_running crash_retry stop_end
    crash_begin crash_give_up emit_locked infer_end
Step-IsWatched (provide p) v = v
Step-IsWatched (configure cfg e) v = v
Step-IsWatched (instruct i) v = v
Step-IsWatched (receive c e rest p q) v = v
Step-IsWatched {s} reset v = reset-IsWatched s.manager v
Step-IsWatched {s} (ensure infer) v = ensure_in-IsWatched s.manager.state s.manager v
Step-IsWatched {s} stop v = stop_begin-IsWatched s.manager v
Step-IsWatched {s} (fire t) v =
    stop_begin-IsWatched (record s.manager { timers = remove t s.manager.timers }) v
Step-IsWatched {s} (started infer done now pre post e) v = start_end-IsWatched done now s.manager
Step-IsWatched (Threads.stopped pre post e) v = λ q. cc
Step-IsWatched (infer_starts req pre post e) v = v
Step-IsWatched (inferred ok pre post e) v = reset-IsWatched _ v
Step-IsWatched (tick c n pre post e) v = v
Step-IsWatched (healthy c n a pre post e h) v = v
Step-IsWatched (crashes c n a pre post e h) v = λ q. cc
Step-IsWatched (exits c n pre post e h) v = v
Step-IsWatched (gives_up pre post e) v = λ q. cc
Step-IsWatched (reads_context pre post e) v = v
Step-IsWatched (wait_cancelled c pre post e h) v = v
Step-IsWatched {s} (retries c pre post e) v = retry_in-IsWatched s.manager.state s.manager v
Step-IsWatched {s} (restarted done now pre post e) v = start_end-IsWatched done now s.manager

initial-Inv : (cfg : ManagerConfig) (events : Option ℕ) → Inv (new_manager cfg events)
unfolding new_manager
initial-Inv cfg none = record {
  one_timer = tt;
  one_monitor = refl;
  ne_busy = λ e. cc;
  ne_idle = λ e. cc;
  in_capacity = tt;
}
initial-Inv cfg (some n) = record {
  one_timer = tt;
  one_monitor = refl;
  ne_busy = λ e. cc;
  ne_idle = λ e. cc;
  in_capacity = omega arith;
}

-- After every sequence of steps, from the creation of a manager on and in every order of its
-- goroutines: one idle timer at most can fire, and it is the one that the manager would cancel; one
-- health context at most is live, and it is the one that the manager would cancel; a manager that
-- is ready has a health context; the events never exceed the capacity of their channel; and the
-- states busy and idle do not occur.
pub Reach-Inv :
    (cfg : ManagerConfig) (events : Option ℕ) {s : Sys}
    → Reach (initial cfg events) s
    → Inv s.manager × IsWatched s.manager
unfolding new_manager
Reach-Inv cfg events here = (initial-Inv cfg events, λ e. cc)
Reach-Inv cfg events (next r st) =
    let (v, w) = Reach-Inv cfg events r in (Step-Inv st v, Step-IsWatched st w)
