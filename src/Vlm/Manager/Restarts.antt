-- ===== src/Vlm/Manager/Restarts.antt =====
-- The restarts after a crash: how many there can be, and how long each waits.
use native.Mathlib.Nat.{native_laws}
use cull_snap.Base.{
  ◌∙◌, ℕ, zero, suc, ◌*◌, ◌-◌, ◌^◌, ◌≤◌, List, ◌≡◌, refl, Bool, true, false, Option, none, some,
  if◌then◌else◌, arith, ◌||◌, ◌==◌, sym, ap,
}
use cull_snap.Vlm.Manager.{
  State, off, starting, ready, busy, idle, shutting_down, crashed, error, Manager, ManagerConfig,
  Provider, set_provider, update_config, set_custom_instructions, emit_locked,
  cancel_idle_timer_locked, arm, reset_idle_timer_locked, cancel_health_monitor_locked,
  start_health_monitor_locked, start_begin, start_end, ensure_in, ensure_running, stop_in,
  stop_begin, stop_end, crash_begin, crash_give_up, retry_in, crash_retry, infer_end, new_manager,
  double, backoff, remove,
}
use cull_snap.Vlm.Manager.Threads.{
  Sys, Step, provide, configure, instruct, reset, ensure, stop, receive, fire, started,
  infer_starts, inferred, tick, healthy, crashes, exits, gives_up, reads_context, wait_cancelled,
  retries, restarted, Reach, here, next, initial, crash_from, Thread,
}
use cull_snap.Vlm.Manager.Threads

-- What the count of restarts depends on.
abbrev figures : Manager → ℕ × ℕ
figures m = (m.restart_count, m.config.max_restarts)

start_at-figures :
    (o : Option Provider) (m : Manager) → m.provider ≡ o → figures (start_begin m).0 ≡ figures m
unfolding start_begin emit_locked
start_at-figures none m e = rw (e, start_begin) refl
start_at-figures (some p) m e = rw (e, start_begin) refl

if-figures :
    (c : Bool) (m n k : Manager)
    → figures m ≡ figures k
    → figures n ≡ figures k
    → figures (if c then m else n) ≡ figures k
if-figures true m n k h j = h
if-figures false m n k h j = j

reset-figures : (m : Manager) → figures (reset_idle_timer_locked m) ≡ figures m
unfolding reset_idle_timer_locked cancel_idle_timer_locked
reset-figures m =
    if-figures (m.config.keep_alive || m.config.idle_timeout == 0) (cancel_idle_timer_locked m)
      (arm (cancel_idle_timer_locked m)) m refl refl

ensure_in-figures : (s : State) (m : Manager) → figures (ensure_in s m).0 ≡ figures m
unfolding ensure_in
ensure_in-figures ready m = reset-figures m
ensure_in-figures busy m = reset-figures m
ensure_in-figures idle m = reset-figures m
ensure_in-figures starting m = refl
ensure_in-figures shutting_down m = refl
ensure_in-figures off m = start_at-figures m.provider m refl
ensure_in-figures crashed m = start_at-figures m.provider m refl
ensure_in-figures error m = start_at-figures m.provider m refl

start_end-figures :
    (done : Bool) (now : ℕ) (m : Manager) → figures (start_end done now m).0 ≡ figures m
unfolding start_end emit_locked start_health_monitor_locked cancel_health_monitor_locked
start_end-figures false now m = refl
start_end-figures true now m = reset-figures (record m { state = ready; started_at = some now })

stop_in-figures : (s : State) (m : Manager) → figures (stop_in s m).0 ≡ figures m
unfolding stop_in emit_locked cancel_health_monitor_locked cancel_idle_timer_locked
stop_in-figures off m = refl
stop_in-figures shutting_down m = refl
stop_in-figures _ m = refl

stop_begin-figures : (m : Manager) → figures (stop_begin m).0 ≡ figures m
unfolding stop_begin
stop_begin-figures m = stop_in-figures m.state m

retry_in-figures : (s : State) (m : Manager) → figures (retry_in s m).0 ≡ figures m
unfolding retry_in
retry_in-figures off m = refl
retry_in-figures shutting_down m = refl
retry_in-figures _ m = start_at-figures m.provider m refl

-- The restarts are counted by the manager, and stay within the limit `max`.
record IsLimited (max : ℕ) (s : Sys) : Type 0 where
  counted : s.restarts ≤ s.manager.restart_count
  within : s.restarts ≤ max
  limit : s.manager.config.max_restarts ≡ max

keep :
    (max : ℕ) (s t : Sys)
    → figures t.manager ≡ figures s.manager
    → t.restarts ≡ s.restarts
    → IsLimited max s
    → IsLimited max t
keep max s t e q v = record {
  counted = let c = v.counted in let a = ap (λ z. z.0) e in omega arith;
  within = let c = v.within in omega arith;
  limit = let c = v.limit in let a = ap (λ z. z.1) e in omega arith;
}

crash_at :
    (max : ℕ) (pre post : List Thread) (s : Sys)
    → IsLimited max s
    → IsLimited max (crash_from pre post s)
unfolding crash_begin emit_locked
crash_at max pre post s v = record {
  counted = let c = v.counted in ground arith;
  within = let c = v.counted in let w = v.within in let l = v.limit in ground arith;
  limit = v.limit;
}

Step-IsLimited : (max : ℕ) {s t : Sys} → Step s t → IsLimited max s → IsLimited max t
unfolding set_provider update_config set_custom_instructions ensure_running crash_retry stop_end
    crash_give_up emit_locked infer_end
Step-IsLimited max {s} {t} (provide p) v = keep max s t refl refl v
Step-IsLimited max {s} {t} (configure cfg e) v = record {
  counted = v.counted;
  within = v.within;
  limit = let l = v.limit in omega arith;
}
Step-IsLimited max {s} {t} (instruct i) v = keep max s t refl refl v
Step-IsLimited max {s} {t} (receive c e rest p q) v = keep max s t refl refl v
Step-IsLimited max {s} {t} reset v = keep max s t (reset-figures s.manager) refl v
Step-IsLimited max {s} {t} (ensure infer) v =
    keep max s t (ensure_in-figures s.manager.state s.manager) refl v
Step-IsLimited max {s} {t} stop v = keep max s t (stop_begin-figures s.manager) refl v
Step-IsLimited max {s} {t} (fire u) v =
    keep max s t (stop_begin-figures (record s.manager { timers = remove u s.manager.timers })) refl
      v
Step-IsLimited max {s} {t} (started infer done now pre post e) v =
    keep max s t (start_end-figures done now s.manager) refl v
Step-IsLimited max {s} {t} (Threads.stopped pre post e) v = keep max s t refl refl v
Step-IsLimited max {s} {t} (infer_starts req pre post e) v = keep max s t refl refl v
Step-IsLimited max {s} {t} (inferred ok pre post e) v = keep max s t (reset-figures _) refl v
Step-IsLimited max {s} {t} (tick c n pre post e) v = keep max s t refl refl v
Step-IsLimited max {s} {t} (healthy c n a pre post e h) v = keep max s t refl refl v
Step-IsLimited max {s} {t} (crashes c n a pre post e h) v = crash_at max pre post s v
Step-IsLimited max {s} {t} (exits c n pre post e h) v = keep max s t refl refl v
Step-IsLimited max {s} {t} (gives_up pre post e) v = keep max s t refl refl v
Step-IsLimited max {s} {t} (reads_context pre post e) v = keep max s t refl refl v
Step-IsLimited max {s} {t} (wait_cancelled c pre post e h) v = keep max s t refl refl v
Step-IsLimited max {s} {t} (retries c pre post e) v =
    keep max s t (retry_in-figures s.manager.state s.manager) refl v
Step-IsLimited max {s} {t} (restarted done now pre post e) v =
    keep max s t (start_end-figures done now s.manager) refl v

Reach-IsLimited :
    (cfg : ManagerConfig) (events : Option ℕ) {s : Sys}
    → Reach (initial cfg events) s
    → IsLimited cfg.max_restarts s
unfolding new_manager
Reach-IsLimited cfg events here = record {
  counted = omega arith;
  within = omega arith;
  limit = refl;
}
Reach-IsLimited cfg events (next r st) =
    Step-IsLimited cfg.max_restarts st (Reach-IsLimited cfg events r)

-- Along every sequence of steps from the creation of a manager on, as long as its limit of restarts
-- is not changed, handleCrash goes to a wait and a restart `MaxRestarts` times at most in all.
pub restarts-bounded :
    (cfg : ManagerConfig) (events : Option ℕ) {s : Sys}
    → Reach (initial cfg events) s
    → s.restarts ≤ cfg.max_restarts
restarts-bounded cfg events r = (Reach-IsLimited cfg events r).within

double_power : (rounds base : ℕ) → double rounds base ≡ base * 2 ^ rounds
unfolding double
double_power zero base = omega arith
double_power (suc rounds) base =
    double_power rounds (base * 2)
    ∙ native_laws.mul_right_comm base 2 (2 ^ rounds)
    ∙ native_laws.mul_assoc base (2 ^ rounds) 2
    ∙ ap (◌*◌ base) (sym (native_laws.pow-suc 2 rounds))

-- The wait before the n-th restart is the configured one doubled n - 1 times.
pub backoff-doubles :
    (m : Manager) → backoff m ≡ m.config.restart_backoff * 2 ^ (m.restart_count - 1)
unfolding backoff
backoff-doubles m = double_power (m.restart_count - 1) m.config.restart_backoff
