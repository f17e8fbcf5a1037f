-- ===== src/Tests/Vlm.antt =====
-- internal/vlm/manager.go on a manager that is started, fails its health checks and is stopped.
use cull_snap.Base.{◌≢◌, [], ◌∷◌, ◌≡◌, refl, true, false, none, some, ◌≤◌}
use cull_snap.Vlm.Manager.{
  crash_begin, health_tick, health_result, is_up, emit_locked, reset_idle_timer_locked,
  cancel_idle_timer_locked, start_health_monitor_locked, cancel_health_monitor_locked, starting,
  ready, off, Manager, ManagerConfig, Provider, calls_provider, returns, new_manager, set_provider,
  ensure_running, ensure_in, start_begin, start_end, stop_begin, stop_end, stop_in,
}
use cull_snap.Vlm.Manager.Threads.{
  Sys, Reach, here, next, provide, ensure, started, tick, crashes, healthy, initial, health_wait,
  crash_read,
}
use cull_snap.Vlm.Manager.Invariant.{Inv, IsWatched}
use cull_snap.Vlm.Manager.Always.{Reach-Inv}
use cull_snap.Vlm.Manager.Restarts.{restarts-bounded}
use cull_snap.Vlm.Manager.Stopping.{IsQuiet, stop-IsQuiet, stop_lost}

abbrev config : ManagerConfig
config = record { keep_alive = false; idle_timeout = 300; max_restarts = 3; restart_backoff = 2 }

abbrev provider : Provider
provider = record { model_name = b'm' ∷ []; backend = b'x' ∷ []; ram_usage = 2097152 }

abbrev at_start : Manager
at_start = (ensure_running (set_provider provider (new_manager config (some 8)))).0

abbrev at_ready : Manager
at_ready = (start_end true 5 at_start).0

abbrev running : Sys
running = record { manager = at_ready; threads = health_wait 1 0 ∷ []; restarts = 0 }

running-Reach : Reach (initial config (some 8)) running
unfolding set_provider ensure_running ensure_in new_manager start_begin start_end emit_locked
    reset_idle_timer_locked cancel_idle_timer_locked start_health_monitor_locked
    cancel_health_monitor_locked
running-Reach =
    next (next (next here (provide provider)) (ensure false)) (started false true 5 [] [] refl)

-- Two failed checks.
abbrev asked_once : Sys
asked_once = record running { threads = health_wait 1 1 ∷ [] }

abbrev at_crash : Manager
at_crash = (crash_begin at_ready).0

abbrev crashing : Sys
crashing = record { manager = at_crash; threads = crash_read ∷ []; restarts = 1 }

crashing-Reach : Reach (initial config (some 8)) crashing
unfolding set_provider ensure_running ensure_in new_manager start_begin start_end emit_locked
    reset_idle_timer_locked cancel_idle_timer_locked start_health_monitor_locked
    cancel_health_monitor_locked health_tick health_result is_up crash_begin
crashing-Reach =
    next
      (next (next (next running-Reach (tick 1 0 [] [] refl)) (healthy 1 0 false [] [] refl refl))
        (tick 1 1 [] [] refl))
      (crashes 1 1 false [] [] refl refl)

Reach-Inv_example : Inv at_crash × IsWatched at_crash
Reach-Inv_example = Reach-Inv config (some 8) crashing-Reach

restarts-bounded_example : 1 ≤ 3
restarts-bounded_example = restarts-bounded config (some 8) crashing-Reach

at_ready-stops : (stop_begin at_ready).1 ≡ calls_provider
unfolding stop_begin stop_in start_end emit_locked start_health_monitor_locked
    cancel_health_monitor_locked reset_idle_timer_locked cancel_idle_timer_locked set_provider
    ensure_running ensure_in new_manager start_begin
at_ready-stops = refl

at_start-starts : at_start.state ≡ starting
unfolding set_provider ensure_running ensure_in new_manager start_begin emit_locked
at_start-starts = refl

at_ready-Inv : Inv at_ready
at_ready-Inv = (Reach-Inv config (some 8) running-Reach).0

stop-IsQuiet_example :
    IsQuiet (stop_begin at_ready).0
    × (stop_begin (stop_begin at_ready).0 ≡ ((stop_begin at_ready).0, returns))
    × IsQuiet (stop_end (stop_begin at_ready).0)
    × ((stop_end (stop_begin at_ready).0).state ≡ off)
    × (stop_begin (stop_end (stop_begin at_ready).0) ≡ (stop_end (stop_begin at_ready).0, returns))
stop-IsQuiet_example = stop-IsQuiet at_ready at_ready-Inv at_ready-stops

stop_lost_example :
    ((stop_begin at_start).1 ≡ calls_provider)
    × ((stop_end (stop_begin at_start).0).state ≡ off)
    × ((start_end true 9 (stop_end (stop_begin at_start).0)).0.state ≡ ready)
    × ((start_end true 9 (stop_end (stop_begin at_start).0)).0.stop_health ≢ none)
stop_lost_example = stop_lost at_start 9 at_start-starts
