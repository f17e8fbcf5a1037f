-- ===== src/Vlm/Manager/Stopping.antt =====
-- `Stop`: what it leaves behind, and what it cannot hold back.
use cull_snap.Base.{if◌then◌else◌, ◌||◌, ◌==◌, Bool, false, ℕ, [], ◌≡◌, ◌≢◌, refl, none, some, true}
use cull_snap.Vlm.Manager.{
  State, off, starting, ready, shutting_down, Manager, returns, calls_provider, emit_locked,
  cancel_idle_timer_locked, cancel_health_monitor_locked, start_health_monitor_locked, start_end,
  stop_in, stop_begin, stop_end, reset_idle_timer_locked, arm,
}
use cull_snap.Vlm.Manager.Invariant.{Inv, stopped-AtMost, stopped-known}

-- Nothing runs on its own: no timer, no health monitor.
pub record IsQuiet (m : Manager) : Type 0 where
  pub no_timer : m.timers ≡ []
  pub no_context : m.contexts ≡ []
  pub no_health : m.stop_health ≡ none

stop_in-IsQuiet :
    (s : State) (m : Manager) → Inv m → (stop_in s m).1 ≡ calls_provider → IsQuiet (stop_in s m).0
unfolding stop_in emit_locked cancel_health_monitor_locked cancel_idle_timer_locked
stop_in-IsQuiet off m v e = cc
stop_in-IsQuiet shutting_down m v e = cc
stop_in-IsQuiet _ m v e = record {
  no_timer = stopped-AtMost m.idle_timer m.timers v.one_timer;
  no_context = stopped-known m.stop_health m.contexts v.one_monitor;
  no_health = refl;
}

stop_in_state :
    (s : State) (m : Manager)
    → (stop_in s m).1 ≡ calls_provider
    → (stop_in s m).0.state ≡ shutting_down
unfolding stop_in emit_locked cancel_health_monitor_locked cancel_idle_timer_locked
stop_in_state off m e = cc
stop_in_state shutting_down m e = cc
stop_in_state _ m e = refl

stop_shutting_down : (m : Manager) → m.state ≡ shutting_down → stop_begin m ≡ (m, returns)
unfolding stop_begin stop_in
stop_shutting_down m e = rw e refl

stop_end-IsQuiet : (m : Manager) → IsQuiet m → IsQuiet (stop_end m)
unfolding stop_end emit_locked
stop_end-IsQuiet m q = record {
  no_timer = q.no_timer;
  no_context = q.no_context;
  no_health = q.no_health;
}

-- Let a manager keep its invariant, and let Stop go on to the provider. No idle timer and no health
-- context is live when it calls the provider. If no other call or goroutine changes the manager until
-- the provider returns, none is live after Stop either, and the manager is then off. Stop called
-- again, before or after the provider returns, changes nothing.
pub stop-IsQuiet :
    (m : Manager)
    → Inv m
    → (stop_begin m).1 ≡ calls_provider
    → IsQuiet (stop_begin m).0
      × (stop_begin (stop_begin m).0 ≡ ((stop_begin m).0, returns))
      × IsQuiet (stop_end (stop_begin m).0)
      × ((stop_end (stop_begin m).0).state ≡ off)
      × (stop_begin (stop_end (stop_begin m).0) ≡ (stop_end (stop_begin m).0, returns))
unfolding stop_begin
stop-IsQuiet m v e =
    let quiet = stop_in-IsQuiet m.state m v e in
    (
      quiet,
      stop_shutting_down (stop_in m.state m).0 (stop_in_state m.state m e),
      stop_end-IsQuiet (stop_in m.state m).0 quiet,
      end_state (stop_in m.state m).0,
      stop_off (stop_in m.state m).0,
    )
  where
    end_state : (n : Manager) → (stop_end n).state ≡ off
    end_state n = unfold stop_end emit_locked in refl

    stop_off : (n : Manager) → stop_in (stop_end n).state (stop_end n) ≡ (stop_end n, returns)
    stop_off n = unfold stop_end emit_locked stop_in in refl

reset_state : (m : Manager) → (reset_idle_timer_locked m).state ≡ m.state
unfolding reset_idle_timer_locked cancel_idle_timer_locked
reset_state m = if_state (m.config.keep_alive || m.config.idle_timeout == 0)
  where
    if_state :
        (c : Bool)
        → (if c then cancel_idle_timer_locked m else arm (cancel_idle_timer_locked m)).state
          ≡ m.state
    if_state true = refl
    if_state false = refl

start_end_ready : (now : ℕ) (m : Manager) → (start_end true now m).0.state ≡ ready
unfolding start_end emit_locked start_health_monitor_locked cancel_health_monitor_locked
start_end_ready now m = reset_state (record m { state = ready; started_at = some now })

-- If Stop runs from beginning to end while provider.Start of another call is under way, the manager
-- is off after it; but when provider.Start then succeeds, the manager is ready, with a live
-- health context, and nothing has stopped the provider.
pub stop_lost :
    (m : Manager) (now : ℕ)
    → m.state ≡ starting
    → ((stop_begin m).1 ≡ calls_provider)
      × ((stop_end (stop_begin m).0).state ≡ off)
      × ((start_end true now (stop_end (stop_begin m).0)).0.state ≡ ready)
      × ((start_end true now (stop_end (stop_begin m).0)).0.stop_health ≢ none)
unfolding stop_begin stop_in stop_end start_end emit_locked start_health_monitor_locked
stop_lost m now e = (rw e refl, refl, start_end_ready now (stop_end (stop_begin m).0), λ q. cc)
