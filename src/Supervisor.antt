-- ===== src/Supervisor.antt =====
-- The main loop (runInteractive, handleTerminationSignal, handleHandoverRequest and
-- recordCrashAndCheckLimit of src/main.go). All changes of the watched child are made here, one
-- input after another.
pub mod Stopping
pub mod Inv
pub mod Crashes
pub mod Dispatch
pub mod Phases
pub mod Counters
use pg_guard.Prelude.{
  ℕ, suc, ℤ, ◌+◌, Bool, true, false, not, ◌&&◌, ◌||◌, Option, none, some, List, [], ◌∷◌, ◌++◌, ltb,
  leb, ◌==◌, if◌then◌else◌, is_some, length, keep_if,
}
use pg_guard.Config.{Config, Policy, force, ShutdownMode, switchover_mode, reboot_mode}
use pg_guard.Node.{
  Node, Env, Signal, sigterm, Error, Result, ok, err, stuck, started, child_ended, not_running,
  already_running, crash_restart_pending, start_failed, unknown_kind,
}
use pg_guard.Node.Monad.{M, ◌>>=◌, ◌>>◌, pure, get, modify, emit, ask, time_now}
use pg_guard.Handover.{set_stopped, coordinate_handover, coordinate_reboot}
use pg_guard.Rewind.{rejoin_as_standby}
use pg_guard.Startup.{mark_started, start_postgres}

-- `handoverRequest.kind`
pub data Kind : Type 0 where
  shutdown switchover maintenance reboot rejoin start other_kind : Kind

-- What the `select` of the main loop waits for.
pub data Input : Type 0 where
  signalled : Signal → Input
  child_done : ℕ → Input
  restart_due : Input
  requested : Kind → Input
  exit_due : Input

abbrev pub exit_code_switchover_restart : ℕ
exit_code_switchover_restart = 78

-- `t.After(now.Add(-window))`; the loader makes the window positive.
abbrev pub is_recent : ℕ → ℤ → ℕ → Bool
is_recent now (ℤ.pos window) t = ltb now (t + window)
is_recent now (ℤ.negsuc window) t = ltb (now + suc window) t

-- The count does not pass the limit; the loader makes the limit 0 or more.
abbrev pub within_limit : ℕ → ℤ → Bool
within_limit n (ℤ.pos limit) = leb n limit
within_limit n (ℤ.negsuc limit) = false

abbrev pub is_zero : ℤ → Bool
is_zero (ℤ.pos n) = n == 0
is_zero (ℤ.negsuc n) = false

module _ (env : Env) (cfg : Config) where
  unfoldable pub record_crash_and_check_limit : M Bool
  record_crash_and_check_limit = do
    now ← time_now env
    modify (λ s. record s {
      crash_timestamps =
          keep_if (is_recent now cfg.postgres_restart_window) s.crash_timestamps ++ (now ∷ []);
    })
    s ← get
    pure (within_limit (length s.crash_timestamps) cfg.postgres_restart_limit)

  -- The forced stop that follows a failed coordination; its own failure is only logged.
  abbrev force_unless_ok : Signal → Result → M (Unit {0})
  force_unless_ok sig ok = pure tt
  force_unless_ok sig (err e) = do forced ← coordinate_handover env cfg sig force; pure tt
  force_unless_ok sig stuck = pure tt

  abbrev terminate_by : ShutdownMode → Signal → M ℕ
  terminate_by reboot_mode sig = do
    done ← coordinate_reboot env cfg sig
    force_unless_ok sig done
    set_stopped
    pure exit_code_switchover_restart
  terminate_by switchover_mode sig = do
    done ← coordinate_handover env cfg sig cfg.shutdown_policy
    force_unless_ok sig done
    set_stopped
    pure 0

  abbrev terminate_if : Bool → Signal → M ℕ
  terminate_if false sig = pure 0
  terminate_if true sig = terminate_by cfg.shutdown_mode sig

  unfoldable pub handle_termination_signal : Signal → M ℕ
  handle_termination_signal sig = do s ← get; terminate_if (is_some s.current_child) sig

  -- The end of a stop that was requested.
  abbrev stopped_by : Result → M Result
  stopped_by ok = do set_stopped; pure ok
  stopped_by (err e) = pure (err e)
  stopped_by stuck = pure stuck

  abbrev stop_if : M Result → Option ℕ → M Result
  stop_if stop none = pure (err not_running)
  stop_if stop (some pid) = do done ← stop; stopped_by done

  abbrev stop_if_running : M Result → M Result
  stop_if_running stop = do s ← get; stop_if stop s.current_child

  -- Bringing postgres up is refused while a crash-restart is pending or a child is watched.
  abbrev start_if_free : M Result → Option ℕ → M Result
  start_if_free go (some pid) = pure (err already_running)
  start_if_free go none = go

  abbrev start_unless : M Result → Bool → M Result
  start_unless go true = pure (err crash_restart_pending)
  start_unless go false = do s ← get; start_if_free go s.current_child

  abbrev start_if_idle : M Result → M Result
  start_if_idle go = do s ← get; start_unless go s.restart_pending

  abbrev launched : Option ℕ → M Result
  launched none = pure (err start_failed)
  launched (some pid) = do mark_started env cfg pid; pure ok

  abbrev launch_after : Result → M Result
  launch_after ok = do child ← ask env.start_child started; launched child
  launch_after (err e) = pure (err e)
  launch_after stuck = pure stuck

  abbrev rejoin_and_launch : M Result
  rejoin_and_launch = do rejoined ← rejoin_as_standby env; launch_after rejoined

  -- `startPostgres` returns nothing: whether it worked is seen from the watched child.
  abbrev check_child : Result → M Result
  check_child stuck = pure stuck
  check_child done = do s ← get; pure (if is_some s.current_child then ok else err start_failed)

  abbrev start_and_check : M Result
  start_and_check = do done ← start_postgres env cfg; check_child done

  unfoldable pub handle_handover_request : Kind → M Result
  handle_handover_request shutdown =
      stop_if_running (coordinate_handover env cfg sigterm cfg.shutdown_policy)
  handle_handover_request switchover =
      stop_if_running (coordinate_handover env cfg sigterm cfg.shutdown_policy)
  handle_handover_request maintenance =
      stop_if_running (coordinate_handover env cfg sigterm cfg.shutdown_policy)
  handle_handover_request reboot = stop_if_running (coordinate_reboot env cfg sigterm)
  handle_handover_request rejoin = start_if_idle rejoin_and_launch
  handle_handover_request start = start_if_idle start_and_check
  handle_handover_request other_kind = pure (err unknown_kind)

  -- The process exits.
  abbrev exit_with : ℕ → M (Unit {0})
  exit_with code = modify (λ s. record s { exited = some code })

  abbrev restart_or_exit : ℕ → Bool → M (Unit {0})
  restart_or_exit code false = exit_with code
  restart_or_exit code true =
      modify (λ s. record s { restart_pending = true; restart_armed = true })

  abbrev check_budget : M Bool
  check_budget =
      if is_zero cfg.postgres_restart_limit then pure false else record_crash_and_check_limit

  unfoldable pub handle_child_done : ℕ → M (Unit {0})
  handle_child_done code = do
    emit (child_ended code)
    set_stopped
    now ← time_now env
    modify (λ s. record s { last_crash = now })
    in_budget ← check_budget
    restart_or_exit code in_budget

  abbrev exit_unless_child : M (Unit {0})
  exit_unless_child = do s ← get; if is_some s.current_child then pure tt else exit_with 1

  -- The failure of a start that has already ended the process adds nothing.
  abbrev restart_unless_child : Bool → M (Unit {0})
  restart_unless_child true = pure tt
  restart_unless_child false = do
    modify (λ s. record s { postgres_restarts = suc s.postgres_restarts })
    done ← start_postgres env cfg
    exit_unless_child

  unfoldable pub handle_restart_due : M (Unit {0})
  handle_restart_due = do
    modify (λ s. record s { restart_armed = false; restart_pending = false })
    s ← get
    restart_unless_child (is_some s.current_child)

  abbrev take_exit : Option ℕ → M (Unit {0})
  take_exit none = pure tt
  take_exit (some code) = exit_with code

  -- Whether the `select` can take this input: a nil channel never fires.
  abbrev pub ready : Input → Node → Bool
  ready (signalled sig) s = true
  ready (child_done code) s = is_some s.current_child
  ready restart_due s = s.restart_armed
  ready (requested kind) s = true
  ready exit_due s = is_some s.exit_requested

  abbrev handle : Input → M (Unit {0})
  handle (signalled sig) = do code ← handle_termination_signal sig; exit_with code
  handle (child_done code) = handle_child_done code
  handle restart_due = handle_restart_due
  handle (requested kind) = do done ← handle_handover_request kind; pure tt
  handle exit_due = do s ← get; take_exit s.exit_requested

  -- One round of the loop. A process that has exited takes no more inputs.
  unfoldable pub main_step : Input → Node → Node
  main_step input s = if is_some s.exited || not (ready input s) then s else (handle input s).1
