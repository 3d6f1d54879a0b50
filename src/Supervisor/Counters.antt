-- ===== src/Supervisor/Counters.antt =====
-- When the main loop changes the counters that outlive the process (src/main.go).
use pg_guard.Prelude.{
  suc, false, not, ◌||◌, Option, none, some, is_some, ◌∷◌, ◌≡◌, if◌then◌else◌, arith,
}
use pg_guard.Config.{Config, force}
use pg_guard.Node.{Node, Env, Signal, sigterm, child_ended}
use pg_guard.Startup.Frame.{rejoin-Keeps, start_postgres_cases}
use pg_guard.Supervisor.Stopping.{handover-Stops, reboot-Stops}
use pg_guard.Handover.{coordinate_handover, coordinate_reboot}
use pg_guard.Supervisor.{
  Kind, shutdown, switchover, maintenance, reboot, rejoin, start, other_kind, Input, signalled,
  child_done, restart_due, requested, exit_due, record_crash_and_check_limit,
  handle_termination_signal, handle_handover_request, handle_child_done, handle_restart_due,
  main_step,
}

-- The counters of the node that are written to the state file.
abbrev pub SameCounters : Node → Node → Type 0
SameCounters s s' = (s'.postgres_restarts ≡ s.postgres_restarts) × (s'.last_crash ≡ s.last_crash)

module _ (env : Env) (cfg : Config) where
  -- The node when the loop writes the state file, if it does on this input.
  abbrev pub at_save : Input → Node → Option Node
  at_save (child_done code) s =
      if is_some s.exited || not (is_some s.current_child)
      then none
      else some (record s {
        current_child = none;
        postgres_running = false;
        last_crash = env.now (child_ended code ∷ s.trace);
      })
  at_save restart_due s =
      if is_some s.exited || (not s.restart_armed || is_some s.current_child)
      then none
      else some (record s {
        restart_armed = false;
        restart_pending = false;
        postgres_restarts = suc s.postgres_restarts;
      })
  at_save input s = none

  abbrev pub or_unchanged : Node → Option Node → Node
  or_unchanged s none = s
  or_unchanged s (some t) = t

  pub request-SameCounters :
      (kind : Kind) (s : Node) → SameCounters s (handle_handover_request env cfg kind s).1
  unfolding handle_handover_request
  request-SameCounters shutdown s =
      ground (arith, handover-Stops env cfg sigterm cfg.shutdown_policy s)
  request-SameCounters switchover s =
      ground (arith, handover-Stops env cfg sigterm cfg.shutdown_policy s)
  request-SameCounters maintenance s =
      ground (arith, handover-Stops env cfg sigterm cfg.shutdown_policy s)
  request-SameCounters reboot s = ground (arith, reboot-Stops env cfg sigterm s)
  request-SameCounters rejoin s = ground (arith, rejoin-Keeps env s)
  request-SameCounters start s = ground (arith, start_postgres_cases env cfg s)
  request-SameCounters other_kind s = ground arith

  termination-SameCounters :
      (sig : Signal) (s : Node) → SameCounters s (handle_termination_signal env cfg sig s).1
  unfolding handle_termination_signal
  termination-SameCounters sig s =
      let a = (coordinate_handover env cfg sig cfg.shutdown_policy s).1 in
      let b = (coordinate_reboot env cfg sig s).1 in
      ground (
        arith,
        handover-Stops env cfg sig cfg.shutdown_policy s,
        reboot-Stops env cfg sig s,
        handover-Stops env cfg sig force a,
        handover-Stops env cfg sig force b,
      )

  -- After any input the counters are those at the save, or the same as before where there was none.
  pub main_step-SameCounters :
      (input : Input) (s : Node)
      → SameCounters (or_unchanged s (at_save input s)) (main_step env cfg input s)
  unfolding main_step handle_child_done record_crash_and_check_limit handle_restart_due
  main_step-SameCounters (signalled sig) s = ground (arith, termination-SameCounters sig s)
  main_step-SameCounters (child_done code) s = ground arith
  main_step-SameCounters restart_due s = ground (
    arith,
    start_postgres_cases env cfg (record s {
      restart_armed = false;
      restart_pending = false;
      postgres_restarts = suc s.postgres_restarts;
    }),
  )
  main_step-SameCounters (requested kind) s = ground (arith, request-SameCounters kind s)
  main_step-SameCounters exit_due s = ground arith
