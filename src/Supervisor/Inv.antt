-- ===== src/Supervisor/Inv.antt =====
-- What holds of a node between two inputs of the main loop (src/main.go, src/state.go).
use pg_guard.Prelude.{ℕ, suc, ◌≡◌, ◌⊎◌, ◌&&◌, ◌||◌, true, false, none, is_some, arith}
use pg_guard.Config.{Config, force}
use pg_guard.Node.{Node, Env, Signal, sigterm}
use pg_guard.Node.History.{is_let_go, starts_are_safe}
use pg_guard.Handover.{coordinate_handover, coordinate_reboot}
use pg_guard.Startup.Frame.{rejoin-Keeps, start_postgres_cases}
use pg_guard.Supervisor.Stopping.{handover-Stops, reboot-Stops}
use pg_guard.Supervisor.{
  Kind, shutdown, switchover, maintenance, reboot, rejoin, start, other_kind, Input, signalled,
  child_done, restart_due, requested, exit_due, record_crash_and_check_limit,
  handle_termination_signal, handle_handover_request, handle_child_done, handle_restart_due,
  main_step,
}

-- The marks of a running process agree: postgres is marked as running exactly if a child is
-- watched, the restart timer is armed exactly if a restart is marked as pending, no child is
-- watched while one is pending, and a child that is not watched was let go.
abbrev pub Agrees : Node → Type 0
Agrees s =
    (is_some s.current_child ≡ s.postgres_running)
    × (s.restart_armed ≡ s.restart_pending)
    × ((s.restart_pending && is_some s.current_child) ≡ false)
    × ((is_some s.current_child || is_let_go s.trace) ≡ true)

-- Postgres was never started before the last child was let go, and while the process lives
-- its marks agree.
abbrev pub Inv : Node → Type 0
Inv s = (starts_are_safe s.trace ≡ true) × ((is_some s.exited ≡ true) ⊎ Agrees s)

module _ (env : Env) (cfg : Config) where
  termination-safe :
      (sig : Signal) (s : Node)
      → starts_are_safe (handle_termination_signal env cfg sig s).1.trace ≡ starts_are_safe s.trace
  unfolding handle_termination_signal
  termination-safe sig s =
      let a = (coordinate_handover env cfg sig cfg.shutdown_policy s).1 in
      let b = (coordinate_reboot env cfg sig s).1 in
      ground (
        arith,
        handover-Stops env cfg sig cfg.shutdown_policy s,
        reboot-Stops env cfg sig s,
        handover-Stops env cfg sig force a,
        handover-Stops env cfg sig force b,
      )

  pub request-Inv :
      (kind : Kind) (s : Node)
      → s.exited ≡ none
      → Inv s
      → Inv (handle_handover_request env cfg kind s).1
  unfolding handle_handover_request
  request-Inv shutdown s live h =
      ground (arith, handover-Stops env cfg sigterm cfg.shutdown_policy s)
  request-Inv switchover s live h =
      ground (arith, handover-Stops env cfg sigterm cfg.shutdown_policy s)
  request-Inv maintenance s live h =
      ground (arith, handover-Stops env cfg sigterm cfg.shutdown_policy s)
  request-Inv reboot s live h = ground (arith, reboot-Stops env cfg sigterm s)
  request-Inv rejoin s live h = ground (arith, rejoin-Keeps env s)
  request-Inv start s live h = ground (arith, start_postgres_cases env cfg s)
  request-Inv other_kind s live h = ground arith

  child_done-Inv :
      (code : ℕ) (s : Node)
      → s.exited ≡ none
      → is_some s.current_child ≡ true
      → Inv s
      → Inv (handle_child_done env cfg code s).1
  unfolding handle_child_done record_crash_and_check_limit
  child_done-Inv code s live watched h = ground arith

  restart-Inv :
      (s : Node)
      → s.exited ≡ none
      → s.restart_armed ≡ true
      → Inv s
      → Inv (handle_restart_due env cfg s).1
  unfolding handle_restart_due
  restart-Inv s live armed h = ground (
    arith,
    start_postgres_cases env cfg (record s {
      restart_armed = false;
      restart_pending = false;
      postgres_restarts = suc s.postgres_restarts;
    }),
  )

  -- Whatever input the main loop takes, and whatever the surroundings answer, the invariant is
  -- kept.
  pub main_step-Inv : (input : Input) (s : Node) → Inv s → Inv (main_step env cfg input s)
  unfolding main_step
  main_step-Inv (signalled sig) s h = ground (arith, termination-safe sig s)
  main_step-Inv (child_done code) s h = ground (arith, child_done-Inv code s)
  main_step-Inv restart_due s h = ground (arith, restart-Inv s)
  main_step-Inv (requested kind) s h = ground (arith, request-Inv kind s)
  main_step-Inv exit_due s h = ground arith
