-- ===== src/Supervisor/Dispatch.antt =====
-- Which requests the main loop refuses, and how a termination ends (src/main.go).
use pg_guard.Prelude.{ℕ, ◌≡◌, ◌⊎◌, inl, inr, is_some, true, false, none, some, arith}
use pg_guard.Config.{Config, ShutdownMode, reboot_mode, switchover_mode}
use pg_guard.Node.{Node, Env, Signal, err, not_running, already_running, crash_restart_pending}
use pg_guard.Supervisor.{
  Kind, shutdown, switchover, maintenance, reboot, rejoin, start, handle_handover_request,
  handle_termination_signal, exit_code_switchover_restart,
}

-- Kinds that stop postgres, and kinds that bring it up.
abbrev pub Stopping : Kind → Type 0
Stopping k = (k ≡ shutdown) ⊎ (k ≡ switchover) ⊎ (k ≡ maintenance) ⊎ (k ≡ reboot)

abbrev pub Starting : Kind → Type 0
Starting k = (k ≡ rejoin) ⊎ (k ≡ start)

-- The code that the process exits with after a termination signal.
abbrev pub exit_code_of : ShutdownMode → ℕ
exit_code_of reboot_mode = exit_code_switchover_restart
exit_code_of switchover_mode = 0

module _ (env : Env) (cfg : Config) where
  -- A request to stop postgres that finds no watched child is refused, and changes nothing at all.
  pub stop_refused :
      (kind : Kind) (s : Node)
      → Stopping kind
      → s.current_child ≡ none
      → handle_handover_request env cfg kind s ≡ (err not_running, s)
  unfolding handle_handover_request
  stop_refused kind s (inl k) e = rw (k, e)
  stop_refused kind s (inr (inl k)) e = rw (k, e)
  stop_refused kind s (inr (inr (inl k))) e = rw (k, e)
  stop_refused kind s (inr (inr (inr k))) e = rw (k, e)

  -- A request to rejoin or to start is refused while a crash-restart is pending, and while a child
  -- is watched. The refusal changes nothing at all.
  pub start_refused :
      (kind : Kind) (s : Node)
      → Starting kind
      → (s.restart_pending ≡ true) ⊎ (is_some s.current_child ≡ true)
      → (handle_handover_request env cfg kind s ≡ (err crash_restart_pending, s))
        ⊎ (handle_handover_request env cfg kind s ≡ (err already_running, s))
  unfolding handle_handover_request
  start_refused rejoin s k busy = ground arith
  start_refused start s k busy = ground arith
  start_refused kind s k busy = absurd (ground arith)

  -- A termination signal that finds a child to stop ends with nothing watched or marked as running,
  -- also where the coordination and the forced stop both fail. The exit code is 0, or with the
  -- shutdown mode reboot the code that asks for a restart.
  pub termination_outcome :
      (sig : Signal) (s : Node) (pid : ℕ)
      → s.current_child ≡ some pid
      → let (code, s') = handle_termination_signal env cfg sig s in
        (s'.current_child ≡ none)
        × (s'.postgres_running ≡ false)
        × (code ≡ exit_code_of cfg.shutdown_mode)
  unfolding handle_termination_signal
  termination_outcome sig s pid h = ground arith
