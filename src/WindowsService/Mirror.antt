-- ===== src/WindowsService/Mirror.antt =====
-- The service and the interactive process (src/service_windows.go and runInteractive of src/main.go):
-- two loops written twice over the same handlers.
use pg_guard.Prelude.{
  ℕ, suc, true, false, Option, none, some, List, [], ◌∷◌, ◌≡◌, ◌⊎◌, inl, inr, refl, is_some,
  Bool-cases, Option-cases, ◌||◌, arith,
}
use pg_guard.Config.{Config, ShutdownMode, force, reboot_mode}
use pg_guard.Node.{Node, Env, Signal, sigterm}
use pg_guard.Handover.{coordinate_handover, coordinate_reboot}
use pg_guard.Supervisor
use pg_guard.Startup.Frame.{start_postgres_cases}
use pg_guard.Supervisor.{
  Kind, record_crash_and_check_limit, exit_code_switchover_restart, handle_termination_signal,
  handle_child_done, handle_restart_due, main_step,
}
use pg_guard.Supervisor.Dispatch.{termination_outcome}
use pg_guard.Supervisor.Stopping.{handover-Stops, reboot-Stops}
use pg_guard.Process
use pg_guard.Process.{Process, boot, take_step, advance, run, run_interactive}
use pg_guard.WindowsService.{
  Service, Step, looped, served, ticked, Input, control, child_exited, restart_timer,
  handover_asked, exit_asked, interrogate, stop, shut_down, pre_shutdown, other_command, u32,
  stop_service, service_child_exited, service_restart_timer, service_round, service_takes,
  service_step, service_run, service_boot, execute,
}

-- The input of the interactive loop that a step stands for: a command that stops the service is a
-- termination signal there; other commands have no counterpart.
abbrev pub as_main : Step → Option Process.Step
as_main (looped (control interrogate current ticks)) = none
as_main (looped (control other_command current ticks)) = none
as_main (looped (control c current ticks)) =
    some (Process.Step.looped (Supervisor.Input.signalled sigterm))
as_main (looped (child_exited code)) = some (Process.Step.looped (Supervisor.Input.child_done code))
as_main (looped restart_timer) = some (Process.Step.looped Supervisor.Input.restart_due)
as_main (looped (handover_asked kind)) =
    some (Process.Step.looped (Supervisor.Input.requested kind))
as_main (looped exit_asked) = some (Process.Step.looped Supervisor.Input.exit_due)
as_main (served r) = some (Process.Step.served r)
as_main ticked = some Process.Step.ticked

abbrev put_step : Option Process.Step → List Process.Step → List Process.Step
put_step none steps = steps
put_step (some step) steps = step ∷ steps

pub main_steps : List Step → List Process.Step
main_steps [] = []
main_steps (step ∷ steps) = put_step (as_main step) (main_steps steps)

abbrev pub unended : Node → Node
unended s = record s { exited = none }

-- How the operating system sees an exit code.
abbrev pub code_seen : Option ℕ → Option ℕ
code_seen none = none
code_seen (some code) = some (u32 code)

abbrev first_of : Option ℕ → Option ℕ → Option ℕ
first_of none r = r
first_of (some code) r = some (u32 code)

-- The code with which the service ended, by a fatal error or by the return of Execute.
abbrev pub ended : Service → Option ℕ
ended v = first_of v.process.node.exited v.returned

-- The same end, but for the code that asks for a restart, which a stopped service does not return.
abbrev pub SameEnd : ShutdownMode → Option ℕ → Option ℕ → Type 0
SameEnd mode service main =
    (service ≡ code_seen main)
    ⊎ ((mode ≡ reboot_mode) × (main ≡ some exit_code_switchover_restart) × (service ≡ some 0))

abbrev pub Mirrors : Config → Service → Process → Type 0
Mirrors cfg v p =
    (v.process.since ≡ p.since)
    × (unended v.process.node ≡ unended p.node)
    × SameEnd cfg.shutdown_mode (ended v) p.node.exited

module _ (env : Env) (cfg : Config) where
  abbrev advance_by : Option Process.Step → Process → Process
  advance_by none p = p
  advance_by (some step) p = advance env cfg step p

  termination-exited :
      (sig : Signal) (s : Node) → (handle_termination_signal env cfg sig s).1.exited ≡ s.exited
  unfolding handle_termination_signal
  termination-exited sig s =
      let a = (coordinate_handover env cfg sig cfg.shutdown_policy s).1 in
      let b = (coordinate_reboot env cfg sig s).1 in
      ground (
        arith,
        handover-Stops env cfg sig cfg.shutdown_policy s,
        reboot-Stops env cfg sig s,
        handover-Stops env cfg sig force a,
        handover-Stops env cfg sig force b,
      )

  idle_termination :
      (sig : Signal) (s : Node)
      → s.current_child ≡ none
      → handle_termination_signal env cfg sig s ≡ (0, s)
  unfolding handle_termination_signal
  idle_termination sig s e = rw e

  termination_code :
      (s : Node)
      → SameEnd cfg.shutdown_mode (some 0) (some (handle_termination_signal env cfg sigterm s).0)
  termination_code s = elim (Option-cases s.current_child) [
    | inl e ↦ ground (arith, idle_termination sigterm s e)
    | inr (pid, e) ↦ ground (arith, termination_outcome env cfg sigterm s pid e)
  ]

  stop-Mirrors :
      (ticks : ℕ) (v : Service)
      → v.process.node.exited ≡ none
      → Mirrors cfg
          (stop_service env cfg ticks v)
          (advance env cfg (Process.Step.looped (Supervisor.Input.signalled sigterm)) v.process)
  unfolding stop_service advance take_step main_step
  stop-Mirrors ticks v live =
      ground (arith, termination-exited sigterm v.process.node, termination_code v.process.node)

  round-Mirrors :
      (input : Input) (v : Service)
      → v.returned ≡ none
      → v.process.node.exited ≡ none
      → Mirrors cfg (service_round env cfg input v) (advance_by (as_main (looped input)) v.process)
  unfolding service_round advance take_step main_step service_child_exited handle_child_done
      service_restart_timer handle_restart_due record_crash_and_check_limit
  round-Mirrors (control interrogate current ticks) v open_yet live = ground arith
  round-Mirrors (control stop current ticks) v open_yet live = stop-Mirrors ticks v live
  round-Mirrors (control shut_down current ticks) v open_yet live = stop-Mirrors ticks v live
  round-Mirrors (control pre_shutdown current ticks) v open_yet live = stop-Mirrors ticks v live
  round-Mirrors (control other_command current ticks) v open_yet live = ground arith
  round-Mirrors (child_exited code) v open_yet live = ground arith
  round-Mirrors restart_timer v open_yet live = ground (
    arith,
    start_postgres_cases env cfg (record v.process.node {
      restart_armed = false;
      restart_pending = false;
      postgres_restarts = suc v.process.node.postgres_restarts;
    }),
  )
  round-Mirrors (handover_asked kind) v open_yet live = ground arith
  round-Mirrors exit_asked v open_yet live = ground arith

  takes-Mirrors :
      (step : Step) (v : Service)
      → v.returned ≡ none
      → v.process.node.exited ≡ none
      → Mirrors cfg (service_takes env cfg step v) (advance_by (as_main step) v.process)
  unfolding advance
  takes-Mirrors (looped input) v open_yet live = round-Mirrors input v open_yet live
  takes-Mirrors (served r) v open_yet live = ground arith
  takes-Mirrors ticked v open_yet live = ground arith

  same_process :
      (v : Service) (p : Process)
      → v.returned ≡ none
      → v.process.node.exited ≡ none
      → Mirrors cfg v p
      → v.process ≡ p
  same_process v p open_yet live h = ground arith

  over_too :
      (v : Service) (p : Process)
      → is_some v.returned || is_some v.process.node.exited ≡ true
      → Mirrors cfg v p
      → is_some p.node.exited ≡ true
  over_too v p over h = ground arith

  over_stays :
      (o : Option Process.Step) (p : Process) → is_some p.node.exited ≡ true → advance_by o p ≡ p
  unfolding advance
  over_stays none p over = refl
  over_stays (some step) p over = rw over

  step-Mirrors :
      (step : Step) (v : Service) (p : Process)
      → Mirrors cfg v p
      → Mirrors cfg (service_step env cfg step v) (advance_by (as_main step) p)
  unfolding service_step
  step-Mirrors step v p h =
      elim (Bool-cases (is_some v.returned || is_some v.process.node.exited)) [
        | inl over ↦ rw (over, over_stays (as_main step) p (over_too v p over h)) h
        | inr live ↦ go_on live (same_process v p (ground arith) (ground arith) h)
      ]
    where
      go_on :
          (is_some v.returned || is_some v.process.node.exited ≡ false)
          → v.process ≡ p
          → Mirrors cfg (service_step env cfg step v) (advance_by (as_main step) p)
      go_on live e = rw (live, ← e) (takes-Mirrors step v (ground arith) (ground arith))

  put_step-run :
      (o : Option Process.Step) (steps : List Process.Step) (p : Process)
      → run env cfg (put_step o steps) p ≡ run env cfg steps (advance_by o p)
  unfolding run
  put_step-run none steps p = refl
  put_step-run (some step) steps p = refl

  run-Mirrors :
      (steps : List Step) (v : Service) (p : Process)
      → Mirrors cfg v p
      → Mirrors cfg (service_run env cfg steps v) (run env cfg (main_steps steps) p)
  unfolding service_run main_steps run
  run-Mirrors [] v p h = h
  run-Mirrors (step ∷ steps) v p h = rw (put_step-run (as_main step) (main_steps steps) p) (
      run-Mirrors steps (service_step env cfg step v) (advance_by (as_main step) p)
        (step-Mirrors step v p h))

  -- The two loops that the source writes twice do the same. Where the clients and the pool can be
  -- made, a service and an interactive process that start alike and take the same steps, with a
  -- command to stop in the place of a termination signal, are in the same state at the end, and
  -- end, if they do, with the same code as the operating system sees it. The one exception is a
  -- stop in the shutdown mode reboot: the process exits with the code that asks for a restart, the
  -- service returns 0.
  pub execute-Mirrors :
      (steps : List Step)
      → Mirrors cfg (execute env cfg true true steps) (run_interactive env cfg (main_steps steps))
  unfolding execute service_boot boot
  execute-Mirrors steps = run-Mirrors steps _ _ (ground arith)
