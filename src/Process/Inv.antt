-- ===== src/Process/Inv.antt =====
-- The invariant of the process under every interleaving of its parts (src/main.go, src/api.go,
-- src/failover.go).
use pg_guard.Prelude.{none, List, [], ◌∷◌, ◌≡◌, arith}
use pg_guard.Config.{Config}
use pg_guard.Node.{Env, fresh}
use pg_guard.Startup.{start_postgres}
use pg_guard.Startup.Frame.{start_postgres_cases}
use pg_guard.Supervisor.Inv.{Inv, main_step-Inv}
use pg_guard.Failover.Marks.{blocking-Keeps, tick-Keeps}
use pg_guard.Api.Inv.{serve-Inv}
use pg_guard.Process.{
  Step, looped, served, ticked, Process, boot, take_step, advance, run, run_interactive,
}

module _ (env : Env) (cfg : Config) where
  pub boot-Inv : Inv (boot env cfg fresh).1
  unfolding boot
  boot-Inv = ground (
    arith,
    start_postgres_cases env cfg fresh,
    blocking-Keeps env cfg (start_postgres env cfg fresh).1,
  )

  take_step-Inv :
      (step : Step) (p : Process)
      → p.node.exited ≡ none
      → Inv p.node
      → Inv (take_step env cfg step p).node
  unfolding take_step
  take_step-Inv (looped input) p live h = main_step-Inv env cfg input p.node h
  take_step-Inv (served r) p live h = serve-Inv env cfg r p.node live h
  take_step-Inv ticked p live h = ground (arith, tick-Keeps env cfg p.since p.node)

  pub advance-Inv : (step : Step) (p : Process) → Inv p.node → Inv (advance env cfg step p).node
  unfolding advance
  advance-Inv step p h = ground (arith, take_step-Inv step p)

  run-Inv : (steps : List Step) (p : Process) → Inv p.node → Inv (run env cfg steps p).node
  unfolding run
  run-Inv [] p h = h
  run-Inv (step ∷ steps) p h = run-Inv steps (advance env cfg step p) (advance-Inv step p h)

  -- From the start of the process, through its first start of postgres and any steps of the main
  -- loop, of the API handlers and of the failover monitor in any order, the invariant holds.
  -- Postgres is never started again before the last child was let go: seen to exit, or killed, with
  -- its exit then awaited for five seconds (a killed child whose exit is not confirmed in that time
  -- may still run). As long as the process lives, its marks agree: postgres is marked as running
  -- exactly if a child is watched, the restart timer is armed exactly if a restart is pending, none
  -- is pending while a child is watched, and a child that is not watched was let go.
  pub process-Inv : (steps : List Step) → Inv (run_interactive env cfg steps).node
  process-Inv steps = run-Inv steps _ boot-Inv
