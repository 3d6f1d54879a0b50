-- ===== src/Process.antt =====
-- The whole process (runInteractive of src/main.go): the main loop, the API handlers and the
-- failover monitor share one node, and any of them may take the next step.
pub mod Inv
pub mod Phases
pub mod Saving
use pg_guard.Prelude.{Bool, true, false, ◌&&◌, List, [], ◌∷◌, is_some, not, if◌then◌else◌, none}
use pg_guard.Config.{Config}
use pg_guard.Node.{Node, Env, fresh}
use pg_guard.Node.Monad.{pure, M, ◌>>=◌, ◌>>◌}
use pg_guard.Database.{ensure_role_and_database_blocking}
use pg_guard.Startup.{start_postgres}
use pg_guard.Supervisor.{Input, main_step}
use pg_guard.Failover.{Since, monitor_runs, monitor_tick}
use pg_guard.Api.{Request, serve}

pub data Step : Type 0 where
  looped : Input → Step
  served : Request → Step
  ticked : Step

-- The node, and the variable of the monitor.
pub record Process : Type 0 where
  pub node : Node
  pub since : Since

module _ (env : Env) (cfg : Config) where
  -- The first start, before the loop.
  unfoldable pub boot : M (Unit {0})
  boot = do
    done ← start_postgres env cfg
    set_up ← ensure_role_and_database_blocking env cfg
    pure tt

  abbrev tick_if : Bool → Process → Process
  tick_if false p = p
  tick_if true p =
      let (since, node) = monitor_tick env cfg p.since p.node in
      record { node = node; since = since }

  unfoldable pub take_step : Step → Process → Process
  take_step (looped input) p = record p { node = main_step env cfg input p.node }
  take_step (served r) p = record p { node = (serve env cfg r p.node).1 }
  take_step ticked p = tick_if (monitor_runs cfg) p

  -- A process that has exited takes no more steps.
  unfoldable pub advance : Step → Process → Process
  advance step p = if is_some p.node.exited then p else take_step step p

  unfoldable pub run : List Step → Process → Process
  run [] p = p
  run (step ∷ steps) p = run steps (advance step p)

  -- Everything from the start of the process.
  abbrev pub run_interactive : List Step → Process
  run_interactive steps = run steps (record { node = (boot fresh).1; since = none })
