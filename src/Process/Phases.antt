-- ===== src/Process/Phases.antt =====
-- The whole process as a machine of four phases (src/main.go, src/api.go, src/failover.go).
use pg_guard.Prelude.{ℕ, true, false, Option, none, some, List, [], ◌∷◌, ◌≡◌, ◌⊎◌, arith}
use pg_guard.Config.{Config}
use pg_guard.Node.{Node, Env, fresh, asked_recovery}
use pg_guard.Node.Monad.{log}
use pg_guard.Supervisor.{handle_handover_request, maintenance, switchover, rejoin, start}
use pg_guard.Supervisor.Inv.{Inv, Agrees}
use pg_guard.Supervisor.Phases.{
  Phase, over, phase, ByKind, Moves, requested-Moves, main_step_refines,
}
use pg_guard.Failover.Marks.{blocking-Keeps, tick-Keeps}
use pg_guard.Api.{
  Request, promote, shut_down, switch_over, rejoin_peer, maintain, start_up, reboot_notice, serve,
  handle_shutdown, handle_switchover, handle_rejoin, handle_maintenance, handle_start,
  handle_reboot_notice, kind_of,
}
use pg_guard.Api.Inv.{promote-Keeps, at_maintenance, at_maintenance-Keeps}
use pg_guard.Process.{
  Step, looped, served, ticked, Process, boot, take_step, advance, run, run_interactive,
}
use pg_guard.Process.Inv.{boot-Inv, advance-Inv}

-- How a request to the API may move a process that lives.
abbrev pub Serves : Config → Request → Phase → Phase → Type 0
Serves cfg shut_down p q = ByKind (kind_of cfg.shutdown_mode) p q
Serves cfg switch_over p q = (q ≡ p) ⊎ ByKind switchover p q
Serves cfg rejoin_peer p q = ByKind rejoin p q
Serves cfg maintain p q = ByKind maintenance p q
Serves cfg start_up p q = ByKind start p q
Serves cfg r p q = q ≡ p

-- The steps of the machine; a process that has exited takes none.
abbrev pub Goes : Config → Option ℕ → Step → Phase → Phase → Type 0
Goes cfg exit step (over code) q = q ≡ over code
Goes cfg exit (looped input) p q = Moves cfg exit p input q
Goes cfg exit (served r) p q = Serves cfg r p q
Goes cfg exit ticked p q = q ≡ p

-- The runs of the machine.
pub data Traced (cfg : Config) : Phase → List Step → Phase → Type 0 where
  rest : {p : Phase} → Traced cfg p [] p
  next :
      {p q r : Phase} {step : Step} {steps : List Step} (exit : Option ℕ)
      → Goes cfg exit step p q
      → Traced cfg q steps r
      → Traced cfg p (step ∷ steps) r

module _ (env : Env) (cfg : Config) where
  serve-Serves :
      (r : Request) (s : Node)
      → s.exited ≡ none
      → Agrees s
      → Serves cfg r (phase s) (phase (serve env cfg r s).1)
  unfolding serve handle_shutdown handle_switchover handle_rejoin handle_maintenance handle_start
      handle_reboot_notice
  serve-Serves (promote force) s live h = ground (arith, promote-Keeps env cfg force s)
  serve-Serves shut_down s live h =
      let t = record s { shutdown_in_progress = true } in
      ground (arith, requested-Moves env cfg (kind_of cfg.shutdown_mode) t live h)
  serve-Serves switch_over s live h =
      let t = record (log (asked_recovery (some false)) s) { switchover_in_progress = true } in
      ground (arith, requested-Moves env cfg switchover t live h)
  serve-Serves rejoin_peer s live h = ground (arith, requested-Moves env cfg rejoin s live h)
  serve-Serves maintain s live h = ground (
    arith,
    at_maintenance-Keeps env cfg s,
    requested-Moves env cfg maintenance (at_maintenance env cfg s),
  )
  serve-Serves start_up s live h =
      let t = (handle_handover_request env cfg start s).1 in
      ground (
        arith,
        requested-Moves env cfg start s live h,
        blocking-Keeps env cfg (record t { maintenance_active = false }),
      )
  serve-Serves reboot_notice s live h = ground arith

  advance-Goes :
      (step : Step) (p : Process)
      → Inv p.node
      → Goes cfg p.node.exit_requested step (phase p.node) (phase (advance env cfg step p).node)
  unfolding advance take_step
  advance-Goes (looped input) p h = ground (arith, main_step_refines env cfg input p.node h)
  advance-Goes (served r) p h = ground (arith, serve-Serves r p.node)
  advance-Goes ticked p h = ground (arith, tick-Keeps env cfg p.since p.node)

  run-Traced :
      (steps : List Step) (p : Process)
      → Inv p.node
      → Traced cfg (phase p.node) steps (phase (run env cfg steps p).node)
  unfolding run
  run-Traced [] p h = rest
  run-Traced (step ∷ steps) p h =
      let q = advance env cfg step p in
      next p.node.exit_requested (advance-Goes step p h)
        (run-Traced steps q (advance-Inv env cfg step p h))

  -- The whole process refines a machine of four phases: postgres up, stopped, to be restarted after
  -- a crash, or the process over. From the first start, whatever steps the main loop, the API and
  -- the failover monitor take in any order, and whatever the surroundings answer, the phases of the
  -- process are a run of that machine over the same steps.
  pub process_refines :
      (steps : List Step)
      → Traced cfg (phase (boot env cfg fresh).1) steps (phase (run_interactive env cfg steps).node)
  process_refines steps = run-Traced steps _ (boot-Inv env cfg)
