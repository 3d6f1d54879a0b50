-- ===== src/Examples/Processes.antt =====
-- The statements on the main loop and the failover monitor at a concrete node (src/main.go,
-- src/failover.go).
use Prim.Native.Nat.{◌*◌}
use pg_guard.Prelude.{
  ℕ, ◌-◌, ◌<◌, ◌≤◌, ◌≡◌, refl, true, none, some, List, [], ◌∷◌, ◌++◌, All, length, leb, reaches,
  arith,
}
use pg_guard.Config.{second}
use pg_guard.Node.{Node, Env, fresh, slept}
use pg_guard.Node.Monad.{log}
use pg_guard.Supervisor.{child_done, restart_due, record_crash_and_check_limit}
use pg_guard.Supervisor.Inv.{Inv}
use pg_guard.Supervisor.Crashes.{crashes_within, crash_budget}
use pg_guard.Process.{Step, looped, served, ticked, run_interactive}
use pg_guard.Supervisor.Phases.{phase}
use pg_guard.Process.{boot}
use pg_guard.Process.Phases.{Traced, process_refines}
use pg_guard.Process.Inv.{process-Inv}
use pg_guard.Api.{maintain, start_up, shut_down}
use pg_guard.Failover.{monitor_tick, reboot_suppress_active}
use pg_guard.Failover.Safety.{
  Observation, observe, Run, starting, ticking, AllJustified, every_promotion_justified,
}
use pg_guard.Failover.Outage.{IsOutage, first_time, any_tried, lasting_outage_promotes}
use pg_guard.Peer.{peer_healthy}
use pg_guard.Examples.World.{calm, settings, running}

abbrev steps : List Step
steps =
    looped (child_done 1)
    ∷ (looped restart_due
        ∷ (ticked ∷ (served maintain ∷ (served start_up ∷ (served shut_down ∷ [])))))

process-Inv_example : Inv (run_interactive calm settings steps).node
process-Inv_example = process-Inv calm settings steps

process_refines_example :
    Traced settings
      (phase (boot calm settings fresh).1)
      steps
      (phase (run_interactive calm settings steps).node)
process_refines_example = process_refines calm settings steps

abbrev budget : ℕ
budget = 3

-- The crashes of the last hour: the first has left the window long ago, the second just now.
abbrev crashes : List ℕ
crashes = 1 ∷ 2990 * second ∷ 3500 * second ∷ []

abbrev crashed : Node
crashed = record running { crash_timestamps = 2990 * second ∷ 3500 * second ∷ [] }

window_is_positive : 0 < 600 * second
window_is_positive = omega arith

recorded_before : 3550 * second ≤ calm.now crashed.trace
recorded_before = omega arith

crash_budget_example :
    let (in_budget, s') = record_crash_and_check_limit calm settings crashed in
    let now = calm.now crashed.trace in
    let kept = crashes_within now (600 * second) (crashes ++ (now ∷ [])) in
    (s'.crash_timestamps ≡ kept) × (in_budget ≡ leb (length kept) budget)
crash_budget_example =
    crash_budget calm settings crashed (600 * second) budget (3550 * second) crashes refl refl
      window_is_positive recorded_before refl

-- A standby whose peer does not answer.
abbrev alone : Env
alone = record calm { recovery = λ t. some true; peer_health = λ t. none }

-- The same node forty seconds later.
abbrev later : Node
later = log (slept (40 * second)) running

abbrev first_tick : Observation
first_tick = observe alone settings none running

abbrev second_tick : Observation
second_tick = observe alone settings (monitor_tick alone settings none running).0 later

outage :
    Run alone settings
      (monitor_tick alone settings (monitor_tick alone settings none running).0 later).0
      (second_tick ∷ first_tick ∷ [])
outage = ticking later (ticking running starting)

both_ill : All IsOutage (second_tick ∷ first_tick ∷ [])
unfolding observe peer_healthy reboot_suppress_active monitor_tick
both_ill = ((refl, refl), ((refl, refl), tt))

timeout_reached :
    reaches (second_tick.time - first_time first_tick []) settings.failover_timeout ≡ true
unfolding observe peer_healthy monitor_tick
timeout_reached = refl

lasting_outage_promotes_example : any_tried (second_tick ∷ first_tick ∷ []) ≡ true
lasting_outage_promotes_example =
    lasting_outage_promotes alone settings outage both_ill timeout_reached

abbrev counting_down : Node
counting_down = record running { failover_promote_deadline = 3030 * second }

-- Two ticks of a standby whose peer does not answer.
two_ticks :
    Run alone settings
      (monitor_tick alone settings (monitor_tick alone settings none running).0 running).0
      (observe alone settings (monitor_tick alone settings none running).0 running
        ∷ observe alone settings none running
        ∷ [])
two_ticks = ticking running (ticking running starting)

every_promotion_justified_example : AllJustified alone settings (
    observe alone settings (monitor_tick alone settings none running).0 running
    ∷ observe alone settings none running
    ∷ [])
every_promotion_justified_example = every_promotion_justified alone settings two_ticks
