-- ===== src/WindowsService.antt =====
-- The process as a Windows service (pgGuardService.Execute and waitForShutdown of
-- src/service_windows.go): the loop that answers the service control manager, beside the API handlers
-- and the failover monitor that it shares with the interactive process.
pub mod Mirror
pub mod Protocol
use Prim.Native.Nat.{◌%◌}
use pg_guard.Prelude.{
  ℕ, zero, suc, ◌+◌, Bool, true, false, not, ◌||◌, Option, none, some, List, [], ◌∷◌, if◌then◌else◌,
  is_some,
}
use pg_guard.Config.{Config}
use pg_guard.Node.{Node, Env, sigterm, child_ended, fresh}
use pg_guard.Node.Monad.{M, ◌>>=◌, ◌>>◌, pure, get, modify, emit, time_now}
use pg_guard.Handover.{set_stopped}
use pg_guard.Database.{ensure_role_and_database_blocking}
use pg_guard.Startup.{start_postgres}
use pg_guard.Supervisor.{
  Kind, is_zero, record_crash_and_check_limit, handle_termination_signal, handle_handover_request,
}
use pg_guard.Api.{Request}
use pg_guard.Process
use pg_guard.Process.{Process, take_step}

-- `svc.Cmd`
pub data Command : Type 0 where
  interrogate stop shut_down pre_shutdown other_command : Command

-- `svc.State`
pub data ServiceState : Type 0 where
  stopped start_pending stop_pending running : ServiceState

-- `svc.Status`
pub record ServiceStatus : Type 0 where
  pub state : ServiceState
  pub accepts : List Command
  pub check_point : ℕ
  pub wait_hint : ℕ

-- What the service sends: a status of its own, or the one that an interrogation brings along.
pub data Message : Type 0 where
  told : ServiceStatus → Message
  echoed : ServiceStatus → Message

-- The process, the messages so far (the newest first), and the exit code once Execute has returned.
pub record Service : Type 0 where
  pub process : Process
  pub sent : List Message
  pub returned : Option ℕ

-- What the `select` takes. A request of the manager carries its command, the current status, and how
-- often the ticker fires before the shutdown that it may start is done.
pub data Input : Type 0 where
  control : Command → ServiceStatus → ℕ → Input
  child_exited : ℕ → Input
  restart_timer : Input
  handover_asked : Kind → Input
  exit_asked : Input

-- A step of the service: of its loop, of an API handler, or of the failover monitor.
pub data Step : Type 0 where
  looped : Input → Step
  served : Request → Step
  ticked : Step

-- `uint32(n)`
abbrev pub u32 : ℕ → ℕ
u32 n = n % 4294967296

abbrev pub plain : ServiceState → ServiceStatus
plain st = record { state = st; accepts = []; check_point = 0; wait_hint = 0 }

abbrev pub tell : ServiceStatus → Service → Service
tell st v = record v { sent = told st ∷ v.sent }

abbrev pub on_node : Node → Service → Service
on_node s v = record v { process = record v.process { node = s } }

-- The servers are stopped, Stopped is sent, and Execute returns.
abbrev pub finish : ℕ → Service → Service
finish code v = record v { sent = told (plain stopped) ∷ v.sent; returned = some (u32 code) }

-- The checkpoints that are sent while the shutdown runs.
pub checkpoints : ℕ → ℕ → List Message → List Message
checkpoints zero c sent = sent
checkpoints (suc ticks) c sent =
    let c' = u32 (c + 1) in
    checkpoints ticks c' (
      told (record { state = stop_pending; accepts = []; check_point = c'; wait_hint = 2000 })
      ∷ sent)

abbrev pub proceed : Bool → ℕ → Service → Service
proceed true code v = v
proceed false code v = finish code v

module _ (env : Env) (cfg : Config) where
  abbrev service_budget : M Bool
  service_budget =
      if is_zero cfg.postgres_restart_limit
      then pure false
      else record_crash_and_check_limit env cfg

  abbrev arm_restart : Bool → M Bool
  arm_restart false = pure false
  arm_restart true = do
    modify (λ s. record s { restart_pending = true; restart_armed = true })
    pure true

  -- Whether the service goes on.
  unfoldable pub service_child_exited : ℕ → M Bool
  service_child_exited code = do
    emit (child_ended code)
    set_stopped
    now ← time_now env
    modify (λ s. record s { last_crash = now })
    in_budget ← service_budget
    arm_restart in_budget

  -- A start that has ended the process (`logFatal`) leaves nothing to go on or to return.
  abbrev service_start : Bool → M Bool
  service_start true = pure true
  service_start false = do
    modify (λ s. record s { postgres_restarts = suc s.postgres_restarts })
    done ← start_postgres env cfg
    s ← get
    pure (is_some s.exited || is_some s.current_child)

  unfoldable pub service_restart_timer : M Bool
  service_restart_timer = do
    modify (λ s. record s { restart_armed = false; restart_pending = false })
    s ← get
    service_start (is_some s.current_child)

  -- waitForShutdown, with the StopPending in front of it and the Stopped behind it. The code of
  -- the termination is dropped.
  unfoldable pub stop_service : ℕ → Service → Service
  stop_service ticks v =
      let (code, s) = handle_termination_signal env cfg sigterm v.process.node in
      let pending : ServiceStatus = record (plain stop_pending) { wait_hint = 5000 } in
      finish 0 (record (on_node s v) { sent = checkpoints ticks 0 (told pending ∷ v.sent) })

  abbrev answer_control : Command → ServiceStatus → ℕ → Service → Service
  answer_control interrogate current ticks v = record v { sent = echoed current ∷ v.sent }
  answer_control other_command current ticks v = v
  answer_control stop current ticks v = stop_service ticks v
  answer_control shut_down current ticks v = stop_service ticks v
  answer_control pre_shutdown current ticks v = stop_service ticks v

  abbrev leave_with : Option ℕ → Service → Service
  leave_with none v = v
  leave_with (some code) v = finish code v

  abbrev if_goes_on : Bool × Node → ℕ → Service → Service
  if_goes_on (goes_on, s) code v = proceed goes_on code (on_node s v)

  -- One round of the `select`.
  unfoldable pub service_round : Input → Service → Service
  service_round (control c current ticks) v = answer_control c current ticks v
  service_round (child_exited code) v =
      if is_some v.process.node.current_child
      then if_goes_on (service_child_exited code v.process.node) code v
      else v
  service_round restart_timer v =
      if v.process.node.restart_armed
      then if_goes_on (service_restart_timer v.process.node) 1 v
      else v
  service_round (handover_asked kind) v =
      on_node (handle_handover_request env cfg kind v.process.node).1 v
  service_round exit_asked v = leave_with v.process.node.exit_requested v

  abbrev service_takes : Step → Service → Service
  service_takes (looped input) v = service_round input v
  service_takes (served r) v = record v {
    process = take_step env cfg (Process.Step.served r) v.process;
  }
  service_takes ticked v = record v { process = take_step env cfg Process.Step.ticked v.process }

  -- After Execute has returned, or the process has ended, nothing more happens.
  unfoldable pub service_step : Step → Service → Service
  service_step step v =
      if is_some v.returned || is_some v.process.node.exited then v else service_takes step v

  unfoldable pub service_run : List Step → Service → Service
  service_run [] v = v
  service_run (step ∷ steps) v = service_run steps (service_step step v)

  unfoldable pub service_boot : M (Unit {0})
  service_boot = do
    done ← start_postgres env cfg
    set_up ← ensure_role_and_database_blocking env cfg
    pure tt

  -- The manager accepts the three commands that stop the service from here on.
  abbrev announce : Service → Service
  announce v =
      if is_some v.process.node.exited
      then v
      else (tell (record (plain running) { accepts = stop ∷ shut_down ∷ pre_shutdown ∷ [] }) v)

  -- The service before its first start of postgres.
  abbrev pub starting_service : Service
  starting_service = record {
    process = record { node = fresh; since = none };
    sent = told (plain start_pending) ∷ [];
    returned = none;
  }

  -- Execute. Whether the clients for the peer and the connection pool can be made is up to the
  -- libraries.
  unfoldable pub execute : Bool → Bool → List Step → Service
  execute false pool steps = finish 1 starting_service
  execute true false steps = finish 1 starting_service
  execute true true steps =
      service_run steps (announce (on_node (service_boot fresh).1 starting_service))
