-- ===== src/WindowsService/Protocol.antt =====
-- What the service control manager is told (src/service_windows.go), against the contract of a
-- service: it is starting, then running, then about to stop with checkpoints that advance, then
-- stopped, and after that silent.
use pg_guard.Prelude.{
  ℕ, zero, suc, ◌+◌, ◌<◌, Bool, true, false, Option, none, some, List, [], ◌∷◌, ◌≡◌, ◌⊎◌, inl, inr,
  is_some, ltb, ◌||◌, if◌then◌else◌, Bool-cases, arith,
}
use pg_guard.Config.{Config}
use pg_guard.Node.{Env}
use pg_guard.WindowsService.{
  ServiceState, stopped, start_pending, stop_pending, running, ServiceStatus, Message, told, echoed,
  Service, Step, looped, served, ticked, control, child_exited, restart_timer, handover_asked,
  exit_asked, interrogate, stop, shut_down, pre_shutdown, other_command, u32, plain, checkpoints,
  stop_service, service_round, service_takes, service_step, service_run, execute,
}

-- What the manager knows of a service.
pub data Known : Type 0 where
  nothing : Known
  is_starting : Known
  is_running : Known
  is_stopping : ℕ → Known
  is_stopped : Known

abbrev advanced : ℕ → ℕ → Option Known
advanced k c = if ltb k c then some (is_stopping c) else none

-- What it knows after one more status; `none` is a breach of the contract.
abbrev pub follow_by : Known → ServiceState → ℕ → Option Known
follow_by nothing start_pending c = some is_starting
follow_by is_starting running c = some is_running
follow_by is_starting stopped c = some is_stopped
follow_by is_running stop_pending c = some (is_stopping c)
follow_by is_running stopped c = some is_stopped
follow_by (is_stopping k) stop_pending c = advanced k c
follow_by (is_stopping k) stopped c = some is_stopped
follow_by known st c = none

abbrev follow_on : Option Known → ServiceStatus → Option Known
follow_on none st = none
follow_on (some known) st = follow_by known st.state st.check_point

-- The messages stand with the newest first. The answer to an interrogation repeats the manager's own
-- words and tells it nothing.
abbrev pub follow : List Message → Option Known
follow [] = some nothing
follow (told st ∷ sent) = follow_on (follow sent) st
follow (echoed st ∷ sent) = follow sent

-- What the manager ought to know. A process that a fatal error has ended tells it nothing more.
abbrev pub Knows : Service → Option Known → Type 0
Knows v known =
    ((is_some v.returned ≡ true) × (known ≡ some is_stopped))
    ⊎ ((v.returned ≡ none) × (known ≡ some is_running))
    ⊎ ((v.returned ≡ none) × (is_some v.process.node.exited ≡ true) × (known ≡ some is_starting))

-- The ticker fires less than 2 ^ 32 times, which at one tick in two seconds takes 272 years.
abbrev pub Brief : Step → Type 0
Brief (looped (control c current ticks)) = ticks < 4294967296
Brief step = Unit

abbrev pub AllBrief : List Step → Type 0
AllBrief [] = Unit
AllBrief (step ∷ steps) = Brief step × AllBrief steps

checkpoints-follow :
    (ticks c : ℕ) (sent : List Message)
    → c + ticks < 4294967296
    → follow sent ≡ some (is_stopping c)
    → follow (checkpoints ticks c sent) ≡ some (is_stopping (c + ticks))
unfolding checkpoints
checkpoints-follow zero c sent few h = ground arith
checkpoints-follow (suc ticks) c sent few h =
    let st : ServiceStatus = record (plain stop_pending) {
      check_point = u32 (c + 1);
      wait_hint = 2000;
    } in
    ground (arith, checkpoints-follow ticks (u32 (c + 1)) (told st ∷ sent))

module _ (env : Env) (cfg : Config) where
  stop-Knows :
      (ticks : ℕ) (v : Service)
      → ticks < 4294967296
      → follow v.sent ≡ some is_running
      → Knows (stop_service env cfg ticks v) (follow (stop_service env cfg ticks v).sent)
  unfolding stop_service
  stop-Knows ticks v few h =
      let st : ServiceStatus = record (plain stop_pending) { wait_hint = 5000 } in
      ground (arith, checkpoints-follow ticks 0 (told st ∷ v.sent))

  takes-Knows :
      (step : Step) (v : Service)
      → Brief step
      → v.returned ≡ none
      → v.process.node.exited ≡ none
      → Knows v (follow v.sent)
      → Knows (service_takes env cfg step v) (follow (service_takes env cfg step v).sent)
  unfolding service_round
  takes-Knows (looped (control interrogate current ticks)) v few open_yet live h = ground arith
  takes-Knows (looped (control stop current ticks)) v few open_yet live h =
      stop-Knows ticks v few (ground arith)
  takes-Knows (looped (control shut_down current ticks)) v few open_yet live h =
      stop-Knows ticks v few (ground arith)
  takes-Knows (looped (control pre_shutdown current ticks)) v few open_yet live h =
      stop-Knows ticks v few (ground arith)
  takes-Knows (looped (control other_command current ticks)) v few open_yet live h = h
  takes-Knows (looped (child_exited code)) v few open_yet live h = ground arith
  takes-Knows (looped restart_timer) v few open_yet live h = ground arith
  takes-Knows (looped (handover_asked kind)) v few open_yet live h = ground arith
  takes-Knows (looped exit_asked) v few open_yet live h = ground arith
  takes-Knows (served r) v few open_yet live h = ground arith
  takes-Knows ticked v few open_yet live h = ground arith

  step-Knows :
      (step : Step) (v : Service)
      → Brief step
      → Knows v (follow v.sent)
      → Knows (service_step env cfg step v) (follow (service_step env cfg step v).sent)
  unfolding service_step
  step-Knows step v few h =
      elim (Bool-cases (is_some v.returned || is_some v.process.node.exited)) [
        | inl over ↦ rw over h
        | inr live ↦ rw live (takes-Knows step v few (ground arith) (ground arith) h)
      ]

  run-Knows :
      (steps : List Step) (v : Service)
      → AllBrief steps
      → Knows v (follow v.sent)
      → Knows (service_run env cfg steps v) (follow (service_run env cfg steps v).sent)
  unfolding service_run
  run-Knows [] v few h = h
  run-Knows (step ∷ steps) v few h =
      run-Knows steps (service_step env cfg step v) few.1 (step-Knows step v few.0 h)

  -- The service keeps the contract of the service control manager, whatever steps it takes: it says
  -- that it is starting, then that it is running, then that it is about to stop, with checkpoints
  -- that advance, then that it has stopped, and nothing out of this order. It has said that it has
  -- stopped exactly if Execute has returned; before, the manager knows it as running, or as
  -- starting if a fatal error has ended the process before it ran. The ticker of a shutdown fires
  -- less than 2 ^ 32 times.
  pub execute-Knows :
      (tls pool : Bool) (steps : List Step)
      → AllBrief steps
      → let v = execute env cfg tls pool steps in Knows v (follow v.sent)
  unfolding execute
  execute-Knows false pool steps few = ground arith
  execute-Knows true false steps few = ground arith
  execute-Knows true true steps few = run-Knows steps _ few (ground arith)
