-- ===== src/Supervisor/Phases.antt =====
-- The main loop as a machine of four phases (runInteractive of src/main.go): what an operator sees of
-- the process, and how each input of the loop may move it.
use pg_guard.Prelude.{
  ℕ, suc, Bool, true, false, Option, none, some, is_some, ◌≡◌, ◌⊎◌, inl, inr, refl, arith,
}
use pg_guard.Config.{Config}
use pg_guard.Node.{Node, Env, Signal, sigterm}
use pg_guard.Startup.Frame.{rejoin-Keeps, start_postgres_cases}
use pg_guard.Supervisor.Stopping.{handover-Stops, reboot-Stops}
use pg_guard.Supervisor.{
  Kind, shutdown, switchover, maintenance, reboot, rejoin, start, other_kind, Input, signalled,
  child_done, restart_due, requested, exit_due, is_zero, handle_termination_signal,
  handle_handover_request, handle_child_done, handle_restart_due, record_crash_and_check_limit,
  main_step,
}
use pg_guard.Supervisor.Dispatch.{exit_code_of, termination_outcome}
use pg_guard.Supervisor.Inv.{Agrees, Inv}

-- Postgres runs; it is stopped on request; it crashed and a restart is due; the process has exited.
pub data Phase : Type 0 where
  up down restarting : Phase
  over : ℕ → Phase

abbrev pub phase_of : Option ℕ → Bool → Bool → Phase
phase_of (some code) watched pending = over code
phase_of none true pending = up
phase_of none false true = restarting
phase_of none false false = down

abbrev pub phase : Node → Phase
phase s = phase_of s.exited (is_some s.current_child) s.restart_pending

-- Where a request may take a process whose postgres runs, and one whose postgres is stopped.
abbrev pub FromUp : Kind → Phase → Type 0
FromUp shutdown q = (q ≡ up) ⊎ (q ≡ down)
FromUp switchover q = (q ≡ up) ⊎ (q ≡ down)
FromUp maintenance q = (q ≡ up) ⊎ (q ≡ down)
FromUp reboot q = (q ≡ up) ⊎ (q ≡ down)
FromUp kind q = q ≡ up

abbrev pub FromDown : Kind → Phase → Type 0
FromDown rejoin q = (q ≡ down) ⊎ (q ≡ up)
FromDown start q = (q ≡ down) ⊎ (q ≡ up) ⊎ (q ≡ over 1)
FromDown kind q = q ≡ down

abbrev pub ByKind : Kind → Phase → Phase → Type 0
ByKind kind up q = FromUp kind q
ByKind kind down q = FromDown kind q
ByKind kind p q = q ≡ p

abbrev pub Exits : Option ℕ → Phase → Phase → Type 0
Exits none p q = q ≡ p
Exits (some code) p q = q ≡ over code

-- The moves of the machine. The code of a requested exit is the node's.
abbrev pub Moves : Config → Option ℕ → Phase → Input → Phase → Type 0
Moves cfg exit (over code) input q = q ≡ over code
Moves cfg exit up (signalled sig) q = q ≡ over (exit_code_of cfg.shutdown_mode)
Moves cfg exit p (signalled sig) q = q ≡ over 0
Moves cfg exit up (child_done code) q =
    (q ≡ over code) ⊎ ((q ≡ restarting) × (is_zero cfg.postgres_restart_limit ≡ false))
Moves cfg exit p (child_done code) q = q ≡ p
Moves cfg exit restarting restart_due q = (q ≡ up) ⊎ (q ≡ over 1)
Moves cfg exit p restart_due q = q ≡ p
Moves cfg exit p (requested kind) q = ByKind kind p q
Moves cfg exit p exit_due q = Exits exit p q

option_cases : {A : Type 0} (m : Option A) → (m ≡ none) ⊎ ((a : A) × (m ≡ some a))
option_cases none = inl refl
option_cases (some a) = inr (a, refl)

module _ (env : Env) (cfg : Config) where
  idle_termination :
      (sig : Signal) (s : Node)
      → s.current_child ≡ none
      → handle_termination_signal env cfg sig s ≡ (0, s)
  unfolding handle_termination_signal
  idle_termination sig s e = rw e

  pub requested-Moves :
      (kind : Kind) (s : Node)
      → s.exited ≡ none
      → Agrees s
      → ByKind kind (phase s) (phase (handle_handover_request env cfg kind s).1)
  unfolding handle_handover_request
  requested-Moves shutdown s live h =
      ground (arith, handover-Stops env cfg sigterm cfg.shutdown_policy s)
  requested-Moves switchover s live h =
      ground (arith, handover-Stops env cfg sigterm cfg.shutdown_policy s)
  requested-Moves maintenance s live h =
      ground (arith, handover-Stops env cfg sigterm cfg.shutdown_policy s)
  requested-Moves reboot s live h = ground (arith, reboot-Stops env cfg sigterm s)
  requested-Moves rejoin s live h = ground (arith, rejoin-Keeps env s)
  requested-Moves start s live h = ground (arith, start_postgres_cases env cfg s)
  requested-Moves other_kind s live h = ground arith

  child_done-Moves :
      (code : ℕ) (s : Node)
      → s.exited ≡ none
      → Agrees s
      → Moves cfg s.exit_requested
          (phase s)
          (child_done code)
          (phase (main_step env cfg (child_done code) s))
  unfolding main_step handle_child_done record_crash_and_check_limit
  child_done-Moves code s live h = ground arith

  restart-Moves :
      (s : Node)
      → s.exited ≡ none
      → Agrees s
      → Moves cfg s.exit_requested (phase s) restart_due (phase (main_step env cfg restart_due s))
  unfolding main_step handle_restart_due
  restart-Moves s live h = ground (
    arith,
    start_postgres_cases env cfg (record s {
      restart_armed = false;
      restart_pending = false;
      postgres_restarts = suc s.postgres_restarts;
    }),
  )

  signalled-Moves :
      (sig : Signal) (s : Node)
      → s.exited ≡ none
      → Moves cfg s.exit_requested
          (phase s)
          (signalled sig)
          (phase (main_step env cfg (signalled sig) s))
  unfolding main_step
  signalled-Moves sig s live = elim (option_cases s.current_child) [
    | inl e ↦ ground (arith, idle_termination sig s e)
    | inr (pid, e) ↦ ground (arith, termination_outcome env cfg sig s pid e)
  ]

  -- The main loop refines the machine of four phases: whatever input it takes in a state that keeps
  -- the invariant, and whatever the surroundings answer, the phase afterwards is one to which the
  -- machine may move from the phase before.
  pub main_step_refines :
      (input : Input) (s : Node)
      → Inv s
      → Moves cfg s.exit_requested (phase s) input (phase (main_step env cfg input s))
  unfolding main_step
  main_step_refines (signalled sig) s h = ground (arith, signalled-Moves sig s)
  main_step_refines (child_done code) s h = ground (arith, child_done-Moves code s)
  main_step_refines restart_due s h = ground (arith, restart-Moves s)
  main_step_refines (requested kind) s h = ground (arith, requested-Moves kind s)
  main_step_refines exit_due s h = ground arith
