-- ===== src/Startup.antt =====
-- Starting postgres (startPostgres and rejoinAtStartupIfNeeded of src/main.go).
pub mod Decision
pub mod Frame
pub mod Ends
use Prim.Native.Nat.{◌*◌}
use pg_guard.Prelude.{
  ℕ, zero, suc, ◌+◌, ◌-◌, Bool, true, false, Option, none, some, ltb, if◌then◌else◌,
}
use pg_guard.Config.{
  Config, has_peer, startup_rejoin_decision_timeout, startup_rejoin_poll_interval,
  startup_rejoin_retry_interval,
}
use pg_guard.Node.{
  Env, Role, primary, standby, other_role, Error, Result, ok, err, stuck, checked_standby_signal,
  started, peer_role_unknown, start_failed,
}
use pg_guard.Node.Monad.{M, ◌>>=◌, ◌>>◌, pure, modify, ask, time_now, sleep}
use pg_guard.Peer.{fetch_peer_status}
use pg_guard.Rewind.{rejoin_as_standby}
use pg_guard.Bootstrap.{needs_bootstrap, run_bootstrap}

-- Rounds that fit into the decision time, and two more.
abbrev pub rejoin_fuel : ℕ
rejoin_fuel = 32

module _ (env : Env) (cfg : Config) where
  abbrev pub retry_after : ℕ → ℕ → Error → M Result → M Result
  retry_after deadline pause e again = do
    t ← time_now env
    if ltb deadline t then pure (err e) else (do sleep pause; again)

  abbrev rejoin_outcome : ℕ → M Result → Result → M Result
  rejoin_outcome deadline again ok = pure ok
  rejoin_outcome deadline again (err e) = retry_after deadline startup_rejoin_retry_interval e again
  rejoin_outcome deadline again stuck = pure stuck

  abbrev decide : ℕ → M Result → Option Role → M Result
  decide deadline again none =
      retry_after deadline startup_rejoin_poll_interval peer_role_unknown again
  decide deadline again (some standby) = pure ok
  decide deadline again (some other_role) = pure ok
  decide deadline again (some primary) = do
    rejoined ← rejoin_as_standby env
    rejoin_outcome deadline again rejoined

  unfoldable pub rejoin_loop : ℕ → ℕ → M Result
  rejoin_loop zero deadline = pure stuck
  rejoin_loop (suc fuel) deadline = do
    status ← fetch_peer_status env cfg
    decide deadline (rejoin_loop fuel deadline) status

  abbrev pub unless_standby : Bool → M Result
  unless_standby true = pure ok
  unless_standby false = do
    t ← time_now env
    rejoin_loop rejoin_fuel (t + startup_rejoin_decision_timeout)

  unfoldable pub rejoin_at_startup_if_needed : M Result
  rejoin_at_startup_if_needed =
      if has_peer cfg
      then (do
        configured ← ask env.standby_signal checked_standby_signal
        unless_standby configured)
      else pure ok

  -- `sup.start()`, then the marks of a running child. A failure ends the process here
  -- (`logFatal`).
  abbrev pub mark_started : ℕ → M (Unit {0})
  mark_started pid = modify (λ s. record s { current_child = some pid; postgres_running = true })

  abbrev launched : Option ℕ → M Result
  launched none = do modify (λ s. record s { exited = some 1 }); pure (err start_failed)
  launched (some pid) = do mark_started pid; pure ok

  abbrev launch_if : Result → M Result
  launch_if ok = do child ← ask env.start_child started; launched child
  launch_if (err e) = pure (err e)
  launch_if stuck = pure stuck

  abbrev rejoin_and_launch : M Result
  rejoin_and_launch = do ready ← rejoin_at_startup_if_needed; launch_if ready

  abbrev after_bootstrap : ℕ → Result → M Result
  after_bootstrap start ok = do
    t ← time_now env
    modify (λ s. record s { last_bootstrap_duration = t - start })
    rejoin_and_launch
  after_bootstrap start (err e) = pure (err e)
  after_bootstrap start stuck = pure stuck

  -- The source returns nothing; the result tells why postgres was not started.
  unfoldable pub start_postgres : M Result
  start_postgres = do
    needed ← needs_bootstrap env cfg
    if needed
        then (do start ← time_now env; done ← run_bootstrap env cfg; after_bootstrap start done)
        else rejoin_and_launch
