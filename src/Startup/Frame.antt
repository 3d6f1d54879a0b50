-- ===== src/Startup/Frame.antt =====
-- What starting postgres leaves alone, and what it leaves behind (src/main.go).
use pg_guard.Prelude.{ℕ, zero, suc, ◌+◌, ◌-◌, ◌≡◌, ◌⊎◌, true, false, some, is_some, ◌&&◌, arith}
use pg_guard.Config.{
  Config, startup_rejoin_decision_timeout, startup_rejoin_poll_interval,
  startup_rejoin_retry_interval, bootstrap_retry_interval, bootstrap_poll_interval,
  bootstrap_primary_tiebreak_timeout, bootstrap_standby_tiebreak_timeout,
}
use pg_guard.Node.{
  Node, Env, ok, slept, checked_standby_signal, checked_version_file, looked_up_hostname,
  ran_rewind,
}
use pg_guard.Node.Monad.{log}
use pg_guard.Node.History.{is_let_go, starts_are_safe}
use pg_guard.Peer.{fetch_peer_status}
use pg_guard.Rewind.{rejoin_as_standby, run_basebackup}
use pg_guard.Bootstrap.{
  bootstrap_as_primary, standby_loop, standby_fuel, bootstrap_as_standby_with_retry, tiebreak_loop,
  tiebreak_fuel, run_bootstrap, needs_bootstrap,
}
use pg_guard.Startup.{rejoin_loop, rejoin_fuel, rejoin_at_startup_if_needed, start_postgres}

-- The marks of the main loop are the same, and the trace tells the same of the child.
abbrev pub Keeps : Node → Node → Type 0
Keeps s s' =
    (s'.current_child ≡ s.current_child)
    × (s'.postgres_running ≡ s.postgres_running)
    × (s'.restart_pending ≡ s.restart_pending)
    × (s'.restart_armed ≡ s.restart_armed)
    × (s'.exited ≡ s.exited)
    × (s'.exit_requested ≡ s.exit_requested)
    × (s'.crash_timestamps ≡ s.crash_timestamps)
    × (s'.last_crash ≡ s.last_crash)
    × (s'.postgres_restarts ≡ s.postgres_restarts)
    × (is_let_go s'.trace ≡ is_let_go s.trace)
    × (starts_are_safe s'.trace ≡ starts_are_safe s.trace)

module _ (env : Env) where
  basebackup-Keeps : (s : Node) → Keeps s (run_basebackup env s).1
  unfolding run_basebackup
  basebackup-Keeps s = ground arith

  pub rejoin-Keeps : (s : Node) → Keeps s (rejoin_as_standby env s).1
  unfolding rejoin_as_standby
  rejoin-Keeps s = ground (arith, basebackup-Keeps (log (ran_rewind false) s))

  module _ (cfg : Config) where
    pub fetch-Keeps : (s : Node) → Keeps s (fetch_peer_status env cfg s).1
    unfolding fetch_peer_status
    fetch-Keeps s = ground arith

    primary-Keeps : (s : Node) → Keeps s (bootstrap_as_primary env cfg s).1
    unfolding bootstrap_as_primary
    primary-Keeps s = ground arith

    standby_loop-Keeps :
        (fuel deadline : ℕ) (s : Node) → Keeps s (standby_loop env cfg fuel deadline s).1
    unfolding standby_loop
    standby_loop-Keeps zero deadline s = ground arith
    standby_loop-Keeps (suc fuel) deadline s =
        let t = (fetch_peer_status env cfg s).1 in
        let u = (run_basebackup env t).1 in
        ground (
          arith,
          fetch-Keeps s,
          basebackup-Keeps t,
          standby_loop-Keeps fuel deadline (log (slept bootstrap_retry_interval) t),
          standby_loop-Keeps fuel deadline (log (slept bootstrap_retry_interval) u),
        )

    retry-Keeps : (s : Node) → Keeps s (bootstrap_as_standby_with_retry env cfg s).1
    unfolding bootstrap_as_standby_with_retry
    retry-Keeps s =
        standby_loop-Keeps standby_fuel (env.now s.trace + bootstrap_standby_tiebreak_timeout) s

    tiebreak_loop-Keeps :
        (fuel deadline : ℕ) (s : Node) → Keeps s (tiebreak_loop env cfg fuel deadline s).1
    unfolding tiebreak_loop
    tiebreak_loop-Keeps zero deadline s = ground arith
    tiebreak_loop-Keeps (suc fuel) deadline s =
        let t = (fetch_peer_status env cfg s).1 in
        ground (
          arith,
          fetch-Keeps s,
          primary-Keeps t,
          retry-Keeps t,
          tiebreak_loop-Keeps fuel deadline (log (slept bootstrap_poll_interval) t),
        )

    bootstrap-Keeps : (s : Node) → Keeps s (run_bootstrap env cfg s).1
    unfolding run_bootstrap
    bootstrap-Keeps s =
        let t = log (looked_up_hostname (env.hostname s.trace)) s in
        ground (
          arith,
          basebackup-Keeps s,
          primary-Keeps s,
          primary-Keeps t,
          retry-Keeps t,
          tiebreak_loop-Keeps tiebreak_fuel (env.now t.trace + bootstrap_primary_tiebreak_timeout)
              t,
        )

    rejoin_loop-Keeps :
        (fuel deadline : ℕ) (s : Node) → Keeps s (rejoin_loop env cfg fuel deadline s).1
    unfolding rejoin_loop
    rejoin_loop-Keeps zero deadline s = ground arith
    rejoin_loop-Keeps (suc fuel) deadline s =
        let t = (fetch_peer_status env cfg s).1 in
        let u = (rejoin_as_standby env t).1 in
        ground (
          arith,
          fetch-Keeps s,
          rejoin-Keeps t,
          rejoin_loop-Keeps fuel deadline (log (slept startup_rejoin_poll_interval) t),
          rejoin_loop-Keeps fuel deadline (log (slept startup_rejoin_retry_interval) u),
        )

    startup-Keeps : (s : Node) → Keeps s (rejoin_at_startup_if_needed env cfg s).1
    unfolding rejoin_at_startup_if_needed
    startup-Keeps s =
        let t = log (checked_standby_signal false) s in
        ground (
          arith,
          rejoin_loop-Keeps rejoin_fuel (env.now t.trace + startup_rejoin_decision_timeout) t,
        )

    -- Starting postgres either succeeds, with a child that is watched and marked as running, or
    -- leaves the marks of the child as they were; the process may have exited only in the second
    -- case, with code 1. The restart marks are never touched.
    pub start_postgres_cases :
        (s : Node)
        → let (r, s') = start_postgres env cfg s in
          ((s'.restart_pending ≡ s.restart_pending)
            × (s'.restart_armed ≡ s.restart_armed)
            × (s'.exit_requested ≡ s.exit_requested)
            × (s'.crash_timestamps ≡ s.crash_timestamps)
            × (s'.last_crash ≡ s.last_crash)
            × (s'.postgres_restarts ≡ s.postgres_restarts))
          × (((r ≡ ok)
                × (is_some s'.current_child ≡ true)
                × (s'.postgres_running ≡ true)
                × (s'.exited ≡ s.exited)
                × (starts_are_safe s'.trace ≡ (is_let_go s.trace && starts_are_safe s.trace)))
              ⊎ ((s'.current_child ≡ s.current_child)
                  × (s'.postgres_running ≡ s.postgres_running)
                  × (is_let_go s'.trace ≡ is_let_go s.trace)
                  × (starts_are_safe s'.trace ≡ starts_are_safe s.trace)
                  × ((s'.exited ≡ s.exited) ⊎ (s'.exited ≡ some 1))))
    unfolding start_postgres needs_bootstrap
    start_postgres_cases s =
        let t = log (checked_version_file (env.version_file s.trace)) s in
        let u = (run_bootstrap env cfg t).1 in
        let timed = record u { last_bootstrap_duration = env.now u.trace - env.now t.trace } in
        ground (arith, bootstrap-Keeps t, startup-Keeps t, startup-Keeps timed)
