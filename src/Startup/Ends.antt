-- ===== src/Startup/Ends.antt =====
-- Starting postgres always ends (src/main.go).
use Prim.Native.Nat.{◌*◌}
use pg_guard.Prelude.{ℕ, zero, suc, ◌+◌, ◌-◌, ◌≤◌, ◌<◌, ◌≢◌, false, arith}
use pg_guard.Config.{
  Config, startup_rejoin_decision_timeout, startup_rejoin_poll_interval,
  startup_rejoin_retry_interval,
}
use pg_guard.Node.{Node, Env, stuck, slept, checked_standby_signal, checked_version_file}
use pg_guard.Node.Monad.{log}
use pg_guard.Node.History.{IsClock}
use pg_guard.Peer.{fetch_peer_status}
use pg_guard.Handover.Confirm.{fetch_peer_status-onward}
use pg_guard.Rewind.{rejoin_as_standby, run_basebackup}
use pg_guard.Bootstrap.{run_bootstrap, needs_bootstrap}
use pg_guard.Bootstrap.Roles.{rejoin_frame}
use pg_guard.Bootstrap.Ends.{bootstrap_ends}
use pg_guard.Startup.{rejoin_loop, rejoin_at_startup_if_needed, start_postgres}

module _ (env : Env) (cfg : Config) (c : IsClock env) where
  rejoin-onward : (s : Node) → env.now s.trace ≤ env.now (rejoin_as_standby env s).1.trace
  unfolding rejoin_as_standby run_basebackup
  rejoin-onward s = grind (arith, c.onward)

  rejoin_loop-ends :
      (fuel deadline : ℕ) (s : Node)
      → deadline < env.now s.trace + fuel * startup_rejoin_poll_interval
      → (rejoin_loop env cfg (suc fuel) deadline s).0 ≢ stuck
  unfolding rejoin_loop
  rejoin_loop-ends zero deadline s h =
      let t = (fetch_peer_status env cfg s).1 in
      ground (arith, fetch_peer_status-onward env cfg c s, rejoin-onward t, rejoin_frame env t)
  rejoin_loop-ends (suc fuel) deadline s h =
      let t = (fetch_peer_status env cfg s).1 in
      let u = (rejoin_as_standby env t).1 in
      ground (
        arith,
        fetch_peer_status-onward env cfg c s,
        rejoin-onward t,
        rejoin_frame env t,
        c.sleeps startup_rejoin_poll_interval t.trace,
        c.sleeps startup_rejoin_retry_interval u.trace,
        rejoin_loop-ends fuel deadline (log (slept startup_rejoin_poll_interval) t),
        rejoin_loop-ends fuel deadline (log (slept startup_rejoin_retry_interval) u),
      )

  startup-ends : (s : Node) → (rejoin_at_startup_if_needed env cfg s).0 ≢ stuck
  unfolding rejoin_at_startup_if_needed
  startup-ends s =
      let t = log (checked_standby_signal false) s in
      ground (arith, rejoin_loop-ends 31 (env.now t.trace + startup_rejoin_decision_timeout) t)

  -- If the clock runs, starting postgres ends, with postgres started or with the reason why it was
  -- not, whatever the peer, the tools and the operating system do.
  pub start_postgres_ends : (s : Node) → (start_postgres env cfg s).0 ≢ stuck
  unfolding start_postgres needs_bootstrap
  start_postgres_ends s =
      let t = log (checked_version_file (env.version_file s.trace)) s in
      let u = (run_bootstrap env cfg t).1 in
      let timed = record u { last_bootstrap_duration = env.now u.trace - env.now t.trace } in
      ground (arith, bootstrap_ends env cfg c t, startup-ends t, startup-ends timed)
