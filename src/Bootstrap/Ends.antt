-- ===== src/Bootstrap/Ends.antt =====
-- A bootstrap always ends (src/bootstrap.go).
use Prim.Native.Nat.{◌*◌}
use pg_guard.Prelude.{ℕ, zero, suc, ◌+◌, ◌≤◌, ◌<◌, ◌≢◌, arith}
use pg_guard.Config.{
  Config, bootstrap_retry_interval, bootstrap_poll_interval, bootstrap_primary_tiebreak_timeout,
  bootstrap_standby_tiebreak_timeout,
}
use pg_guard.Node.{Node, Env, stuck, slept, looked_up_hostname}
use pg_guard.Node.Monad.{log}
use pg_guard.Node.History.{IsClock}
use pg_guard.Peer.{fetch_peer_status}
use pg_guard.Handover.Confirm.{fetch_peer_status-onward}
use pg_guard.Rewind.{run_basebackup}
use pg_guard.Bootstrap.{standby_loop, bootstrap_as_standby_with_retry, tiebreak_loop, run_bootstrap}
use pg_guard.Bootstrap.Roles.{run_basebackup_frame, primary_frame}

module _ (env : Env) (cfg : Config) (c : IsClock env) where
  run_basebackup-onward : (s : Node) → env.now s.trace ≤ env.now (run_basebackup env s).1.trace
  unfolding run_basebackup
  run_basebackup-onward s = grind (arith, c.onward)

  standby_loop-ends :
      (fuel deadline : ℕ) (s : Node)
      → deadline < env.now s.trace + fuel * bootstrap_retry_interval
      → (standby_loop env cfg (suc fuel) deadline s).0 ≢ stuck
  unfolding standby_loop
  standby_loop-ends zero deadline s h =
      let t = (fetch_peer_status env cfg s).1 in
      ground (
        arith,
        fetch_peer_status-onward env cfg c s,
        run_basebackup-onward t,
        run_basebackup_frame env t,
      )
  standby_loop-ends (suc fuel) deadline s h =
      let t = (fetch_peer_status env cfg s).1 in
      let u = (run_basebackup env t).1 in
      ground (
        arith,
        fetch_peer_status-onward env cfg c s,
        run_basebackup-onward t,
        run_basebackup_frame env t,
        c.sleeps bootstrap_retry_interval t.trace,
        c.sleeps bootstrap_retry_interval u.trace,
        standby_loop-ends fuel deadline (log (slept bootstrap_retry_interval) t),
        standby_loop-ends fuel deadline (log (slept bootstrap_retry_interval) u),
      )

  retry-ends : (s : Node) → (bootstrap_as_standby_with_retry env cfg s).0 ≢ stuck
  unfolding bootstrap_as_standby_with_retry
  retry-ends s =
      standby_loop-ends 61 (env.now s.trace + bootstrap_standby_tiebreak_timeout) s (omega arith)

  tiebreak_loop-ends :
      (fuel deadline : ℕ) (s : Node)
      → deadline < env.now s.trace + fuel * bootstrap_poll_interval
      → (tiebreak_loop env cfg (suc fuel) deadline s).0 ≢ stuck
  unfolding tiebreak_loop
  tiebreak_loop-ends zero deadline s h =
      let t = (fetch_peer_status env cfg s).1 in
      ground (arith, fetch_peer_status-onward env cfg c s, primary_frame env cfg t, retry-ends t)
  tiebreak_loop-ends (suc fuel) deadline s h =
      let t = (fetch_peer_status env cfg s).1 in
      ground (
        arith,
        fetch_peer_status-onward env cfg c s,
        primary_frame env cfg t,
        retry-ends t,
        c.sleeps bootstrap_poll_interval t.trace,
        tiebreak_loop-ends fuel deadline (log (slept bootstrap_poll_interval) t),
      )

  -- If the clock runs, a bootstrap ends with a result, whatever its role, the peer and the tools do.
  pub bootstrap_ends : (s : Node) → (run_bootstrap env cfg s).0 ≢ stuck
  unfolding run_bootstrap
  bootstrap_ends s =
      let t = log (looked_up_hostname (env.hostname s.trace)) s in
      ground (
        arith,
        run_basebackup_frame env s,
        primary_frame env cfg s,
        primary_frame env cfg t,
        retry-ends t,
        tiebreak_loop-ends 16 (env.now t.trace + bootstrap_primary_tiebreak_timeout) t,
      )
