-- ===== src/Failover/Marks.antt =====
-- A tick of the monitor leaves the marks of the main loop alone (src/failover.go,
-- src/bootstrap.go).
use pg_guard.Prelude.{ℕ, zero, suc, ◌+◌, ◌-◌, true, false, some, none, arith}
use pg_guard.Config.{Config, bootstrap_retry_interval, ensure_role_and_database_timeout}
use pg_guard.Node.{Node, Env, slept, asked_recovery, connected, called_promote}
use pg_guard.Node.Monad.{log}
use pg_guard.Peer.{check_peer_reachable, peer_healthy}
use pg_guard.Database.{
  update_hba, ensure_replication_hba, ensure_role_and_database, ensure_loop, ensure_fuel,
  ensure_role_and_database_blocking,
}
use pg_guard.Startup.Frame.{Keeps}
use pg_guard.Failover.{Since, monitor_tick}

module _ (env : Env) (cfg : Config) where
  reachable-Keeps : (s : Node) → Keeps s (check_peer_reachable env cfg s).1
  unfolding check_peer_reachable
  reachable-Keeps s = ground arith

  healthy-Keeps : (s : Node) → Keeps s (peer_healthy env cfg s).1
  unfolding peer_healthy
  healthy-Keeps s = ground arith

  grant-Keeps : (s : Node) → Keeps s (ensure_replication_hba env cfg s).1
  unfolding ensure_replication_hba update_hba
  grant-Keeps s = ground arith

  ensure-Keeps : (s : Node) → Keeps s (ensure_role_and_database env cfg s).1
  unfolding ensure_role_and_database
  ensure-Keeps s =
      let t = log (asked_recovery (some false)) (log (connected true) s) in
      ground (arith, grant-Keeps t)

  ensure_loop-Keeps :
      (fuel deadline : ℕ) (s : Node) → Keeps s (ensure_loop env cfg fuel deadline s).1
  unfolding ensure_loop
  ensure_loop-Keeps zero deadline s = ground arith
  ensure_loop-Keeps (suc fuel) deadline s =
      let t = (ensure_role_and_database env cfg s).1 in
      ground (
        arith,
        ensure-Keeps s,
        ensure_loop-Keeps fuel deadline (log (slept bootstrap_retry_interval) t),
      )

  pub blocking-Keeps : (s : Node) → Keeps s (ensure_role_and_database_blocking env cfg s).1
  unfolding ensure_role_and_database_blocking
  blocking-Keeps s =
      ground (
        arith,
        ensure_loop-Keeps ensure_fuel (env.now s.trace + ensure_role_and_database_timeout) s,
      )

  pub tick-Keeps : (since : Since) (s : Node) → Keeps s (monitor_tick env cfg since s).1
  unfolding monitor_tick
  tick-Keeps none s =
      let a = log (asked_recovery (env.recovery s.trace)) s in
      let q = (check_peer_reachable env cfg a).1 in
      ground (arith, healthy-Keeps a, reachable-Keeps a, ensure-Keeps q)
  tick-Keeps (some since) s =
      let a = log (asked_recovery (env.recovery s.trace)) s in
      let c = (peer_healthy env cfg a).1 in
      let d = log (called_promote true) c in
      let q = (check_peer_reachable env cfg a).1 in
      ground (
        arith,
        healthy-Keeps a,
        reachable-Keeps a,
        ensure-Keeps q,
        blocking-Keeps (record d {
          last_promotion_duration = env.now d.trace - env.now c.trace;
          promotions = suc d.promotions;
        }),
      )
