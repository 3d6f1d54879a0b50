-- ===== src/Failover/Frame.antt =====
-- What the calls of a monitor tick leave alone (src/peer.go, src/bootstrap.go).
use pg_guard.Prelude.{ℕ, zero, suc, ◌+◌, ◌≡◌, true, false, some, arith}
use pg_guard.Config.{Config, bootstrap_retry_interval, ensure_role_and_database_timeout}
use pg_guard.Node.{Node, Env, slept, asked_recovery, connected}
use pg_guard.Node.Monad.{log}
use pg_guard.Node.History.{promote_calls}
use pg_guard.Peer.{check_peer_reachable, fetch_peer_status, peer_healthy}
use pg_guard.Database.{
  update_hba, ensure_replication_hba, ensure_role_and_database, ensure_loop, ensure_fuel,
  ensure_role_and_database_blocking,
}

-- The deadlines, the number of promotions, and what the trace tells of promotions are the same.
abbrev pub Steady : Node → Node → Type 0
Steady s s' =
    (s'.failover_promote_deadline ≡ s.failover_promote_deadline)
    × (s'.reboot_suppress_until ≡ s.reboot_suppress_until)
    × (s'.promotions ≡ s.promotions)
    × (s'.postgres_running ≡ s.postgres_running)
    × (s'.maintenance_active ≡ s.maintenance_active)
    × (promote_calls s'.trace ≡ promote_calls s.trace)

module _ (env : Env) where
  module _ (cfg : Config) where
    pub reachable-Steady : (s : Node) → Steady s (check_peer_reachable env cfg s).1
    unfolding check_peer_reachable
    reachable-Steady s = ground arith

    fetch-Steady : (s : Node) → Steady s (fetch_peer_status env cfg s).1
    unfolding fetch_peer_status
    fetch-Steady s = ground arith

    pub healthy-Steady : (s : Node) → Steady s (peer_healthy env cfg s).1
    unfolding peer_healthy
    healthy-Steady s = ground arith

    grant-Steady : (s : Node) → Steady s (ensure_replication_hba env cfg s).1
    unfolding ensure_replication_hba update_hba
    grant-Steady s = ground arith

    pub ensure-Steady : (s : Node) → Steady s (ensure_role_and_database env cfg s).1
    unfolding ensure_role_and_database
    ensure-Steady s =
        let t = log (asked_recovery (some false)) (log (connected true) s) in
        ground (arith, grant-Steady t)

    ensure_loop-Steady :
        (fuel deadline : ℕ) (s : Node) → Steady s (ensure_loop env cfg fuel deadline s).1
    unfolding ensure_loop
    ensure_loop-Steady zero deadline s = ground arith
    ensure_loop-Steady (suc fuel) deadline s =
        let t = (ensure_role_and_database env cfg s).1 in
        ground (
          arith,
          ensure-Steady s,
          ensure_loop-Steady fuel deadline (log (slept bootstrap_retry_interval) t),
        )

    pub blocking-Steady : (s : Node) → Steady s (ensure_role_and_database_blocking env cfg s).1
    unfolding ensure_role_and_database_blocking
    blocking-Steady s = ground (
      arith,
      ensure_loop-Steady ensure_fuel (env.now s.trace + ensure_role_and_database_timeout) s,
    )
