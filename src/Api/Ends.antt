-- ===== src/Api/Ends.antt =====
-- Every request of the API is answered (src/api.go, src/main.go).
use pg_guard.Prelude.{◌≢◌, arith}
use pg_guard.Config.{Config}
use pg_guard.Node.{Node, Env, Signal, sigterm, stuck, asked_recovery}
use pg_guard.Node.Monad.{log}
use pg_guard.Node.History.{IsClock}
use pg_guard.Peer.{notify_peer_reboot}
use pg_guard.Handover.{coordinate_reboot}
use pg_guard.Handover.Stop.{stop_local_cases}
use pg_guard.Handover.Safety.{standby_facts}
use pg_guard.Handover.Ends.{handover_ends}
use pg_guard.Startup.Ends.{start_postgres_ends}
use pg_guard.Rewind.{rejoin_as_standby, run_basebackup}
use pg_guard.Supervisor.{
  Kind, shutdown, switchover, maintenance, reboot, rejoin, start, other_kind,
  handle_handover_request,
}

module _ (env : Env) where
  rejoin_ends : (s : Node) → (rejoin_as_standby env s).0 ≢ stuck
  unfolding rejoin_as_standby run_basebackup
  rejoin_ends s = ground arith

  module _ (cfg : Config) where
    reboot_ends : (sig : Signal) (s : Node) → (coordinate_reboot env cfg sig s).0 ≢ stuck
    unfolding coordinate_reboot notify_peer_reboot
    reboot_ends sig s =
        let t = log (asked_recovery (env.recovery s.trace)) s in
        let u = (notify_peer_reboot env cfg t).1 in
        ground (
          arith,
          standby_facts env cfg sig cfg.shutdown_policy t,
          stop_local_cases env cfg sig t,
          stop_local_cases env cfg sig u,
        )

    module _ (clock : IsClock env) where
      -- The main loop answers every request that it is handed.
      pub request_ends :
          (kind : Kind) (s : Node) → (handle_handover_request env cfg kind s).0 ≢ stuck
      unfolding handle_handover_request
      request_ends shutdown s =
          ground (arith, handover_ends env cfg clock sigterm cfg.shutdown_policy s)
      request_ends switchover s =
          ground (arith, handover_ends env cfg clock sigterm cfg.shutdown_policy s)
      request_ends maintenance s =
          ground (arith, handover_ends env cfg clock sigterm cfg.shutdown_policy s)
      request_ends reboot s = ground (arith, reboot_ends sigterm s)
      request_ends rejoin s = ground (arith, rejoin_ends s)
      request_ends start s = ground (arith, start_postgres_ends env cfg clock s)
      request_ends other_kind s = ground arith
