-- ===== src/Api/Inv.antt =====
-- The API handlers keep the invariant of the main loop (src/api.go, src/main.go).
use pg_guard.Prelude.{suc, ◌-◌, ◌≡◌, Bool, true, false, none, some, arith}
use pg_guard.Config.{Config}
use pg_guard.Node.{Node, Env, asked_recovery, called_promote}
use pg_guard.Node.Monad.{log}
use pg_guard.Peer.{fetch_peer_status}
use pg_guard.Startup.Frame.{Keeps, fetch-Keeps}
use pg_guard.Supervisor.{handle_handover_request, maintenance, switchover, rejoin, start}
use pg_guard.Supervisor.Inv.{Inv, request-Inv}
use pg_guard.Failover.Marks.{blocking-Keeps}
use pg_guard.Api.{
  Request, promote, shut_down, switch_over, rejoin_peer, maintain, start_up, reboot_notice, serve,
  handle_promote, handle_shutdown, handle_switchover, handle_rejoin, handle_maintenance,
  handle_start, handle_reboot_notice, kind_of, remember_role,
}

module _ (env : Env) (cfg : Config) where
  pub promote-Keeps : (force : Bool) (s : Node) → Keeps s (handle_promote env cfg force s).1
  unfolding handle_promote
  promote-Keeps true s =
      let d = log (called_promote true) s in
      ground (
        arith,
        blocking-Keeps env cfg (record d {
          last_promotion_duration = env.now d.trace - env.now s.trace;
          promotions = suc d.promotions;
        }),
      )
  promote-Keeps false s =
      let c = (fetch_peer_status env cfg s).1 in
      let d = log (called_promote true) c in
      ground (
        arith,
        fetch-Keeps env cfg s,
        blocking-Keeps env cfg (record d {
          last_promotion_duration = env.now d.trace - env.now c.trace;
          promotions = suc d.promotions;
        }),
      )

  -- What a maintenance request has done to the node when it reaches the main loop.
  abbrev pub at_maintenance : Node → Node
  at_maintenance s =
      (remember_role env cfg (env.recovery s.trace)
        (log (asked_recovery (env.recovery s.trace)) (record s { shutdown_in_progress = true }))).1

  pub at_maintenance-Keeps : (s : Node) → Keeps s (at_maintenance s)
  at_maintenance-Keeps s = ground arith

  -- Whatever the API is asked while the process lives, the invariant of the main loop is kept.
  pub serve-Inv : (r : Request) (s : Node) → s.exited ≡ none → Inv s → Inv (serve env cfg r s).1
  unfolding serve handle_shutdown handle_switchover handle_rejoin handle_maintenance handle_start
      handle_reboot_notice
  serve-Inv (promote force) s live h = ground (arith, promote-Keeps force s)
  serve-Inv shut_down s live h =
      let t = record s { shutdown_in_progress = true } in
      ground (arith, request-Inv env cfg (kind_of cfg.shutdown_mode) t live h)
  serve-Inv switch_over s live h =
      let t = record (log (asked_recovery (some false)) s) { switchover_in_progress = true } in
      ground (arith, request-Inv env cfg switchover t)
  serve-Inv rejoin_peer s live h = ground (arith, request-Inv env cfg rejoin s live h)
  serve-Inv maintain s live h =
      ground (arith, at_maintenance-Keeps s, request-Inv env cfg maintenance (at_maintenance s))
  serve-Inv start_up s live h =
      let t = (handle_handover_request env cfg start s).1 in
      ground (
        arith,
        request-Inv env cfg start s live h,
        blocking-Keeps env cfg (record t { maintenance_active = false }),
      )
  serve-Inv reboot_notice s live h = ground arith
