-- ===== src/Failover/Countdown.antt =====
-- The countdown of the monitor and the deadline that it publishes (src/failover.go).
use pg_guard.Prelude.{suc, ◌-◌, ◌≡◌, true, none, some, shift, arith}
use pg_guard.Config.{Config}
use pg_guard.Node.{Node, Env, asked_recovery, called_promote}
use pg_guard.Node.Monad.{log}
use pg_guard.Peer.{check_peer_reachable, peer_healthy}
use pg_guard.Failover.{Since, monitor_tick}
use pg_guard.Failover.Frame.{reachable-Steady, healthy-Steady, ensure-Steady, blocking-Steady}

module _ (env : Env) (cfg : Config) where
  -- The published promotion deadline: 0 without a countdown, and otherwise the start of the
  -- countdown and the failover timeout.
  abbrev pub Agreed : Since → Node → Type 0
  Agreed none s = s.failover_promote_deadline ≡ 0
  Agreed (some start) s = s.failover_promote_deadline ≡ shift start cfg.failover_timeout

  -- If the published promotion deadline agrees with the monitor's countdown before a tick, it does
  -- after it: 0 without a countdown, and the start of the countdown plus the failover timeout
  -- with one.
  pub tick-Agreed :
      (since : Since) (s : Node)
      → Agreed since s
      → Agreed (monitor_tick env cfg since s).0 (monitor_tick env cfg since s).1
  unfolding monitor_tick
  tick-Agreed none s h =
      let a = log (asked_recovery (env.recovery s.trace)) s in
      let q = (check_peer_reachable env cfg a).1 in
      ground
        (arith, h, healthy-Steady env cfg a, reachable-Steady env cfg a, ensure-Steady env cfg q)
  tick-Agreed (some since) s h =
      let a = log (asked_recovery (env.recovery s.trace)) s in
      let c = (peer_healthy env cfg a).1 in
      let d = log (called_promote true) c in
      let q = (check_peer_reachable env cfg a).1 in
      ground (
        arith,
        h,
        healthy-Steady env cfg a,
        reachable-Steady env cfg a,
        ensure-Steady env cfg q,
        blocking-Steady env cfg (record d {
          last_promotion_duration = env.now d.trace - env.now c.trace;
          promotions = suc d.promotions;
        }),
      )
