-- ===== src/Startup/Decision.antt =====
-- What is known of the peer when postgres is started (src/main.go).
use pg_guard.Prelude.{ℕ, zero, suc, ◌+◌, ◌≤◌, ◌<◌, ◌≡◌, ◌≢◌, ◌⊎◌, true, false, some, arith}
use pg_guard.Config.{
  Config, has_peer, startup_rejoin_decision_timeout, startup_rejoin_poll_interval,
  startup_rejoin_retry_interval,
}
use pg_guard.Node.{Node, Env, primary, standby, other_role, ok, slept, checked_standby_signal}
use pg_guard.Node.Monad.{log}
use pg_guard.Node.History.{last_status}
use pg_guard.Peer.{fetch_peer_status}
use pg_guard.Handover.Confirm.{last_status-fetch_peer_status}
use pg_guard.Rewind.{rejoin_as_standby, run_basebackup}
use pg_guard.Bootstrap.Roles.{rejoin_frame}
use pg_guard.Startup.{rejoin_loop, rejoin_fuel, rejoin_at_startup_if_needed}

-- The last report of the peer is a role other than primary, be it that it does not know its own; or
-- it is primary, and the node has made itself its standby.
abbrev pub PeerAnswered : Node → Node → Type 0
PeerAnswered s s' =
    (last_status s'.trace ≡ some standby)
    ⊎ (last_status s'.trace ≡ some other_role)
    ⊎ ((last_status s'.trace ≡ some primary) × (s.rejoins < s'.rejoins))

module _ (env : Env) where
  rejoin_counts :
      (s : Node)
      → (s.rejoins ≤ (rejoin_as_standby env s).1.rejoins)
        × ((rejoin_as_standby env s).0 ≡ ok → s.rejoins < (rejoin_as_standby env s).1.rejoins)
  unfolding rejoin_as_standby run_basebackup
  rejoin_counts s = ground arith

  module _ (cfg : Config) where
    fetch_rejoins : (s : Node) → (fetch_peer_status env cfg s).1.rejoins ≡ s.rejoins
    unfolding fetch_peer_status
    fetch_rejoins s = ground arith

    rejoin_loop_settled :
        (fuel deadline : ℕ) (s : Node)
        → (rejoin_loop env cfg fuel deadline s).0 ≡ ok
        → PeerAnswered s (rejoin_loop env cfg fuel deadline s).1
    unfolding rejoin_loop
    rejoin_loop_settled zero deadline s h = ground arith
    rejoin_loop_settled (suc fuel) deadline s h =
        let t = (fetch_peer_status env cfg s).1 in
        let u = (rejoin_as_standby env t).1 in
        ground (
          arith,
          fetch_rejoins s,
          rejoin_counts t,
          rejoin_frame env t,
          last_status-fetch_peer_status env cfg s {r = primary},
          last_status-fetch_peer_status env cfg s {r = standby},
          last_status-fetch_peer_status env cfg s {r = other_role},
          rejoin_loop_settled fuel deadline (log (slept startup_rejoin_poll_interval) t),
          rejoin_loop_settled fuel deadline (log (slept startup_rejoin_retry_interval) u),
        )

    passed :
        (s : Node)
        → has_peer cfg ≡ true
        → env.standby_signal s.trace ≡ false
        → (rejoin_at_startup_if_needed env cfg s).0 ≡ ok
        → PeerAnswered s (rejoin_at_startup_if_needed env cfg s).1
    unfolding rejoin_at_startup_if_needed
    passed s peer no_signal h =
        let t = log (checked_standby_signal false) s in
        ground (
          arith,
          rejoin_loop_settled rejoin_fuel (env.now t.trace + startup_rejoin_decision_timeout) t,
        )

    unknown_passes :
        (s : Node)
        → has_peer cfg ≡ true
        → env.standby_signal s.trace ≡ false
        → let first = fetch_peer_status env cfg (log (checked_standby_signal false) s) in
          first.0 ≡ some other_role → rejoin_at_startup_if_needed env cfg s ≡ (ok, first.1)
    unfolding rejoin_at_startup_if_needed rejoin_loop
    unknown_passes s peer no_signal h = ground (arith, h, peer, no_signal)

    -- A node with a peer whose PGDATA is not set up as a standby passes the startup check only when
    -- the peer has answered: the last report is a role other than primary, or it is primary and a
    -- rejoin as its standby has succeeded since the check began. But any role other than primary
    -- lets it pass: if the first report is neither primary nor standby, as that of a peer that
    -- cannot tell its own role, the check succeeds with no rejoin and no further question.
    pub startup_hears_peer :
        (s : Node)
        → has_peer cfg ≡ true
        → env.standby_signal s.trace ≡ false
        → let first = fetch_peer_status env cfg (log (checked_standby_signal false) s) in
          (((rejoin_at_startup_if_needed env cfg s).0 ≢ ok)
            ⊎ PeerAnswered s (rejoin_at_startup_if_needed env cfg s).1)
          × ((first.0 ≢ some other_role) ⊎ (rejoin_at_startup_if_needed env cfg s ≡ (ok, first.1)))
    startup_hears_peer s peer no_signal =
        (ground (arith, passed s peer no_signal), ground (arith, unknown_passes s peer no_signal))
