-- ===== src/Handover/Safety.antt =====
-- What a coordinated handover guarantees (src/handover.go).
use pg_guard.Prelude.{◌≡◌, ◌≢◌, ◌⊎◌, true, false, none, some, arith}
use pg_guard.Config.{Config, Policy, require_switchover, force}
use pg_guard.Node.{
  Node, Env, Signal, primary, ok, err, stuck, asked_recovery, asked_peer_promote, no_standby_peer,
  no_primary_peer, kill_failed,
}
use pg_guard.Node.Monad.{log}
use pg_guard.Node.History.{
  is_let_go, requests_are_safe, promote_requests, last_status, stop_attempts,
}
use pg_guard.Peer.{fetch_peer_status, request_peer_promote, notify_peer_reboot}
use pg_guard.Handover.{
  stop_local, confirm_fuel, coordinate_standby_handover, coordinate_primary_handover,
  coordinate_handover, coordinate_reboot, after_stop,
}
use pg_guard.Config.{peer_promote_confirm_deadline}
use pg_guard.Handover.Stop.{stop_local_cases, stop_local_trace}
use pg_guard.Handover.Confirm.{
  fetch_peer_status_frame, last_status-fetch_peer_status, confirm_loop_frame, confirm_loop_cases,
}
use pg_guard.Prelude.{◌+◌}

module _ (env : Env) (cfg : Config) where
  -- What follows a stop that worked.
  after_stop_frame :
      (policy : Policy) (s : Node)
      → is_let_go s.trace ≡ true
      → let (r, s') = after_stop env cfg policy ok s in
        (s'.current_child ≡ s.current_child)
        × (s'.postgres_running ≡ s.postgres_running)
        × (requests_are_safe s'.trace ≡ requests_are_safe s.trace)
        × (r ≢ err no_standby_peer)
        × (r ≢ err no_primary_peer)
        × (policy ≡ require_switchover → r ≡ ok → last_status s'.trace ≡ some primary)
  unfolding request_peer_promote
  after_stop_frame policy s h =
      let t = log (asked_peer_promote true) s in
      let deadline = env.now t.trace + peer_promote_confirm_deadline in
      ground (
        arith,
        confirm_loop_frame env cfg confirm_fuel deadline t,
        confirm_loop_cases env cfg confirm_fuel deadline t,
      )

  -- Each handover, from its parts: the marks agree with the outcome, the peer is asked to promote
  -- itself only once the local postgres is let go, and a refusal has not tried to stop anything.
  primary_facts :
      (sig : Signal) (policy : Policy) (s : Node)
      → let (r, s') = coordinate_primary_handover env cfg sig policy s in
        (requests_are_safe s'.trace ≡ requests_are_safe s.trace)
        × (r ≡ err no_standby_peer
            → (stop_attempts s'.trace ≡ stop_attempts s.trace)
              × (s'.current_child ≡ s.current_child)
              × (s'.postgres_running ≡ s.postgres_running))
        × (r ≢ err no_primary_peer)
        × (policy ≡ require_switchover → r ≡ ok → last_status s'.trace ≡ some primary)
        × (r ≡ ok → (s'.current_child ≡ none) × (s'.postgres_running ≡ false))
  unfolding coordinate_primary_handover
  primary_facts sig policy s =
      let t = (fetch_peer_status env cfg s).1 in
      ground (
        arith,
        fetch_peer_status_frame env cfg s,
        stop_local_cases env cfg sig t,
        stop_local_trace env cfg sig t,
        after_stop_frame policy (stop_local env cfg sig t).1,
      )

  pub standby_facts :
      (sig : Signal) (policy : Policy) (s : Node)
      → let (r, s') = coordinate_standby_handover env cfg sig policy s in
        (requests_are_safe s'.trace ≡ requests_are_safe s.trace)
        × (promote_requests s'.trace ≡ promote_requests s.trace)
        × (r ≡ err no_primary_peer
            → (stop_attempts s'.trace ≡ stop_attempts s.trace)
              × (s'.current_child ≡ s.current_child)
              × (s'.postgres_running ≡ s.postgres_running))
        × (r ≢ err no_standby_peer)
        × (policy ≡ require_switchover → r ≡ ok → last_status s'.trace ≡ some primary)
        × (r ≡ ok → (s'.current_child ≡ none) × (s'.postgres_running ≡ false))
        × (policy ≢ require_switchover → (r ≡ ok) ⊎ (r ≡ err kill_failed))
        × (r ≢ stuck)
  unfolding coordinate_standby_handover
  standby_facts sig policy s =
      let t = (fetch_peer_status env cfg s).1 in
      ground (
        arith,
        fetch_peer_status_frame env cfg s,
        last_status-fetch_peer_status env cfg s {r = primary},
        stop_local_cases env cfg sig t,
        stop_local_trace env cfg sig t,
      )

  -- Under the policy require-switchover a handover that reports success has stopped the local
  -- postgres (no child is watched, and it is marked as not running), and the last role that the
  -- peer reported is primary.
  pub handover_leaves_primary :
      (sig : Signal) (s : Node)
      → (coordinate_handover env cfg sig require_switchover s).0 ≡ ok
      → let s' = (coordinate_handover env cfg sig require_switchover s).1 in
        (s'.current_child ≡ none)
        × (s'.postgres_running ≡ false)
        × (last_status s'.trace ≡ some primary)
  unfolding coordinate_handover
  handover_leaves_primary sig s h =
      let t = log (asked_recovery (env.recovery s.trace)) s in
      ground (arith, primary_facts sig require_switchover t, standby_facts sig require_switchover t)

  -- A handover that is refused, for want of a healthy standby or of a healthy primary at the peer,
  -- has tried neither to stop nor to kill the child, and leaves its marks as they were.
  pub handover_refusal_harmless :
      (sig : Signal) (policy : Policy) (s : Node)
      → ((coordinate_handover env cfg sig policy s).0 ≡ err no_standby_peer)
        ⊎ ((coordinate_handover env cfg sig policy s).0 ≡ err no_primary_peer)
      → let s' = (coordinate_handover env cfg sig policy s).1 in
        (stop_attempts s'.trace ≡ stop_attempts s.trace)
        × (s'.current_child ≡ s.current_child)
        × (s'.postgres_running ≡ s.postgres_running)
  unfolding coordinate_handover
  handover_refusal_harmless sig force s h = ground (arith, stop_local_cases env cfg sig s)
  handover_refusal_harmless sig policy s h =
      let t = log (asked_recovery (env.recovery s.trace)) s in
      ground (arith, primary_facts sig policy t, standby_facts sig policy t)

  -- Whatever the policy, the role and the answers: if up to now the peer was asked to promote
  -- itself only once the local postgres had been let go, that still holds after the handover. A
  -- child is let go when it was seen to exit, or when it was killed and its exit then awaited for
  -- five seconds; in the second case, without a confirmation, it may still run.
  pub handover_requests_safe :
      (sig : Signal) (policy : Policy) (s : Node)
      → requests_are_safe s.trace ≡ true
      → requests_are_safe (coordinate_handover env cfg sig policy s).1.trace ≡ true
  unfolding coordinate_handover
  handover_requests_safe sig force s h = ground (arith, stop_local_trace env cfg sig s)
  handover_requests_safe sig policy s h =
      let t = log (asked_recovery (env.recovery s.trace)) s in
      ground (arith, primary_facts sig policy t, standby_facts sig policy t)

  -- A node that knows itself to be a standby never asks the peer to promote itself in a handover.
  pub standby_handover :
      (sig : Signal) (policy : Policy) (s : Node)
      → env.recovery s.trace ≡ some true
      → promote_requests (coordinate_handover env cfg sig policy s).1.trace
        ≡ promote_requests s.trace
  unfolding coordinate_handover
  standby_handover sig force s h = ground (arith, stop_local_trace env cfg sig s)
  standby_handover sig policy s h =
      let t = log (asked_recovery (env.recovery s.trace)) s in
      ground (arith, standby_facts sig policy t)

  -- A planned reboot never asks the peer to promote itself.
  pub reboot_never_promotes_peer :
      (sig : Signal) (s : Node)
      → promote_requests (coordinate_reboot env cfg sig s).1.trace ≡ promote_requests s.trace
  unfolding coordinate_reboot notify_peer_reboot
  reboot_never_promotes_peer sig s =
      let t = log (asked_recovery (env.recovery s.trace)) s in
      let u = (notify_peer_reboot env cfg t).1 in
      ground (
        arith,
        standby_facts sig cfg.shutdown_policy t,
        stop_local_cases env cfg sig t,
        stop_local_trace env cfg sig t,
        stop_local_cases env cfg sig u,
        stop_local_trace env cfg sig u,
      )

  -- A planned reboot of a node that does not know itself to be a standby stops postgres whatever
  -- becomes of the notice to the peer: it ends with nothing watched or marked as running, or the
  -- child had to be killed and the kill failed.
  pub reboot_stops :
      (sig : Signal) (s : Node)
      → env.recovery s.trace ≢ some true
      → let (r, s') = coordinate_reboot env cfg sig s in
        ((r ≡ ok) × (s'.current_child ≡ none) × (s'.postgres_running ≡ false))
        ⊎ (r ≡ err kill_failed)
  unfolding coordinate_reboot notify_peer_reboot
  reboot_stops sig s h =
      let t = log (asked_recovery (env.recovery s.trace)) s in
      let u = (notify_peer_reboot env cfg t).1 in
      ground (arith, stop_local_cases env cfg sig t, stop_local_cases env cfg sig u)
