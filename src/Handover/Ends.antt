-- ===== src/Handover/Ends.antt =====
-- A coordinated handover always ends (src/handover.go).
use pg_guard.Prelude.{◌+◌, ◌≡◌, ◌≢◌, ◌⊎◌, true, arith}
use pg_guard.Config.{Config, Policy, require_switchover, force, peer_promote_confirm_deadline}
use pg_guard.Node.{
  Node, Env, Signal, ok, err, stuck, asked_recovery, asked_peer_promote, kill_failed,
}
use pg_guard.Node.Monad.{log}
use pg_guard.Node.History.{IsClock}
use pg_guard.Peer.{fetch_peer_status, request_peer_promote}
use pg_guard.Handover.{stop_local, after_stop, coordinate_primary_handover, coordinate_handover}
use pg_guard.Handover.Stop.{stop_local_cases}
use pg_guard.Handover.Confirm.{confirm_loop-ends}
use pg_guard.Handover.Safety.{standby_facts}

module _ (env : Env) (cfg : Config) (clock : IsClock env) where
  after_stop-ends :
      (policy : Policy) (s : Node)
      → let r = (after_stop env cfg policy ok s).0 in
        (r ≢ stuck) × (policy ≢ require_switchover → r ≡ ok)
  unfolding request_peer_promote
  after_stop-ends policy s =
      let t = log (asked_peer_promote true) s in
      ground (
        arith,
        confirm_loop-ends env cfg clock 20 (env.now t.trace + peer_promote_confirm_deadline) t,
      )

  primary-ends :
      (sig : Signal) (policy : Policy) (s : Node)
      → let r = (coordinate_primary_handover env cfg sig policy s).0 in
        (r ≢ stuck) × (policy ≢ require_switchover → (r ≡ ok) ⊎ (r ≡ err kill_failed))
  unfolding coordinate_primary_handover
  primary-ends sig policy s =
      let t = (fetch_peer_status env cfg s).1 in
      ground
        (arith, stop_local_cases env cfg sig t, after_stop-ends policy (stop_local env cfg sig t).1)

  handover_outcome :
      (sig : Signal) (policy : Policy) (s : Node)
      → let r = (coordinate_handover env cfg sig policy s).0 in
        (r ≢ stuck) × (policy ≢ require_switchover → (r ≡ ok) ⊎ (r ≡ err kill_failed))
  unfolding coordinate_handover
  handover_outcome sig force s = ground (arith, stop_local_cases env cfg sig s)
  handover_outcome sig policy s =
      let t = log (asked_recovery (env.recovery s.trace)) s in
      ground (arith, primary-ends sig policy t, standby_facts env cfg sig policy t)

  -- If the clock runs, every handover ends with a result, whatever the peer and the child do.
  pub handover_ends :
      (sig : Signal) (policy : Policy) (s : Node)
      → (coordinate_handover env cfg sig policy s).0 ≢ stuck
  handover_ends sig policy s = (handover_outcome sig policy s).0

  -- If the clock runs, a handover with the policy best-effort or force succeeds, unless the child
  -- had to be killed and the kill failed.
  pub handover_lenient :
      (sig : Signal) (policy : Policy) (s : Node)
      → policy ≢ require_switchover
      → let r = (coordinate_handover env cfg sig policy s).0 in (r ≡ ok) ⊎ (r ≡ err kill_failed)
  handover_lenient sig policy s lenient = (handover_outcome sig policy s).1 lenient
