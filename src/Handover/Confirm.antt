-- ===== src/Handover/Confirm.antt =====
-- The wait for the peer's confirmation ends (src/handover.go).
use Prim.Native.Nat.{◌*◌}
use pg_guard.Prelude.{ℕ, zero, suc, ◌+◌, ◌≤◌, ◌≡◌, ◌≢◌, ◌⊎◌, some, arith}
use pg_guard.Config.{Config}
use pg_guard.Node.{Node, Env, Role, primary, ok, err, stuck, peer_unconfirmed, slept}
use pg_guard.Node.Monad.{log}
use pg_guard.Node.History.{
  IsClock, last_status, stop_attempts, promote_requests, is_let_go, requests_are_safe,
}
use pg_guard.Peer.{fetch_peer_status}
use pg_guard.Handover.{confirm_interval, confirm_loop}

module _ (env : Env) (cfg : Config) where
  -- A status call leaves the marks alone and takes no time back.
  pub fetch_peer_status-onward :
      IsClock env → (s : Node) → env.now s.trace ≤ env.now (fetch_peer_status env cfg s).1.trace
  unfolding fetch_peer_status
  fetch_peer_status-onward c s = grind (arith, c.onward)

  -- With fuel for the time that is left, the loop ends by a confirmation or by the deadline.
  pub confirm_loop-ends :
      IsClock env
      → (fuel deadline : ℕ) (s : Node) → deadline ≤ env.now s.trace + fuel * confirm_interval
      → (confirm_loop env cfg (suc fuel) deadline s).0 ≢ stuck
  unfolding confirm_loop
  confirm_loop-ends c zero deadline s h = ground arith
  confirm_loop-ends c (suc fuel) deadline s h = ground (
    arith,
    fetch_peer_status-onward c s,
    c.sleeps confirm_interval (fetch_peer_status env cfg s).1.trace,
    confirm_loop-ends c fuel deadline
        (log (slept confirm_interval) (fetch_peer_status env cfg s).1),
  )

  -- What asking the peer leaves alone.
  pub fetch_peer_status_frame :
      (s : Node)
      → let s' = (fetch_peer_status env cfg s).1 in
        (s'.current_child ≡ s.current_child)
        × (s'.postgres_running ≡ s.postgres_running)
        × (is_let_go s'.trace ≡ is_let_go s.trace)
        × (requests_are_safe s'.trace ≡ requests_are_safe s.trace)
        × (stop_attempts s'.trace ≡ stop_attempts s.trace)
        × (promote_requests s'.trace ≡ promote_requests s.trace)
  unfolding fetch_peer_status
  fetch_peer_status_frame s = ground arith

  -- A role that was fetched is the last one on the trace.
  pub last_status-fetch_peer_status :
      (s : Node) {r : Role}
      → (fetch_peer_status env cfg s).0 ≡ some r
      → last_status (fetch_peer_status env cfg s).1.trace ≡ some r
  unfolding fetch_peer_status
  last_status-fetch_peer_status s h = ground arith

  -- The loop changes neither the marks nor what the trace tells of stops and requests.
  pub confirm_loop_frame :
      (fuel deadline : ℕ) (s : Node)
      → let s' = (confirm_loop env cfg fuel deadline s).1 in
        (s'.current_child ≡ s.current_child)
        × (s'.postgres_running ≡ s.postgres_running)
        × (requests_are_safe s'.trace ≡ requests_are_safe s.trace)
        × (stop_attempts s'.trace ≡ stop_attempts s.trace)
        × (promote_requests s'.trace ≡ promote_requests s.trace)
  unfolding confirm_loop
  confirm_loop_frame zero deadline s = ground arith
  confirm_loop_frame (suc fuel) deadline s = ground (
    arith,
    fetch_peer_status_frame s,
    confirm_loop_frame fuel deadline (log (slept confirm_interval) (fetch_peer_status env cfg s).1),
  )

  -- It says `ok` only after the peer has reported itself primary, and fails in one way.
  pub confirm_loop_cases :
      (fuel deadline : ℕ) (s : Node)
      → let (r, s') = confirm_loop env cfg fuel deadline s in
        ((r ≡ ok) × (last_status s'.trace ≡ some primary))
        ⊎ (r ≡ err peer_unconfirmed)
        ⊎ (r ≡ stuck)
  unfolding confirm_loop
  confirm_loop_cases zero deadline s = ground arith
  confirm_loop_cases (suc fuel) deadline s = ground (
    arith,
    last_status-fetch_peer_status s {r = primary},
    confirm_loop_cases fuel deadline (log (slept confirm_interval) (fetch_peer_status env cfg s).1),
  )
