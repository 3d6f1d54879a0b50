-- ===== src/Handover/Stop.antt =====
-- What stopping the local postgres leaves behind (src/handover.go).
use pg_guard.Prelude.{◌≡◌, ◌<◌, ◌⊎◌, false, true, none, arith}
use pg_guard.Config.{Config}
use pg_guard.Node.{Node, Env, Signal, ok, err, kill_failed}
use pg_guard.Node.History.{
  is_let_go, requests_are_safe, promote_requests, last_status, stop_attempts,
}
use pg_guard.Handover.{stop_local}

module _ (env : Env) (cfg : Config) where
  -- Stopping either confirms that no child is watched and postgres is marked as not running, or
  -- fails because the kill failed, with both marks untouched.
  pub stop_local_cases :
      (sig : Signal) (s : Node)
      → let (r, s') = stop_local env cfg sig s in
        ((r ≡ ok) × (s'.current_child ≡ none) × (s'.postgres_running ≡ false))
        ⊎ ((r ≡ err kill_failed)
            × (s'.current_child ≡ s.current_child)
            × (s'.postgres_running ≡ s.postgres_running))
  unfolding stop_local
  stop_local_cases sig s = ground arith

  -- After a stop that worked the trace shows that the child was let go. Stopping never asks the peer
  -- anything, and always makes at least one attempt.
  pub stop_local_trace :
      (sig : Signal) (s : Node)
      → let (r, s') = stop_local env cfg sig s in
        (r ≡ ok → is_let_go s'.trace ≡ true)
        × (requests_are_safe s'.trace ≡ requests_are_safe s.trace)
        × (promote_requests s'.trace ≡ promote_requests s.trace)
        × (last_status s'.trace ≡ last_status s.trace)
        × (stop_attempts s.trace < stop_attempts s'.trace)
  unfolding stop_local
  stop_local_trace sig s = ground arith
