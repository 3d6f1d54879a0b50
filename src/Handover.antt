-- ===== src/Handover.antt =====
-- The coordinated handover (src/handover.go): how the local postgres is stopped and when the peer
-- is asked to take over.
pub mod Stop
pub mod Confirm
pub mod Safety
pub mod Ends
use Prim.Native.Nat.{◌*◌}
use pg_guard.Prelude.{
  ℕ, zero, suc, ℤ, ◌+◌, Bool, true, false, not, Option, none, some, ltb, if◌then◌else◌,
}
use pg_guard.Config.{
  Config, Policy, require_switchover, best_effort, force, millisecond,
  peer_promote_confirm_deadline, handover_kill_confirm_timeout,
}
use pg_guard.Node.{
  Env, Role, primary, standby, other_role, Signal, Error, Result, ok, err, stuck, reset_pool,
  asked_stop, waited_exit, killed, asked_recovery, no_standby_peer, no_primary_peer, kill_failed,
  peer_promote_failed, peer_unconfirmed,
}
use pg_guard.Node.Monad.{M, ◌>>=◌, ◌>>◌, pure, get, modify, emit, ask, time_now, sleep}
use pg_guard.Peer.{fetch_peer_status, request_peer_promote, notify_peer_reboot}

-- `currentChild.Store(nil); postgresRunning.Store(false)`
abbrev pub set_stopped : M (Unit {0})
set_stopped = modify (λ s. record s { current_child = none; postgres_running = false })

abbrev pub is_standby : Option Role → Bool
is_standby (some standby) = true
is_standby (some primary) = false
is_standby (some other_role) = false
is_standby none = false

abbrev pub is_primary : Option Role → Bool
is_primary (some primary) = true
is_primary (some standby) = false
is_primary (some other_role) = false
is_primary none = false

-- A role that cannot be determined counts as primary.
abbrev pub am_primary : Option Bool → Bool
am_primary none = true
am_primary (some in_recovery) = not in_recovery

-- The pause between two polls of the peer.
abbrev pub confirm_interval : ℕ
confirm_interval = 500 * millisecond

-- Polls that fit into the deadline, and one more.
abbrev pub confirm_fuel : ℕ
confirm_fuel = 21

module _ (env : Env) (cfg : Config) where
  -- Whether the child exits within the time.
  abbrev pub wait_exit : ℕ → M Bool
  wait_exit d = ask (λ t. env.child_exits t d) (waited_exit d)

  abbrev pub wait_of : ℤ → ℕ
  wait_of (ℤ.pos n) = n
  wait_of (ℤ.negsuc n) = 0

  -- The kill, once the wait has timed out.
  abbrev after_kill : Bool → M Result
  after_kill false = pure (err kill_failed)
  after_kill true = do confirmed ← wait_exit handover_kill_confirm_timeout; set_stopped; pure ok

  abbrev after_wait : Bool → M Result
  after_wait true = do set_stopped; pure ok
  after_wait false = do done ← ask env.kill_child killed; after_kill done

  unfoldable pub stop_local : Signal → M Result
  stop_local sig = do
    emit reset_pool
    stopping ← ask env.stop_child (asked_stop sig)
    exited ← wait_exit (wait_of cfg.shutdown_wait)
    after_wait exited

  -- Go on, or refuse with the error: only `require-switchover` refuses.
  abbrev pub refuse_if : Policy → Bool → Error → M Result → M Result
  refuse_if require_switchover true e go = pure (err e)
  refuse_if best_effort true e go = go
  refuse_if force true e go = go
  refuse_if policy false e go = go

  unfoldable pub coordinate_standby_handover : Signal → Policy → M Result
  coordinate_standby_handover sig policy = do
    status ← fetch_peer_status env cfg
    refuse_if policy (not (is_primary status)) no_primary_peer (stop_local sig)

  -- The wait for the peer to report itself primary: `stuck` only if the fuel runs out, `ok` if it
  -- did, the error if the deadline passed.
  poll_again : (M Result) → Option Role → M Result
  poll_again again status =
      if is_primary status then pure ok else (do sleep confirm_interval; again)

  poll_if : ℕ → ℕ → M Result → M Result
  unfolding poll_again
  poll_if t deadline again =
      if ltb t deadline
      then (do status ← fetch_peer_status env cfg; poll_again again status)
      else pure (err peer_unconfirmed)

  unfoldable pub confirm_loop : ℕ → ℕ → M Result
  unfolding poll_if
  confirm_loop zero deadline = pure stuck
  confirm_loop (suc fuel) deadline = do
    t ← time_now env
    poll_if t deadline (confirm_loop fuel deadline)

  -- A failure after the local stop: only `require-switchover` reports it.
  abbrev pub soften : Policy → Result → Result
  soften require_switchover r = r
  soften best_effort (err e) = ok
  soften best_effort r = r
  soften force (err e) = ok
  soften force r = r

  -- After the local stop: ask the peer to promote itself and wait for its confirmation.
  abbrev after_request : Result → M Result
  after_request ok = do
    t ← time_now env
    confirm_loop confirm_fuel (t + peer_promote_confirm_deadline)
  after_request (err e) = pure (err e)
  after_request stuck = pure stuck

  abbrev pub after_stop : Policy → Result → M Result
  after_stop policy ok = do
    requested ← request_peer_promote env cfg
    outcome ← after_request requested
    pure (soften policy outcome)
  after_stop policy (err e) = pure (err e)
  after_stop policy stuck = pure stuck

  unfoldable pub coordinate_primary_handover : Signal → Policy → M Result
  coordinate_primary_handover sig policy = do
    status ← fetch_peer_status env cfg
    refuse_if policy (not (is_standby status)) no_standby_peer
        (do stopped ← stop_local sig; after_stop policy stopped)

  abbrev by_role : Signal → Policy → Option Bool → M Result
  by_role sig policy role =
      if am_primary role
      then coordinate_primary_handover sig policy
      else coordinate_standby_handover sig policy

  unfoldable pub coordinate_handover : Signal → Policy → M Result
  unfolding coordinate_primary_handover
  coordinate_handover sig force = stop_local sig
  coordinate_handover sig best_effort = do
    role ← ask env.recovery asked_recovery
    by_role sig best_effort role
  coordinate_handover sig require_switchover = do
    role ← ask env.recovery asked_recovery
    by_role sig require_switchover role

  abbrev reboot_by_role : Signal → Option Bool → M Result
  reboot_by_role sig role =
      if am_primary role
      then (do noted ← notify_peer_reboot env cfg; stop_local sig)
      else coordinate_standby_handover sig cfg.shutdown_policy

  unfoldable pub coordinate_reboot : Signal → M Result
  coordinate_reboot sig = do role ← ask env.recovery asked_recovery; reboot_by_role sig role
