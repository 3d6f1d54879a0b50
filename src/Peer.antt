-- ===== src/Peer.antt =====
-- Calls of the peer (src/peer.go), and peerHealthy of src/failover.go. Without a configured peer
-- no request is made.
use pg_guard.Prelude.{ℕ, Bool, true, false, Option, none, some, ◌==◌, if◌then◌else◌}
use pg_guard.Config.{Config, has_peer}
use pg_guard.Node.{
  Env, Role, StatusReply, Result, ok, err, no_peer_configured, peer_promote_failed, asked_status,
  asked_health, asked_peer_promote, sent_reboot_notice,
}
use pg_guard.Node.Monad.{M, ◌>>=◌, ◌>>◌, pure, modify, ask, time_now}

abbrev pub http_ok : ℕ
http_ok = 200

abbrev pub is_http_ok : Option ℕ → Bool
is_http_ok none = false
is_http_ok (some c) = c == http_ok

abbrev pub decode_status : Option StatusReply → Option Role
decode_status none = none
decode_status (some r) = if r.code == http_ok then r.body else none

module _ (env : Env) (cfg : Config) where
  abbrev pub mark_peer_seen : M (Unit {0})
  mark_peer_seen = do t ← time_now env; modify (λ s. record s { last_peer_seen = t })

  -- The two endings of `checkPeerReachable` and `fetchPeerStatus`: the peer counts as seen if it
  -- answered.
  abbrev pub seen_if_reachable : Bool → M Bool
  seen_if_reachable true = do mark_peer_seen; pure true
  seen_if_reachable false = pure false

  abbrev pub seen_if_status : Option Role → M (Option Role)
  seen_if_status none = pure none
  seen_if_status (some r) = do mark_peer_seen; pure (some r)

  unfoldable pub check_peer_reachable : M Bool
  check_peer_reachable =
      if has_peer cfg
      then (do
        reachable ← ask (λ t. is_http_ok (env.peer_health t)) asked_health
        seen_if_reachable reachable)
      else pure false

  -- `none` is an error.
  unfoldable pub fetch_peer_status : M (Option Role)
  fetch_peer_status =
      if has_peer cfg
      then (do
        status ← ask (λ t. decode_status (env.peer_status t)) asked_status
        seen_if_status status)
      else pure none

  unfoldable pub request_peer_promote : M Result
  request_peer_promote =
      if has_peer cfg
      then (do
        accepted ← ask (λ t. is_http_ok (env.peer_promote t)) asked_peer_promote
        pure (if accepted then ok else err peer_promote_failed))
      else pure (err no_peer_configured)

  unfoldable pub notify_peer_reboot : M Bool
  notify_peer_reboot =
      if has_peer cfg
      then ask (λ t. is_http_ok (env.peer_reboot_notice t)) sent_reboot_notice
      else pure false

  abbrev status_is_ok : Option Role → Bool
  status_is_ok none = false
  status_is_ok (some r) = true

  abbrev healthy_if : Bool → M Bool
  healthy_if false = pure false
  healthy_if true = do status ← fetch_peer_status; pure (status_is_ok status)

  unfoldable pub peer_healthy : M Bool
  unfolding check_peer_reachable fetch_peer_status
  peer_healthy = do reachable ← check_peer_reachable; healthy_if reachable
