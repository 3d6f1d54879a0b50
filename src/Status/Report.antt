-- ===== src/Status/Report.antt =====
-- What the peer makes of a node's status page (src/metrics_server.go, src/peer.go, src/api.go).
use pg_guard.Prelude.{◌≡◌, ◌↔◌, true, false, some, arith}
use pg_guard.Config.{Config, has_peer}
use pg_guard.Node.{Node, Env, primary, standby}
use pg_guard.Node.History.{promote_calls}
use pg_guard.Peer.{fetch_peer_status}
use pg_guard.Backup.{Backups}
use pg_guard.Api.{handle_promote}
use pg_guard.Api.Outcomes.{promote_outcome}
use pg_guard.Status.{Facts, StatusResponse, handle_status, status_reply}

module _ (env : Env) (cfg : Config) (b : Backups) (facts : Facts) (s : Node) where
  -- The page of this node.
  abbrev pub page : StatusResponse
  page = (handle_status env cfg b facts s).0

  page_role :
      ((page.role ≡ primary) ↔ ((facts.pings ≡ true) × (facts.in_recovery ≡ some false)))
      × ((page.role ≡ standby) ↔ ((facts.pings ≡ true) × (facts.in_recovery ≡ some true)))
  unfolding handle_status
  page_role = ground arith

  module _ (asker : Env) (settings : Config) (t : Node) where
    -- A node that asks its peer for the status, and is answered with the page that the peer makes, takes
    -- the peer for a primary exactly if the peer's postgres answers and is not in recovery, and for a
    -- standby exactly if it answers and is in recovery.
    pub role_seen :
        has_peer settings ≡ true
        → asker.peer_status t.trace ≡ some (status_reply page)
        → let seen = (fetch_peer_status asker settings t).0 in
          ((seen ≡ some primary) ↔ ((facts.pings ≡ true) × (facts.in_recovery ≡ some false)))
          × ((seen ≡ some standby) ↔ ((facts.pings ≡ true) × (facts.in_recovery ≡ some true)))
    unfolding fetch_peer_status
    role_seen peer answer = ground (arith, peer, answer, page_role)

    -- A node whose peer answers with its page, and runs as a primary when it makes that page, refuses
    -- a promotion that is not forced, and does not ask its postgres to promote itself.
    pub live_primary_blocks :
        has_peer settings ≡ true
        → asker.peer_status t.trace ≡ some (status_reply page)
        → facts.pings ≡ true
        → facts.in_recovery ≡ some false
        → let (reply, t') = handle_promote asker settings false t in
          (reply ≡ some 409) × (promote_calls t'.trace ≡ promote_calls t.trace)
    live_primary_blocks peer answer up role =
        ground (arith, role_seen peer answer, up, role, promote_outcome asker settings false t)
