-- ===== src/Metrics.antt =====
-- The metrics of a node (collectMetrics of src/metrics.go, secondsSincePeerSeen of src/peer.go).
pub mod Page
pub mod Reading
pub mod Distinct
pub mod Agreement
use pg_guard.Prelude.{
  ℕ, ℤ, ◌-◌, Bool, true, false, not, Option, none, some, List, [], ◌∷◌, ◌++◌, Text, lit, ◌==◌,
  if◌then◌else◌,
}
use pg_guard.Config.{Config, ShutdownMode, reboot_mode, switchover_mode}
use pg_guard.Node.{Node}
use pg_guard.Failover.{
  is_automatic, failover_countdown_active, failover_promote_remaining, reboot_suppress_active,
  reboot_suppress_remaining,
}
use pg_guard.Backup.{Backups}
use pg_guard.Queries.{
  Pool, is_in_recovery, connection_count, database_size_bytes, replication_connected,
  replication_lag_bytes,
}
use pg_guard.Status.{Facts, attempt_ok, attempt_time_of}

-- What a metric is worth: 1 or 0, a number, or seconds, given in nanoseconds.
pub data Value : Type 0 where
  flag : Bool → Value
  whole nanos : ℤ → Value

pub data MetricKind : Type 0 where
  gauge_kind counter_kind : MetricKind

pub record Metric : Type 0 where
  pub kind : MetricKind
  pub name : Text
  pub help : Text
  pub value : Value

abbrev pub gauge : Text → Text → Value → Metric
gauge name help value = record { kind = gauge_kind; name = name; help = help; value = value }

abbrev pub counter : Text → Text → Value → Metric
counter name help value = record { kind = counter_kind; name = name; help = help; value = value }

-- -1 before the peer was ever seen.
abbrev pub seconds_since_peer_seen : ℕ → ℕ → Value
seconds_since_peer_seen now seen =
    if seen == 0 then whole (ℤ.negsuc 0) else nanos (ℤ.pos (now - seen))

abbrev pub is_reboot : ShutdownMode → Bool
is_reboot reboot_mode = true
is_reboot switchover_mode = false

-- A question to postgres that fails leaves its metric out.
abbrev pub if_known {ℓ} : {A : Type ℓ} → (A → Metric) → Option A → List Metric
if_known m none = []
if_known m (some a) = m a ∷ []

abbrev pub connections : ℤ → Metric
connections n =
    gauge (lit "postgres_connections")
      (lit "Current number of connections to the local Postgres instance.") (whole n)

abbrev pub database_size : ℤ → Metric
database_size n =
    gauge (lit "postgres_database_size_bytes") (lit "Size in bytes of the configured database.")
      (whole n)

abbrev pub replication : Bool → Metric
replication connected =
    gauge (lit "postgres_replication_connected")
      (lit "Whether replication is currently connected/streaming.") (flag connected)

abbrev pub replication_lag : ℤ → Metric
replication_lag n =
    gauge (lit "postgres_replication_lag_bytes")
      (lit
        "Replication lag in bytes (standby: behind primary; primary: furthest-behind connected standby).")
      (whole n)

abbrev pub role_metric : Bool → Metric
role_metric in_recovery =
    gauge (lit "postgres_ha_role") (lit "1 if this node is currently primary, 0 if standby.")
      (flag (not in_recovery))

module _ (cfg : Config) (pool : Pool) where
  abbrev pub with_role : Option Bool → List Metric
  with_role none = []
  with_role (some in_recovery) =
      role_metric in_recovery
      ∷ (if_known connections (connection_count pool)
          ++ (if_known database_size (database_size_bytes pool cfg.postgres_db)
              ++ (if_known replication (replication_connected pool in_recovery)
                  ++ if_known replication_lag (replication_lag_bytes pool in_recovery))))

  abbrev pub while_up : List Metric
  while_up = if pool.pings then with_role (is_in_recovery pool) else []

  abbrev pub reachability : ℕ → List Metric
  reachability ping_duration =
      (gauge (lit "postgres_up") (lit "Whether the local Postgres instance is reachable.")
        (flag pool.pings))
      ∷ ((gauge (lit "postgres_ping_duration_seconds")
            (lit
              "How long the most recent connectivity check against the local Postgres instance took, whether it succeeded or not -- a slow-but-up Postgres is a different problem than a down one, and postgres_up alone can't tell them apart.")
            (nanos (ℤ.pos ping_duration)))
          ∷ [])

module _ (cfg : Config) (now : ℕ) (s : Node) where
  abbrev pub state_metrics : Bool → List Metric
  state_metrics peer =
      (gauge (lit "postgres_ha_peer_reachable")
        (lit "Whether the peer pg-guard API is currently reachable.") (flag peer))
      ∷ ((gauge (lit "postgres_ha_peer_last_seen_seconds")
            (lit "Seconds since the peer was last confirmed reachable; -1 if never seen this run.")
            (seconds_since_peer_seen now s.last_peer_seen))
          ∷ ((gauge (lit "postgres_ha_switchover_in_progress")
                (lit "Whether a coordinated switchover is currently in progress.")
                (flag s.switchover_in_progress))
              ∷ ((gauge (lit "postgres_ha_shutdown_requested")
                    (lit "Whether a coordinated shutdown is currently in progress.")
                    (flag s.shutdown_in_progress))
                  ∷ ((gauge (lit "postgres_ha_maintenance_active")
                        (lit
                          "Whether postgres is deliberately stopped for maintenance (POST /api/maintenance) -- persists until POST /api/start, unlike shutdown_requested.")
                        (flag s.maintenance_active))
                      ∷ ((gauge (lit "postgres_ha_maintenance_role_primary")
                            (lit
                              "Whether this node was primary (1) or standby (0) right before its most recent maintenance stop; only meaningful while postgres_ha_maintenance_active is 1.")
                            (flag s.maintenance_was_primary))
                          ∷ ((gauge (lit "postgres_ha_shutdown_deferred")
                                (lit
                                  "Bidirectional shutdown-cancellation negotiation is out of scope -- always 0.")
                                (whole (ℤ.pos 0)))
                              ∷ []))))))

  abbrev pub settings_metrics : List Metric
  settings_metrics =
      (gauge (lit "postgres_ha_shutdown_mode_reboot")
        (lit "Whether PG_GUARD_SHUTDOWN_MODE is reboot (1) rather than switchover (0).")
        (flag (is_reboot cfg.shutdown_mode)))
      ∷ ((gauge (lit "postgres_ha_failover_mode_automatic")
            (lit "Whether PG_GUARD_FAILOVER_MODE is automatic (1) rather than manual (0).")
            (flag (is_automatic cfg.failover_mode)))
          ∷ ((gauge (lit "postgres_ha_failover_timeout_seconds")
                (lit
                  "Configured PG_GUARD_FAILOVER_TIMEOUT in seconds -- how long the peer must be continuously unhealthy before automatic failover promotes (irrelevant when failover_mode_automatic is 0).")
                (nanos cfg.failover_timeout))
              ∷ ((gauge (lit "postgres_ha_failover_countdown_active")
                    (lit
                      "Whether the peer is currently being tracked as unreachable, counting toward automatic promotion.")
                    (flag (failover_countdown_active now s)))
                  ∷ ((gauge (lit "postgres_ha_failover_countdown_remaining_seconds")
                        (lit
                          "Seconds remaining before automatic failover promotes this node; 0 if failover_countdown_active is 0.")
                        (nanos (ℤ.pos (failover_promote_remaining now s))))
                      ∷ ((gauge (lit "postgres_ha_tls_enabled")
                            (lit
                              "Whether the API listener and outbound peer calls use TLS (PG_GUARD_SSL_CERT_FILE/PG_GUARD_SSL_KEY_FILE set) instead of plain HTTP; never applies to the metrics listener.")
                            (flag cfg.tls_enabled))
                          ∷ ((gauge (lit "postgres_ha_mtls_required")
                                (lit
                                  "Whether PG_GUARD_MTLS_REQUIRE is set -- client certificates are required on POST /api/*; only meaningful when postgres_ha_tls_enabled is 1.")
                                (flag cfg.mtls_require))
                              ∷ ((gauge (lit "postgres_ha_reboot_grace_period_seconds")
                                    (lit "Configured PG_GUARD_REBOOT_GRACE_PERIOD in seconds.")
                                    (nanos cfg.reboot_grace_period))
                                  ∷ ((gauge (lit "postgres_ha_reboot_suppress_active")
                                        (lit
                                          "Whether automatic failover promotion is currently suppressed by a peer's planned-reboot notice (PG_GUARD_SHUTDOWN_MODE=reboot).")
                                        (flag (reboot_suppress_active now s)))
                                      ∷ ((gauge
                                            (lit "postgres_ha_reboot_suppress_remaining_seconds")
                                            (lit
                                              "Seconds remaining in an active planned-reboot failover-suppression window; 0 if none is active.")
                                            (nanos (ℤ.pos (reboot_suppress_remaining now s))))
                                          ∷ [])))))))))

  abbrev pub event_metrics : ℕ → List Metric
  event_metrics starts =
      (counter (lit "postgres_ha_promotions_total")
        (lit "Successful promotions (manual or automatic failover).") (whole (ℤ.pos s.promotions)))
      ∷ ((counter (lit "postgres_ha_rejoins_total")
            (lit "Successful rejoins (pg_rewind or pg_basebackup) as a standby.")
            (whole (ℤ.pos s.rejoins)))
          ∷ ((gauge (lit "postgres_ha_last_promotion_duration_seconds")
                (lit
                  "How long the most recent successful pg_promote() call took; 0 if none has happened this run.")
                (nanos (ℤ.pos s.last_promotion_duration)))
              ∷ ((gauge (lit "postgres_ha_last_rejoin_duration_seconds")
                    (lit
                      "How long the most recent successful rejoin (pg_rewind or pg_basebackup fallback) took; 0 if none has happened this run.")
                    (nanos (ℤ.pos s.last_rejoin_duration)))
                  ∷ ((gauge (lit "postgres_ha_last_bootstrap_duration_seconds")
                        (lit
                          "How long the most recent first-run bootstrap took; 0 if this node didn't bootstrap this run (already-initialized PGDATA).")
                        (nanos (ℤ.pos s.last_bootstrap_duration)))
                      ∷ ((counter (lit "postgres_ha_postgres_restarts_total")
                            (lit
                              "Automatic in-process restarts of postgres after an unexpected exit (see PG_GUARD_POSTGRES_RESTART_LIMIT). Does not include deliberate stop/start via the API.")
                            (whole (ℤ.pos s.postgres_restarts)))
                          ∷ ((counter (lit "postgres_ha_pg_guard_starts_total")
                                (lit
                                  "How many times this pg-guard process itself has started (any reason -- container restart, redeploy, host reboot). Persisted across restarts when PG_GUARD_STATE_FILE is set; otherwise always 1, since nothing carries it forward.")
                                (whole (ℤ.pos starts)))
                              ∷ ((gauge (lit "postgres_ha_postgres_last_crash_timestamp_seconds")
                                    (lit
                                      "Unix timestamp of the most recently detected unexpected postgres exit; 0 if none this run.")
                                    (nanos (ℤ.pos s.last_crash)))
                                  ∷ [])))))))

abbrev pub backup_metrics : Config → Backups → Facts → List Metric
backup_metrics cfg b facts =
    (gauge (lit "postgres_ha_backup_enabled")
      (lit "Whether PG_GUARD_BACKUP_ENABLED is true -- the periodic backup scheduler is running.")
      (flag cfg.backup_enabled))
    ∷ ((gauge (lit "postgres_ha_backup_in_progress")
          (lit "Whether a backup (scheduled or on-demand) is currently running.")
          (flag b.in_progress))
        ∷ ((counter (lit "postgres_ha_backups_total")
              (lit "Successful backups (scheduled or on-demand via POST /api/backup).")
              (whole (ℤ.pos b.total)))
            ∷ ((counter (lit "postgres_ha_backup_failures_total")
                  (lit "Failed backup attempts (scheduled or on-demand).")
                  (whole (ℤ.pos b.failures)))
                ∷ ((gauge (lit "postgres_ha_last_backup_duration_seconds")
                      (lit
                        "How long the most recent successful backup took; 0 if none has completed this run.")
                      (nanos (ℤ.pos b.last_duration)))
                    ∷ ((gauge (lit "postgres_ha_last_backup_timestamp_seconds")
                          (lit
                            "Unix timestamp of the most recent successful backup; 0 if none has completed this run -- alert if this stops advancing.")
                          (nanos (ℤ.pos b.last_backup)))
                        ∷ ((gauge (lit "postgres_ha_backup_last_attempt_ok")
                              (lit
                                "Whether the most recent backup attempt (scheduled or on-demand) succeeded; meaningless if postgres_ha_last_backup_attempt_timestamp_seconds is 0 (no attempt yet). Differs from the last-success fields above: this can be 0 while a real backup is still sitting on disk from an earlier success.")
                              (flag (attempt_ok b.last_attempt)))
                            ∷ ((gauge (lit "postgres_ha_last_backup_attempt_timestamp_seconds")
                                  (lit
                                    "Unix timestamp of the most recent backup attempt, success or failure; 0 if none this run. The error text itself is only on GET /status, not here -- Prometheus metrics in this project carry no labels.")
                                  (nanos
                                    (ℤ.pos (attempt_time_of b.last_attempt facts.attempt_time))))
                                ∷ [])))))))
