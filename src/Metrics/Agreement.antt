-- ===== src/Metrics/Agreement.antt =====
-- The page of metrics and the status page of the same node (src/metrics.go, src/metrics_server.go).
use mathlib.Core.List.{append_assoc}
use pg_guard.Prelude.{
  ℕ, ℤ, Bool, true, false, not, ◌&&◌, Option, none, some, List, [], ◌∷◌, ◌++◌, ◌≡◌, refl, Text, lit,
  text_eq, All, if◌then◌else◌, arith,
}
use pg_guard.Config.{Config}
use pg_guard.Node.{Node, Env, Role, primary, standby, other_role}
use pg_guard.Failover.{is_automatic}
use pg_guard.Backup.{Backups}
use pg_guard.Queries.{
  Pool, is_in_recovery, connection_count, database_size_bytes, replication_connected,
  replication_lag_bytes, server_version,
}
use pg_guard.Status.{Facts, StatusResponse, handle_status, lag_if, role_if}
use pg_guard.Metrics.{
  Value, flag, whole, nanos, Metric, if_known, with_role, while_up, is_reboot, connections,
  database_size, replication, replication_lag,
}
use pg_guard.Metrics.Page.{collect_metrics}

-- The value of the first metric of a name.
unfoldable pub value_of : Text → List Metric → Option Value
unfolding text_eq
value_of n [] = none
value_of n (m ∷ ms) = let rest = value_of n ms in if text_eq n m.name then some m.value else rest

-- What the status page asks postgres, of the same answers.
abbrev lag_asked : Pool → Option Bool → Option ℤ
lag_asked pool none = none
lag_asked pool (some in_recovery) = replication_lag_bytes pool in_recovery

abbrev pub asked : Pool → Facts → Facts
asked pool facts = record facts {
  pings = pool.pings;
  in_recovery = is_in_recovery pool;
  lag = lag_asked pool (is_in_recovery pool);
  server_version = server_version pool;
}

abbrev role_value : Role → Option Value
role_value primary = some (flag true)
role_value standby = some (flag false)
role_value other_role = none

abbrev lag_value : Option ℤ → Option Value
lag_value none = none
lag_value (some n) = some (whole n)

-- Names of metrics that do not come from a question to postgres.
abbrev is_other : Text → Bool
is_other n =
    not (text_eq n (lit "postgres_ha_role"))
    && (not (text_eq n (lit "postgres_connections"))
        && (not (text_eq n (lit "postgres_database_size_bytes"))
            && (not (text_eq n (lit "postgres_replication_connected"))
                && not (text_eq n (lit "postgres_replication_lag_bytes")))))

value_of_known :
    {A : Type 0} (n : Text) (m : A → Metric) (o : Option A) (rest : List Metric)
    → ((a : A) → text_eq n (m a).name ≡ false)
    → value_of n (if_known m o ++ rest) ≡ value_of n rest
unfolding value_of
value_of_known n m none rest h = refl
value_of_known n m (some a) rest h = rw (h a) refl

lag_of_known :
    (o : Option ℤ) (rest : List Metric)
    → value_of (lit "postgres_replication_lag_bytes") rest ≡ none
    → value_of (lit "postgres_replication_lag_bytes") (if_known replication_lag o ++ rest)
      ≡ lag_value o
unfolding value_of
lag_of_known none rest h = h
lag_of_known (some n) rest h = refl

module _ (cfg : Config) (pool : Pool) (rest : List Metric) where
  with_role_other :
      (n : Text) (recovery : Option Bool)
      → is_other n ≡ true
      → value_of n (with_role cfg pool recovery ++ rest) ≡ value_of n rest
  unfolding value_of
  with_role_other n none h = refl
  with_role_other n (some r) h =
      let differs : text_eq n (lit "postgres_ha_role") ≡ false = ground arith in
      rw
        (
          differs,
          append_assoc (if_known connections (connection_count pool)),
          append_assoc (if_known database_size (database_size_bytes pool cfg.postgres_db)),
          append_assoc (if_known replication (replication_connected pool r)),
          value_of_known n connections (connection_count pool) _ (λ a. ground arith),
          value_of_known n database_size (database_size_bytes pool cfg.postgres_db) _
              (λ a. ground arith),
          value_of_known n replication (replication_connected pool r) _ (λ a. ground arith),
          value_of_known n replication_lag (replication_lag_bytes pool r) _ (λ a. ground arith),
        )
        refl

  while_up_other :
      (n : Text) → is_other n ≡ true → value_of n (while_up cfg pool ++ rest) ≡ value_of n rest
  while_up_other n h =
      elim pool.pings
        as (λ up.
          value_of n ((if up then with_role cfg pool (is_in_recovery pool) else []) ++ rest)
          ≡ value_of n rest) [ true ↦ with_role_other n (is_in_recovery pool) h | false ↦ refl ]

  with_role_lag :
      (recovery : Option Bool)
      → value_of (lit "postgres_replication_lag_bytes") rest ≡ none
      → value_of (lit "postgres_replication_lag_bytes") (with_role cfg pool recovery ++ rest)
        ≡ lag_value (lag_asked pool recovery)
  unfolding value_of
  with_role_lag none h = h
  with_role_lag (some r) h =
      let n = lit "postgres_replication_lag_bytes" in
      rw
        (
          append_assoc (if_known connections (connection_count pool)),
          append_assoc (if_known database_size (database_size_bytes pool cfg.postgres_db)),
          append_assoc (if_known replication (replication_connected pool r)),
          value_of_known n connections (connection_count pool) _ (λ a. refl),
          value_of_known n database_size (database_size_bytes pool cfg.postgres_db) _ (λ a. refl),
          value_of_known n replication (replication_connected pool r) _ (λ a. refl),
        )
        (lag_of_known (replication_lag_bytes pool r) rest h)

  live_lag :
      (up : Bool) (recovery : Option Bool)
      → value_of (lit "postgres_replication_lag_bytes") rest ≡ none
      → value_of
          (lit "postgres_replication_lag_bytes")
          ((if up then with_role cfg pool recovery else []) ++ rest)
        ≡ lag_value (lag_if up recovery (lag_asked pool recovery))
  live_lag false recovery h = h
  live_lag true none h = h
  live_lag true (some r) h = with_role_lag (some r) h

  live_role :
      (up : Bool) (recovery : Option Bool)
      → value_of (lit "postgres_ha_role") rest ≡ none
      → value_of (lit "postgres_ha_role") ((if up then with_role cfg pool recovery else []) ++ rest)
        ≡ role_value (role_if up recovery)
  unfolding value_of
  live_role false recovery h = h
  live_role true none h = h
  live_role true (some true) h = refl
  live_role true (some false) h = refl

-- The quantities that both pages show, by the names that the metrics have for them.
abbrev pub shared : StatusResponse → List (Text × Option Value)
shared page =
    (lit "postgres_up", some (flag page.postgres_reachable))
    ∷ ((lit "postgres_ha_role", role_value page.role)
        ∷ ((lit "postgres_replication_lag_bytes", lag_value page.replication_lag_bytes)
            ∷ ((lit "postgres_ha_peer_reachable", some (flag page.peer_reachable))
                ∷ ((
                  lit "postgres_ha_switchover_in_progress",
                  some (flag page.switchover_in_progress),
                )
                    ∷ ((lit "postgres_ha_shutdown_requested", some (flag page.shutdown_in_progress))
                        ∷ ((
                          lit "postgres_ha_maintenance_active",
                          some (flag page.maintenance_active),
                        )
                            ∷ ((
                              lit "postgres_ha_shutdown_mode_reboot",
                              some (flag (is_reboot page.shutdown_mode)),
                            )
                                ∷ ((
                                  lit "postgres_ha_failover_mode_automatic",
                                  some (flag (is_automatic page.failover_mode)),
                                )
                                    ∷ ((
                                      lit "postgres_ha_failover_timeout_seconds",
                                      some (nanos page.failover_timeout),
                                    )
                                        ∷ ((
                                          lit "postgres_ha_failover_countdown_active",
                                          some (flag page.countdown_active),
                                        )
                                            ∷ ((
                                              lit
                                                  "postgres_ha_failover_countdown_remaining_seconds",
                                              some (nanos (ℤ.pos page.countdown_remaining)),
                                            )
                                                ∷ ((
                                                  lit "postgres_ha_tls_enabled",
                                                  some (flag page.tls_enabled),
                                                )
                                                    ∷ ((
                                                      lit "postgres_ha_mtls_required",
                                                      some (flag page.mtls_required),
                                                    )
                                                        ∷ ((
                                                          lit
                                                            "postgres_ha_reboot_grace_period_seconds",
                                                          some (nanos page.reboot_grace_period),
                                                        )
                                                            ∷ ((
                                                            lit
                                                            "postgres_ha_reboot_suppress_active",
                                                            some (flag page.suppress_active),
                                                            )
                                                            ∷ ((
                                                            lit
                                                            "postgres_ha_reboot_suppress_remaining_seconds",
                                                            some
                                                            (nanos (ℤ.pos page.suppress_remaining)),
                                                            )
                                                            ∷ ((
                                                            lit
                                                            "postgres_ha_postgres_last_crash_timestamp_seconds",
                                                            some (
                                                            nanos (ℤ.pos page.last_postgres_crash)),
                                                            )
                                                            ∷ ((
                                                            lit "postgres_ha_backup_enabled",
                                                            some (flag page.backup_enabled),
                                                            )
                                                            ∷ ((
                                                            lit "postgres_ha_backup_in_progress",
                                                            some (flag page.backup_in_progress),
                                                            )
                                                            ∷ ((
                                                            lit
                                                            "postgres_ha_last_backup_duration_seconds",
                                                            some (
                                                            nanos
                                                            (ℤ.pos page.last_backup_duration)),
                                                            )
                                                            ∷ ((
                                                            lit
                                                            "postgres_ha_last_backup_timestamp_seconds",
                                                            some (nanos (ℤ.pos page.last_backup)),
                                                            )
                                                            ∷ ((
                                                            lit
                                                            "postgres_ha_backup_last_attempt_ok",
                                                            some (flag page.last_backup_attempt_ok),
                                                            )
                                                            ∷ ((
                                                            lit
                                                            "postgres_ha_last_backup_attempt_timestamp_seconds",
                                                            some (
                                                            nanos (ℤ.pos page.last_backup_attempt)),
                                                            )
                                                            ∷ [])))))))))))))))))))))))

-- Whatever the state of a node, the two pages that it makes of that state and of the same answers of
-- postgres agree: each of the 24 quantities that both show is worth the same on the page of
-- metrics, and the role and the lag are missing there exactly where the status page has the word
-- unknown and no lag.
pub pages_agree :
    (env : Env) (cfg : Config) (b : Backups) (starts : ℕ) (pool : Pool) (ping_duration : ℕ)
    (facts : Facts) (s : Node)
    → let page = (handle_status env cfg b (asked pool facts) s).0 in
      let metrics = (collect_metrics env cfg b starts pool ping_duration (asked pool facts) s).0 in
      All (λ (shown : Text × Option Value). value_of shown.0 metrics ≡ shown.1) (shared page)
unfolding handle_status collect_metrics value_of
pages_agree env cfg b starts pool ping_duration facts s = (
  refl,
  (
    live_role cfg pool _ pool.pings (is_in_recovery pool) refl,
    (
      live_lag cfg pool _ pool.pings (is_in_recovery pool) refl,
      (
        while_up_other cfg pool _ (lit "postgres_ha_peer_reachable") refl,
        (
          while_up_other cfg pool _ (lit "postgres_ha_switchover_in_progress") refl,
          (
            while_up_other cfg pool _ (lit "postgres_ha_shutdown_requested") refl,
            (
              while_up_other cfg pool _ (lit "postgres_ha_maintenance_active") refl,
              (
                while_up_other cfg pool _ (lit "postgres_ha_shutdown_mode_reboot") refl,
                (
                  while_up_other cfg pool _ (lit "postgres_ha_failover_mode_automatic") refl,
                  (
                    while_up_other cfg pool _ (lit "postgres_ha_failover_timeout_seconds") refl,
                    (
                      while_up_other cfg pool _ (lit "postgres_ha_failover_countdown_active") refl,
                      (
                        while_up_other cfg pool _
                            (lit "postgres_ha_failover_countdown_remaining_seconds") refl,
                        (
                          while_up_other cfg pool _ (lit "postgres_ha_tls_enabled") refl,
                          (
                            while_up_other cfg pool _ (lit "postgres_ha_mtls_required") refl,
                            (
                              while_up_other cfg pool _
                                  (lit "postgres_ha_reboot_grace_period_seconds") refl,
                              (
                                while_up_other cfg pool _ (lit "postgres_ha_reboot_suppress_active")
                                    refl,
                                (
                                  while_up_other cfg pool _
                                      (lit "postgres_ha_reboot_suppress_remaining_seconds") refl,
                                  (
                                    while_up_other cfg pool _
                                        (lit "postgres_ha_postgres_last_crash_timestamp_seconds")
                                        refl,
                                    (
                                      while_up_other cfg pool _ (lit "postgres_ha_backup_enabled")
                                          refl,
                                      (
                                        while_up_other cfg pool _
                                            (lit "postgres_ha_backup_in_progress") refl,
                                        (
                                          while_up_other cfg pool _
                                              (lit "postgres_ha_last_backup_duration_seconds") refl,
                                          (
                                            while_up_other cfg pool _
                                                (lit "postgres_ha_last_backup_timestamp_seconds")
                                                refl,
                                            (
                                              while_up_other cfg pool _
                                                  (lit "postgres_ha_backup_last_attempt_ok") refl,
                                              (
                                                while_up_other cfg pool _
                                                    (lit
                                                      "postgres_ha_last_backup_attempt_timestamp_seconds")
                                                    refl,
                                                tt,
                                              ),
                                            ),
                                          ),
                                        ),
                                      ),
                                    ),
                                  ),
                                ),
                              ),
                            ),
                          ),
                        ),
                      ),
                    ),
                  ),
                ),
              ),
            ),
          ),
        ),
      ),
    ),
  ),
)
