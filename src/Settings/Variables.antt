-- ===== src/Settings/Variables.antt =====
-- The table of the documented variables (varDefs of src/config.go): name, default and purpose, in the
-- order of the source.
use Prim.Native.String.{String}
use pg_guard.Prelude.{List, [], ◌∷◌, ◌++◌, Text, lit}

pub record VarDef : Type 0 where
  pub name : Text
  pub def : Text
  pub desc : Text

abbrev var_def : String → String → String → VarDef
var_def n d w = record { name = lit n; def = lit d; desc = lit w }

infixl 4 ◌▸◌
abbrev ◌▸◌ : List VarDef → VarDef → List VarDef
ds ▸ d = ds ++ (d ∷ [])

unfoldable pub var_defs : List VarDef
var_defs =
    []
    ▸ var_def "PG_GUARD_LOG_LEVEL" "info" "log verbosity: error|warn|info|debug"
    ▸ var_def "PG_GUARD_LOG_FORMAT" "json" "log output format: json|text"
    ▸ var_def "PG_GUARD_LOG_FILE" "(unset)"
        "log file path; default is stderr (a Windows Service has no console, so this is required there)"
    ▸ var_def "PG_GUARD_POSTGRES_BIN" "(auto-detected)"
        "path to the postgres binary; auto-detected if unset (Windows: registry; Linux: /usr/lib/postgresql/*/bin, then PATH) -- set explicitly to override or to disambiguate multiple installs"
    ▸ var_def "PGDATA" "(unset)" "Postgres data directory; required -- must already be initialized"
    ▸ var_def "PG_GUARD_EXTRA_ARGS" "(unset)"
        "additional postgres arguments appended after -D <PGDATA>, e.g. \"-c ssl=on -c ssl_cert_file=...\""
    ▸ var_def "PG_GUARD_SHUTDOWN_WAIT" "300s" "max wait for the child to exit before a forced kill"
    ▸ var_def "PGPORT" "5432" "local Postgres port, used for pg-guard's own pgx connection"
    ▸ var_def "POSTGRES_USER" "postgres" "role pg-guard connects as for health checks and metrics"
    ▸ var_def "POSTGRES_PASSWORD" "(unset)" "password for the above"
    ▸ var_def "POSTGRES_DB" "(= POSTGRES_USER)" "database pg-guard connects to"
    ▸ var_def "PG_GUARD_API_PORT" "8080 (or 8443, if TLS is enabled)"
        "HTTP API port -- POST /api/* only (mutating HA control plane). 8080 always means plain HTTP, 8443 always means TLS -- never both at once, Tomcat-classic-connector style, not a same-port silent switch (see TLS)"
    ▸ var_def "PG_GUARD_API_BIND" "0.0.0.0" "bind address for both the API and metrics listeners"
    ▸ var_def "PG_GUARD_METRICS_PORT" "9100"
        "GET /health|/ready|/status|/metrics listener -- separate from the API port so TLS applies to PG_GUARD_API_PORT alone, never here (matches node_exporter's conventional port)"
    ▸ var_def "PG_GUARD_METRICS_MODE" "endpoint"
        "endpoint|textfile|both -- which output mechanism(s) are active; /health|/ready|/status are always served regardless -- see Metrics"
    ▸ var_def "PG_GUARD_TEXTFILE_DIR" "(unset)"
        "directory to periodically write pg-guard.prom into (node_exporter textfile-collector format); required when PG_GUARD_METRICS_MODE is textfile or both"
    ▸ var_def "PG_GUARD_TEXTFILE_INTERVAL" "60s"
        "how often the textfile collector refreshes pg-guard.prom"
    ▸ var_def "PG_GUARD_API_TOKEN" "(unset)"
        "bearer token required on POST /api/* (promote/shutdown/rejoin/switchover/maintenance/start) if set; the metrics listener never requires it"
    ▸ var_def "PG_GUARD_PEER_VERIFY" "off"
        "off|ip|dns|both -- additionally require POST /api/* callers to resolve-match PG_GUARD_PEER_HOST; \"ip\" recommended (see auth.go -- \"dns\" is unreliable on Docker Compose networks)"
    ▸ var_def "PG_GUARD_SSL_CERT_FILE" "(unset)"
        "path to the certificate; set together with PG_GUARD_SSL_KEY_FILE to switch the API listener, outbound peer calls, and Postgres's own connections from plain to TLS (see TLS). Named after Postgres's own ssl_cert_file GUC, which this also composes onto Postgres's args automatically"
    ▸ var_def "PG_GUARD_SSL_KEY_FILE" "(unset)"
        "path to the private key, paired with PG_GUARD_SSL_CERT_FILE; composed onto Postgres's own ssl_key_file automatically"
    ▸ var_def "PG_GUARD_SSL_CA_FILE" "(unset)"
        "CA used to verify inbound client certs (PG_GUARD_MTLS_REQUIRE) and the peer's cert on outbound calls; composed onto Postgres's own ssl_ca_file automatically if set"
    ▸ var_def "PG_GUARD_MTLS_REQUIRE" "false"
        "require and verify a client certificate on POST /api/* (mutual TLS); requires PG_GUARD_SSL_CERT_FILE/PG_GUARD_SSL_KEY_FILE/PG_GUARD_SSL_CA_FILE all set"
    ▸ var_def "PG_GUARD_PEER_HOST" "(derived)"
        "peer hostname; derived from own hostname's -0/-1 suffix if unset"
    ▸ var_def "PG_GUARD_PEER_PORT" "(= PG_GUARD_API_PORT)"
        "peer's API port (POST /api/promote, /api/reboot-notice)"
    ▸ var_def "PG_GUARD_PEER_METRICS_PORT" "(= PG_GUARD_METRICS_PORT)"
        "peer's metrics port (GET /health, /status)"
    ▸ var_def "PG_GUARD_REPL_USER" "(= POSTGRES_USER)"
        "role used for pg_rewind/pg_basebackup against the peer"
    ▸ var_def "PG_GUARD_REPL_PASSWORD" "(= POSTGRES_PASSWORD)" "password for the above"
    ▸ var_def "PG_GUARD_SHUTDOWN_POLICY" "require-switchover"
        "require-switchover|best-effort|force -- see Coordinated Shutdown"
    ▸ var_def "PG_GUARD_SHUTDOWN_MODE" "switchover"
        "switchover|reboot -- switchover promotes the peer (today's behavior); reboot notifies the peer to suppress failover for PG_GUARD_REBOOT_GRACE_PERIOD instead, for a planned reboot that comes back as the same role -- see Shutdown Modes"
    ▸ var_def "PG_GUARD_REBOOT_GRACE_PERIOD" "180s"
        "how long a peer suppresses automatic failover after a PG_GUARD_SHUTDOWN_MODE=reboot notice, before falling back to normal PG_GUARD_FAILOVER_TIMEOUT-based promotion"
    ▸ var_def "PG_GUARD_FAILOVER_TIMEOUT" "60s"
        "how long the peer must be continuously unhealthy before automatic failover promotes"
    ▸ var_def "PG_GUARD_FAILOVER_MODE" "automatic"
        "automatic|manual -- manual disables the failover monitor entirely"
    ▸ var_def "PG_GUARD_BOOTSTRAP_ROLE" "auto"
        "auto|primary|standby -- overrides the hostname-ordinal tiebreak for first-run bootstrap (see Bootstrap)"
    ▸ var_def "PG_GUARD_BACKUP_ENABLED" "false"
        "enable the periodic backup scheduler (see Backup); the on-demand backup command always works regardless"
    ▸ var_def "PG_GUARD_BACKUP_DIR" "(unset)"
        "directory to write pg_basebackup archives into, retention-pruned; mutually exclusive with PG_GUARD_BACKUP_COMMAND"
    ▸ var_def "PG_GUARD_BACKUP_COMMAND" "(unset)"
        "shell command to pipe the pg_basebackup tar stream into instead of a directory (e.g. a borgbackup/restic/tar+upload invocation) -- no retention, mutually exclusive with PG_GUARD_BACKUP_DIR"
    ▸ var_def "PG_GUARD_BACKUP_INTERVAL" "24h"
        "how often the backup scheduler runs, when PG_GUARD_BACKUP_ENABLED=true"
    ▸ var_def "PG_GUARD_BACKUP_RETAIN" "7"
        "how many of the newest backups to keep; older ones are pruned after each successful backup (PG_GUARD_BACKUP_DIR mode only)"
    ▸ var_def "PG_GUARD_POSTGRES_RESTART_LIMIT" "5"
        "max automatic in-process restarts of a crashed postgres within PG_GUARD_POSTGRES_RESTART_WINDOW before pg-guard gives up and exits instead (letting Docker/the OS handle recovery); 0 disables in-process crash-restart entirely -- see Automatic Restart"
    ▸ var_def "PG_GUARD_POSTGRES_RESTART_WINDOW" "10m"
        "rolling window PG_GUARD_POSTGRES_RESTART_LIMIT is counted over"
    ▸ var_def "PG_GUARD_POSTGRES_RESTART_BACKOFF" "5s"
        "fixed delay before each automatic crash-restart attempt"
    ▸ var_def "PG_GUARD_STATE_FILE" "(unset)"
        "path to persist pg-guard start count / postgres restart count / last crash timestamp across pg-guard restarts; unset means these stay in-memory only -- see Automatic Restart"
