-- ===== src/Status.antt =====
-- The pages that only report (handleHealth, handleReady, handleStatus and handleMetrics of
-- src/metrics_server.go, backupAttemptStatus of src/metrics.go). A duration or a date is a number of
-- nanoseconds here, where the page shows seconds.
pub mod Report
use pg_guard.Prelude.{
  ℕ, ℤ, Bool, true, false, not, Option, none, some, [], Text, is_empty, if◌then◌else◌,
}
use pg_guard.Config.{Config, ShutdownMode, FailoverMode, MetricsMode}
use pg_guard.Node.{Node, Env, Role, primary, standby, other_role, StatusReply}
use pg_guard.Node.Monad.{M, ◌>>=◌, ◌>>◌, pure, get, time_now}
use pg_guard.Peer.{check_peer_reachable}
use pg_guard.Failover.{
  failover_countdown_active, failover_promote_remaining, reboot_suppress_active,
  reboot_suppress_remaining,
}
use pg_guard.Backup.{Backups}

-- The build, what postgres answers when a page is made, and the last attempt of a backup.
pub record Facts : Type 0 where
  pub version : Text
  pub commit : Text
  pub build_date : Text
  pub pings : Bool
  pub in_recovery : Option Bool
  pub lag : Option ℤ
  pub server_version : Option Text
  pub attempt_error : Text
  pub attempt_time : ℕ

pub record StatusResponse : Type 0 where
  pub version : Text
  pub commit : Text
  pub build_date : Text
  pub role : Role
  pub postgres_reachable : Bool
  pub peer_reachable : Bool
  pub peer_host : Text
  pub replication_lag_bytes : Option ℤ
  pub server_version : Text
  pub shutdown_in_progress : Bool
  pub switchover_in_progress : Bool
  pub maintenance_active : Bool
  pub role_before_maintenance : Option Role
  pub shutdown_mode : ShutdownMode
  pub failover_mode : FailoverMode
  pub failover_timeout : ℤ
  pub countdown_active : Bool
  pub countdown_remaining : ℕ
  pub reboot_grace_period : ℤ
  pub suppress_active : Bool
  pub suppress_remaining : ℕ
  pub tls_enabled : Bool
  pub mtls_required : Bool
  pub api_token_required : Bool
  pub metrics_mode : MetricsMode
  pub textfile_dir : Text
  pub textfile_interval : ℤ
  pub backup_enabled : Bool
  pub backup_in_progress : Bool
  pub last_backup : ℕ
  pub last_backup_duration : ℕ
  pub last_backup_attempt_ok : Bool
  pub last_backup_attempt_error : Text
  pub last_backup_attempt : ℕ
  pub postgres_restart_limit : ℤ
  pub postgres_restart_window : ℤ
  pub last_postgres_crash : ℕ
  pub state_file : Text

-- `none` is the word unknown of a page.
abbrev pub role_name : Option Bool → Role
role_name none = other_role
role_name (some true) = standby
role_name (some false) = primary

abbrev pub role_if : Bool → Option Bool → Role
role_if false recovery = other_role
role_if true recovery = role_name recovery

abbrev pub lag_if : Bool → Option Bool → Option ℤ → Option ℤ
lag_if true (some recovery) lag = lag
lag_if pings recovery lag = none

abbrev text_if : Bool → Option Text → Text
text_if true (some t) = t
text_if pings t = []

abbrev before_maintenance : Bool → Bool → Option Role
before_maintenance false was_primary = none
before_maintenance true true = some primary
before_maintenance true false = some standby

-- Before the first attempt there is none to be wrong.
abbrev pub attempt_ok : Option Bool → Bool
attempt_ok none = true
attempt_ok (some ok) = ok

abbrev attempt_error_of : Option Bool → Text → Text
attempt_error_of (some false) e = e
attempt_error_of attempt e = []

abbrev pub attempt_time_of : Option Bool → ℕ → ℕ
attempt_time_of none t = 0
attempt_time_of (some ok) t = t

module _ (env : Env) (cfg : Config) (b : Backups) (facts : Facts) where
  abbrev page_at : Bool → ℕ → Node → StatusResponse
  page_at peer now s = record {
    version = facts.version;
    commit = facts.commit;
    build_date = facts.build_date;
    role = role_if facts.pings facts.in_recovery;
    postgres_reachable = facts.pings;
    peer_reachable = peer;
    peer_host = cfg.peer_host;
    replication_lag_bytes = lag_if facts.pings facts.in_recovery facts.lag;
    server_version = text_if facts.pings facts.server_version;
    shutdown_in_progress = s.shutdown_in_progress;
    switchover_in_progress = s.switchover_in_progress;
    maintenance_active = s.maintenance_active;
    role_before_maintenance = before_maintenance s.maintenance_active s.maintenance_was_primary;
    shutdown_mode = cfg.shutdown_mode;
    failover_mode = cfg.failover_mode;
    failover_timeout = cfg.failover_timeout;
    countdown_active = failover_countdown_active now s;
    countdown_remaining = failover_promote_remaining now s;
    reboot_grace_period = cfg.reboot_grace_period;
    suppress_active = reboot_suppress_active now s;
    suppress_remaining = reboot_suppress_remaining now s;
    tls_enabled = cfg.tls_enabled;
    mtls_required = cfg.mtls_require;
    api_token_required = not (is_empty cfg.api_token);
    metrics_mode = cfg.metrics_mode;
    textfile_dir = cfg.textfile_dir;
    textfile_interval = cfg.textfile_interval;
    backup_enabled = cfg.backup_enabled;
    backup_in_progress = b.in_progress;
    last_backup = b.last_backup;
    last_backup_duration = b.last_duration;
    last_backup_attempt_ok = attempt_ok b.last_attempt;
    last_backup_attempt_error = attempt_error_of b.last_attempt facts.attempt_error;
    last_backup_attempt = attempt_time_of b.last_attempt facts.attempt_time;
    postgres_restart_limit = cfg.postgres_restart_limit;
    postgres_restart_window = cfg.postgres_restart_window;
    last_postgres_crash = s.last_crash;
    state_file = cfg.state_file;
  }

  unfoldable pub handle_status : M StatusResponse
  handle_status = do
    peer ← check_peer_reachable env cfg
    now ← time_now env
    s ← get
    pure (page_at peer now s)

-- What a node that asks for the page gets of it.
abbrev pub status_reply : StatusResponse → StatusReply
status_reply r = record { code = 200; body = some r.role }

-- The codes of the other pages.
abbrev pub handle_health : ℕ
handle_health = 200

abbrev pub handle_ready : Facts → ℕ
handle_ready facts = if facts.pings then 200 else 503

-- The page of metrics is there only where the endpoint is enabled.
abbrev pub handle_metrics : Config → ℕ
handle_metrics cfg = if cfg.metrics_enabled then 200 else 404
