-- ===== src/Config.antt =====
-- The configuration record of src/config.go and the constants of src/timeouts.go. Settings that
-- the loader restricts to a few words are enumerations; durations are nanoseconds.
use Prim.Native.Nat.{◌*◌}
use pg_guard.Prelude.{ℕ, ℤ, Text, Bool, not, List, is_empty}

-- PG_GUARD_SHUTDOWN_POLICY
pub data Policy : Type 0 where
  require_switchover best_effort force : Policy

-- PG_GUARD_SHUTDOWN_MODE
pub data ShutdownMode : Type 0 where
  switchover_mode reboot_mode : ShutdownMode

-- PG_GUARD_FAILOVER_MODE
pub data FailoverMode : Type 0 where
  automatic manual : FailoverMode

-- PG_GUARD_BOOTSTRAP_ROLE
pub data BootstrapRole : Type 0 where
  auto as_primary as_standby : BootstrapRole

-- PG_GUARD_METRICS_MODE
pub data MetricsMode : Type 0 where
  endpoint textfile both_modes : MetricsMode

-- PG_GUARD_PEER_VERIFY
pub data PeerVerify : Type 0 where
  off ip dns both : PeerVerify

pub record Config : Type 0 where
  pub log_level : Text
  pub log_format : Text
  pub log_file : Text
  pub postgres_bin : Text
  pub postgres_args : List Text
  pub pg_data : Text
  pub shutdown_wait : ℤ
  pub pg_port : ℤ
  pub postgres_user : Text
  pub postgres_password : Text
  pub postgres_db : Text
  pub repl_user : Text
  pub repl_password : Text
  pub api_port : ℤ
  pub api_bind : Text
  pub metrics_port : ℤ
  pub api_token : Text
  pub peer_verify : PeerVerify
  pub metrics_mode : MetricsMode
  pub metrics_enabled : Bool
  pub textfile_enabled : Bool
  pub textfile_dir : Text
  pub textfile_interval : ℤ
  pub tls_cert_file : Text
  pub tls_key_file : Text
  pub tls_root_cert_file : Text
  pub tls_enabled : Bool
  pub mtls_require : Bool
  pub peer_host : Text
  pub peer_port : ℤ
  pub peer_metrics_port : ℤ
  pub shutdown_policy : Policy
  pub shutdown_mode : ShutdownMode
  pub reboot_grace_period : ℤ
  pub failover_timeout : ℤ
  pub failover_mode : FailoverMode
  pub bootstrap_role : BootstrapRole
  pub backup_enabled : Bool
  pub backup_dir : Text
  pub backup_command : Text
  pub backup_interval : ℤ
  pub backup_retain : ℤ
  pub postgres_restart_limit : ℤ
  pub postgres_restart_window : ℤ
  pub postgres_restart_backoff : ℤ
  pub state_file : Text

-- `cfg.PeerHost != ""`
abbrev pub has_peer : Config → Bool
has_peer c = not (is_empty c.peer_host)

abbrev pub millisecond : ℕ
millisecond = 1000000

abbrev pub second : ℕ
second = 1000000000

abbrev pub peer_promote_confirm_deadline : ℕ
peer_promote_confirm_deadline = 10 * second

abbrev pub handover_kill_confirm_timeout : ℕ
handover_kill_confirm_timeout = 5 * second

abbrev pub bootstrap_primary_tiebreak_timeout : ℕ
bootstrap_primary_tiebreak_timeout = 15 * second

abbrev pub bootstrap_standby_tiebreak_timeout : ℕ
bootstrap_standby_tiebreak_timeout = 120 * second

abbrev pub bootstrap_poll_interval : ℕ
bootstrap_poll_interval = 1 * second

abbrev pub bootstrap_retry_interval : ℕ
bootstrap_retry_interval = 2 * second

abbrev pub ensure_role_and_database_timeout : ℕ
ensure_role_and_database_timeout = 60 * second

abbrev pub startup_rejoin_decision_timeout : ℕ
startup_rejoin_decision_timeout = 30 * second

abbrev pub startup_rejoin_poll_interval : ℕ
startup_rejoin_poll_interval = 1 * second

abbrev pub startup_rejoin_retry_interval : ℕ
startup_rejoin_retry_interval = 2 * second

abbrev pub failover_check_interval : ℕ
failover_check_interval = 5 * second
