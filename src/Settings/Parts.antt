-- ===== src/Settings/Parts.antt =====
-- What the parts of the loader return (src/config.go).
use pg_guard.Prelude.{ℤ, Bool, List, Text}
use pg_guard.Config.{Policy, ShutdownMode, FailoverMode, BootstrapRole, MetricsMode, PeerVerify}

pub record PostgresPart : Type 0 where
  pub bin : Text
  pub pg_data : Text
  pub args : List Text
  pub shutdown_wait : ℤ
  pub pg_port : ℤ
  pub user : Text

pub record TlsPart : Type 0 where
  pub cert_file : Text
  pub key_file : Text
  pub root_file : Text
  pub enabled : Bool
  pub mtls : Bool
  pub args : List Text

pub record ServerPart : Type 0 where
  pub api_port : ℤ
  pub api_bind : Text
  pub metrics_port : ℤ
  pub metrics_mode : MetricsMode
  pub textfile_dir : Text
  pub textfile_interval : ℤ

pub record PeerPart : Type 0 where
  pub verify : PeerVerify
  pub peer_port : ℤ
  pub peer_metrics_port : ℤ
  pub peer_host : Text

pub record PolicyPart : Type 0 where
  pub policy : Policy
  pub mode : ShutdownMode
  pub grace : ℤ
  pub timeout : ℤ
  pub failover : FailoverMode
  pub role : BootstrapRole

pub record BackupPart : Type 0 where
  pub backups : Bool
  pub dir : Text
  pub command : Text
  pub interval : ℤ
  pub retain : ℤ

pub record RestartPart : Type 0 where
  pub limit : ℤ
  pub window : ℤ
  pub backoff : ℤ
