-- ===== src/Examples/World.antt =====
-- A concrete node, its configuration and its surroundings, on which the statements are tried.
use Prim.Native.Nat.{◌*◌}
use pg_guard.Prelude.{ℕ, ℤ, ◌+◌, true, false, some, [], ◌∷◌, lit, arith}
use pg_guard.Config.{
  Config, second, require_switchover, switchover_mode, automatic, auto, off, endpoint,
}
use pg_guard.Node.{Node, Env, Event, Trace, StatusReply, standby, slept, fresh}
use pg_guard.Node.History.{IsClock}

abbrev cost : Event → ℕ
cost (slept d) = d
cost e = 0

-- Time passes only in sleeps; the process starts an hour after the epoch.
abbrev pub clock : Trace → ℕ
clock [] = 3600 * second
clock (e ∷ t) = clock t + cost e

abbrev pub standing_by : StatusReply
standing_by = record { code = 200; body = some standby }

-- A primary whose peer stands by; every tool and every statement works.
abbrev pub calm : Env
calm = record {
  now = clock;
  recovery = λ t. some false;
  promote = λ t. true;
  peer_status = λ t. some standing_by;
  peer_health = λ t. some 200;
  peer_promote = λ t. some 200;
  peer_reboot_notice = λ t. some 200;
  stop_child = λ t. true;
  child_exits = λ t d. true;
  kill_child = λ t. true;
  start_child = λ t. some 42;
  version_file = λ t. true;
  standby_signal = λ t. false;
  rewind = λ t. true;
  port_open = λ t. false;
  make_pg_data = λ t. true;
  clear_pg_data = λ t. true;
  basebackup = λ t. true;
  write_standby_config = λ t. true;
  stage_password = λ t. true;
  initdb = λ t. true;
  write_postgres_conf = λ t. true;
  peer_address = λ t. some (lit "10.0.0.2");
  hostname = λ t. some (lit "pg-0");
  connect = λ t. true;
  locate_hba = λ t. true;
  read_hba_file = λ t. true;
  write_hba_file = λ t. true;
  reload_config = λ t. true;
  role_exists = λ t. some true;
  create_role = λ t. true;
  database_exists = λ t. some true;
  create_database = λ t. true;
  checkpoint = λ t. true;
  initial_hba = λ t. lit "local all all trust\n";
  cloned_hba = λ t. lit "local all all trust\n";
}

abbrev pub settings : Config
settings = record {
  log_level = [];
  log_format = [];
  log_file = [];
  postgres_bin = [];
  postgres_args = [];
  pg_data = [];
  shutdown_wait = ℤ.pos (30 * second);
  pg_port = ℤ.pos 0;
  postgres_user = lit "postgres";
  postgres_password = lit "secret";
  postgres_db = lit "app";
  repl_user = lit "replicator";
  repl_password = [];
  api_port = ℤ.pos 0;
  api_bind = [];
  metrics_port = ℤ.pos 0;
  api_token = lit "token";
  peer_verify = off;
  metrics_mode = endpoint;
  metrics_enabled = false;
  textfile_enabled = false;
  textfile_dir = [];
  textfile_interval = ℤ.pos 0;
  tls_cert_file = [];
  tls_key_file = [];
  tls_root_cert_file = [];
  tls_enabled = false;
  mtls_require = false;
  peer_host = lit "pg-1";
  peer_port = ℤ.pos 0;
  peer_metrics_port = ℤ.pos 0;
  shutdown_policy = require_switchover;
  shutdown_mode = switchover_mode;
  reboot_grace_period = ℤ.pos (300 * second);
  failover_timeout = ℤ.pos (30 * second);
  failover_mode = automatic;
  bootstrap_role = auto;
  backup_enabled = false;
  backup_dir = lit "/backups";
  backup_command = [];
  backup_interval = ℤ.pos 0;
  backup_retain = ℤ.pos 2;
  postgres_restart_limit = ℤ.pos 3;
  postgres_restart_window = ℤ.pos (600 * second);
  postgres_restart_backoff = ℤ.pos (5 * second);
  state_file = [];
}

-- Any surroundings with that clock have a clock that runs.
pub calm-IsClock : IsClock calm
calm-IsClock = record { onward = λ e t. omega arith; sleeps = λ d t. omega arith }

-- A node that watches a child.
abbrev pub running : Node
running = record fresh { current_child = some 42; postgres_running = true }
