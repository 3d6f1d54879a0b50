-- ===== src/Node.antt =====
-- The runtime state of one node (src/state.go, with the counters of src/metrics.go that the
-- modelled code writes), the events that the node exchanges with its surroundings, and the
-- surroundings themselves.
pub mod Monad
pub mod History
use pg_guard.Prelude.{ℕ, Bool, false, Option, none, List, [], Text}

-- The "role" of the peer's /status: the two words that the program tests for, or any other.
pub data Role : Type 0 where
  primary standby other_role : Role

-- What a graceful stop sends to postgres.
pub data Signal : Type 0 where
  sigterm sigint : Signal

-- An exchange with the surroundings, with the answer that came back.
pub data Event : Type 0 where
  -- SELECT pg_is_in_recovery(): `none` is an error.
  asked_recovery : Option Bool → Event
  -- SELECT pg_promote(): whether it returned true.
  called_promote : Bool → Event
  reset_pool : Event
  -- GET /status and /health of the peer.
  asked_status : Option Role → Event
  asked_health : Bool → Event
  -- POST /api/promote?force=true and /api/reboot-notice of the peer: whether it answered 200.
  asked_peer_promote : Bool → Event
  sent_reboot_notice : Bool → Event
  -- The child process.
  asked_stop : Signal → Bool → Event
  waited_exit : ℕ → Bool → Event
  killed : Bool → Event
  started : Option ℕ → Event
  child_ended : ℕ → Event
  -- PGDATA and the tools that work on it.
  checked_version_file : Bool → Event
  checked_standby_signal : Bool → Event
  ran_rewind : Bool → Event
  dialled_postgres : Bool → Event
  made_pg_data : Bool → Event
  cleared_pg_data : Bool → Event
  ran_basebackup : Bool → Event
  wrote_standby_config : Bool → Event
  staged_password : Bool → Event
  ran_initdb : Bool → Event
  wrote_postgres_conf : Bool → Event
  -- The name service: the first address of the peer.
  resolved_peer : Option Text → Event
  looked_up_hostname : Option Text → Event
  -- pg_hba.conf, and the statements that the maintenance database is sent.
  connected : Bool → Event
  located_hba : Bool → Event
  read_hba : Bool → Event
  wrote_hba : Bool → Event
  reloaded_config : Bool → Event
  checked_role : Option Bool → Event
  created_role : Bool → Event
  checked_database : Option Bool → Event
  created_database : Bool → Event
  checkpointed : Bool → Event
  slept : ℕ → Event

-- The newest event first.
abbrev pub Trace : Type 0
Trace = List Event

-- An HTTP answer to GET /status: its code, and the role if the body decodes.
pub record StatusReply : Type 0 where
  pub code : ℕ
  pub body : Option Role

-- What the surroundings answer, and what the clock shows, after any history.
pub record Env : Type 0 where
  pub now : Trace → ℕ
  pub recovery : Trace → Option Bool
  pub promote : Trace → Bool
  -- `none` is a failed request, a number the HTTP code of the answer.
  pub peer_status : Trace → Option StatusReply
  pub peer_health : Trace → Option ℕ
  pub peer_promote : Trace → Option ℕ
  pub peer_reboot_notice : Trace → Option ℕ
  pub stop_child : Trace → Bool
  pub child_exits : Trace → ℕ → Bool
  pub kill_child : Trace → Bool
  pub start_child : Trace → Option ℕ
  pub version_file : Trace → Bool
  pub standby_signal : Trace → Bool
  pub rewind : Trace → Bool
  pub port_open : Trace → Bool
  pub make_pg_data : Trace → Bool
  pub clear_pg_data : Trace → Bool
  pub basebackup : Trace → Bool
  pub write_standby_config : Trace → Bool
  pub stage_password : Trace → Bool
  pub initdb : Trace → Bool
  pub write_postgres_conf : Trace → Bool
  pub peer_address : Trace → Option Text
  pub hostname : Trace → Option Text
  pub connect : Trace → Bool
  pub locate_hba : Trace → Bool
  pub read_hba_file : Trace → Bool
  pub write_hba_file : Trace → Bool
  pub reload_config : Trace → Bool
  pub role_exists : Trace → Option Bool
  pub create_role : Trace → Bool
  pub database_exists : Trace → Option Bool
  pub create_database : Trace → Bool
  pub checkpoint : Trace → Bool
  -- The text of pg_hba.conf that initdb writes, and the one that a clone brings along.
  pub initial_hba : Trace → Text
  pub cloned_hba : Trace → Text

pub record Node : Type 0 where
  pub shutdown_in_progress : Bool
  pub switchover_in_progress : Bool
  pub postgres_running : Bool
  pub restart_pending : Bool
  -- The main loop's restart timer is armed.
  pub restart_armed : Bool
  pub maintenance_active : Bool
  pub maintenance_was_primary : Bool
  -- Time stamps, 0 for none.
  pub reboot_suppress_until : ℕ
  pub failover_promote_deadline : ℕ
  pub last_peer_seen : ℕ
  pub last_crash : ℕ
  -- The process that the supervisor watches.
  pub current_child : Option ℕ
  pub exit_requested : Option ℕ
  pub crash_timestamps : List ℕ
  -- Durations of the last operation of each kind.
  pub last_promotion_duration : ℕ
  pub last_rejoin_duration : ℕ
  pub last_bootstrap_duration : ℕ
  pub promotions : ℕ
  pub rejoins : ℕ
  pub postgres_restarts : ℕ
  -- The text of the local pg_hba.conf.
  pub hba : Text
  -- The code with which the process has exited.
  pub exited : Option ℕ
  pub trace : Trace

-- Why an operation was refused or failed.
pub data Error : Type 0 where
  no_standby_peer no_primary_peer kill_failed peer_promote_failed peer_unconfirmed : Error
  no_peer_configured not_running already_running crash_restart_pending start_failed : Error
  postgres_still_listening clear_failed basebackup_failed standby_config_failed : Error
  staging_failed initdb_failed hba_failed conf_failed not_connected set_up_timed_out : Error
  peer_unresolved reload_failed role_query_failed pg_data_failed peer_never_primary
        peer_role_unknown :
      Error
  unknown_kind : Error

-- Go's `error` result. `stuck` is no result of the program: a loop of the model ran out of fuel.
pub data Result : Type 0 where
  ok : Result
  err : Error → Result
  stuck : Result

-- The state in which the process starts: package-level zero values.
abbrev pub fresh : Node
fresh = record {
  shutdown_in_progress = false;
  switchover_in_progress = false;
  postgres_running = false;
  restart_pending = false;
  restart_armed = false;
  maintenance_active = false;
  maintenance_was_primary = false;
  reboot_suppress_until = 0;
  failover_promote_deadline = 0;
  last_peer_seen = 0;
  last_crash = 0;
  current_child = none;
  exit_requested = none;
  crash_timestamps = [];
  last_promotion_duration = 0;
  last_rejoin_duration = 0;
  last_bootstrap_duration = 0;
  promotions = 0;
  rejoins = 0;
  postgres_restarts = 0;
  hba = [];
  exited = none;
  trace = [];
}
