-- ===== src/Settings/Loader.antt =====
-- The loader of the settings (loadConfig of src/config.go): its parts in order.
use pg_guard.Prelude.{lit}
use pg_guard.Config.{Config}
use pg_guard.Settings.{Load, accepted, ◌>>=◌, Os, env_or_default}
use pg_guard.Settings.Tables.{with_endpoint, with_textfile}
use pg_guard.Settings.Parts.{
  PostgresPart, TlsPart, ServerPart, PeerPart, PolicyPart, BackupPart, RestartPart,
}
use pg_guard.Settings.Sections.{
  load_postgres, load_tls, load_servers, load_peer, load_policies, load_backups, load_restarts,
}

module _ (os : Os) where
  abbrev pub assembled :
      PostgresPart
      → TlsPart
      → ServerPart
      → PeerPart
      → PolicyPart
      → BackupPart
      → RestartPart
      → Config
  assembled p t s r o b c =
      let password = os.getenv (lit "POSTGRES_PASSWORD") in
      record {
        log_level = env_or_default os (lit "PG_GUARD_LOG_LEVEL") (lit "info");
        log_format = env_or_default os (lit "PG_GUARD_LOG_FORMAT") (lit "json");
        log_file = os.getenv (lit "PG_GUARD_LOG_FILE");
        postgres_bin = p.bin;
        postgres_args = t.args;
        pg_data = p.pg_data;
        shutdown_wait = p.shutdown_wait;
        pg_port = p.pg_port;
        postgres_user = p.user;
        postgres_password = password;
        postgres_db = env_or_default os (lit "POSTGRES_DB") p.user;
        repl_user = env_or_default os (lit "PG_GUARD_REPL_USER") p.user;
        repl_password = env_or_default os (lit "PG_GUARD_REPL_PASSWORD") password;
        api_port = s.api_port;
        api_bind = s.api_bind;
        metrics_port = s.metrics_port;
        api_token = os.getenv (lit "PG_GUARD_API_TOKEN");
        peer_verify = r.verify;
        metrics_mode = s.metrics_mode;
        metrics_enabled = with_endpoint s.metrics_mode;
        textfile_enabled = with_textfile s.metrics_mode;
        textfile_dir = s.textfile_dir;
        textfile_interval = s.textfile_interval;
        tls_cert_file = t.cert_file;
        tls_key_file = t.key_file;
        tls_root_cert_file = t.root_file;
        tls_enabled = t.enabled;
        mtls_require = t.mtls;
        peer_host = r.peer_host;
        peer_port = r.peer_port;
        peer_metrics_port = r.peer_metrics_port;
        shutdown_policy = o.policy;
        shutdown_mode = o.mode;
        reboot_grace_period = o.grace;
        failover_timeout = o.timeout;
        failover_mode = o.failover;
        bootstrap_role = o.role;
        backup_enabled = b.backups;
        backup_dir = b.dir;
        backup_command = b.command;
        backup_interval = b.interval;
        backup_retain = b.retain;
        postgres_restart_limit = c.limit;
        postgres_restart_window = c.window;
        postgres_restart_backoff = c.backoff;
        state_file = os.getenv (lit "PG_GUARD_STATE_FILE");
      }

  unfoldable pub load_config : Load Config
  load_config = do
    p ← load_postgres os
    t ← load_tls os p.args
    s ← load_servers os t.enabled
    r ← load_peer os s
    o ← load_policies os
    b ← load_backups os
    c ← load_restarts os
    accepted (assembled p t s r o b c)
