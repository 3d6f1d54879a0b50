-- ===== src/Settings/Sections.antt =====
-- The parts of the loader (loadConfig of src/config.go, buildServerTLSConfig of src/tls.go), each in the
-- order in which it reads and checks its settings.
use pg_guard.Prelude.{
  ℤ, Bool, true, false, not, ◌&&◌, ◌||◌, Option, none, some, List, [], ◌∷◌, ◌++◌, Text, lit,
  is_empty, if◌then◌else◌, is_nonpos, is_neg,
}
use pg_guard.Names.{derive_peer_host}
use pg_guard.Settings.{
  not_positive, out_of_range, missing, no_postgres_binary, mtls_incomplete, tls_staging_failed,
  tls_invalid, textfile_dir_missing, same_ports, two_backup_targets, no_backup_target, Load,
  accepted, refused, ◌>>=◌, ◌>>◌, reject_if, Os, env_or_default, env_duration, env_int, env_bool,
}
use pg_guard.Settings.Tables.{
  choose, word, metrics_modes, peer_verifies, policies, shutdown_modes, failover_modes,
  bootstrap_roles, with_textfile, fields_from, same_port, below_one, seconds,
}
use pg_guard.Settings.Parts.{
  PostgresPart, TlsPart, ServerPart, PeerPart, PolicyPart, BackupPart, RestartPart,
}

module _ (os : Os) where
  abbrev get : Text → Text
  get key = os.getenv key

  abbrev found_binary : Option Text → Load Text
  found_binary none = refused no_postgres_binary
  found_binary (some path) = accepted path

  abbrev postgres_binary : Load Text
  postgres_binary =
      if is_empty (get (lit "PG_GUARD_POSTGRES_BIN"))
      then found_binary os.find_postgres
      else accepted (get (lit "PG_GUARD_POSTGRES_BIN"))

  unfoldable pub extra_args : List Text
  extra_args = (fields_from (get (lit "PG_GUARD_EXTRA_ARGS"))).1

  unfoldable pub load_postgres : Load PostgresPart
  load_postgres = do
    bin ← postgres_binary
    reject_if (is_empty (get (lit "PGDATA"))) (missing (lit "PGDATA"))
    wait ← env_duration os (lit "PG_GUARD_SHUTDOWN_WAIT") (seconds 300)
    reject_if (is_nonpos wait) (not_positive (lit "PG_GUARD_SHUTDOWN_WAIT"))
    port ← env_int os (lit "PGPORT") (ℤ.pos 5432)
    accepted (record {
      bin = bin;
      pg_data = get (lit "PGDATA");
      args = lit "-D" ∷ (get (lit "PGDATA") ∷ extra_args);
      shutdown_wait = wait;
      pg_port = port;
      user = env_or_default os (lit "POSTGRES_USER") (lit "postgres");
    })

  abbrev staged : Option Text → Load Text
  staged none = refused tls_staging_failed
  staged (some path) = accepted path

  abbrev stage_root : Text → Load Text
  stage_root path = if is_empty path then accepted path else staged (os.stage_file path)

  abbrev root_args : Text → List Text
  root_args path = if is_empty path then [] else lit "-c" ∷ ((lit "ssl_ca_file=" ++ path) ∷ [])

  -- buildServerTLSConfig of src/tls.go: the authorities are loaded only to check clients.
  abbrev builds_server_tls : Bool → Text → Text → Text → Bool
  builds_server_tls mtls cert key root =
      os.loads_key_pair cert key && (not mtls || os.loads_authorities root)

  abbrev staged_tls : Bool → List Text → Text → Text → Text → Load TlsPart
  staged_tls mtls args cert_src key_src root_src = do
    cert ← staged (os.stage_file cert_src)
    key ← staged (os.stage_file key_src)
    root ← stage_root root_src
    reject_if (not (builds_server_tls mtls cert key root)) tls_invalid
    accepted (record {
      cert_file = cert;
      key_file = key;
      root_file = root;
      enabled = true;
      mtls = mtls;
      args =
          args
          ++ (lit "-c"
              ∷ (lit "ssl=on"
                  ∷ (lit "-c"
                      ∷ ((lit "ssl_cert_file=" ++ cert)
                          ∷ (lit "-c" ∷ ((lit "ssl_key_file=" ++ key) ∷ root_args root))))));
    })

  abbrev plain_tls : Bool → List Text → Text → Text → Text → TlsPart
  plain_tls mtls args cert key root = record {
    cert_file = cert;
    key_file = key;
    root_file = root;
    enabled = false;
    mtls = mtls;
    args = args;
  }

  unfoldable pub load_tls : List Text → Load TlsPart
  load_tls args =
      let cert = get (lit "PG_GUARD_SSL_CERT_FILE") in
      let key = get (lit "PG_GUARD_SSL_KEY_FILE") in
      let root = get (lit "PG_GUARD_SSL_CA_FILE") in
      let enabled = not (is_empty cert) && not (is_empty key) in
      do
        mtls ← env_bool os (lit "PG_GUARD_MTLS_REQUIRE") false
        reject_if (mtls && (not enabled || is_empty root)) mtls_incomplete
        if enabled
            then staged_tls mtls args cert key root
            else accepted (plain_tls mtls args cert key root)

  unfoldable pub load_servers : Bool → Load ServerPart
  load_servers tls = do
    api ← env_int os (lit "PG_GUARD_API_PORT") (if tls then ℤ.pos 8443 else ℤ.pos 8080)
    metrics ← env_int os (lit "PG_GUARD_METRICS_PORT") (ℤ.pos 9100)
    mode ←
        choose (lit "PG_GUARD_METRICS_MODE")
          (word (env_or_default os (lit "PG_GUARD_METRICS_MODE") (lit "endpoint")) metrics_modes)
    reject_if (with_textfile mode && is_empty (get (lit "PG_GUARD_TEXTFILE_DIR")))
        textfile_dir_missing
    interval ← env_duration os (lit "PG_GUARD_TEXTFILE_INTERVAL") (seconds 60)
    reject_if (is_nonpos interval) (not_positive (lit "PG_GUARD_TEXTFILE_INTERVAL"))
    reject_if (same_port api metrics) same_ports
    accepted (record {
      api_port = api;
      api_bind = env_or_default os (lit "PG_GUARD_API_BIND") (lit "0.0.0.0");
      metrics_port = metrics;
      metrics_mode = mode;
      textfile_dir = get (lit "PG_GUARD_TEXTFILE_DIR");
      textfile_interval = interval;
    })

  -- A peer that is not configured is derived from the host's name, or there is none.
  abbrev derived : Option Text → Text
  derived none = []
  derived (some host) = host

  abbrev derived_from : Option Text → Text
  derived_from none = []
  derived_from (some hostname) = derived (derive_peer_host hostname)

  abbrev peer_of : Text
  peer_of =
      if is_empty (get (lit "PG_GUARD_PEER_HOST"))
      then derived_from os.host_name
      else get (lit "PG_GUARD_PEER_HOST")

  unfoldable pub load_peer : ServerPart → Load PeerPart
  load_peer s = do
    verify ←
        choose (lit "PG_GUARD_PEER_VERIFY")
          (word (env_or_default os (lit "PG_GUARD_PEER_VERIFY") (lit "off")) peer_verifies)
    port ← env_int os (lit "PG_GUARD_PEER_PORT") s.api_port
    metrics ← env_int os (lit "PG_GUARD_PEER_METRICS_PORT") s.metrics_port
    accepted (record {
      verify = verify;
      peer_port = port;
      peer_metrics_port = metrics;
      peer_host = peer_of;
    })

  unfoldable pub load_policies : Load PolicyPart
  load_policies = do
    policy ← choose (lit "PG_GUARD_SHUTDOWN_POLICY") (
        word (env_or_default os (lit "PG_GUARD_SHUTDOWN_POLICY") (lit "require-switchover"))
          policies)
    mode ←
        choose (lit "PG_GUARD_SHUTDOWN_MODE") (
          word (env_or_default os (lit "PG_GUARD_SHUTDOWN_MODE") (lit "switchover")) shutdown_modes)
    grace ← env_duration os (lit "PG_GUARD_REBOOT_GRACE_PERIOD") (seconds 180)
    timeout ← env_duration os (lit "PG_GUARD_FAILOVER_TIMEOUT") (seconds 60)
    failover ←
        choose (lit "PG_GUARD_FAILOVER_MODE")
          (word (env_or_default os (lit "PG_GUARD_FAILOVER_MODE") (lit "automatic")) failover_modes)
    role ←
        choose (lit "PG_GUARD_BOOTSTRAP_ROLE")
          (word (env_or_default os (lit "PG_GUARD_BOOTSTRAP_ROLE") (lit "auto")) bootstrap_roles)
    accepted (record {
      policy = policy;
      mode = mode;
      grace = grace;
      timeout = timeout;
      failover = failover;
      role = role;
    })

  unfoldable pub load_backups : Load BackupPart
  load_backups = do
    backups ← env_bool os (lit "PG_GUARD_BACKUP_ENABLED") false
    let dir = get (lit "PG_GUARD_BACKUP_DIR")
    let command = get (lit "PG_GUARD_BACKUP_COMMAND")
    reject_if (not (is_empty dir) && not (is_empty command)) two_backup_targets
    reject_if (backups && (is_empty dir && is_empty command)) no_backup_target
    interval ← env_duration os (lit "PG_GUARD_BACKUP_INTERVAL") (seconds 86400)
    reject_if (is_nonpos interval) (not_positive (lit "PG_GUARD_BACKUP_INTERVAL"))
    retain ← env_int os (lit "PG_GUARD_BACKUP_RETAIN") (ℤ.pos 7)
    reject_if (below_one retain) (out_of_range (lit "PG_GUARD_BACKUP_RETAIN"))
    accepted (record {
      backups = backups;
      dir = dir;
      command = command;
      interval = interval;
      retain = retain;
    })

  unfoldable pub load_restarts : Load RestartPart
  load_restarts = do
    limit ← env_int os (lit "PG_GUARD_POSTGRES_RESTART_LIMIT") (ℤ.pos 5)
    reject_if (is_neg limit) (out_of_range (lit "PG_GUARD_POSTGRES_RESTART_LIMIT"))
    window ← env_duration os (lit "PG_GUARD_POSTGRES_RESTART_WINDOW") (seconds 600)
    reject_if (is_nonpos window) (not_positive (lit "PG_GUARD_POSTGRES_RESTART_WINDOW"))
    backoff ← env_duration os (lit "PG_GUARD_POSTGRES_RESTART_BACKOFF") (seconds 5)
    reject_if (is_neg backoff) (out_of_range (lit "PG_GUARD_POSTGRES_RESTART_BACKOFF"))
    accepted (record { limit = limit; window = window; backoff = backoff })
