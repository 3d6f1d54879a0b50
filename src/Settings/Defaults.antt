-- ===== src/Settings/Defaults.antt =====
-- The defaults that the table of the variables documents, against those of the loader (varDefs and
-- loadConfig of src/config.go).
use pg_guard.Prelude.{
  ℤ, ◌≡◌, refl, Bool, false, some, List, [], ◌∷◌, Text, lit, text_eq, is_empty, strip_prefix,
  if◌then◌else◌, arith,
}
use pg_guard.Log.Severity.{contains, after_first}
use pg_guard.Settings.{
  Os, atoi, read_digits, parse_bool, env_or_default, env_duration, env_int, env_bool,
}
use pg_guard.Settings.Tables.{seconds}
use pg_guard.Settings.Parts.{
  PostgresPart, TlsPart, ServerPart, PeerPart, PolicyPart, BackupPart, RestartPart,
}
use pg_guard.Settings.Sections.{
  load_postgres, extra_args, load_tls, load_servers, load_peer, load_policies, load_backups,
  load_restarts,
}
use pg_guard.Settings.Loader.{assembled, load_config}
use pg_guard.Settings.Variables.{VarDef, var_defs}

-- A default that can be set: one that is not an explanation in parentheses.
abbrev settable : Text → Text
settable d = if contains (lit "(") d then [] else d

-- The default that a table documents for a variable, empty where it documents none that can be set.
abbrev default_of : List VarDef → Text → Text
default_of [] key = []
default_of (vd ∷ vds) key =
    let rest = default_of vds key in if text_eq vd.name key then settable vd.def else rest

unfoldable pub documented : Text → Text
documented key = default_of var_defs key

-- The system in which every variable that is unset is set to its documented default.
unfoldable pub spelled_out : Os → Os
spelled_out os = record {
  getenv = λ key. if is_empty (os.getenv key) then documented key else os.getenv key;
  find_postgres = os.find_postgres;
  host_name = os.host_name;
  parse_duration = os.parse_duration;
  stage_file = os.stage_file;
  loads_key_pair = os.loads_key_pair;
  loads_authorities = os.loads_authorities;
}

-- time.ParseDuration reads the durations of the table.
pub record ReadsDefaults (os : Os) : Type 0 where
  pub five_minutes : os.parse_duration (lit "300s") ≡ some (seconds 300)
  pub a_minute : os.parse_duration (lit "60s") ≡ some (seconds 60)
  pub three_minutes : os.parse_duration (lit "180s") ≡ some (seconds 180)
  pub a_day : os.parse_duration (lit "24h") ≡ some (seconds 86400)
  pub ten_minutes : os.parse_duration (lit "10m") ≡ some (seconds 600)
  pub five_seconds : os.parse_duration (lit "5s") ≡ some (seconds 5)

module _ (os : Os) where
  get_spelled : (key : Text) → documented key ≡ [] → (spelled_out os).getenv key ≡ os.getenv key
  unfolding spelled_out
  get_spelled key h = ground arith

  text_spelled :
      (key d : Text)
      → documented key ≡ d
      → env_or_default (spelled_out os) key d ≡ env_or_default os key d
  unfolding spelled_out env_or_default
  text_spelled key d h = ground arith

  unset_text :
      (key d : Text)
      → documented key ≡ []
      → env_or_default (spelled_out os) key d ≡ env_or_default os key d
  unfolding spelled_out env_or_default
  unset_text key d h = ground arith

  int_spelled :
      (key d : Text) (n : ℤ)
      → documented key ≡ d
      → is_empty d ≡ false
      → atoi d ≡ some n
      → env_int (spelled_out os) key n ≡ env_int os key n
  unfolding spelled_out env_int
  int_spelled key d n h e r = ground arith

  bool_spelled :
      (key d : Text) (b : Bool)
      → documented key ≡ d
      → is_empty d ≡ false
      → parse_bool d ≡ some b
      → env_bool (spelled_out os) key b ≡ env_bool os key b
  unfolding spelled_out env_bool
  bool_spelled key d b h e r = ground arith

  duration_spelled :
      (key d : Text) (n : ℤ)
      → documented key ≡ d
      → is_empty d ≡ false
      → os.parse_duration d ≡ some n
      → env_duration (spelled_out os) key n ≡ env_duration os key n
  unfolding spelled_out env_duration
  duration_spelled key d n h e r = ground arith

  unset_spelled :
      (key : Text) (n : ℤ) → documented key ≡ [] → env_int (spelled_out os) key n ≡ env_int os key n
  unfolding spelled_out env_int
  unset_spelled key n h = ground arith

  find_spelled : (spelled_out os).find_postgres ≡ os.find_postgres
  unfolding spelled_out
  find_spelled = refl

  host_spelled : (spelled_out os).host_name ≡ os.host_name
  unfolding spelled_out
  host_spelled = refl

  args_spelled : extra_args (spelled_out os) ≡ extra_args os
  unfolding extra_args documented var_defs text_eq after_first strip_prefix
  args_spelled = rw (extra_args, get_spelled (lit "PG_GUARD_EXTRA_ARGS") refl) refl

  tls_spelled : (args : List Text) → load_tls (spelled_out os) args ≡ load_tls os args
  unfolding load_tls documented var_defs text_eq after_first strip_prefix parse_bool spelled_out
  tls_spelled args =
      rw
        (
          bool_spelled (lit "PG_GUARD_MTLS_REQUIRE") (lit "false") false refl refl refl,
          get_spelled (lit "PG_GUARD_SSL_CERT_FILE") refl,
          get_spelled (lit "PG_GUARD_SSL_KEY_FILE") refl,
          get_spelled (lit "PG_GUARD_SSL_CA_FILE") refl,
        )
        refl

  assembled_spelled :
      (p : PostgresPart) (t : TlsPart) (s : ServerPart) (r : PeerPart) (o : PolicyPart)
      (b : BackupPart) (c : RestartPart)
      → assembled (spelled_out os) p t s r o b c ≡ assembled os p t s r o b c
  unfolding documented var_defs text_eq after_first strip_prefix
  assembled_spelled p t s r o b c =
      rw
        (
          text_spelled (lit "PG_GUARD_LOG_LEVEL") (lit "info") refl,
          text_spelled (lit "PG_GUARD_LOG_FORMAT") (lit "json") refl,
          get_spelled (lit "PG_GUARD_LOG_FILE") refl,
          get_spelled (lit "POSTGRES_PASSWORD") refl,
          unset_text (lit "POSTGRES_DB") p.user refl,
          unset_text (lit "PG_GUARD_REPL_USER") p.user refl,
          unset_text (lit "PG_GUARD_REPL_PASSWORD") (os.getenv (lit "POSTGRES_PASSWORD")) refl,
          get_spelled (lit "PG_GUARD_API_TOKEN") refl,
          get_spelled (lit "PG_GUARD_STATE_FILE") refl,
        )
        refl

  module _ (reads : ReadsDefaults os) where
    postgres_spelled : load_postgres (spelled_out os) ≡ load_postgres os
    unfolding load_postgres documented var_defs text_eq after_first strip_prefix atoi read_digits
    postgres_spelled =
        rw
          (
            get_spelled (lit "PG_GUARD_POSTGRES_BIN") refl,
            get_spelled (lit "PGDATA") refl,
            args_spelled,
            duration_spelled (lit "PG_GUARD_SHUTDOWN_WAIT") (lit "300s") (seconds 300) refl refl
                reads.five_minutes,
            int_spelled (lit "PGPORT") (lit "5432") (ℤ.pos 5432) refl refl refl,
            text_spelled (lit "POSTGRES_USER") (lit "postgres") refl,
            find_spelled,
          )
          refl

    servers_spelled : (tls : Bool) → load_servers (spelled_out os) tls ≡ load_servers os tls
    unfolding load_servers documented var_defs text_eq after_first strip_prefix atoi read_digits
    servers_spelled tls =
        rw
          (
            unset_spelled (lit "PG_GUARD_API_PORT") (if tls then ℤ.pos 8443 else ℤ.pos 8080) refl,
            int_spelled (lit "PG_GUARD_METRICS_PORT") (lit "9100") (ℤ.pos 9100) refl refl refl,
            text_spelled (lit "PG_GUARD_METRICS_MODE") (lit "endpoint") refl,
            get_spelled (lit "PG_GUARD_TEXTFILE_DIR") refl,
            duration_spelled (lit "PG_GUARD_TEXTFILE_INTERVAL") (lit "60s") (seconds 60) refl refl
                reads.a_minute,
            text_spelled (lit "PG_GUARD_API_BIND") (lit "0.0.0.0") refl,
          )
          refl

    peer_spelled : (s : ServerPart) → load_peer (spelled_out os) s ≡ load_peer os s
    unfolding load_peer documented var_defs text_eq after_first strip_prefix
    peer_spelled s =
        rw
          (
            text_spelled (lit "PG_GUARD_PEER_VERIFY") (lit "off") refl,
            unset_spelled (lit "PG_GUARD_PEER_PORT") s.api_port refl,
            unset_spelled (lit "PG_GUARD_PEER_METRICS_PORT") s.metrics_port refl,
            get_spelled (lit "PG_GUARD_PEER_HOST") refl,
            host_spelled,
          )
          refl

    policies_spelled : load_policies (spelled_out os) ≡ load_policies os
    unfolding load_policies documented var_defs text_eq after_first strip_prefix
    policies_spelled =
        rw
          (
            text_spelled (lit "PG_GUARD_SHUTDOWN_POLICY") (lit "require-switchover") refl,
            text_spelled (lit "PG_GUARD_SHUTDOWN_MODE") (lit "switchover") refl,
            duration_spelled (lit "PG_GUARD_REBOOT_GRACE_PERIOD") (lit "180s") (seconds 180) refl
                refl reads.three_minutes,
            duration_spelled (lit "PG_GUARD_FAILOVER_TIMEOUT") (lit "60s") (seconds 60) refl refl
                reads.a_minute,
            text_spelled (lit "PG_GUARD_FAILOVER_MODE") (lit "automatic") refl,
            text_spelled (lit "PG_GUARD_BOOTSTRAP_ROLE") (lit "auto") refl,
          )
          refl

    backups_spelled : load_backups (spelled_out os) ≡ load_backups os
    unfolding load_backups documented var_defs text_eq after_first strip_prefix atoi read_digits
        parse_bool
    backups_spelled =
        rw
          (
            bool_spelled (lit "PG_GUARD_BACKUP_ENABLED") (lit "false") false refl refl refl,
            get_spelled (lit "PG_GUARD_BACKUP_DIR") refl,
            get_spelled (lit "PG_GUARD_BACKUP_COMMAND") refl,
            duration_spelled (lit "PG_GUARD_BACKUP_INTERVAL") (lit "24h") (seconds 86400) refl refl
                reads.a_day,
            int_spelled (lit "PG_GUARD_BACKUP_RETAIN") (lit "7") (ℤ.pos 7) refl refl refl,
          )
          refl

    restarts_spelled : load_restarts (spelled_out os) ≡ load_restarts os
    unfolding load_restarts documented var_defs text_eq after_first strip_prefix atoi read_digits
    restarts_spelled =
        rw
          (
            int_spelled (lit "PG_GUARD_POSTGRES_RESTART_LIMIT") (lit "5") (ℤ.pos 5) refl refl refl,
            duration_spelled (lit "PG_GUARD_POSTGRES_RESTART_WINDOW") (lit "10m") (seconds 600) refl
                refl reads.ten_minutes,
            duration_spelled (lit "PG_GUARD_POSTGRES_RESTART_BACKOFF") (lit "5s") (seconds 5) refl
                refl reads.five_seconds,
          )
          refl

    -- If time.ParseDuration reads the six durations of the table, then setting each unset variable to
    -- the default that the table documents for it, where it documents one that can be set, changes
    -- nothing in what the loader returns, be it a configuration or a refusal.
    pub documented_defaults_hold : load_config (spelled_out os) ≡ load_config os
    unfolding load_config
    documented_defaults_hold = simp (
      postgres_spelled, tls_spelled, servers_spelled, peer_spelled, policies_spelled,
      backups_spelled, restarts_spelled, assembled_spelled,
    )
