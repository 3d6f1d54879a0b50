-- ===== src/Cli/Agreement.antt =====
-- A command calls the listener that the process opens (src/remotecli.go, src/config.go).
use pg_guard.Prelude.{
  ℤ, ◌≡◌, ◌⊎◌, inl, inr, refl, sym, Bool, true, false, Option-cases, not, ◌&&◌, some, List, [],
  ◌++◌, Text, lit, is_empty, text_eq, if◌then◌else◌, arith,
}
use mathlib.Core.Path.{subst}
use pg_guard.Config.{Config}
use pg_guard.Settings.{Load, accepted, Os, env_int}
use pg_guard.Settings.Parts.{TlsPart, ServerPart}
use pg_guard.Settings.Sections.{load_tls, load_servers}
use pg_guard.Settings.Loader.{load_config}
use pg_guard.Settings.Valid.{load_config-Loaded}
use pg_guard.Cli.{
  CliCommand, Call, calls, Options, read_options, local_api_tls_settings, run_api_command,
}

module _ (os : Os) where
  abbrev has_key_pair : Bool
  has_key_pair =
      not (is_empty (os.getenv (lit "PG_GUARD_SSL_CERT_FILE")))
      && not (is_empty (os.getenv (lit "PG_GUARD_SSL_KEY_FILE")))

  abbrev api_port_setting : Bool → Load ℤ
  api_port_setting tls =
      env_int os (lit "PG_GUARD_API_PORT") (if tls then ℤ.pos 8443 else ℤ.pos 8080)

  tls_enabled_if :
      (args : List Text) (t : TlsPart) → load_tls os args ≡ accepted t → t.enabled ≡ has_key_pair
  unfolding load_tls
  tls_enabled_if args t h = ground (arith, h)

  server_ports :
      (tls : Bool) (s : ServerPart)
      → load_servers os tls ≡ accepted s
      → (api_port_setting tls ≡ accepted s.api_port)
        × (env_int os (lit "PG_GUARD_METRICS_PORT") (ℤ.pos 9100) ≡ accepted s.metrics_port)
  unfolding load_servers
  server_ports tls s h = ground (arith, h)

  tls_settings_if : (tls : Bool) → local_api_tls_settings os ≡ accepted tls → tls ≡ has_key_pair
  unfolding local_api_tls_settings
  tls_settings_if tls h = ground (arith, h)

  -- What the loader and a command read alike.
  abbrev Reads : Config → Type 0
  Reads cfg =
      (cfg.tls_enabled ≡ has_key_pair)
      × (api_port_setting has_key_pair ≡ accepted cfg.api_port)
      × (env_int os (lit "PG_GUARD_METRICS_PORT") (ℤ.pos 9100) ≡ accepted cfg.metrics_port)
      × (cfg.api_token ≡ os.getenv (lit "PG_GUARD_API_TOKEN"))

  load_config-Reads : (cfg : Config) → load_config os ≡ accepted cfg → Reads cfg
  load_config-Reads cfg h =
      let l = load_config-Loaded os cfg h in
      let enabled = tls_enabled_if l.p.args l.t l.t_loads in
      let ports = server_ports l.t.enabled l.s l.s_loads in
      subst Reads l.whole (enabled, rw (sym enabled) ports.0, ports.1, refl)

  -- The setting that the port of a request comes from.
  abbrev PortOf : Bool → Call → Type 0
  PortOf true c =
      (c.tls ≡ false)
      × (c.token ≡ [])
      × (env_int os (lit "PG_GUARD_METRICS_PORT") (ℤ.pos 9100) ≡ accepted c.port)
  PortOf false c =
      (local_api_tls_settings os ≡ accepted c.tls)
      × (c.token ≡ os.getenv (lit "PG_GUARD_API_TOKEN"))
      × (api_port_setting c.tls ≡ accepted c.port)

  abbrev no_options : Options
  no_options = record { force = false; json = false }

  -- How a request was made from a command and its options.
  pub record Made (cmd : CliCommand) (opts : List Text) (c : Call) : Type 0 where
    pub o : Options
    pub reads : read_options opts no_options ≡ some o
    pub forcing : (o.force ≡ false) ⊎ (text_eq cmd.name (lit "promote") ≡ true)
    pub made_method : c.method ≡ cmd.method
    pub made_path : c.path ≡ (if o.force then cmd.path ++ lit "?force=true" else cmd.path)
    pub port_of : PortOf cmd.metrics_port c

  pub run_api_command-Made :
      (cmd : CliCommand) (opts : List Text) (c : Call)
      → run_api_command os cmd opts ≡ calls c
      → Made cmd opts c
  unfolding run_api_command
  run_api_command-Made cmd opts c h = elim (Option-cases (read_options opts no_options)) [
    | inl e ↦ absurd (ground (arith, h, e))
    | inr (o, e) ↦ record {
      o = o;
      reads = e;
      forcing = ground (arith, h, e);
      made_method = ground (arith, h, e);
      made_path = ground (arith, h, e);
      port_of = ground (arith, h, e);
    }
  ]

  -- The listener that a command means: the one of the metrics, with no TLS and no token, or that of
  -- the API.
  abbrev pub Meets : Config → Bool → Call → Type 0
  Meets cfg true c = (c.tls ≡ false) × (c.port ≡ cfg.metrics_port) × (c.token ≡ [])
  Meets cfg false c =
      (c.tls ≡ cfg.tls_enabled) × (c.port ≡ cfg.api_port) × (c.token ≡ cfg.api_token)

  -- In an environment whose settings the loader accepts, a command that makes a request makes it to
  -- the port of the listener that it means, with TLS exactly if that listener has it, and for the API
  -- with the token that the API asks for.
  pub run_api_command-Meets :
      (cfg : Config) (cmd : CliCommand) (opts : List Text) (c : Call)
      → load_config os ≡ accepted cfg
      → run_api_command os cmd opts ≡ calls c
      → Meets cfg cmd.metrics_port c
  run_api_command-Meets cfg cmd opts c loads h =
      let (enabled, api, metrics, token) = load_config-Reads cfg loads in
      ground (
        arith,
        enabled,
        api,
        metrics,
        token,
        (run_api_command-Made cmd opts c h).port_of,
        tls_settings_if c.tls,
      )
