-- ===== src/Cli.antt =====
-- The command line (main of src/main.go, and src/remotecli.go with buildClientTLSConfig of
-- src/tls.go): what the program is asked to do, and the request that a command makes.
pub mod Routes
pub mod Guarding
pub mod Agreement
pub mod Reaching
use pg_guard.Prelude.{
  ℕ, ℤ, Bool, true, false, not, ◌&&◌, ◌||◌, Option, none, some, List, [], ◌∷◌, ◌++◌, Text, lit,
  text_eq, is_empty, ltb, leb, if◌then◌else◌,
}
use pg_guard.Settings.{Load, accepted, refused, Os, env_int, env_bool, one_of}

pub data Method : Type 0 where
  method_get method_post : Method

-- `apiCLICommand`
pub record CliCommand : Type 0 where
  pub name : Text
  pub method : Method
  pub path : Text
  pub metrics_port : Bool
  pub unbounded_timeout : Bool

abbrev asks : Text → CliCommand
asks word = record {
  name = word;
  method = method_get;
  path = lit "/" ++ word;
  metrics_port = true;
  unbounded_timeout = false;
}

abbrev orders : Text → Bool → CliCommand
orders word unbounded = record {
  name = word;
  method = method_post;
  path = lit "/api/" ++ word;
  metrics_port = false;
  unbounded_timeout = unbounded;
}

abbrev pub api_cli_commands : List CliCommand
api_cli_commands =
    asks (lit "health")
    ∷ (asks (lit "ready")
        ∷ (asks (lit "status")
            ∷ (asks (lit "metrics")
                ∷ (orders (lit "promote") false
                    ∷ (orders (lit "shutdown") false
                        ∷ (orders (lit "rejoin") false
                            ∷ (orders (lit "switchover") false
                                ∷ (orders (lit "maintenance") false
                                    ∷ (orders (lit "start") false
                                        ∷ (orders (lit "backup") true ∷ []))))))))))

abbrev pub find_in : Text → List CliCommand → Option CliCommand
find_in word [] = none
find_in word (cmd ∷ cmds) =
    let rest = find_in word cmds in if text_eq cmd.name word then some cmd else rest

unfoldable pub find_api_command : Text → Option CliCommand
unfolding text_eq
find_api_command word = find_in word api_cli_commands

pub record Options : Type 0 where
  pub force : Bool
  pub json : Bool

-- An option that is not known ends the command.
unfoldable pub read_options : List Text → Options → Option Options
unfolding text_eq
read_options [] o = some o
read_options (w ∷ ws) o =
    let forced = read_options ws (record o { force = true }) in
    let plain = read_options ws (record o { json = true }) in
    if text_eq w (lit "-force") then forced else (if text_eq w (lit "-json") then plain else none)

-- A request to 127.0.0.1.
pub record Call : Type 0 where
  pub tls : Bool
  pub port : ℤ
  pub token : Text
  pub method : Method
  pub path : Text
  pub json : Bool
  pub unbounded : Bool

pub data Invocation : Type 0 where
  usage_error config_error : Invocation
  calls : Call → Invocation

module _ (os : Os) where
  -- buildClientTLSConfig: the authorities are loaded if they are named, the pair only to show it.
  abbrev pub builds_client_tls : Bool → Text → Text → Text → Bool
  builds_client_tls mtls cert key root =
      (is_empty root || os.loads_authorities root) && (not mtls || os.loads_key_pair cert key)

  abbrev tls_unless : Bool → Load Bool → Load Bool
  tls_unless plain m = if plain then accepted false else m

  abbrev tls_built : Load Bool → Load Bool
  tls_built (refused r) = refused r
  tls_built (accepted mtls) =
      if builds_client_tls mtls (os.getenv (lit "PG_GUARD_SSL_CERT_FILE"))
        (os.getenv (lit "PG_GUARD_SSL_KEY_FILE")) (os.getenv (lit "PG_GUARD_SSL_CA_FILE"))
      then accepted true
      else refused pg_guard.Settings.tls_invalid

  unfoldable pub local_api_tls_settings : Load Bool
  local_api_tls_settings =
      tls_unless
        (is_empty (os.getenv (lit "PG_GUARD_SSL_CERT_FILE"))
          || is_empty (os.getenv (lit "PG_GUARD_SSL_KEY_FILE")))
        (tls_built (env_bool os (lit "PG_GUARD_MTLS_REQUIRE") false))

  abbrev call_with : CliCommand → Options → Bool → Text → Load ℤ → Invocation
  call_with cmd o tls token (refused r) = config_error
  call_with cmd o tls token (accepted port) = calls (record {
    tls = tls;
    port = port;
    token = token;
    method = cmd.method;
    path = if o.force then cmd.path ++ lit "?force=true" else cmd.path;
    json = o.json;
    unbounded = cmd.unbounded_timeout;
  })

  abbrev call_api : CliCommand → Options → Load Bool → Invocation
  call_api cmd o (refused r) = config_error
  call_api cmd o (accepted tls) =
      call_with cmd o tls (os.getenv (lit "PG_GUARD_API_TOKEN"))
        (env_int os (lit "PG_GUARD_API_PORT") (if tls then ℤ.pos 8443 else ℤ.pos 8080))

  abbrev call_metrics : CliCommand → Options → Invocation
  call_metrics cmd o =
      call_with cmd o false [] (env_int os (lit "PG_GUARD_METRICS_PORT") (ℤ.pos 9100))

  abbrev with_options : CliCommand → Option Options → Invocation
  with_options cmd none = usage_error
  with_options cmd (some o) =
      if o.force && not (text_eq cmd.name (lit "promote"))
      then usage_error
      else (if cmd.metrics_port then call_metrics cmd o else call_api cmd o local_api_tls_settings)

  unfoldable pub run_api_command : CliCommand → List Text → Invocation
  unfolding read_options local_api_tls_settings text_eq
  run_api_command cmd opts =
      with_options cmd (read_options opts (record { force = false; json = false }))

-- `callLocalAPI`: whether the answer is a success; none is a request that failed.
abbrev pub is_success : Option ℕ → Bool
is_success none = false
is_success (some code) = leb 200 code && ltb code 300

-- The exit code of a command, by the answer to its request.
abbrev pub exit_code : (Call → Option ℕ) → Invocation → ℕ
exit_code answer usage_error = 1
exit_code answer config_error = 1
exit_code answer (calls c) = if is_success (answer c) then 0 else 1

-- What `main` is asked to do.
pub data Action : Type 0 where
  run_service run_interactively show_help show_version : Action
  install_the_service uninstall_the_service set_the_password stdout_backup : Action
  api_command : CliCommand → List Text → Action
  rejected : Action

abbrev require_no_opts : List Text → Action → Action
require_no_opts [] action = action
require_no_opts (w ∷ ws) action = rejected

abbrev api_or_rejected : Option CliCommand → List Text → Action
api_or_rejected none opts = rejected
api_or_rejected (some cmd) opts = api_command cmd opts

abbrev is_stdout : List Text → Bool
is_stdout (w ∷ []) = text_eq w (lit "-stdout")
is_stdout ws = false

abbrev help_words : List Text
help_words =
    lit "help"
    ∷ (lit "-h" ∷ (lit "-help" ∷ (lit "--help" ∷ (lit "/help" ∷ (lit "/?" ∷ (lit "-?" ∷ []))))))

abbrev version_words : List Text
version_words = lit "version" ∷ (lit "-v" ∷ (lit "-version" ∷ (lit "--version" ∷ [])))

abbrev dispatch : Text → List Text → Action
dispatch cmd opts =
    if one_of cmd help_words
    then show_help
    else if one_of cmd version_words
    then show_version
    else if text_eq cmd (lit "install-service")
    then require_no_opts opts install_the_service
    else if text_eq cmd (lit "uninstall-service")
    then require_no_opts opts uninstall_the_service
    else if text_eq cmd (lit "set-password")
    then require_no_opts opts set_the_password
    else if text_eq cmd (lit "backup") && is_stdout opts
    then stdout_backup
    else api_or_rejected (find_api_command cmd) opts

-- The arguments after the program's name, and whether Windows runs it as a service.
unfoldable pub main_action : Bool → List Text → Action
unfolding text_eq find_api_command
main_action service [] = if service then run_service else run_interactively
main_action service (cmd ∷ opts) = dispatch cmd opts
