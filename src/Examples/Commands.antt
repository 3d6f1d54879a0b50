-- ===== src/Examples/Commands.antt =====
-- Statements on the command line and on the status page, tried on concrete ones.
use pg_guard.Prelude.{
  ℤ, ◌≡◌, ◌↔◌, refl, true, false, Option, none, some, List, [], ◌∷◌, Text, lit, text_eq, ◌⊎◌, Bool,
  ◌||◌, is_empty, map, All, split_lines, has_prefix, trim_space,
}
use pg_guard.Node.{Env, ok, primary, standby}
use pg_guard.Node.History.{promote_calls}
use pg_guard.Peer.{fetch_peer_status}
use pg_guard.Api.{handle_promote}
use pg_guard.Cli.{
  CliCommand, Call, Invocation, calls, usage_error, config_error, find_api_command, run_api_command,
}
use pg_guard.Hba.{hba_upsert_line}
use pg_guard.Database.{ensure_app_hba, update_hba}
use pg_guard.Password.{connect_local_socket, Terminal, read_password_from_stdin, run_set_password}
use pg_guard.Password.Statements.{read_alter, roles, changes, password_changed}
use pg_guard.Status.{Facts, status_reply}
use pg_guard.Status.Report.{page, role_seen, live_primary_blocks}
use pg_guard.Examples.World.{calm, settings, running}
use pg_guard.Examples.Files.{system}
use pg_guard.Examples.Archives.{idle}

abbrev options : List Text
options = lit "-force" ∷ (lit "-json" ∷ [])

abbrev command_of : Option CliCommand → CliCommand
command_of (some cmd) = cmd
command_of none = record {
  name = [];
  method = pg_guard.Cli.method_get;
  path = [];
  metrics_port = true;
  unbounded_timeout = false;
}

abbrev promotion : CliCommand
promotion = command_of (find_api_command (lit "promote"))

abbrev call_of : Invocation → Call
call_of (calls c) = c
call_of i = record {
  tls = false;
  port = ℤ.pos 0;
  token = [];
  method = pg_guard.Cli.method_get;
  path = [];
  json = false;
  unbounded = false;
}

abbrev call : Call
call = call_of (run_api_command system promotion options)

-- The addresses that take calls to 127.0.0.1, among those tried.
abbrev local : Text → Bool
local address = text_eq address (lit "0.0.0.0") || text_eq address (lit "127.0.0.1")

abbrev facts : Facts
facts = record {
  version = lit "dev";
  commit = lit "unknown";
  build_date = lit "unknown";
  pings = true;
  in_recovery = some false;
  lag = some (ℤ.pos 0);
  server_version = some (lit "17.2");
  attempt_error = [];
  attempt_time = 0;
}

-- The peer of this node answers with the page of a running primary.
abbrev asking : Env
asking = record calm {
  peer_status = λ t. some (status_reply (page calm settings idle facts running));
}

role_seen_example :
    let seen = (fetch_peer_status asking settings running).0 in
    ((seen ≡ some primary) ↔ ((facts.pings ≡ true) × (facts.in_recovery ≡ some false)))
    × ((seen ≡ some standby) ↔ ((facts.pings ≡ true) × (facts.in_recovery ≡ some true)))
role_seen_example = role_seen calm settings idle facts running asking settings running refl refl

live_primary_blocks_example :
    let (reply, t') = handle_promote asking settings false running in
    (reply ≡ some 409) × (promote_calls t'.trace ≡ promote_calls running.trace)
live_primary_blocks_example =
    live_primary_blocks calm settings idle facts running asking settings running refl refl refl refl

abbrev terminal : Terminal
terminal = record {
  stdin = some (lit "s'cret\n");
  connects = λ s. true;
  recovery = some false;
  alters = λ statement. true;
}

abbrev statements : List Text
statements = (run_set_password calm settings terminal running).0.0

reports_success : (run_set_password calm settings terminal running).0 ≡ (statements, none)
unfolding run_set_password connect_local_socket ensure_app_hba update_hba hba_upsert_line
    split_lines has_prefix trim_space
reports_success = refl

password_changed_example :
    (password : Text) × (read_password_from_stdin terminal ≡ some password)
    × (is_empty password ≡ false)
    × ((ensure_app_hba calm running).0 ≡ ok)
    × All (λ statement. terminal.alters statement ≡ true) statements
    × (((terminal.recovery ≡ some true) × (statements ≡ []))
        ⊎ ((terminal.recovery ≡ some false)
            × (map read_alter statements ≡ changes password (roles settings))))
password_changed_example =
    password_changed calm settings terminal running statements reports_success
