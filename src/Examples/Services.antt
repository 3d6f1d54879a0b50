-- ===== src/Examples/Services.antt =====
-- The statements on the Windows service and its installation, tried on concrete ones.
use pg_guard.Prelude.{
  ◌&&◌, not, is_empty, true, false, ◌≡◌, refl, none, List, [], ◌∷◌, Text, lit, text_eq,
  if◌then◌else◌, arith,
}
use pg_guard.Api.{maintain}
use pg_guard.Process.{run_interactive}
use pg_guard.Settings.{one_of}
use pg_guard.WindowsService.{
  Step, looped, served, ticked, control, child_exited, restart_timer, interrogate, pre_shutdown,
  plain, start_pending, execute,
}
use pg_guard.WindowsService.Mirror.{main_steps, Mirrors, execute-Mirrors}
use pg_guard.WindowsService.Protocol.{follow, Knows, execute-Knows}
use pg_guard.ServiceInstall.{
  Machine, Windows, done, service_env_vars, install_service, environment_lines,
  write_service_environment, grant_network_service_access,
}
use pg_guard.ServiceInstall.Environment.{read_variable, lines_of, installed_environment}
use pg_guard.Examples.World.{calm, settings}

-- A crash with its restart, a request and a tick, and the shutdown of the system.
abbrev steps : List Step
steps =
    looped (child_exited 1)
    ∷ (looped (control interrogate (plain start_pending) 0)
        ∷ (looped restart_timer
            ∷ (served maintain
                ∷ (ticked ∷ (looped (control pre_shutdown (plain start_pending) 3) ∷ [])))))

execute-Mirrors_example :
    Mirrors settings
      (execute calm settings true true steps)
      (run_interactive calm settings (main_steps steps))
execute-Mirrors_example = execute-Mirrors calm settings steps

execute-Knows_example : let v = execute calm settings true true steps in Knows v (follow v.sent)
execute-Knows_example = execute-Knows calm settings true true steps (omega arith)

abbrev works : Windows
works = record {
  finds_executable = true;
  connects = true;
  creates_service = true;
  opens_key = true;
  sets_value = true;
  grants_access = true;
  deletes_service = true;
}

abbrev bare_machine : Machine
bare_machine = record { registered = false; environment = none; granted = [] }

-- What the installer has set.
abbrev installer : Text → Text
installer name =
    if text_eq name (lit "PGDATA")
    then lit "C:\\data"
    else if text_eq name (lit "PG_GUARD_PEER_HOST")
    then lit "pg-1"
    else []

-- What the system has set for all services.
abbrev machine_wide : Text → Text
machine_wide name = if text_eq name (lit "PATH") then lit "C:\\Windows" else []

peer_host_plain : (install_service works installer bare_machine).0 ≡ done
unfolding install_service write_service_environment grant_network_service_access environment_lines
    text_eq
peer_host_plain = refl

installed_environment_example :
    read_variable machine_wide
      (lit "PG_GUARD_PEER_HOST")
      (lines_of (install_service works installer bare_machine).1.environment)
    ≡ (if one_of (lit "PG_GUARD_PEER_HOST") service_env_vars
          && not (is_empty (installer (lit "PG_GUARD_PEER_HOST")))
        then installer (lit "PG_GUARD_PEER_HOST")
        else machine_wide (lit "PG_GUARD_PEER_HOST"))
installed_environment_example =
    installed_environment works machine_wide installer bare_machine (lit "PG_GUARD_PEER_HOST") refl
      (ground arith) peer_host_plain
