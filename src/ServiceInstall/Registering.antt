-- ===== src/ServiceInstall/Registering.antt =====
-- Installing the service again (src/service_install_windows.go).
use pg_guard.Prelude.{true, false, ◌≡◌, ◌⊎◌, Text, arith}
use pg_guard.ServiceInstall.{
  Machine, Windows, Outcome, done, refused, no_executable, no_manager, already_installed,
  create_failed, environment_failed, grant_failed, install_service, write_service_environment,
  grant_network_service_access,
}

-- Outcomes that leave the service registered, and those that change nothing.
abbrev pub Registers : Outcome → Type 0
Registers r = (r ≡ done) ⊎ (r ≡ refused environment_failed) ⊎ (r ≡ refused grant_failed)

abbrev pub Leaves : Outcome → Type 0
Leaves r =
    (r ≡ refused no_executable)
    ⊎ (r ≡ refused no_manager)
    ⊎ (r ≡ refused already_installed)
    ⊎ (r ≡ refused create_failed)

-- A manager that can be reached, by a program that finds itself.
abbrev pub Reachable : Windows → Type 0
Reachable w = (w.finds_executable ≡ true) × (w.connects ≡ true)

install_cases :
    (w : Windows) (getenv : Text → Text) (m : Machine)
    → let (r, m') = install_service w getenv m in
      (Registers r × (m.registered ≡ false) × (m'.registered ≡ true)) ⊎ (Leaves r × (m' ≡ m))
unfolding install_service write_service_environment grant_network_service_access
install_cases w getenv m = ground arith

registered_refuses :
    (w : Windows) (getenv : Text → Text) (m : Machine)
    → Reachable w
    → m.registered ≡ true
    → install_service w getenv m ≡ (refused already_installed, m)
unfolding install_service
registered_refuses w getenv m h e = ground arith

-- An attempt to install either leaves the machine as it is, or registers a service that was not
-- registered. It registers it also where it then fails, because the environment cannot be written
-- or the data directory not opened to the service: and however it ended, each later attempt that
-- reaches the manager, with PGDATA set or not, is refused and changes nothing.
pub install_sticks :
    (w w' : Windows) (getenv getenv' : Text → Text) (m : Machine)
    → Reachable w'
    → let (r, m') = install_service w getenv m in
      (Registers r
        × (m.registered ≡ false)
        × (m'.registered ≡ true)
        × (install_service w' getenv' m' ≡ (refused already_installed, m')))
      ⊎ (Leaves r × (m' ≡ m))
install_sticks w w' getenv getenv' m h =
    let m' = (install_service w getenv m).1 in
    ground (arith, install_cases w getenv m, registered_refuses w' getenv' m' h)
