-- ===== src/ServiceInstall.antt =====
-- Registering the Windows service and removing it (installService, writeServiceEnvironment,
-- grantNetworkServiceAccess and uninstallService of src/service_install_windows.go).
pub mod Environment
pub mod Registering
use pg_guard.Prelude.{
  Bool, true, false, Option, none, some, List, [], ◌∷◌, ◌++◌, Text, lit, is_empty, if◌then◌else◌,
}

-- `serviceEnvVars`
abbrev pub service_env_vars : List Text
service_env_vars =
    lit "PG_GUARD_POSTGRES_BIN"
    ∷ (lit "PGDATA"
        ∷ (lit "PG_GUARD_EXTRA_ARGS"
            ∷ (lit "PG_GUARD_LOG_LEVEL"
                ∷ (lit "PG_GUARD_LOG_FORMAT"
                    ∷ (lit "PG_GUARD_LOG_FILE"
                        ∷ (lit "PG_GUARD_SHUTDOWN_WAIT"
                            ∷ (lit "POSTGRES_USER"
                                ∷ (lit "POSTGRES_PASSWORD"
                                    ∷ (lit "POSTGRES_DB" ∷ (lit "PGPORT" ∷ []))))))))))

-- What the service control manager, the registry and the file system hold of the service: whether
-- it is registered, the lines of its own environment, and the directories it was let into.
pub record Machine : Type 0 where
  pub registered : Bool
  pub environment : Option (List Text)
  pub granted : List Text

-- Whether the calls of Windows work. A service can be opened exactly if it is registered.
pub record Windows : Type 0 where
  pub finds_executable : Bool
  pub connects : Bool
  pub creates_service : Bool
  pub opens_key : Bool
  pub sets_value : Bool
  pub grants_access : Bool
  pub deletes_service : Bool

pub data InstallError : Type 0 where
  no_executable no_manager already_installed create_failed environment_failed : InstallError
  grant_failed not_installed delete_failed : InstallError

pub data Outcome : Type 0 where
  done : Outcome
  refused : InstallError → Outcome

abbrev pub equals : Text
equals = lit "="

-- A line for each variable that is set.
unfoldable pub environment_lines : (Text → Text) → List Text → List Text
environment_lines getenv [] = []
environment_lines getenv (name ∷ names) =
    let rest = environment_lines getenv names in
    if is_empty (getenv name) then rest else (name ++ equals ++ getenv name) ∷ rest

module _ (w : Windows) (getenv : Text → Text) where
  -- Nothing is written where there is nothing to write.
  abbrev set_lines : List Text → Machine → Outcome × Machine
  set_lines [] m = (done, m)
  set_lines (l ∷ ls) m =
      if w.sets_value
      then (done, record m { environment = some (l ∷ ls) })
      else (refused environment_failed, m)

  unfoldable pub write_service_environment : Machine → Outcome × Machine
  write_service_environment m =
      if w.opens_key
      then set_lines (environment_lines getenv service_env_vars) m
      else (refused environment_failed, m)

  unfoldable pub grant_network_service_access : Text → Machine → Outcome × Machine
  grant_network_service_access path m =
      if w.grants_access
      then (done, record m { granted = path ∷ m.granted })
      else (refused grant_failed, m)

  abbrev grant_after : Outcome × Machine → Outcome × Machine
  grant_after (refused e, m) = (refused e, m)
  grant_after (done, m) =
      if is_empty (getenv (lit "PGDATA"))
      then (done, m)
      else grant_network_service_access (getenv (lit "PGDATA")) m

  unfoldable pub install_service : Machine → Outcome × Machine
  install_service m =
      if w.finds_executable
      then if w.connects
        then if m.registered
          then (refused already_installed, m)
          else if w.creates_service
          then grant_after (write_service_environment (record m { registered = true }))
          else (refused create_failed, m)
        else (refused no_manager, m)
      else (refused no_executable, m)

-- The state of a service that still runs is only printed. The registration goes, with the key in
-- the registry that holds its environment.
unfoldable pub uninstall_service : Windows → Machine → Outcome × Machine
uninstall_service w m =
    if w.connects
    then if m.registered
      then if w.deletes_service
        then (done, record m { registered = false; environment = none })
        else (refused delete_failed, m)
      else (refused not_installed, m)
    else (refused no_manager, m)
