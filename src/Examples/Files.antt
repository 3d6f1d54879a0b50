-- ===== src/Examples/Files.antt =====
-- Statements on the settings and on the state file, tried on concrete ones.
use pg_guard.Prelude.{
  ◌≡◌, ◌⊎◌, refl, true, false, Option, none, some, List, [], ◌∷◌, Text, lit, text_eq, if◌then◌else◌,
  All,
}
use pg_guard.Config.{Config}
use pg_guard.Settings.{
  Load, accepted, refused, Os, env_or_default, env_duration, env_int, env_bool, atoi, parse_bool,
}
use pg_guard.Settings.Sections.{
  load_postgres, load_tls, load_servers, load_peer, load_policies, load_backups, load_restarts,
}
use pg_guard.Settings.Loader.{load_config}
use pg_guard.Settings.Valid.{IsValid, load_config-IsValid}
use pg_guard.Backup.{Backups}
use pg_guard.StateFile.{
  PersistedState, Memory, Codec, Disk, whole, cut, Answers, snapshot, persist_state,
}
use pg_guard.StateFile.Restart.{IsCodec, next_start, restarted, restart_carries}
use pg_guard.Textfile.{final_path, start_textfile_writer}
use pg_guard.Textfile.Readers.{IsWhole, textfile_never_partial}
use pg_guard.Supervisor.{child_done, restart_due}
use pg_guard.Api.{maintain}
use pg_guard.Process.{looped, served, ticked}
use pg_guard.Process.Saving.{System, Move, stepped, attempted, run_saving}
use pg_guard.Process.Saving.File.{Works, Current, run_saving-Current}
use pg_guard.Examples.Archives.{good_day}
use pg_guard.Examples.World.{calm, settings, running}

-- The first value of a name in a list.
abbrev pub look_up : List (Text × Text) → Text → Text
look_up [] key = []
look_up ((k, v) ∷ vs) key = let rest = look_up vs key in if text_eq k key then v else rest

abbrev variables : List (Text × Text)
variables =
    (lit "PGDATA", lit "/var/lib/postgresql/data")
    ∷ ((lit "PG_GUARD_API_PORT", lit "8081")
        ∷ ((lit "PG_GUARD_BACKUP_ENABLED", lit "true")
            ∷ ((lit "PG_GUARD_BACKUP_DIR", lit "/backups")
                ∷ ((lit "PG_GUARD_SHUTDOWN_POLICY", lit "best-effort") ∷ []))))

abbrev pub system : Os
system = record {
  getenv = look_up variables;
  find_postgres = some (lit "/usr/bin/postgres");
  host_name = some (lit "pg-0");
  parse_duration = λ s. none;
  stage_file = λ s. some s;
  loads_key_pair = λ c k. true;
  loads_authorities = λ r. true;
}

abbrev pub config_of : Load Config → Config
config_of (accepted cfg) = cfg
config_of (refused r) = settings

abbrev pub loaded : Config
loaded = config_of (load_config system)

pub loads : load_config system ≡ accepted loaded
unfolding load_config load_postgres text_eq env_duration env_int load_tls env_bool load_servers atoi
    env_or_default load_peer load_policies load_backups parse_bool load_restarts
loads = refl

load_config-IsValid_example : IsValid system loaded
load_config-IsValid_example = load_config-IsValid system loaded loads

-- A codec that writes the seven numbers one after another.
abbrev written : PersistedState → Text
written s =
    s.pg_guard_starts
    ∷ (s.postgres_restarts
        ∷ (s.last_crash_unix_nano
            ∷ (s.backups_total
                ∷ (s.backup_failures_total
                    ∷ (s.last_backup_unix_nano ∷ (s.last_backup_duration_nano ∷ []))))))

abbrev read : Text → Option PersistedState
read (a ∷ (b ∷ (c ∷ (d ∷ (e ∷ (f ∷ (g ∷ []))))))) = some (record {
  pg_guard_starts = a;
  postgres_restarts = b;
  last_crash_unix_nano = c;
  backups_total = d;
  backup_failures_total = e;
  last_backup_unix_nano = f;
  last_backup_duration_nano = g;
})
read s = none

abbrev numbers : Codec
numbers = record { marshal = λ s. some (written s); unmarshal = read }

numbers-IsCodec : IsCodec numbers
numbers-IsCodec = record { writes = λ s. (written s, refl, refl) }

abbrev remembering : Config
remembering = record settings { state_file = lit "/state" }

abbrev no_backups : Backups
no_backups = record {
  in_progress = false;
  total = 2;
  failures = 1;
  last_backup = 7;
  last_duration = 3;
  last_attempt = some true;
  entries = [];
}

abbrev earlier : PersistedState
earlier = record {
  pg_guard_starts = 4;
  postgres_restarts = 1;
  last_crash_unix_nano = 9;
  backups_total = 1;
  backup_failures_total = 1;
  last_backup_unix_nano = 5;
  last_backup_duration_nano = 2;
}

abbrev memory : Memory
memory = record { node = running; backups = no_backups; starts = 5 }

abbrev disk : Disk
disk path = if text_eq path (lit "/state") then some (written earlier) else none

abbrev works : Answers
works = record { readable = true; makes_dir = true; written = whole; renames = true }

restart_carries_example :
    let r = persist_state numbers works remembering memory disk in
    All (λ d. restarted numbers remembering works memory d ≡ next_start earlier) r.passed
    × (((r.saved ≡ true)
          × (restarted numbers remembering works memory r.final ≡ next_start (snapshot memory)))
        ⊎ ((r.saved ≡ false)
            × (restarted numbers remembering works memory r.final ≡ next_start earlier)))
unfolding text_eq
restart_carries_example =
    restart_carries numbers remembering works memory works memory disk earlier refl refl
      numbers-IsCodec refl

abbrev exporting : Config
exporting = record settings { textfile_enabled = true; textfile_dir = lit "/metrics" }

abbrev full : Answers
full = record works { written = cut 1 }

abbrev ticks : List (Answers × Text)
ticks = (works, lit "up 1") ∷ ((full, lit "up 0") ∷ ((works, lit "up 1") ∷ []))

textfile_never_partial_example :
    All
      (λ d. IsWhole (disk (final_path exporting)) ticks (d (final_path exporting)))
      (start_textfile_writer exporting ticks disk).0
textfile_never_partial_example = textfile_never_partial exporting ticks disk

abbrev supervised : System
supervised = record {
  process = record { node = running; since = none };
  backups = no_backups;
  starts = 5;
  disk = λ path. if text_eq path (lit "/state") then some (written (snapshot memory)) else none;
}

abbrev crash_and_restart : List Move
crash_and_restart =
    stepped (looped (child_done 1))
    ∷ (attempted good_day
        ∷ (stepped (looped restart_due) ∷ (stepped ticked ∷ (stepped (served maintain) ∷ []))))

works-Works : Works works
works-Works = record { makes = refl; writes = refl; renames = refl }

supervised-Current : Current calm remembering numbers works supervised
unfolding text_eq
supervised-Current = refl

run_saving-Current_example :
    Current calm remembering numbers works
      (run_saving calm remembering numbers works crash_and_restart supervised)
run_saving-Current_example =
    run_saving-Current calm remembering numbers works crash_and_restart supervised refl
      numbers-IsCodec works-Works supervised-Current
