-- ===== src/Examples/Defaults.antt =====
-- The table of the variables, tried on two environments and on a system.
use pg_guard.Prelude.{
  ℕ, suc, ℤ, ◌≡◌, refl, true, false, some, List, [], ◌∷◌, Text, lit, text_eq, is_empty,
  if◌then◌else◌, arith,
}
use pg_guard.Settings.{one_of, Os}
use pg_guard.Settings.Tables.{seconds, word}
use pg_guard.Settings.Loader.{load_config}
use pg_guard.Settings.Dump.{secrets, dump_config, dump_hides_secrets}
use pg_guard.Settings.Defaults.{ReadsDefaults, spelled_out, documented_defaults_hold}

-- A directory of data, a password and a user.
abbrev environment : Text → Text → Text
environment password key =
    if text_eq key (lit "PGDATA")
    then lit "/data"
    else if text_eq key (lit "POSTGRES_PASSWORD")
    then password
    else if text_eq key (lit "POSTGRES_USER")
    then lit "app"
    else []

abbrev width : Text → ℕ
width [] = 0
width (c ∷ s) = suc (width s)

same_open :
    (key : Text)
    → one_of key secrets ≡ false
    → environment (lit "apple") key ≡ environment (lit "pear") key
same_open key h = ground arith

same_set :
    (key : Text)
    → is_empty (environment (lit "apple") key) ≡ is_empty (environment (lit "pear") key)
same_set key = ground arith

dump_hides_secrets_example :
    dump_config (environment (lit "apple")) width ≡ dump_config (environment (lit "pear")) width
dump_hides_secrets_example =
    dump_hides_secrets (environment (lit "apple")) (environment (lit "pear")) same_open same_set
      width

abbrev durations : List (Text × ℤ)
durations =
    (lit "300s", seconds 300)
    ∷ ((lit "60s", seconds 60)
        ∷ ((lit "180s", seconds 180)
            ∷ ((lit "24h", seconds 86400)
                ∷ ((lit "10m", seconds 600) ∷ ((lit "5s", seconds 5) ∷ [])))))

abbrev machine : Os
machine = record {
  getenv = environment (lit "apple");
  find_postgres = some (lit "/usr/bin/postgres");
  host_name = some (lit "pg-0");
  parse_duration = λ s. word s durations;
  stage_file = λ s. some s;
  loads_key_pair = λ c k. true;
  loads_authorities = λ r. true;
}

machine_reads : ReadsDefaults machine
unfolding text_eq
machine_reads = record {
  five_minutes = refl;
  a_minute = refl;
  three_minutes = refl;
  a_day = refl;
  ten_minutes = refl;
  five_seconds = refl;
}

documented_defaults_hold_example : load_config (spelled_out machine) ≡ load_config machine
documented_defaults_hold_example = documented_defaults_hold machine machine_reads
