-- ===== src/Examples/Pages.antt =====
-- The statements on the page of metrics, on connection strings, on the output of postgres and on the
-- copies of TLS files, tried on concrete ones.
use pg_guard.Prelude.{
  ℕ, zero, suc, ◌≤◌, ℤ, true, false, some, none, is_some, List, [], ◌∷◌, ◌++◌, map, ◌≡◌, refl, Text,
  lit, text_eq, text_eq_refl, has_prefix, All, IsLine, length, ◌==◌, if◌then◌else◌, arith,
}
use pg_guard.Config.{Config}
use pg_guard.Node.{Node}
use pg_guard.Queries.{Pool, itoa, pool_string, rewind_source, standby_conninfo}
use pg_guard.Queries.Conninfo.{read_conninfo}
use pg_guard.Queries.Strings.{pool_string_reads, blank_password_refused}
use pg_guard.Status.{Facts, handle_status}
use pg_guard.Metrics.{Value}
use pg_guard.Metrics.Page.{collect_metrics, metrics_page}
use pg_guard.Metrics.Reading.{read_page}
use pg_guard.Metrics.Distinct.{names, all_different, metrics_page_reads}
use pg_guard.Metrics.Agreement.{value_of, asked, shared, pages_agree}
use pg_guard.Child.{drop_return, log_at, stream_postgres_output, buffer}
use pg_guard.Child.Scanning.{logging_ends_at_long_line}
use pg_guard.StateFile.{Disk}
use pg_guard.Staging.{Staging, staged_path, base_name, stage_tls_file, stage_files, tls_sources}
use pg_guard.Staging.Contents.{Outside, Copied, copies_hold_last}
use pg_guard.Examples.World.{calm, settings, running}
use pg_guard.Examples.Archives.{idle}

-- A primary that answers all but one question.
abbrev pool : Pool
pool = record {
  pings = true;
  bool_of = λ sql. some false;
  int_of = λ sql args.
      if text_eq sql (lit "SELECT count(*) FROM pg_stat_activity") then none else some (ℤ.pos 7);
  text_of = λ sql. some (lit "17.2");
}

abbrev facts : Facts
facts = record {
  version = lit "dev";
  commit = lit "unknown";
  build_date = lit "unknown";
  pings = true;
  in_recovery = none;
  lag = none;
  server_version = none;
  attempt_error = [];
  attempt_time = 60;
}

abbrev format : Value → Text
format v = lit "1"

format-IsLine : (v : Value) → IsLine (format v)
format-IsLine v = ground arith

metrics_page_reads_example :
    let metrics = (collect_metrics calm settings idle 1 pool 5 facts running).0 in
    (read_page (metrics_page format metrics) ≡ map (λ m. (m.name, format m.value)) metrics)
    × (all_different (names metrics) ≡ true)
metrics_page_reads_example =
    metrics_page_reads calm settings idle 1 pool 5 facts running format format-IsLine

pages_agree_example :
    let page = (handle_status calm settings idle (asked pool facts) running).0 in
    let metrics = (collect_metrics calm settings idle 1 pool 5 (asked pool facts) running).0 in
    All
      (λ (shown : Text × pg_guard.Prelude.Option Value). value_of shown.0 metrics ≡ shown.1)
      (shared page)
pages_agree_example = pages_agree calm settings idle 1 pool 5 facts running

-- A password with a quote and a blank.
abbrev quoting : Config
quoting = record settings { postgres_password = lit "it's me" }

pool_string_reads_example :
    read_conninfo (pool_string quoting)
    ≡ some (
        (lit "host", lit "127.0.0.1")
        ∷ ((lit "port", itoa quoting.pg_port)
            ∷ ((lit "user", quoting.postgres_user)
                ∷ ((lit "password", quoting.postgres_password)
                    ∷ ((lit "dbname", lit "postgres")
                        ∷ ((lit "sslmode", lit "disable")
                            ∷ ((lit "connect_timeout", lit "5") ∷ [])))))))
pool_string_reads_example = pool_string_reads quoting

abbrev two_words : Config
two_words = record settings { repl_password = lit "open sesame" }

blank_password_refused_example :
    (read_conninfo (standby_conninfo two_words) ≡ none)
    × (read_conninfo (rewind_source two_words) ≡ none)
blank_password_refused_example =
    blank_password_refused two_words (lit "open") (lit "sesame") (ground arith) (ground arith)
      (ground arith)

-- A line of so many times the letter x.
xs : ℕ → Text
xs zero = []
xs (suc n) = 120 ∷ xs n

xs-IsLine : (n : ℕ) → IsLine (xs n)
unfolding xs
xs-IsLine zero = tt
xs-IsLine (suc n) = (refl, xs-IsLine n)

length-xs : (n : ℕ) → length (xs n) ≡ n
unfolding xs
length-xs zero = refl
length-xs (suc n) = omega (arith, length-xs n)

abbrev said : List Text
said = lit "LOG: ready" ∷ (lit "LOG: checkpoint" ∷ [])

abbrev marks : ℕ → Node
marks n = running

logging_ends_at_long_line_example :
    let logged = log_at marks 0 (map drop_return said) in
    (stream_postgres_output marks (buffer said) ≡ logged)
    × (stream_postgres_output marks (buffer said ++ (xs 70000 ++ lit "\nFATAL: gone\n")) ≡ logged)
logging_ends_at_long_line_example =
    logging_ends_at_long_line marks said (xs 70000) (lit "\nFATAL: gone\n") (ground arith)
      (omega arith) (xs-IsLine 70000) (omega (arith, length-xs 70000))

abbrev tmp : Staging
tmp = record { temp_dir = lit "/tmp"; makes_dir = true; writes = λ path. true }

-- A certificate and the authorities that have the same name in two directories.
abbrev sources : List Text
sources = tls_sources (lit "/own/tls.pem") (lit "/own/tls.key") (lit "/ca/tls.pem")

abbrev disk : Disk
disk path = some (lit "the content of " ++ path)

all_staged : is_some (stage_files tmp sources disk).0 ≡ true
unfolding stage_files stage_tls_file text_eq
all_staged = refl

sources-Outside : All (Outside tmp) sources
unfolding has_prefix
sources-Outside = (refl, (refl, (refl, tt)))

-- The copy of the certificate holds the authorities.
authorities_win :
    (stage_files tmp sources disk).1 (staged_path tmp (lit "tls.pem")) ≡ disk (lit "/ca/tls.pem")
unfolding stage_files stage_tls_file text_eq
authorities_win = refl

copies_hold_last_example :
    Copied tmp sources disk (base_name (lit "/own/tls.pem")) (stage_files tmp sources disk)
copies_hold_last_example =
    copies_hold_last tmp sources disk (base_name (lit "/own/tls.pem")) sources-Outside all_staged
