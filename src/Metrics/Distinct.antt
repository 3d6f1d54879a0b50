-- ===== src/Metrics/Distinct.antt =====
-- The page of metrics is read as it is meant (src/metrics.go): its names are all different, and every
-- value is read back.
use pg_guard.Prelude.{
  ℕ, ℤ, Bool, true, false, not, ◌&&◌, Option, none, some, List, [], ◌∷◌, ◌++◌, map, ◌≡◌, refl, Text,
  text_eq, IsLine, if◌then◌else◌, arith,
}
use pg_guard.Config.{Config}
use pg_guard.Node.{Node, Env}
use pg_guard.Backup.{Backups}
use pg_guard.Queries.{
  Pool, is_in_recovery, connection_count, database_size_bytes, replication_connected,
  replication_lag_bytes,
}
use pg_guard.Status.{Facts}
use pg_guard.Settings.{one_of}
use pg_guard.Metrics.{
  Value, Metric, if_known, connections, database_size, replication, replication_lag, role_metric,
  with_role, while_up, reachability, state_metrics, settings_metrics, event_metrics, backup_metrics,
}
use pg_guard.Metrics.Page.{collect_metrics, metrics_page}
use pg_guard.Metrics.Reading.{read_page, all_sound, read_page-metrics_page}

abbrev pub names : List Metric → List Text
names [] = []
names (m ∷ ms) = m.name ∷ names ms

-- No text stands in the list twice.
pub all_different : List Text → Bool
all_different [] = true
all_different (n ∷ ns) = not (one_of n ns) && all_different ns

abbrev is_checked : List Metric → Bool
is_checked ms = all_sound ms && all_different (names ms)

module _ (cfg : Config) (b : Backups) (starts : ℕ) (pool : Pool) (ping_duration : ℕ) (facts : Facts)
    (peer : Bool) (now : ℕ) (s : Node) where
  abbrev with_live : List Metric → List Metric
  with_live live =
      reachability cfg pool ping_duration
      ++ (live
          ++ (state_metrics cfg now s peer
              ++ (settings_metrics cfg now s
                  ++ (event_metrics cfg now s starts ++ backup_metrics cfg b facts))))

  live_checked :
      (r : Bool) (conns size : Option ℤ) (connected : Option Bool) (lag : Option ℤ)
      → is_checked (
          with_live (
            role_metric r
            ∷ (if_known connections conns
                ++ (if_known database_size size
                    ++ (if_known replication connected ++ if_known replication_lag lag)))))
        ≡ true
  unfolding all_sound all_different text_eq
  live_checked r none none none none = refl
  live_checked r none none none (some d) = refl
  live_checked r none none (some c) none = refl
  live_checked r none none (some c) (some d) = refl
  live_checked r none (some b) none none = refl
  live_checked r none (some b) none (some d) = refl
  live_checked r none (some b) (some c) none = refl
  live_checked r none (some b) (some c) (some d) = refl
  live_checked r (some a) none none none = refl
  live_checked r (some a) none none (some d) = refl
  live_checked r (some a) none (some c) none = refl
  live_checked r (some a) none (some c) (some d) = refl
  live_checked r (some a) (some b) none none = refl
  live_checked r (some a) (some b) none (some d) = refl
  live_checked r (some a) (some b) (some c) none = refl
  live_checked r (some a) (some b) (some c) (some d) = refl

  none_checked : is_checked (with_live []) ≡ true
  unfolding all_sound all_different text_eq
  none_checked = refl

  role_checked :
      (recovery : Option Bool) → is_checked (with_live (with_role cfg pool recovery)) ≡ true
  role_checked none = none_checked
  role_checked (some r) =
      live_checked r (connection_count pool) (database_size_bytes pool cfg.postgres_db)
        (replication_connected pool r) (replication_lag_bytes pool r)

  while_up_checked : is_checked (with_live (while_up cfg pool)) ≡ true
  while_up_checked =
      elim pool.pings
        as (λ up.
          is_checked (with_live (if up then with_role cfg pool (is_in_recovery pool) else []))
          ≡ true) [ true ↦ role_checked (is_in_recovery pool) | false ↦ none_checked ]

checked_parts :
    (ms : List Metric)
    → is_checked ms ≡ true
    → (all_sound ms ≡ true) × (all_different (names ms) ≡ true)
checked_parts ms h = ground arith

metrics_checked :
    (env : Env) (cfg : Config) (b : Backups) (starts : ℕ) (pool : Pool) (ping_duration : ℕ)
    (facts : Facts) (s : Node)
    → is_checked (collect_metrics env cfg b starts pool ping_duration facts s).0 ≡ true
unfolding collect_metrics
metrics_checked env cfg b starts pool ping_duration facts s =
    while_up_checked cfg b starts pool ping_duration facts _ _ _

-- Whatever the state of the node, and whatever postgres answers or leaves unanswered: read line by
-- line, the page of metrics gives back each metric with its value, in order, where the text of a
-- value is one line; and no two metrics have the same name.
pub metrics_page_reads :
    (env : Env) (cfg : Config) (b : Backups) (starts : ℕ) (pool : Pool) (ping_duration : ℕ)
    (facts : Facts) (s : Node) (format : Value → Text)
    → ((v : Value) → IsLine (format v))
    → let metrics = (collect_metrics env cfg b starts pool ping_duration facts s).0 in
      (read_page (metrics_page format metrics) ≡ map (λ m. (m.name, format m.value)) metrics)
      × (all_different (names metrics) ≡ true)
metrics_page_reads env cfg b starts pool ping_duration facts s format one_line =
    let metrics = (collect_metrics env cfg b starts pool ping_duration facts s).0 in
    let (sound, different) =
      checked_parts metrics (metrics_checked env cfg b starts pool ping_duration facts s) in
    (read_page-metrics_page format one_line metrics sound, different)
