-- ===== src/Metrics/Page.antt =====
-- The page of metrics and its text (collectMetrics, writeGauge and writeCounter of src/metrics.go).
use pg_guard.Prelude.{ℕ, List, [], ◌∷◌, ◌++◌, Text, lit}
use pg_guard.Config.{Config}
use pg_guard.Node.{Env}
use pg_guard.Node.Monad.{M, ◌>>=◌, pure, get, time_now}
use pg_guard.Peer.{check_peer_reachable}
use pg_guard.Backup.{Backups}
use pg_guard.Queries.{Pool}
use pg_guard.Status.{Facts}
use pg_guard.Metrics.{
  Value, MetricKind, gauge_kind, counter_kind, Metric, reachability, while_up, state_metrics,
  settings_metrics, event_metrics, backup_metrics,
}

-- The start count, what postgres answers, how long the ping took and when the last attempt of a backup
-- was, are given.
unfoldable pub collect_metrics : Env → Config → Backups → ℕ → Pool → ℕ → Facts → M (List Metric)
collect_metrics env cfg b starts pool ping_duration facts = do
  peer ← check_peer_reachable env cfg
  now ← time_now env
  s ← get
  pure (
      reachability cfg pool ping_duration
      ++ (while_up cfg pool
          ++ (state_metrics cfg now s peer
              ++ (settings_metrics cfg now s
                  ++ (event_metrics cfg now s starts ++ backup_metrics cfg b facts)))))

abbrev pub kind_word : MetricKind → Text
kind_word gauge_kind = lit "gauge"
kind_word counter_kind = lit "counter"

-- strconv.FormatFloat is the function that is given.
unfoldable pub write_metric : (Value → Text) → Metric → Text
write_metric format m =
    lit "# HELP "
    ++ (m.name
        ++ (lit " "
            ++ (m.help
                ++ (lit "\n# TYPE "
                    ++ (m.name
                        ++ (lit " "
                            ++ (kind_word m.kind
                                ++ (lit "\n"
                                    ++ (m.name ++ (lit " " ++ (format m.value ++ lit "\n")))))))))))

unfoldable pub metrics_page : (Value → Text) → List Metric → Text
unfolding write_metric
metrics_page format [] = []
metrics_page format (m ∷ ms) = write_metric format m ++ metrics_page format ms
