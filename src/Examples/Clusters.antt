-- ===== src/Examples/Clusters.antt =====
-- The statements on pg_hba.conf, the set-up, the bootstrap and the start at a concrete node
-- (src/bootstrap.go, src/rewind.go, src/main.go).
use pg_guard.Prelude.{
  ◌+◌, ◌<◌, ◌≡◌, ◌≢◌, ◌⊎◌, refl, true, false, none, some, [], ◌∷◌, Text, lit, IsLine, has_suffix,
  join_lines, split_lines, has_prefix, trim_space, text_eq, arith,
}
use pg_guard.Config.{bootstrap_primary_tiebreak_timeout}
use pg_guard.Node.{Node, Env, ok, other_role, checked_standby_signal, reloaded_config}
use pg_guard.Node.Monad.{log}
use pg_guard.Node.History.{initdb_runs, wipes_are_safe, newest}
use pg_guard.Hba.{hba_upsert_line, is_rule}
use pg_guard.Hba.Upsert.{IsRule, rules, others, upsert_writes_rule, stale_rule_survives}
use pg_guard.Database.{ensure_replication_hba, replication_prefix, replication_rule, update_hba}
use pg_guard.Database.Grant.{replication_grant_fresh}
use pg_guard.Bootstrap.{run_bootstrap}
use pg_guard.Bootstrap.Roles.{
  second_node_never_initialises, initialises_after_tiebreak, bootstrap_wipes_safe,
}
use pg_guard.Startup.{rejoin_at_startup_if_needed}
use pg_guard.Startup.Decision.{PeerAnswered, startup_hears_peer}
use pg_guard.Peer.{fetch_peer_status}
use pg_guard.Examples.World.{calm, calm-IsClock, settings, running}

abbrev app_prefix : Text
app_prefix = lit "host all all all "

abbrev app_rule : Text
app_rule = lit "host all all all scram-sha-256"

abbrev old_rule : Text
old_rule = lit "host all all all trust"

abbrev old_file : Text
old_file = lit "local all all trust\nhost all all all trust\n"

abbrev new_file : Text
new_file = lit "local all all trust\n\nhost all all all scram-sha-256"

app_rule-IsRule : IsRule app_prefix app_rule
unfolding trim_space has_prefix
app_rule-IsRule = record { one_line = ground arith; trimmed = refl; prefixed = refl }

upgraded : hba_upsert_line app_prefix app_rule old_file ≡ some new_file
unfolding hba_upsert_line split_lines has_prefix trim_space text_eq join_lines
upgraded = refl

upsert_writes_rule_example :
    (rules app_prefix new_file ≡ app_rule ∷ [])
    × (others app_prefix new_file ≡ others app_prefix old_file)
upsert_writes_rule_example =
    upsert_writes_rule app_prefix app_rule app_rule-IsRule old_file upgraded

old_rule-IsLine : IsLine old_rule
old_rule-IsLine = ground arith

old_rule-is_rule : is_rule app_prefix old_rule ≡ true
unfolding trim_space has_prefix
old_rule-is_rule = refl

stale_rule_survives_example :
    let raw = join_lines (old_rule ∷ app_rule ∷ []) in
    (hba_upsert_line app_prefix app_rule raw ≡ none)
    × (rules app_prefix raw ≡ old_rule ∷ app_rule ∷ [])
stale_rule_survives_example =
    stale_rule_survives app_prefix app_rule app_rule-IsRule old_rule old_rule-IsLine
      old_rule-is_rule

abbrev with_old_file : Node
with_old_file = record running { hba = old_file }

abbrev address : Text
address = lit "10.0.0.2"

address-IsLine : IsLine address
address-IsLine = ground arith

user-IsLine : IsLine settings.repl_user
user-IsLine = ground arith

grant_works : (ensure_replication_hba calm settings with_old_file).0 ≡ ok
unfolding ensure_replication_hba update_hba hba_upsert_line split_lines has_prefix trim_space
    text_eq join_lines
grant_works = refl

replication_grant_fresh_example :
    let s' = (ensure_replication_hba calm settings with_old_file).1 in
    (hba_upsert_line (replication_prefix settings) (replication_rule settings address) s'.hba
      ≡ none)
    × ((s'.hba ≡ with_old_file.hba) ⊎ (newest s'.trace ≡ some (reloaded_config true)))
replication_grant_fresh_example =
    replication_grant_fresh settings calm with_old_file address user-IsLine address-IsLine refl refl
      grant_works

abbrev second_name : Text
second_name = lit "pg-1"

abbrev second_node : Env
second_node = record calm { hostname = λ t. some second_name }

second_node_never_initialises_example :
    initdb_runs (run_bootstrap second_node settings running).1.trace ≡ initdb_runs running.trace
unfolding has_suffix
second_node_never_initialises_example =
    second_node_never_initialises second_node settings running second_name refl refl refl refl

initialises_after_tiebreak_example :
    let s' = (run_bootstrap calm settings running).1 in
    (initdb_runs s'.trace ≡ initdb_runs running.trace)
    ⊎ (calm.now running.trace + bootstrap_primary_tiebreak_timeout < calm.now s'.trace)
initialises_after_tiebreak_example =
    initialises_after_tiebreak calm settings calm-IsClock running refl refl

bootstrap_wipes_safe_example : wipes_are_safe (run_bootstrap calm settings running).1.trace ≡ true
bootstrap_wipes_safe_example = bootstrap_wipes_safe calm settings running refl

startup_hears_peer_example :
    let first = fetch_peer_status calm settings (log (checked_standby_signal false) running) in
    (((rejoin_at_startup_if_needed calm settings running).0 ≢ ok)
      ⊎ PeerAnswered running (rejoin_at_startup_if_needed calm settings running).1)
    × ((first.0 ≢ some other_role)
        ⊎ (rejoin_at_startup_if_needed calm settings running ≡ (ok, first.1)))
startup_hears_peer_example = startup_hears_peer calm settings running refl refl
