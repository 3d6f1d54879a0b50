-- ===== src/Failover.antt =====
-- The automatic failover monitor (src/failover.go) and the two deadlines that it shares with the
-- rest of the process (rebootSuppressRemaining and failoverPromoteRemaining of src/state.go).
pub mod Frame
pub mod Safety
pub mod Outage
pub mod Countdown
pub mod Marks
use pg_guard.Prelude.{
  ℕ, suc, ℤ, ◌+◌, ◌-◌, Bool, true, false, not, ◌&&◌, Option, none, some, ltb, ◌==◌, if◌then◌else◌,
  reaches, shift,
}
use pg_guard.Config.{Config, FailoverMode, automatic, manual, has_peer}
use pg_guard.Node.{Node, Env, Result, asked_recovery, called_promote}
use pg_guard.Node.Monad.{M, ◌>>=◌, ◌>>◌, pure, get, modify, ask, time_now}
use pg_guard.Peer.{check_peer_reachable, peer_healthy}
use pg_guard.Database.{ensure_role_and_database, ensure_role_and_database_blocking}

-- Nanoseconds until a deadline, 0 for none and for one that has passed.
unfoldable pub remaining : ℕ → ℕ → ℕ
remaining now until = if until == 0 then 0 else until - now

unfoldable pub failover_promote_remaining : ℕ → Node → ℕ
unfolding remaining
failover_promote_remaining now s = remaining now s.failover_promote_deadline

unfoldable pub reboot_suppress_remaining : ℕ → Node → ℕ
unfolding remaining
reboot_suppress_remaining now s = remaining now s.reboot_suppress_until

unfoldable pub reboot_suppress_active : ℕ → Node → Bool
unfolding reboot_suppress_remaining
reboot_suppress_active now s = ltb 0 (reboot_suppress_remaining now s)

unfoldable pub failover_countdown_active : ℕ → Node → Bool
unfolding failover_promote_remaining
failover_countdown_active now s = ltb 0 (failover_promote_remaining now s)

-- Whether the monitor is started at all.
abbrev pub is_automatic : FailoverMode → Bool
is_automatic automatic = true
is_automatic manual = false

unfoldable pub monitor_runs : Config → Bool
monitor_runs cfg = is_automatic cfg.failover_mode && has_peer cfg

-- `unhealthySince`, the monitor's own variable: `none` is the zero time.
abbrev pub Since : Type 0
Since = Option ℕ

module _ (env : Env) (cfg : Config) where
  -- `unhealthySince = time.Time{}; failoverPromoteDeadline.Store(0)`
  abbrev clear : M Since
  clear = do modify (λ s. record s { failover_promote_deadline = 0 }); pure none

  abbrev refresh_if : Bool → M (Unit {0})
  refresh_if false = pure tt
  refresh_if true = do done ← ensure_role_and_database env cfg; pure tt

  -- On a primary: keep the peer's replication grant fresh while the peer is up.
  abbrev as_primary_tick : M Since
  as_primary_tick = do up ← check_peer_reachable env cfg; refresh_if up; clear

  abbrev as_promoted : ℕ → Since → Bool → M Since
  as_promoted start since false = pure since
  as_promoted start since true = do
    t ← time_now env
    modify (λ s. record s { last_promotion_duration = t - start; promotions = suc s.promotions })
    set_up ← ensure_role_and_database_blocking env cfg
    clear

  -- The promotion itself, once the timeout is over and nothing suppresses it.
  abbrev promote_now : ℕ → M Since
  promote_now since = do
    start ← time_now env
    promoted ← ask env.promote called_promote
    as_promoted start (some since) promoted

  abbrev unless_suppressed : ℕ → Bool → M Since
  unless_suppressed since true = pure (some since)
  unless_suppressed since false = promote_now since

  abbrev if_over : ℕ → Bool → M Since
  if_over since false = pure (some since)
  if_over since true = do
    t ← time_now env
    s ← get
    unless_suppressed since (reboot_suppress_active t s)

  -- The peer is unhealthy: start the countdown, or see whether it is over.
  abbrev as_unhealthy : Since → M Since
  as_unhealthy none = do
    t ← time_now env
    modify (λ s. record s { failover_promote_deadline = shift t cfg.failover_timeout })
    pure (some t)
  as_unhealthy (some since) = do
    t ← time_now env
    if_over since (reaches (t - since) cfg.failover_timeout)

  abbrev as_healthy : M Since
  as_healthy = do
    modify (λ s. record s { failover_promote_deadline = 0; reboot_suppress_until = 0 })
    pure none

  abbrev by_health : Since → Bool → M Since
  by_health since true = as_healthy
  by_health since false = as_unhealthy since

  abbrev by_recovery : Since → Option Bool → M Since
  by_recovery since none = clear
  by_recovery since (some false) = as_primary_tick
  by_recovery since (some true) = do healthy ← peer_healthy env cfg; by_health since healthy

  abbrev if_running : Since → Bool → M Since
  if_running since false = clear
  if_running since true = do role ← ask env.recovery asked_recovery; by_recovery since role

  -- One tick of the monitor.
  unfoldable pub monitor_tick : Since → M Since
  monitor_tick since = do s ← get; if_running since s.postgres_running
