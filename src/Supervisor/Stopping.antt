-- ===== src/Supervisor/Stopping.antt =====
-- What a handover does to the marks of the main loop (src/handover.go).
use pg_guard.Prelude.{ℕ, zero, suc, ◌+◌, ◌≡◌, ◌⊎◌, true, false, none, arith}
use pg_guard.Config.{Config, Policy, force, peer_promote_confirm_deadline}
use pg_guard.Node.{Node, Env, Signal, Result, ok, slept, asked_recovery, asked_peer_promote}
use pg_guard.Node.Monad.{log}
use pg_guard.Node.History.{is_let_go, starts_are_safe}
use pg_guard.Peer.{fetch_peer_status, request_peer_promote, notify_peer_reboot}
use pg_guard.Handover.{
  stop_local, confirm_loop, confirm_interval, confirm_fuel, after_stop, coordinate_standby_handover,
  coordinate_primary_handover, coordinate_handover, coordinate_reboot,
}
use pg_guard.Startup.Frame.{Keeps, fetch-Keeps}

-- Either postgres is stopped and the trace shows it let go, or the marks of the child are the same.
-- Success is only the first. The other marks of the loop are the same in both cases.
abbrev pub Stops : Node → Result × Node → Type 0
Stops s (r, s') =
    (r ≡ ok → s'.current_child ≡ none)
    × (s'.restart_pending ≡ s.restart_pending)
    × (s'.restart_armed ≡ s.restart_armed)
    × (s'.exited ≡ s.exited)
    × (s'.exit_requested ≡ s.exit_requested)
    × (s'.crash_timestamps ≡ s.crash_timestamps)
    × (s'.last_crash ≡ s.last_crash)
    × (s'.postgres_restarts ≡ s.postgres_restarts)
    × (starts_are_safe s'.trace ≡ starts_are_safe s.trace)
    × (((s'.current_child ≡ none) × (s'.postgres_running ≡ false) × (is_let_go s'.trace ≡ true))
        ⊎ ((s'.current_child ≡ s.current_child) × (s'.postgres_running ≡ s.postgres_running)))

module _ (env : Env) (cfg : Config) where
  stop_local-Stops : (sig : Signal) (s : Node) → Stops s (stop_local env cfg sig s)
  unfolding stop_local
  stop_local-Stops sig s = ground arith

  confirm_loop-Keeps :
      (fuel deadline : ℕ) (s : Node) → Keeps s (confirm_loop env cfg fuel deadline s).1
  unfolding confirm_loop
  confirm_loop-Keeps zero deadline s = ground arith
  confirm_loop-Keeps (suc fuel) deadline s =
      let t = (fetch_peer_status env cfg s).1 in
      ground (
        arith,
        fetch-Keeps env cfg s,
        confirm_loop-Keeps fuel deadline (log (slept confirm_interval) t),
      )

  after_stop-Keeps : (policy : Policy) (s : Node) → Keeps s (after_stop env cfg policy ok s).1
  unfolding request_peer_promote
  after_stop-Keeps policy s =
      let t = log (asked_peer_promote true) s in
      ground
        (arith, confirm_loop-Keeps confirm_fuel (env.now t.trace + peer_promote_confirm_deadline) t)

  primary-Stops :
      (sig : Signal) (policy : Policy) (s : Node)
      → Stops s (coordinate_primary_handover env cfg sig policy s)
  unfolding coordinate_primary_handover
  primary-Stops sig policy s =
      let t = (fetch_peer_status env cfg s).1 in
      ground (
        arith,
        fetch-Keeps env cfg s,
        stop_local-Stops sig t,
        after_stop-Keeps policy (stop_local env cfg sig t).1,
      )

  standby-Stops :
      (sig : Signal) (policy : Policy) (s : Node)
      → Stops s (coordinate_standby_handover env cfg sig policy s)
  unfolding coordinate_standby_handover
  standby-Stops sig policy s =
      let t = (fetch_peer_status env cfg s).1 in
      ground (arith, fetch-Keeps env cfg s, stop_local-Stops sig t)

  pub handover-Stops :
      (sig : Signal) (policy : Policy) (s : Node)
      → Stops s (coordinate_handover env cfg sig policy s)
  unfolding coordinate_handover
  handover-Stops sig force s = stop_local-Stops sig s
  handover-Stops sig policy s =
      let t = log (asked_recovery (env.recovery s.trace)) s in
      ground (arith, primary-Stops sig policy t, standby-Stops sig policy t)

  pub reboot-Stops : (sig : Signal) (s : Node) → Stops s (coordinate_reboot env cfg sig s)
  unfolding coordinate_reboot notify_peer_reboot
  reboot-Stops sig s =
      let t = log (asked_recovery (env.recovery s.trace)) s in
      let u = (notify_peer_reboot env cfg t).1 in
      ground (
        arith,
        standby-Stops sig cfg.shutdown_policy t,
        stop_local-Stops sig t,
        stop_local-Stops sig u,
      )
