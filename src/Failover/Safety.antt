-- ===== src/Failover/Safety.antt =====
-- When the monitor promotes (src/failover.go).
use pg_guard.Prelude.{
  ℕ, suc, ℤ, ◌-◌, ◌≡◌, Bool, true, false, not, ◌&&◌, Option, none, some, List, [], ◌∷◌, ltb,
  if◌then◌else◌, reaches, arith, sym, refl, ◌∙◌, ◌⊎◌, inl, inr, Bool-cases,
}
use pg_guard.Config.{Config}
use pg_guard.Node.{Node, Env, asked_recovery, called_promote}
use pg_guard.Node.Monad.{log}
use pg_guard.Node.History.{promote_calls}
use pg_guard.Peer.{check_peer_reachable, peer_healthy}
use pg_guard.Failover.{Since, monitor_tick, reboot_suppress_active}
use pg_guard.Failover.Frame.{reachable-Steady, healthy-Steady, ensure-Steady, blocking-Steady}

-- What a tick has seen: when, whether this node was a running standby with an unhealthy peer,
-- whether a planned-reboot notice was in force, whether a promotion was tried, and whether it
-- succeeded.
pub record Observation : Type 0 where
  pub time : ℕ
  pub unhealthy : Bool
  pub suppressed : Bool
  pub tried : Bool
  pub promoted : Bool

abbrev pub start_of : Option ℕ → ℕ → ℕ
start_of none t = t
start_of (some start) t = start

-- When the latest unbroken row of unhealthy observations without a promotion began; the newest
-- observation is first.
abbrev pub streak : List Observation → Option ℕ
streak [] = none
streak (o ∷ os) =
    let before = streak os in
    if o.unhealthy && not o.promoted then some (start_of before o.time) else none

abbrev is_in_recovery : Option Bool → Bool
is_in_recovery none = false
is_in_recovery (some b) = b

-- The time that the row of unhealthy ticks has lasted reaches the timeout.
abbrev is_over : Since → ℕ → ℤ → Bool
is_over none t d = false
is_over (some start) t d = reaches (t - start) d

module _ (env : Env) (cfg : Config) where
  -- The state after the health check of a tick.
  abbrev pub checked : Node → Node
  checked s = (peer_healthy env cfg (log (asked_recovery (env.recovery s.trace)) s)).1

  unfoldable pub observe : Since → Node → Observation
  observe since s = record {
    time = env.now (checked s).trace;
    unhealthy =
        s.postgres_running
        && (is_in_recovery (env.recovery s.trace)
            && not (peer_healthy env cfg (log (asked_recovery (env.recovery s.trace)) s)).0);
    suppressed = reboot_suppress_active (env.now (checked s).trace) (checked s);
    tried = ltb (promote_calls s.trace) (promote_calls (monitor_tick env cfg since s).1.trace);
    promoted = ltb s.promotions (monitor_tick env cfg since s).1.promotions;
  }

  -- An attempt to promote, if there is one, is justified: the node was a running standby, its peer
  -- was unhealthy now and on an unbroken row of earlier ticks that reaches back at least the
  -- failover timeout, and no planned-reboot notice was in force.
  abbrev pub Justified : Observation → List Observation → Type 0
  Justified o os =
      (o.tried ≡ false)
      ⊎ ((o.unhealthy ≡ true)
          × (o.suppressed ≡ false)
          × ((start : ℕ) × (streak os ≡ some start)
              × (reaches (o.time - start) cfg.failover_timeout ≡ true)))

  tick-streak :
      (since : Since) (s : Node) (os : List Observation)
      → since ≡ streak os
      → (monitor_tick env cfg since s).0 ≡ streak (observe since s ∷ os)
  unfolding monitor_tick observe
  tick-streak none s os h =
      let a = log (asked_recovery (env.recovery s.trace)) s in
      ground (arith, h, healthy-Steady env cfg a, reachable-Steady env cfg a)
  tick-streak (some since) s os h =
      let a = log (asked_recovery (env.recovery s.trace)) s in
      let c = (peer_healthy env cfg a).1 in
      let d = log (called_promote true) c in
      let q = (check_peer_reachable env cfg a).1 in
      ground (
        arith,
        h,
        healthy-Steady env cfg a,
        reachable-Steady env cfg a,
        ensure-Steady env cfg q,
        blocking-Steady env cfg (record d {
          last_promotion_duration = env.now d.trace - env.now c.trace;
          promotions = suc d.promotions;
        }),
      )

  -- What holds when a tick tries to promote.
  tried_only_if :
      (since : Since) (s : Node)
      → (observe since s).tried ≡ true
      → ((observe since s).unhealthy ≡ true)
        × ((observe since s).suppressed ≡ false)
        × is_over since (observe since s).time cfg.failover_timeout ≡ true
  unfolding monitor_tick observe
  tried_only_if none s asked =
      let a = log (asked_recovery (env.recovery s.trace)) s in
      let q = (check_peer_reachable env cfg a).1 in
      ground (
        arith,
        asked,
        healthy-Steady env cfg a,
        reachable-Steady env cfg a,
        ensure-Steady env cfg q,
      )
  tried_only_if (some since) s asked =
      let a = log (asked_recovery (env.recovery s.trace)) s in
      let q = (check_peer_reachable env cfg a).1 in
      ground (
        arith,
        asked,
        healthy-Steady env cfg a,
        reachable-Steady env cfg a,
        ensure-Steady env cfg q,
      )

  over_since :
      (since : Since) (t : ℕ) (d : ℤ)
      → is_over since t d ≡ true
      → (start : ℕ) × (since ≡ some start) × (reaches (t - start) d ≡ true)
  over_since none t d h = ground (arith, h)
  over_since (some start) t d h = (start, refl, h)

  tick-Justified :
      (since : Since) (s : Node) (os : List Observation)
      → since ≡ streak os
      → Justified (observe since s) os
  tick-Justified since s os h = elim (Bool-cases (observe since s).tried) [
    | inl asked ↦
        let (u, p, o) = tried_only_if since s asked in
        let (start, e, r) = over_since since (observe since s).time cfg.failover_timeout o in
        inr (u, p, (start, sym h ∙ e, r))
    | inr unasked ↦ inl unasked
  ]

  -- A run of the monitor: before each tick the rest of the process may have changed the node in
  -- any way.
  pub data Run : Since → List Observation → Type 0 where
    starting : Run none []
    ticking :
        {since : Since} {os : List Observation} (s : Node)
        → Run since os
        → Run (monitor_tick env cfg since s).0 (observe since s ∷ os)

  pub Run-streak : {since : Since} {os : List Observation} → Run since os → since ≡ streak os
  Run-streak starting = refl
  Run-streak (ticking s r) = tick-streak _ s _ (Run-streak r)

  abbrev pub AllJustified : List Observation → Type 0
  AllJustified [] = Unit
  AllJustified (o ∷ os) = Justified o os × AllJustified os

  -- In every run of the monitor, whatever the rest of the process does to the node between the
  -- ticks, each attempt to promote is justified: the node ran as a standby, its peer was unhealthy,
  -- had been so at each tick for at least the failover timeout without a promotion in between, and no
  -- planned-reboot notice was in force.
  pub every_promotion_justified :
      {since : Since} {os : List Observation} → Run since os → AllJustified os
  every_promotion_justified starting = tt
  every_promotion_justified (ticking s r) =
      (tick-Justified _ s _ (Run-streak r), every_promotion_justified r)
