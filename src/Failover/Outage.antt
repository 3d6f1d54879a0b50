-- ===== src/Failover/Outage.antt =====
-- An outage of the peer that lasts (src/failover.go).
use mathlib.Core.Path.{subst}
use pg_guard.Prelude.{
  ℕ, suc, ◌-◌, ◌≡◌, inl, inr, refl, sym, ◌∙◌, Bool, true, false, Bool-cases, ◌||◌, none, some, List,
  [], ◌∷◌, reaches, All, arith,
}
use pg_guard.Config.{Config}
use pg_guard.Node.{Node, Env, asked_recovery, called_promote}
use pg_guard.Node.Monad.{log}
use pg_guard.Peer.{check_peer_reachable, peer_healthy}
use pg_guard.Failover.{Since, monitor_tick}
use pg_guard.Failover.Frame.{reachable-Steady, healthy-Steady, ensure-Steady, blocking-Steady}
use pg_guard.Failover.Safety.{Observation, streak, observe, Run, starting, ticking, Run-streak}

-- A tick that found a running standby with an unhealthy peer and no notice of a planned reboot.
abbrev pub IsOutage : Observation → Type 0
IsOutage o = (o.unhealthy ≡ true) × (o.suppressed ≡ false)

-- The time of the first of the ticks; the newest is in front.
abbrev pub first_time : Observation → List Observation → ℕ
first_time o [] = o.time
first_time o (p ∷ os) = first_time p os

abbrev pub any_tried : List Observation → Bool
any_tried [] = false
any_tried (o ∷ os) = o.tried || any_tried os

abbrev any_promoted : List Observation → Bool
any_promoted [] = false
any_promoted (o ∷ os) = o.promoted || any_promoted os

module _ (env : Env) (cfg : Config) where
  -- A tick that promotes has tried to.
  promoted-tried :
      (since : Since) (s : Node)
      → (observe env cfg since s).tried ≡ false
      → (observe env cfg since s).promoted ≡ false
  unfolding monitor_tick observe
  promoted-tried none s h =
      let a = log (asked_recovery (env.recovery s.trace)) s in
      let q = (check_peer_reachable env cfg a).1 in
      ground
        (arith, h, healthy-Steady env cfg a, reachable-Steady env cfg a, ensure-Steady env cfg q)
  promoted-tried (some since) s h =
      let a = log (asked_recovery (env.recovery s.trace)) s in
      let c = (peer_healthy env cfg a).1 in
      let d = log (called_promote true) c in
      let q = (check_peer_reachable env cfg a).1 in
      ground (
        arith,
        h,
        healthy-Steady env cfg a,
        reachable-Steady env cfg a,
        ensure-Steady env cfg q,
        blocking-Steady env cfg (record d {
          last_promotion_duration = env.now d.trace - env.now c.trace;
          promotions = suc d.promotions;
        }),
      )

  -- A tick in an outage whose countdown is over tries to promote.
  due-tried :
      (start : ℕ) (s : Node)
      → IsOutage (observe env cfg (some start) s)
      → reaches ((observe env cfg (some start) s).time - start) cfg.failover_timeout ≡ true
      → (observe env cfg (some start) s).tried ≡ true
  unfolding monitor_tick observe
  due-tried start s (ill, free) over =
      let a = log (asked_recovery (env.recovery s.trace)) s in
      let c = (peer_healthy env cfg a).1 in
      let d = log (called_promote true) c in
      ground (
        arith,
        ill,
        free,
        over,
        healthy-Steady env cfg a,
        blocking-Steady env cfg (record d {
          last_promotion_duration = env.now d.trace - env.now c.trace;
          promotions = suc d.promotions;
        }),
      )

  untried-unpromoted :
      {since : Since} {os : List Observation}
      → Run env cfg since os
      → any_tried os ≡ false
      → any_promoted os ≡ false
  untried-unpromoted starting h = refl
  untried-unpromoted (ticking {since} {os} s r) h =
      ground (arith, h, promoted-tried since s, untried-unpromoted r)

streak-outage :
    (o : Observation) (os : List Observation)
    → All IsOutage (o ∷ os)
    → any_promoted (o ∷ os) ≡ false
    → streak (o ∷ os) ≡ some (first_time o os)
streak-outage o [] a h = ground (arith, a, h)
streak-outage o (p ∷ os) (a, b) h = ground (arith, a, h, streak-outage p os b (ground (arith, h)))

module _ (env : Env) (cfg : Config) where
  due_since :
      (since : Since) (start : ℕ) (s : Node)
      → since ≡ some start
      → IsOutage (observe env cfg since s)
      → reaches ((observe env cfg since s).time - start) cfg.failover_timeout ≡ true
      → (observe env cfg since s).tried ≡ true
  due_since since start s e =
      subst
        (λ x.
          IsOutage (observe env cfg x s)
          → reaches ((observe env cfg x s).time - start) cfg.failover_timeout ≡ true
          → (observe env cfg x s).tried ≡ true)
        (sym e) (due-tried env cfg start s)

  outage_so_far :
      {since : Since} {p : Observation} {os : List Observation} (s : Node)
      → Run env cfg since (p ∷ os)
      → All IsOutage (observe env cfg since s ∷ p ∷ os)
      → reaches ((observe env cfg since s).time - first_time p os) cfg.failover_timeout ≡ true
      → any_tried (p ∷ os) ≡ false
      → (observe env cfg since s).tried ≡ true
  outage_so_far {since} {p} {os} s r (a, b) over untried =
      due_since since (first_time p os) s
        (Run-streak env cfg r ∙ streak-outage p os b (untried-unpromoted env cfg r untried)) a over

  -- In every run of the monitor, whatever the rest of the process does to the node between the ticks:
  -- if each tick of the run found a running standby with an unhealthy peer and no notice of a planned
  -- reboot in force, and the last of them came at least the failover timeout after the first, then
  -- the node has tried to promote itself at one of them.
  pub lasting_outage_promotes :
      {since : Since} {o p : Observation} {os : List Observation}
      → Run env cfg since (o ∷ p ∷ os)
      → All IsOutage (o ∷ p ∷ os)
      → reaches (o.time - first_time p os) cfg.failover_timeout ≡ true
      → any_tried (o ∷ p ∷ os) ≡ true
  lasting_outage_promotes {p = p} {os = os} (ticking s r) a over =
      elim (Bool-cases (any_tried (p ∷ os))) [
        | inl tried ↦ ground (arith, tried)
        | inr untried ↦ ground (arith, outage_so_far s r a over untried)
      ]
