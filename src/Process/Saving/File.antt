-- ===== src/Process/Saving/File.antt =====
-- The state file follows the counters of the process (src/main.go, src/backup.go,
-- src/statepersist.go).
use pg_guard.Prelude.{
  true, false, Option, none, some, List, [], ◌∷◌, Text, ◌≡◌, inl, inr, refl, ap, sym, ◌∙◌, is_empty,
  arith, Bool-cases,
}
use pg_guard.Config.{Config}
use pg_guard.Node.{Node, Env, asked_recovery}
use pg_guard.Node.Monad.{log}
use pg_guard.Supervisor.{handle_handover_request, maintenance, switchover, rejoin, start}
use pg_guard.Supervisor.Counters.{
  SameCounters, or_unchanged, request-SameCounters, main_step-SameCounters,
}
use pg_guard.Failover.Marks.{blocking-Keeps, tick-Keeps}
use pg_guard.Api.{
  Request, promote, shut_down, switch_over, rejoin_peer, maintain, start_up, reboot_notice, serve,
  handle_shutdown, handle_switchover, handle_rejoin, handle_maintenance, handle_start,
  handle_reboot_notice, kind_of,
}
use pg_guard.Api.Inv.{promote-Keeps, at_maintenance, at_maintenance-Keeps}
use pg_guard.Process.{Step, looped, served, ticked, Process, take_step, advance}
use pg_guard.Backup.{Backups, World, perform_backup}
use pg_guard.StateFile.{
  Codec, Answers, Disk, Memory, PersistedState, whole, snapshot, persist_state,
  save_persisted_state,
}
use pg_guard.StateFile.Atomic.{save_atomic}
use pg_guard.StateFile.Restart.{IsCodec}
use pg_guard.Process.Saving.{
  System, memory_with, backed_with, Move, stepped, attempted, is_counted, saves, disk_after,
  advance_saving, run_saving,
}

module _ (env : Env) (cfg : Config) where
  serve-SameCounters : (r : Request) (s : Node) → SameCounters s (serve env cfg r s).1
  unfolding serve handle_shutdown handle_switchover handle_rejoin handle_maintenance handle_start
      handle_reboot_notice
  serve-SameCounters (promote force) s = ground (arith, promote-Keeps env cfg force s)
  serve-SameCounters shut_down s =
      let t = record s { shutdown_in_progress = true } in
      ground (arith, request-SameCounters env cfg (kind_of cfg.shutdown_mode) t)
  serve-SameCounters switch_over s =
      let t = record (log (asked_recovery (some false)) s) { switchover_in_progress = true } in
      ground (arith, request-SameCounters env cfg switchover t)
  serve-SameCounters rejoin_peer s = ground (arith, request-SameCounters env cfg rejoin s)
  serve-SameCounters maintain s = ground (
    arith,
    at_maintenance-Keeps env cfg s,
    request-SameCounters env cfg maintenance (at_maintenance env cfg s),
  )
  serve-SameCounters start_up s =
      let t = (handle_handover_request env cfg start s).1 in
      ground (
        arith,
        request-SameCounters env cfg start s,
        blocking-Keeps env cfg (record t { maintenance_active = false }),
      )
  serve-SameCounters reboot_notice s = ground arith

  advance-SameCounters :
      (step : Step) (p : Process)
      → SameCounters
          (or_unchanged env cfg p.node (saves env cfg step p.node))
          (advance env cfg step p).node
  unfolding advance take_step
  advance-SameCounters (looped input) p =
      ground (arith, main_step-SameCounters env cfg input p.node)
  advance-SameCounters (served r) p = ground (arith, serve-SameCounters r p.node)
  advance-SameCounters ticked p = ground (arith, tick-Keeps env cfg p.since p.node)

-- Every write of the surroundings works.
pub record Works (answers : Answers) : Type 0 where
  pub makes : answers.makes_dir ≡ true
  pub writes : answers.written ≡ whole
  pub renames : answers.renames ≡ true

module _ (env : Env) (cfg : Config) (codec : Codec) (answers : Answers) where
  -- The state file holds the counters of the moment.
  abbrev pub Current : System → Type 0
  Current x = x.disk cfg.state_file ≡ codec.marshal (snapshot (memory_with x x.process.node))

  snapshot_same :
      (x : System) (s s' : Node)
      → SameCounters s s'
      → snapshot (memory_with x s) ≡ snapshot (memory_with x s')
  snapshot_same x s s' (restarts, crash) = rw (restarts, crash) refl

  save_succeeds :
      (s : PersistedState) (content : Text) (disk : Disk)
      → Works answers
      → codec.marshal s ≡ some content
      → (save_persisted_state codec answers cfg.state_file s disk).saved ≡ true
  unfolding save_persisted_state
  save_succeeds s content disk w m = rw (w.makes, m, w.writes, w.renames) refl

  persist_state-marshal :
      (m : Memory) (disk : Disk)
      → is_empty cfg.state_file ≡ false
      → IsCodec codec
      → Works answers
      → (persist_state codec answers cfg m disk).final cfg.state_file ≡ codec.marshal (snapshot m)
  unfolding persist_state
  persist_state-marshal m disk e c w =
      let (content, marshals, reads) = c.writes (snapshot m) in
      let replaced = save_atomic codec answers cfg.state_file (snapshot m) content disk marshals in
      rw e (elim replaced.1 [
        | inl (saved, k) ↦ k ∙ sym marshals
        | inr (unsaved, k) ↦
            absurd (ground (arith, unsaved, save_succeeds (snapshot m) content disk w marshals))
      ])

  -- With or without a save, the disk holds the counters that the step leaves.
  disk_after-marshal :
      (x : System) (at : Option Node) (s' : Node)
      → is_empty cfg.state_file ≡ false
      → IsCodec codec
      → Works answers
      → Current x
      → SameCounters (or_unchanged env cfg x.process.node at) s'
      → disk_after env cfg codec answers x at cfg.state_file
        ≡ codec.marshal (snapshot (memory_with x s'))
  disk_after-marshal x none s' e c w h same =
      h ∙ ap codec.marshal (snapshot_same x x.process.node s' same)
  disk_after-marshal x (some s) s' e c w h same =
      persist_state-marshal (memory_with x s) x.disk e c w
      ∙ ap codec.marshal (snapshot_same x s s' same)

  uncounted_same :
      (w : World) (b : Backups)
      → is_counted (perform_backup w cfg b).0 ≡ false
      → (perform_backup w cfg b).1 ≡ b
  unfolding perform_backup
  uncounted_same w b h = ground (arith, h)

  attempt-Current :
      (w : World) (x : System)
      → is_empty cfg.state_file ≡ false
      → IsCodec codec
      → Works answers
      → Current x
      → Current (advance_saving env cfg codec answers (attempted w) x)
  unfolding advance_saving
  attempt-Current w x e c k h = elim (Bool-cases (is_counted (perform_backup w cfg x.backups).0)) [
    | inl counted ↦
        rw counted
          (persist_state-marshal (backed_with x (perform_backup w cfg x.backups).1) x.disk e c k)
    | inr uncounted ↦ rw uncounted (
        h
        ∙ ap (λ b. codec.marshal (snapshot (backed_with x b)))
            (sym (uncounted_same w x.backups uncounted)))
  ]

  advance-Current :
      (move : Move) (x : System)
      → is_empty cfg.state_file ≡ false
      → IsCodec codec
      → Works answers
      → Current x
      → Current (advance_saving env cfg codec answers move x)
  unfolding advance_saving
  advance-Current (stepped step) x e c w h =
      disk_after-marshal x (saves env cfg step x.process.node) (advance env cfg step x.process).node
        e c w h (advance-SameCounters env cfg step x.process)
  advance-Current (attempted w) x e c k h = attempt-Current w x e c k h

  -- Where writes work, a state file that holds the counters of the process goes on to hold them: after
  -- any steps of the main loop, of the API and of the failover monitor and any attempts of a backup, in any order, it holds the
  -- counters as they then are, so that a process that is started next has lost none.
  pub run_saving-Current :
      (moves : List Move) (x : System)
      → is_empty cfg.state_file ≡ false
      → IsCodec codec
      → Works answers
      → Current x
      → Current (run_saving env cfg codec answers moves x)
  unfolding run_saving
  run_saving-Current [] x e c w h = h
  run_saving-Current (move ∷ moves) x e c w h =
      run_saving-Current moves (advance_saving env cfg codec answers move x) e c w
        (advance-Current move x e c w h)
