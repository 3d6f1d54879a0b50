-- ===== src/StateFile/Restart.antt =====
-- What a restart finds in the state file, wherever the process before ended (src/statepersist.go).
use pg_guard.Prelude.{
  suc, ◌≡◌, ◌⊎◌, inl, inr, refl, ◌∙◌, true, false, some, List, [], ◌∷◌, Text, is_empty, All,
}
use pg_guard.Config.{Config}
use pg_guard.StateFile.{
  PersistedState, Memory, Codec, Disk, Answers, snapshot, persist_state, init_persistent_state,
  load_persisted_state,
}
use pg_guard.StateFile.Atomic.{save_atomic}

-- What was marshalled is read back.
pub record IsCodec (codec : Codec) : Type 0 where
  pub writes :
      (s : PersistedState)
      → (content : Text) × (codec.marshal s ≡ some content) × (codec.unmarshal content ≡ some s)

-- The counters of a process that starts from these.
abbrev pub next_start : PersistedState → PersistedState
next_start s = record s { pg_guard_starts = suc s.pg_guard_starts }

module _ (codec : Codec) (cfg : Config) (then : Answers) (started : Memory) where
  abbrev pub restarted : Disk → PersistedState
  restarted d = snapshot (init_persistent_state codec then cfg started d).0

  restart_reads :
      (d : Disk) (content : Text) (s : PersistedState)
      → is_empty cfg.state_file ≡ false
      → then.readable ≡ true
      → d cfg.state_file ≡ some content
      → codec.unmarshal content ≡ some s
      → restarted d ≡ next_start s
  unfolding init_persistent_state load_persisted_state
  restart_reads d content s e r h u = rw (e, h, r, u) refl

  restarts_read :
      (disk : Disk) (content : Text) (s : PersistedState) (ds : List Disk)
      → is_empty cfg.state_file ≡ false
      → then.readable ≡ true
      → disk cfg.state_file ≡ some content
      → codec.unmarshal content ≡ some s
      → All (λ d. d cfg.state_file ≡ disk cfg.state_file) ds
      → All (λ d. restarted d ≡ next_start s) ds
  restarts_read disk content s [] e r h u a = tt
  restarts_read disk content s (d ∷ ds) e r h u (k, a) =
      (restart_reads d content s e r (k ∙ h) u, restarts_read disk content s ds e r h u a)

  -- If the state file holds the counters of an earlier save, and the process ends at any moment of the
  -- next save or after it, then a process that starts again with a readable file goes on from the
  -- counters of the one save or of the other, with one more start: from the earlier ones at every
  -- moment before the end of the save and after a save that failed, and from the ones in memory after
  -- a save that succeeded.
  pub restart_carries :
      (now : Answers) (m : Memory) (disk : Disk) (old : PersistedState)
      → is_empty cfg.state_file ≡ false
      → then.readable ≡ true
      → IsCodec codec
      → disk cfg.state_file ≡ codec.marshal old
      → let r = persist_state codec now cfg m disk in
        All (λ d. restarted d ≡ next_start old) r.passed
        × (((r.saved ≡ true) × (restarted r.final ≡ next_start (snapshot m)))
            ⊎ ((r.saved ≡ false) × (restarted r.final ≡ next_start old)))
  unfolding persist_state
  restart_carries now m disk old e r c h =
      let (before, hb, ub) = c.writes old in
      let (content, hc, uc) = c.writes (snapshot m) in
      let replaced = save_atomic codec now cfg.state_file (snapshot m) content disk hc in
      rw e (
        restarts_read disk before old _ e r (h ∙ hb) ub replaced.0,
        elim replaced.1 [
          | inl (ok, k) ↦ inl (ok, restart_reads _ content (snapshot m) e r k uc)
          | inr (failed, k) ↦ inr (failed, restart_reads _ before old e r (k ∙ (h ∙ hb)) ub)
        ],
      )
