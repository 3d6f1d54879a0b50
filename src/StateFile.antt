-- ===== src/StateFile.antt =====
-- The state file (src/statepersist.go): the counters that outlive the process, written beside the file
-- and renamed over it.
pub mod Atomic
pub mod Restart
use pg_guard.Prelude.{
  ℕ, zero, suc, Bool, true, false, Option, none, some, List, [], ◌∷◌, ◌++◌, Text, lit, text_eq,
  is_empty, if◌then◌else◌, take, length,
}
use pg_guard.Config.{Config}
use pg_guard.Node.{Node}
use pg_guard.Backup.{Backups}

-- `persistedState`; an int64 that counts or dates is a number here.
pub record PersistedState : Type 0 where
  pub pg_guard_starts : ℕ
  pub postgres_restarts : ℕ
  pub last_crash_unix_nano : ℕ
  pub backups_total : ℕ
  pub backup_failures_total : ℕ
  pub last_backup_unix_nano : ℕ
  pub last_backup_duration_nano : ℕ

abbrev pub zero_state : PersistedState
zero_state = record {
  pg_guard_starts = 0;
  postgres_restarts = 0;
  last_crash_unix_nano = 0;
  backups_total = 0;
  backup_failures_total = 0;
  last_backup_unix_nano = 0;
  last_backup_duration_nano = 0;
}

-- The counters in memory: those of the node and of the backups, and the starts of the process.
pub record Memory : Type 0 where
  pub node : Node
  pub backups : Backups
  pub starts : ℕ

-- encoding/json, which the file's format is left to.
pub record Codec : Type 0 where
  pub marshal : PersistedState → Option Text
  pub unmarshal : Text → Option PersistedState

-- The files by their paths.
abbrev pub Disk : Type 0
Disk = Text → Option Text

abbrev pub put : Text → Option Text → Disk → Disk
put path content disk q = if text_eq path q then content else disk q

-- How os.WriteFile ends: the file cannot be opened, it is cut after some bytes, or it is whole.
pub data Written : Type 0 where
  not_opened whole : Written
  cut : ℕ → Written

-- What the file system answers.
pub record Answers : Type 0 where
  pub readable : Bool
  pub makes_dir : Bool
  pub written : Written
  pub renames : Bool

-- Whether a save succeeded, the disk that it leaves, and the disks that it passed through before,
-- any of which a crash may leave.
pub record Saved : Type 0 where
  pub saved : Bool
  pub final : Disk
  pub passed : List Disk

abbrev decoded : Option PersistedState → PersistedState × Bool
decoded none = (zero_state, false)
decoded (some s) = (s, true)

-- The disks while the first bytes of a file are written, the truncated file first.
abbrev pub growing : ℕ → Text → Text → Disk → List Disk
growing zero path content disk = put path (some []) disk ∷ []
growing (suc n) path content disk =
    growing n path content disk ++ (put path (some (take (suc n) content)) disk ∷ [])

abbrev pub stopped_at : Disk → List Disk → Saved
stopped_at disk passed = record { saved = false; final = disk; passed = passed }

abbrev pub rename : Bool → Text → Text → Text → Disk → List Disk → Saved
rename false tmp path content disk passed = stopped_at disk passed
rename true tmp path content disk passed = record {
  saved = true;
  final = put path (some content) (put tmp none disk);
  passed = passed;
}

abbrev pub write_then_rename : Bool → Written → Text → Text → Text → Disk → Saved
write_then_rename renames not_opened tmp path content disk = stopped_at disk (disk ∷ [])
write_then_rename renames (cut n) tmp path content disk =
    stopped_at (put tmp (some (take n content)) disk) (disk ∷ growing n tmp content disk)
write_then_rename renames whole tmp path content disk =
    rename renames tmp path content (put tmp (some content) disk)
      (disk ∷ growing (length content) tmp content disk)

abbrev pub snapshot : Memory → PersistedState
snapshot m = record {
  pg_guard_starts = m.starts;
  postgres_restarts = m.node.postgres_restarts;
  last_crash_unix_nano = m.node.last_crash;
  backups_total = m.backups.total;
  backup_failures_total = m.backups.failures;
  last_backup_unix_nano = m.backups.last_backup;
  last_backup_duration_nano = m.backups.last_duration;
}

-- The counters that were read, and one more start.
abbrev pub seeded : PersistedState → Memory → Memory
seeded s m = record {
  node = record m.node {
    postgres_restarts = s.postgres_restarts;
    last_crash = s.last_crash_unix_nano;
  };
  backups = record m.backups {
    total = s.backups_total;
    failures = s.backup_failures_total;
    last_backup = s.last_backup_unix_nano;
    last_duration = s.last_backup_duration_nano;
  };
  starts = suc s.pg_guard_starts;
}

module _ (codec : Codec) (answers : Answers) where
  -- The state, and whether it was read without an error. A missing file is none.
  abbrev pub read_state : Option Text → PersistedState × Bool
  read_state none = (zero_state, true)
  read_state (some data_read) =
      if answers.readable then decoded (codec.unmarshal data_read) else (zero_state, false)

  unfoldable pub load_persisted_state : Text → Disk → PersistedState × Bool
  load_persisted_state path disk = read_state (disk path)

  abbrev save_marshalled : Option Text → Text → Disk → Saved
  save_marshalled none path disk = stopped_at disk (disk ∷ [])
  save_marshalled (some content) path disk =
      write_then_rename answers.renames answers.written (path ++ lit ".tmp") path content disk

  unfoldable pub save_persisted_state : Text → PersistedState → Disk → Saved
  save_persisted_state path s disk =
      if answers.makes_dir
      then save_marshalled (codec.marshal s) path disk
      else stopped_at disk (disk ∷ [])

  -- A failed write is only logged.
  unfoldable pub persist_state : Config → Memory → Disk → Saved
  persist_state cfg m disk =
      if is_empty cfg.state_file
      then stopped_at disk (disk ∷ [])
      else save_persisted_state cfg.state_file (snapshot m) disk

  abbrev init_from : Config → Memory → Disk → Memory × Saved
  init_from cfg m disk =
      let m' = seeded (load_persisted_state cfg.state_file disk).0 m in
      (m', persist_state cfg m' disk)

  unfoldable pub init_persistent_state : Config → Memory → Disk → Memory × Saved
  unfolding load_persisted_state
  init_persistent_state cfg m disk =
      if is_empty cfg.state_file then (m, stopped_at disk (disk ∷ [])) else init_from cfg m disk
