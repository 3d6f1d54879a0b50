-- ===== src/Node/History.antt =====
-- What a trace tells of the past: descriptions that the properties are stated by. They are no
-- part of the program.
use pg_guard.Prelude.{
  ℕ, suc, ◌+◌, ◌≤◌, Bool, true, false, ◌&&◌, ◌||◌, leb, Option, none, some, [], ◌∷◌,
}
use pg_guard.Config.{handover_kill_confirm_timeout}
use pg_guard.Node.{
  Env, Role, Event, Trace, asked_recovery, called_promote, asked_status, asked_peer_promote,
  asked_stop, waited_exit, killed, started, child_ended, ran_initdb, cleared_pg_data, made_pg_data,
  dialled_postgres, slept, checkpointed,
}

-- How often a stop or a kill of the child was tried.
abbrev pub stop_attempts : Trace → ℕ
stop_attempts [] = 0
stop_attempts (asked_stop sig b ∷ t) = suc (stop_attempts t)
stop_attempts (killed b ∷ t) = suc (stop_attempts t)
stop_attempts (e ∷ t) = stop_attempts t

-- How often the peer was asked to promote itself.
abbrev pub promote_requests : Trace → ℕ
promote_requests [] = 0
promote_requests (asked_peer_promote b ∷ t) = suc (promote_requests t)
promote_requests (e ∷ t) = promote_requests t

-- How often the local postgres was promoted, or an attempt was made.
abbrev pub promote_calls : Trace → ℕ
promote_calls [] = 0
promote_calls (called_promote b ∷ t) = suc (promote_calls t)
promote_calls (e ∷ t) = promote_calls t

-- How often postgres was started.
abbrev pub starts : Trace → ℕ
starts [] = 0
starts (started (some pid) ∷ t) = suc (starts t)
starts (e ∷ t) = starts t

-- How often a new, empty cluster was initialised.
abbrev pub initdb_runs : Trace → ℕ
initdb_runs [] = 0
initdb_runs (ran_initdb b ∷ t) = suc (initdb_runs t)
initdb_runs (e ∷ t) = initdb_runs t

-- The last role that the peer reported.
abbrev pub last_status : Trace → Option Role
last_status [] = none
last_status (asked_status (some r) ∷ t) = some r
last_status (e ∷ t) = last_status t

-- The newest event is a kill that worked.
abbrev was_killed : Trace → Bool
was_killed [] = false
was_killed (killed b ∷ t) = b
was_killed (e ∷ t) = false

-- No child was started yet, or since the last start it was seen to exit, or was killed and then waited
-- for as long as a confirmation may take. In the last case it may still run.
abbrev pub is_let_go : Trace → Bool
is_let_go [] = true
is_let_go (child_ended code ∷ t) = true
is_let_go (waited_exit d true ∷ t) = true
is_let_go (waited_exit d false ∷ t) =
    (was_killed t && leb handover_kill_confirm_timeout d) || is_let_go t
is_let_go (started (some pid) ∷ t) = false
is_let_go (e ∷ t) = is_let_go t

-- Whenever the peer was asked to promote itself, the local postgres had been let go.
abbrev pub requests_are_safe : Trace → Bool
requests_are_safe [] = true
requests_are_safe (asked_peer_promote b ∷ t) = is_let_go t && requests_are_safe t
requests_are_safe (e ∷ t) = requests_are_safe t

-- Whenever a child was started, the one before it had been let go.
abbrev pub starts_are_safe : Trace → Bool
starts_are_safe [] = true
starts_are_safe (started (some pid) ∷ t) = is_let_go t && starts_are_safe t
starts_are_safe (e ∷ t) = starts_are_safe t

-- The directory was just made, right after the port was found closed.
abbrev pub was_closed : Trace → Bool
was_closed [] = false
was_closed (made_pg_data b ∷ dialled_postgres false ∷ t) = true
was_closed (e ∷ t) = false

-- Whenever PGDATA was emptied, that had just happened.

abbrev pub wipes_are_safe : Trace → Bool
wipes_are_safe [] = true
wipes_are_safe (cleared_pg_data b ∷ t) = was_closed t && wipes_are_safe t
wipes_are_safe (e ∷ t) = wipes_are_safe t

-- The clock does not run backwards, and a sleep takes at least its time.
pub record IsClock (env : Env) : Type 0 where
  pub onward : (e : Event) (t : Trace) → env.now t ≤ env.now (e ∷ t)
  pub sleeps : (d : ℕ) (t : Trace) → env.now t + d ≤ env.now (slept d ∷ t)

abbrev pub newest : Trace → Option Event
newest [] = none
newest (e ∷ t) = some e

-- The last act was the end of a successful set-up: the checkpoint on a primary, or the finding
-- that the node is a standby.
abbrev pub ends_set_up : Option Event → Bool
ends_set_up none = false
ends_set_up (some (checkpointed b)) = true
ends_set_up (some (asked_recovery (some true))) = true
ends_set_up (some e) = false
