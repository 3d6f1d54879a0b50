-- ===== src/Reaper.antt =====
-- The one process that collects ended children (src/reaper_linux.go). Its lock makes every call here
-- one step.
pub mod Delivery
use pg_guard.Prelude.{
  ℕ, suc, ◌+◌, Bool, true, false, ◌||◌, Option, none, some, List, [], ◌∷◌, ◌==◌, if◌then◌else◌,
}

-- How a child ended, as wait4 reports it.
pub data WaitStatus : Type 0 where
  exited signaled : ℕ → WaitStatus

abbrev pub code_of : WaitStatus → ℕ
code_of (exited code) = code
code_of (signaled sig) = 128 + sig

-- The waiters are channels by their pids. A channel has room for one code, and all the channels made
-- so far are numbered from 0; what was sent is kept, the latest first.
pub record Reaper : Type 0 where
  pub waiters : List (ℕ × ℕ)
  pub sent : List (ℕ × ℕ)
  pub channels : ℕ

abbrev pub new_reaper : Reaper
new_reaper = record { waiters = []; sent = []; channels = 0 }

unfoldable pub waiter_of : ℕ → List (ℕ × ℕ) → Option ℕ
waiter_of pid [] = none
waiter_of pid ((p, ch) ∷ ws) = let rest = waiter_of pid ws in if p == pid then some ch else rest

-- `delete(r.waiters, pid)`
unfoldable pub delete : ℕ → List (ℕ × ℕ) → List (ℕ × ℕ)
delete pid [] = []
delete pid ((p, ch) ∷ ws) = let rest = delete pid ws in if p == pid then ws else (p, ch) ∷ rest

-- A channel that was sent its code has no room for another.
unfoldable pub is_full : ℕ → List (ℕ × ℕ) → Bool
is_full ch [] = false
is_full ch ((c, code) ∷ sent) = c == ch || is_full ch sent

abbrev deliver : Option ℕ → ℕ → ℕ → Reaper → Reaper
deliver none pid code r = r
deliver (some ch) pid code r = record r {
  waiters = delete pid r.waiters;
  sent = if is_full ch r.sent then r.sent else (ch, code) ∷ r.sent;
}

-- One child that wait4 reports.
unfoldable pub collect : ℕ → WaitStatus → Reaper → Reaper
unfolding waiter_of delete is_full
collect pid status r = deliver (waiter_of pid r.waiters) pid (code_of status) r

-- All of them, until none is left.
unfoldable pub reap : List (ℕ × WaitStatus) → Reaper → Reaper
unfolding collect
reap [] r = r
reap ((pid, status) ∷ ended) r = reap ended (collect pid status r)

-- The channel of a child that was started, or none.
unfoldable pub track_child : Option ℕ → Reaper → Option ℕ × Reaper
unfolding delete
track_child none r = (none, r)
track_child (some pid) r = (
  some r.channels,
  record r { waiters = (pid, r.channels) ∷ delete pid r.waiters; channels = suc r.channels },
)
