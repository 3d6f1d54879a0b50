-- ===== src/Supervisor/Crashes.antt =====
-- The budget of crash-restarts (recordCrashAndCheckLimit and the childDone case of src/main.go).
use pg_guard.Prelude.{
  ℕ, suc, ◌+◌, ◌≤◌, ◌<◌, ◌≡◌, ◌⊎◌, true, false, none, some, ltb, leb, length, keep_if, List, [],
  ◌∷◌, ◌++◌, ap, refl, ◌∙◌, arith, if◌then◌else◌,
}
use pg_guard.Prelude.Int.{ℤ}
use pg_guard.Config.{Config}
use pg_guard.Node.{Node, Env, child_ended}
use pg_guard.Supervisor.{record_crash_and_check_limit, handle_child_done}

-- How many of the earlier crashes lie less than the window in the past.
abbrev pub recent : ℕ → ℕ → List ℕ → ℕ
recent now window [] = 0
recent now window (t ∷ ts) =
    let rest = recent now window ts in if ltb now (t + window) then suc rest else rest

length-recent :
    (now window x : ℕ) (ts : List ℕ)
    → length (keep_if (λ t. ltb now (t + window)) ts ++ (x ∷ [])) ≡ suc (recent now window ts)
length-recent now window x [] = omega arith
length-recent now window x (t ∷ ts) = ground (arith, length-recent now window x ts)

-- The crashes of a history that lie less than the window in the past.
abbrev pub crashes_within : ℕ → ℕ → List ℕ → List ℕ
crashes_within now window [] = []
crashes_within now window (t ∷ ts) =
    let rest = crashes_within now window ts in if ltb now (t + window) then t ∷ rest else rest

-- What has left the window stays out of it.
keep_if-crashes_within :
    (before now window : ℕ) (ts : List ℕ)
    → before ≤ now
    → keep_if (λ t. ltb now (t + window)) (crashes_within before window ts)
      ≡ crashes_within now window ts
keep_if-crashes_within before now window [] h = refl
keep_if-crashes_within before now window (t ∷ ts) h =
    ground (arith, h, keep_if-crashes_within before now window ts h)

crashes_within-append :
    (now window : ℕ) (ts : List ℕ)
    → 0 < window
    → crashes_within now window ts ++ (now ∷ []) ≡ crashes_within now window (ts ++ (now ∷ []))
crashes_within-append now window [] h = ground (arith, h)
crashes_within-append now window (t ∷ ts) h =
    ground (arith, h, crashes_within-append now window ts h)

module _ (env : Env) (cfg : Config) where
  -- Where the crashes on record are those of the whole history of crashes that lay in the window at
  -- some earlier time, recording a crash keeps exactly those of the history, with the new one at its
  -- end, that lie in the window now, and the answer is whether their number is within the limit.
  pub crash_budget :
      (s : Node) (window limit before : ℕ) (history : List ℕ)
      → cfg.postgres_restart_window ≡ ℤ.pos window
      → cfg.postgres_restart_limit ≡ ℤ.pos limit
      → 0 < window
      → before ≤ env.now s.trace
      → s.crash_timestamps ≡ crashes_within before window history
      → let (in_budget, s') = record_crash_and_check_limit env cfg s in
        let now = env.now s.trace in
        let crashes = crashes_within now window (history ++ (now ∷ [])) in
        (s'.crash_timestamps ≡ crashes) × (in_budget ≡ leb (length crashes) limit)
  unfolding record_crash_and_check_limit
  crash_budget s window limit before history w l pos_window earlier recorded =
      let now = env.now s.trace in
      let kept =
        ap (λ ts. ts ++ (now ∷ [])) (keep_if-crashes_within before now window history earlier)
        ∙ crashes_within-append now window history pos_window in
      rw (w, l, recorded) (kept, ap (λ ts. leb (length ts) limit) kept)

  -- When the child ends, it is no longer watched nor marked as running. The process exits with the
  -- child's code if restarts are disabled (limit 0) or if the crashes of the last window, this one
  -- included, are more than the limit; otherwise it lives on and a restart is pending.
  pub child_done_outcome :
      (code : ℕ) (s : Node) (window limit : ℕ)
      → cfg.postgres_restart_window ≡ ℤ.pos window
      → cfg.postgres_restart_limit ≡ ℤ.pos limit
      → let s' = (handle_child_done env cfg code s).1 in
        let now = env.now (child_ended code ∷ s.trace) in
        let crashes = suc (recent now window s.crash_timestamps) in
        (s'.current_child ≡ none)
        × (s'.postgres_running ≡ false)
        × (((limit ≡ 0) ⊎ (limit < crashes)) × (s'.exited ≡ some code)
            ⊎ ((0 < limit)
                × (crashes ≤ limit)
                × (s'.exited ≡ s.exited)
                × (s'.restart_pending ≡ true)))
  unfolding handle_child_done record_crash_and_check_limit
  child_done_outcome code s window limit w l =
      let now = env.now (child_ended code ∷ s.trace) in
      ground (arith, length-recent now window now s.crash_timestamps)
