-- ===== src/Reaper/Delivery.antt =====
-- Every exit code goes to the channel of its own child, once (src/reaper_linux.go).
use pg_guard.Prelude.{
  ℕ, ◌+◌, ◌<◌, ◌≡◌, inl, inr, refl, ◌∙◌, true, false, none, some, Option-cases, List, [], ◌∷◌, ltb,
  ◌==◌, if◌then◌else◌, arith,
}
use pg_guard.Reaper.{
  WaitStatus, code_of, Reaper, new_reaper, waiter_of, delete, is_full, collect, reap, track_child,
}

-- How many children wait on a channel, and how many codes it was sent.
abbrev pub waiting : ℕ → List (ℕ × ℕ) → ℕ
waiting ch [] = 0
waiting ch ((p, c) ∷ ws) = (if c == ch then 1 else 0) + waiting ch ws

abbrev pub codes : ℕ → List (ℕ × ℕ) → ℕ
codes ch [] = 0
codes ch ((c, code) ∷ sent) = (if c == ch then 1 else 0) + codes ch sent

-- What the kernel and the program do: start a child under a pid that no uncollected child has, or
-- report children that have ended.
pub data Runs : Reaper → Type 0 where
  begun : Runs new_reaper
  tracked :
      {r : Reaper} (pid : ℕ)
      → Runs r
      → waiter_of pid r.waiters ≡ none
      → Runs (track_child (some pid) r).1
  failed : {r : Reaper} → Runs r → Runs (track_child none r).1
  reaped : {r : Reaper} (ended : List (ℕ × WaitStatus)) → Runs r → Runs (reap ended r)

-- Each channel that was made has a child that waits or one code, and no other channel has either.
abbrev pub Accounted : Reaper → Type 0
Accounted r =
    (ch : ℕ) → waiting ch r.waiters + codes ch r.sent ≡ (if ltb ch r.channels then 1 else 0)

delete_waiter :
    (pid ch c : ℕ) (ws : List (ℕ × ℕ))
    → waiter_of pid ws ≡ some c
    → waiting ch (delete pid ws) + (if c == ch then 1 else 0) ≡ waiting ch ws
unfolding waiter_of delete
delete_waiter pid ch c [] h = absurd (ground arith)
delete_waiter pid ch c ((p, d) ∷ ws) h = ground (arith, delete_waiter pid ch c ws)

delete_absent : (pid : ℕ) (ws : List (ℕ × ℕ)) → waiter_of pid ws ≡ none → delete pid ws ≡ ws
unfolding waiter_of delete
delete_absent pid [] h = refl
delete_absent pid ((p, d) ∷ ws) h = ground (arith, delete_absent pid ws)

full_sent : (ch : ℕ) (sent : List (ℕ × ℕ)) → is_full ch sent ≡ true → 0 < codes ch sent
unfolding is_full
full_sent ch [] h = absurd (ground arith)
full_sent ch ((c, code) ∷ sent) h = ground (arith, full_sent ch sent)

collect-Accounted :
    (pid : ℕ) (status : WaitStatus) (r : Reaper) → Accounted r → Accounted (collect pid status r)
unfolding collect
collect-Accounted pid status r h ch = elim (Option-cases (waiter_of pid r.waiters)) [
  | inl e ↦ ground (arith, e, h ch)
  | inr (c, e) ↦ ground (
    arith,
    e,
    h ch,
    h c,
    delete_waiter pid ch c r.waiters e,
    delete_waiter pid c c r.waiters e,
    full_sent c r.sent,
  )
]

reap-Accounted :
    (ended : List (ℕ × WaitStatus)) (r : Reaper) → Accounted r → Accounted (reap ended r)
unfolding reap
reap-Accounted [] r h = h
reap-Accounted ((pid, status) ∷ ended) r h =
    reap-Accounted ended (collect pid status r) (collect-Accounted pid status r h)

track-Accounted :
    (pid : ℕ) (r : Reaper)
    → waiter_of pid r.waiters ≡ none
    → Accounted r
    → Accounted (track_child (some pid) r).1
unfolding track_child
track-Accounted pid r e h ch = ground (arith, e, h ch, delete_absent pid r.waiters e)

failed-Accounted : (r : Reaper) → Accounted r → Accounted (track_child none r).1
unfolding track_child
failed-Accounted r h = h

-- Whatever children are started and end, in any order, and even if a child ends as soon as it is
-- started: a channel that was made has either its child still waiting, once, or exactly one code; a
-- channel that was not made has neither. The kernel gives a started child no pid that an uncollected
-- one has.
pub exits-Accounted : (r : Reaper) → Runs r → Accounted r
exits-Accounted r begun = λ ch. ground arith
exits-Accounted r (tracked pid run free) = track-Accounted pid _ free (exits-Accounted _ run)
exits-Accounted r (failed {r = r'} run) = failed-Accounted r' (exits-Accounted r' run)
exits-Accounted r (reaped ended run) = reap-Accounted ended _ (exits-Accounted _ run)

waiter_of-delete :
    (pid p : ℕ) (ws : List (ℕ × ℕ))
    → (p == pid) ≡ false
    → waiter_of pid (delete p ws) ≡ waiter_of pid ws
unfolding waiter_of delete
waiter_of-delete pid p [] h = refl
waiter_of-delete pid p ((q, ch) ∷ ws) h = ground (arith, waiter_of-delete pid p ws h)

waiter_of-collect :
    (pid p : ℕ) (status : WaitStatus) (r : Reaper)
    → (p == pid) ≡ false
    → waiter_of pid (collect p status r).waiters ≡ waiter_of pid r.waiters
unfolding collect
waiter_of-collect pid p status r h = ground (arith, waiter_of-delete pid p r.waiters h)

-- Only other children end.
abbrev pub Others : ℕ → List (ℕ × WaitStatus) → Type 0
Others pid [] = Unit
Others pid ((p, status) ∷ ended) = ((p == pid) ≡ false) × Others pid ended

waiter_of-reap :
    (pid : ℕ) (ended : List (ℕ × WaitStatus)) (r : Reaper)
    → Others pid ended
    → waiter_of pid (reap ended r).waiters ≡ waiter_of pid r.waiters
unfolding reap
waiter_of-reap pid [] r h = refl
waiter_of-reap pid ((p, status) ∷ ended) r (h, hs) =
    waiter_of-reap pid ended (collect p status r) hs ∙ waiter_of-collect pid p status r h

waiter_has_room :
    (pid ch : ℕ) (r : Reaper)
    → Accounted r
    → waiter_of pid r.waiters ≡ some ch
    → is_full ch r.sent ≡ false
waiter_has_room pid ch r h e =
    ground (arith, h ch, delete_waiter pid ch ch r.waiters e, full_sent ch r.sent)

waiter_of-track_child :
    (pid : ℕ) (r : Reaper) → waiter_of pid (track_child (some pid) r).1.waiters ≡ some r.channels
unfolding track_child waiter_of
waiter_of-track_child pid r = ground arith

collect-sent :
    (pid ch : ℕ) (status : WaitStatus) (r : Reaper)
    → waiter_of pid r.waiters ≡ some ch
    → is_full ch r.sent ≡ false
    → (collect pid status r).sent ≡ (ch, code_of status) ∷ r.sent
unfolding collect
collect-sent pid ch status r e room = rw (e, room) refl

-- A child that was started gets its exit code sent to its own channel when it is collected, however
-- many other children end in between; none of them takes the code or the channel's room.
pub exit_delivered :
    (r : Reaper) (pid : ℕ) (others : List (ℕ × WaitStatus)) (status : WaitStatus)
    → Runs r
    → waiter_of pid r.waiters ≡ none
    → Others pid others
    → let r' = reap others (track_child (some pid) r).1 in
      (collect pid status r').sent ≡ (r.channels, code_of status) ∷ r'.sent
exit_delivered r pid others status run free h =
    let r' = reap others (track_child (some pid) r).1 in
    let waits =
      waiter_of-reap pid others (track_child (some pid) r).1 h ∙ waiter_of-track_child pid r in
    collect-sent pid r.channels status r' waits (
      waiter_has_room pid r.channels r' (exits-Accounted r' (reaped others (tracked pid run free)))
        waits)
