-- ===== src/Examples/Handovers.antt =====
-- The handover statements at a concrete node (src/handover.go).
use pg_guard.Prelude.{◌≡◌, ◌≢◌, inl, refl, List, [], ◌∷◌, Option, true, false, none, some, arith}
use pg_guard.Config.{require_switchover, best_effort}
use pg_guard.Node.{
  Env, Event, StatusReply, sigterm, standby, primary, ok, err, stuck, no_standby_peer,
  asked_peer_promote,
}
use pg_guard.Node.History.{stop_attempts, last_status, requests_are_safe}
use pg_guard.Handover.{coordinate_handover, coordinate_primary_handover, confirm_loop, stop_local}
use pg_guard.Peer.{fetch_peer_status, request_peer_promote}
use pg_guard.Handover.Safety.{
  handover_leaves_primary, handover_refusal_harmless, handover_requests_safe,
}
use pg_guard.Handover.Ends.{handover_ends}
use pg_guard.Examples.World.{calm, calm-IsClock, settings, running}

abbrev promoted_reply : StatusReply
promoted_reply = record { code = 200; body = some primary }

-- The peer stands by until it is asked to promote itself.
abbrev status_after : List Event → Option StatusReply
status_after [] = some (record { code = 200; body = some standby })
status_after (asked_peer_promote true ∷ t) = some promoted_reply
status_after (e ∷ t) = status_after t

abbrev obedient : Env
obedient = record calm { peer_status = status_after }

abbrev peerless : Env
peerless = record calm { peer_status = λ t. none }

abbrev on_standby : Env
on_standby = record calm { recovery = λ t. some true }

handover_succeeds :
    (coordinate_handover obedient settings sigterm require_switchover running).0 ≡ ok
unfolding coordinate_handover coordinate_primary_handover stop_local confirm_loop fetch_peer_status
    request_peer_promote
handover_succeeds = refl

handover_leaves_primary_example :
    let s' = (coordinate_handover obedient settings sigterm require_switchover running).1 in
    (s'.current_child ≡ none)
    × (s'.postgres_running ≡ false)
    × (last_status s'.trace ≡ some primary)
handover_leaves_primary_example =
    handover_leaves_primary obedient settings sigterm running handover_succeeds

refused :
    (coordinate_handover peerless settings sigterm require_switchover running).0
    ≡ err no_standby_peer
unfolding coordinate_handover coordinate_primary_handover stop_local confirm_loop fetch_peer_status
    request_peer_promote
refused = refl

handover_refusal_harmless_example :
    let s' = (coordinate_handover peerless settings sigterm require_switchover running).1 in
    (stop_attempts s'.trace ≡ stop_attempts running.trace)
    × (s'.current_child ≡ running.current_child)
    × (s'.postgres_running ≡ running.postgres_running)
handover_refusal_harmless_example =
    handover_refusal_harmless peerless settings sigterm require_switchover running (inl refused)

handover_requests_safe_example :
    requests_are_safe (coordinate_handover calm settings sigterm best_effort running).1.trace ≡ true
handover_requests_safe_example =
    handover_requests_safe calm settings sigterm best_effort running refl

knows_itself_primary : calm.recovery running.trace ≢ some true
knows_itself_primary h = ground arith

handover_ends_example : (coordinate_handover calm settings sigterm best_effort running).0 ≢ stuck
handover_ends_example = handover_ends calm settings calm-IsClock sigterm best_effort running
