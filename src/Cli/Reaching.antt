-- ===== src/Cli/Reaching.antt =====
-- A command reaches the handler that it is named for (src/remotecli.go, src/api.go,
-- src/metrics_server.go).
use pg_guard.Prelude.{◌≡◌, ◌⊎◌, Bool, true, false, ◌||◌, List, [], ◌∷◌, ◌++◌, Text, lit, text_eq}
use pg_guard.Config.{Config}
use pg_guard.Settings.Tables.{word}
use pg_guard.Api.{promote, shut_down, switch_over, rejoin_peer, maintain, start_up}
use pg_guard.Cli.{CliCommand}
use pg_guard.Cli.Routes.{Handler, health, ready, status, metrics, backup, requests, routed}

-- What each command is for.
abbrev pub purposes : Bool → List (Text × Handler)
purposes force =
    (lit "health", health)
    ∷ ((lit "ready", ready)
        ∷ ((lit "status", status)
            ∷ ((lit "metrics", metrics)
                ∷ ((lit "promote", requests (promote force))
                    ∷ ((lit "shutdown", requests shut_down)
                        ∷ ((lit "rejoin", requests rejoin_peer)
                            ∷ ((lit "switchover", requests switch_over)
                                ∷ ((lit "maintenance", requests maintain)
                                    ∷ ((lit "start", requests start_up)
                                        ∷ ((lit "backup", backup) ∷ []))))))))))

abbrev pub asks_force : List Text → Bool
asks_force [] = false
asks_force (w ∷ ws) = text_eq w (lit "-force") || asks_force ws

-- The routes answer a command with its purpose, and a forced promotion with a forced promotion.
abbrev IsAnswered : CliCommand → Type 0
IsAnswered cmd =
    (routed cmd.metrics_port cmd.method cmd.path ≡ word cmd.name (purposes false))
    × ((text_eq cmd.name (lit "promote") ≡ false)
        ⊎ (routed cmd.metrics_port cmd.method (cmd.path ++ lit "?force=true")
            ≡ word cmd.name (purposes true)))
