-- ===== src/Cli/Guarding.antt =====
-- The authentication in front of the routes (startAPIServer of src/api.go, src/auth.go).
use pg_guard.Prelude.{◌≡◌, Bool, true, false, ◌||◌, Option, none, some, Text, if◌then◌else◌, ℕ}
use pg_guard.Config.{Config}
use pg_guard.Auth.{Caller, NameService, require_ha_auth}
use pg_guard.Cli.{Method}
use pg_guard.Cli.Routes.{Handler, health, ready, status, metrics, backup, requests, Route, route_of}

-- What becomes of a request at a listener: no route, a refusal with its code, or a handler.
pub data Answer : Type 0 where
  no_route : Answer
  refused : ℕ → Answer
  reaches : Handler → Answer

module _ (names : NameService) (cfg : Config) (c : Caller) where
  abbrev unless_refused : Handler → Option ℕ → Answer
  unless_refused h none = reaches h
  unless_refused h (some code) = refused code

  abbrev through : Option Route → Answer
  through none = no_route
  through (some r) =
      if r.guarded
      then unless_refused r.handler (require_ha_auth names cfg c)
      else reaches r.handler

  unfoldable pub answer : Bool → Method → Text → Answer
  answer metrics_port m path = through (route_of metrics_port m path)

-- The pages, which change nothing.
abbrev pub is_page : Handler → Bool
is_page health = true
is_page ready = true
is_page status = true
is_page metrics = true
is_page backup = false
is_page (requests r) = false

abbrev Sheltered : Route → Type 0
Sheltered r = (r.guarded || is_page r.handler) ≡ true
