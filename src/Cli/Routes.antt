-- ===== src/Cli/Routes.antt =====
-- The routes of the two listeners (startAPIServer of src/api.go, startMetricsServer of
-- src/metrics_server.go).
use pg_guard.Prelude.{
  Bool, true, false, not, ◌==◌, ◌&&◌, Option, none, some, List, [], ◌∷◌, ◌++◌, Text, lit, text_eq,
  if◌then◌else◌,
}
use pg_guard.Api.{
  Request, promote, shut_down, switch_over, rejoin_peer, maintain, start_up, reboot_notice,
}
use pg_guard.Config.{Config}
use pg_guard.Settings.Tables.{same_port}
use pg_guard.Cli.{Method, method_get, method_post, Call}

-- What a route answers with: a page, a request to the process, or a backup.
pub data Handler : Type 0 where
  health ready status metrics backup : Handler
  requests : Request → Handler

pub record Route : Type 0 where
  pub method : Method
  pub path : Text
  pub handler : Handler
  -- Whether the handler stands behind requireHAAuth.
  pub guarded : Bool

abbrev gets : Text → Handler → Route
gets p h = record { method = method_get; path = p; handler = h; guarded = false }

abbrev posts : Text → Handler → Route
posts p h = record { method = method_post; path = p; handler = h; guarded = true }

abbrev pub metrics_routes : List Route
metrics_routes =
    gets (lit "/health") health
    ∷ (gets (lit "/ready") ready
        ∷ (gets (lit "/status") status ∷ (gets (lit "/metrics") metrics ∷ [])))

-- The handler of a promotion reads `force` from the query.
abbrev pub api_routes : Bool → List Route
api_routes force =
    metrics_routes
    ++ (posts (lit "/api/promote") (requests (promote force))
        ∷ (posts (lit "/api/shutdown") (requests shut_down)
            ∷ (posts (lit "/api/rejoin") (requests rejoin_peer)
                ∷ (posts (lit "/api/switchover") (requests switch_over)
                    ∷ (posts (lit "/api/maintenance") (requests maintain)
                        ∷ (posts (lit "/api/start") (requests start_up)
                            ∷ (posts (lit "/api/reboot-notice") (requests reboot_notice)
                                ∷ (posts (lit "/api/backup") backup ∷ []))))))))

abbrev pub same_method : Method → Method → Bool
same_method method_get method_get = true
same_method method_post method_post = true
same_method method_get method_post = false
same_method method_post method_get = false

abbrev pub find_route : Method → Text → List Route → Option Route
find_route m p [] = none
find_route m p (r ∷ rs) =
    let rest = find_route m p rs in
    if same_method m r.method && text_eq p r.path then some r else rest

abbrev pub handler_of : Option Route → Option Handler
handler_of none = none
handler_of (some r) = some r.handler

-- A path and the query after it.
unfoldable pub split_query : Text → Text × Text
split_query [] = ([], [])
split_query (c ∷ s) =
    let (path, query) = split_query s in if c == 63 then ([], s) else (c ∷ path, query)

-- The route that a request takes at a listener, the API's or the metrics'.
unfoldable pub route_of : Bool → Method → Text → Option Route
unfolding split_query text_eq
route_of metrics_port m path =
    let (p, query) = split_query path in
    find_route m p
      (if metrics_port then metrics_routes else api_routes (text_eq query (lit "force=true")))

unfoldable pub routed : Bool → Method → Text → Option Handler
unfolding route_of
routed metrics_port m path = handler_of (route_of metrics_port m path)

abbrev same_bool : Bool → Bool → Bool
same_bool true b = b
same_bool false b = not b

-- What answers a request to 127.0.0.1: the listener on its port, if it is bound to an address that
-- takes such calls and talks TLS as the request does. Which addresses do is for the system to say.
unfoldable pub answered_by : (Text → Bool) → Config → Call → Option Handler
unfolding routed
answered_by takes_local cfg c =
    if not (takes_local cfg.api_bind)
    then none
    else if same_port c.port cfg.metrics_port
    then (if c.tls then none else routed true c.method c.path)
    else if same_port c.port cfg.api_port
    then (if same_bool c.tls cfg.tls_enabled then routed false c.method c.path else none)
    else none
