-- ===== src/Links.antt =====
-- How two nodes talk: the address at which a node listens for the API (startAPIServer of src/api.go) and
-- for the metrics (startMetricsServer of src/metrics_server.go), the addresses at which it calls its
-- peer (src/peer.go), and the TLS of both sides (src/tls.go). A certificate and a pool of authorities
-- are named by the files that they were loaded from; whether a file loads is asked of the system.
pub mod Agreement
use pg_guard.Prelude.{
  ℕ, Bool, true, false, ◌||◌, Option, none, some, List, [], ◌∷◌, ◌++◌, Text, lit, is_empty, ◌==◌,
  if◌then◌else◌,
}
use pg_guard.Config.{Config}
use pg_guard.Queries.{itoa}
use pg_guard.Settings.{tls_invalid, Load, accepted, refused, ◌>>=◌, Os}

abbrev has_colon : Text → Bool
has_colon [] = false
has_colon (c ∷ s) = c == 58 || has_colon s

-- net.JoinHostPort
pub join_host_port : Text → Text → Text
join_host_port host port =
    if has_colon host then lit "[" ++ (host ++ (lit "]:" ++ port)) else host ++ (lit ":" ++ port)

-- `tls.Config` of the listener: its pair, and the authorities of the clients if it asks for their
-- certificates.
pub record ServerTls : Type 0 where
  pub pair : Text × Text
  pub client_cas : Option Text

-- `tls.Config` of a call: the authorities of the server, or none to skip the check, and the pair that
-- is shown to a server that asks.
pub record ClientTls : Type 0 where
  pub root_cas : Option Text
  pub insecure_skip_verify : Bool
  pub certificate : Option (Text × Text)

-- The transports of the two clients for calls of the peer; none is plain HTTP.
pub record PeerClients : Type 0 where
  pub peer_http_client : Option ClientTls
  pub peer_promote_http_client : Option ClientTls

-- A listener with its TLS, or none for plain HTTP; a node that cannot build its TLS ends.
pub data Listener : Type 0 where
  log_fatal : Listener
  listens : Text → Option ServerTls → Listener

module _ (os : Os) where
  -- loadCertPool, and tls.LoadX509KeyPair
  abbrev load_cert_pool : Text → Load Text
  load_cert_pool path = if os.loads_authorities path then accepted path else refused tls_invalid

  abbrev load_pair : Text → Text → Load (Text × Text)
  load_pair cert key =
      if os.loads_key_pair cert key then accepted (cert, key) else refused tls_invalid

  abbrev loaded_if {ℓ} : {A : Type ℓ} → Bool → Load A → Load (Option A)
  loaded_if false m = accepted none
  loaded_if true m = m >>= λ a. accepted (some a)

  unfoldable pub build_server_tls_config : Config → Load ServerTls
  build_server_tls_config cfg = do
    pair ← load_pair cfg.tls_cert_file cfg.tls_key_file
    cas ← loaded_if cfg.mtls_require (load_cert_pool cfg.tls_root_cert_file)
    accepted (record { pair = pair; client_cas = cas })

  abbrev root_cas_of : Text → Load (Option Text)
  root_cas_of path =
      if is_empty path then accepted none else load_cert_pool path >>= λ p. accepted (some p)

  abbrev client_tls : Config → Load ClientTls
  client_tls cfg = do
    roots ← root_cas_of cfg.tls_root_cert_file
    pair ← loaded_if cfg.mtls_require (load_pair cfg.tls_cert_file cfg.tls_key_file)
    accepted (record {
      root_cas = roots;
      insecure_skip_verify = is_empty cfg.tls_root_cert_file;
      certificate = pair;
    })

  unfoldable pub build_client_tls_config : Config → Load (Option ClientTls)
  build_client_tls_config cfg = loaded_if cfg.tls_enabled (client_tls cfg)

  abbrev with_transport : Option ClientTls → PeerClients → PeerClients
  with_transport none clients = clients
  with_transport (some c) clients = record {
    peer_http_client = some c;
    peer_promote_http_client = some c;
  }

  unfoldable pub init_peer_http_clients : Config → PeerClients → Load PeerClients
  init_peer_http_clients cfg clients = do
    tls ← build_client_tls_config cfg
    accepted (with_transport tls clients)

  abbrev listens_or_fatal : Text → Load ServerTls → Listener
  listens_or_fatal addr (refused r) = log_fatal
  listens_or_fatal addr (accepted tls) = listens addr (some tls)

  unfoldable pub start_api_server : Config → Listener
  start_api_server cfg =
      let addr = join_host_port cfg.api_bind (itoa cfg.api_port) in
      if cfg.tls_enabled
      then listens_or_fatal addr (build_server_tls_config cfg)
      else listens addr none

unfoldable pub start_metrics_server : Config → Listener
start_metrics_server cfg = listens (join_host_port cfg.api_bind (itoa cfg.metrics_port)) none

unfoldable pub peer_api_url : Config → Text → Text
peer_api_url cfg path =
    (if cfg.tls_enabled then lit "https://" else lit "http://")
    ++ (join_host_port cfg.peer_host (itoa cfg.peer_port) ++ path)

unfoldable pub peer_metrics_url : Config → Text → Text
peer_metrics_url cfg path =
    lit "http://" ++ (join_host_port cfg.peer_host (itoa cfg.peer_metrics_port) ++ path)
