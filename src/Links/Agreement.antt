-- ===== src/Links/Agreement.antt =====
-- Both sides of a call between two nodes of one configuration (src/tls.go, src/peer.go, src/api.go).
use mathlib.Core.Path.{subst}
use pg_guard.Prelude.{◌≡◌, ◌≢◌, true, false, Option, none, some, ◌++◌, Text, lit, is_empty, arith}
use pg_guard.Config.{Config}
use pg_guard.Queries.{itoa}
use pg_guard.Settings.{Load, accepted, refused, Os, env_int}
use pg_guard.Settings.Parts.{ServerPart, PeerPart}
use pg_guard.Settings.Sections.{load_peer}
use pg_guard.Settings.Loader.{load_config}
use pg_guard.Settings.Valid.{IsValid, SoundTls, load_config-Loaded, load_config-IsValid}
use pg_guard.Links.{
  join_host_port, ServerTls, ClientTls, PeerClients, Listener, log_fatal, listens,
  build_server_tls_config, build_client_tls_config, init_peer_http_clients, start_api_server,
  peer_api_url,
}

-- The client shows a certificate exactly if the listener asks for one, and it is the listener's own.
abbrev pub Shown : Option (Text × Text) → ServerTls → Type 0
Shown none s = s.client_cas ≡ none
Shown (some pair) s = (pair ≡ s.pair) × (s.client_cas ≢ none)

abbrev pub SameTls : Option ClientTls → Option ServerTls → Type 0
SameTls none none = Unit
SameTls none (some s) = ⊥
SameTls (some c) none = ⊥
SameTls (some c) (some s) = Shown c.certificate s

abbrev scheme_for : Option ServerTls → Text
scheme_for none = lit "http://"
scheme_for (some s) = lit "https://"

-- The address and the TLS of a call are those of the listener.
abbrev pub Reaches : Config → Text → PeerClients → Listener → Type 0
Reaches cfg path clients log_fatal = ⊥
Reaches cfg path clients (listens addr tls) =
    (addr ≡ join_host_port cfg.api_bind (itoa cfg.api_port))
    × (peer_api_url cfg path
        ≡ scheme_for tls ++ (join_host_port cfg.peer_host (itoa cfg.api_port) ++ path))
    × SameTls clients.peer_promote_http_client tls
    × SameTls clients.peer_http_client tls

-- The clients are refused only for authorities that no listener has loaded.
abbrev pub Linked : Os → Config → Text → Load PeerClients → Listener → Type 0
Linked os cfg path (accepted clients) l = Reaches cfg path clients l
Linked os cfg path (refused r) l =
    (l ≢ log_fatal)
    × (cfg.tls_enabled ≡ true)
    × (cfg.mtls_require ≡ false)
    × (is_empty cfg.tls_root_cert_file ≡ false)
    × (os.loads_authorities cfg.tls_root_cert_file ≡ false)

abbrev pub plain_clients : PeerClients
plain_clients = record { peer_http_client = none; peer_promote_http_client = none }

module _ (os : Os) where
  peer_port_default :
      (s : ServerPart) {r : PeerPart}
      → load_peer os s ≡ accepted r
      → is_empty (os.getenv (lit "PG_GUARD_PEER_PORT")) ≡ true
      → r.peer_port ≡ s.api_port
  unfolding load_peer env_int
  peer_port_default s h e = ground (arith, h, e)

  module _ (cfg : Config) (path : Text)
      (sound : SoundTls os cfg.mtls_require cfg.tls_enabled cfg.tls_cert_file cfg.tls_key_file
        cfg.tls_root_cert_file)
      (port : cfg.peer_port ≡ cfg.api_port) where
    linked :
        Linked os cfg path (init_peer_http_clients os cfg plain_clients) (start_api_server os cfg)
    unfolding init_peer_http_clients start_api_server build_server_tls_config
        build_client_tls_config peer_api_url
    linked = ground (arith, sound, port)

  -- Two nodes of one configuration that the loader accepts, with the port of the peer left to its
  -- default: the listener starts, and a call of the peer goes to the port of the listener, under
  -- the scheme of the listener. It is under TLS exactly if the listener is, and it shows a
  -- certificate exactly if the listener asks for one, and then the listener's own pair. The
  -- program may end before it makes a call, but only where TLS is on, client certificates are not
  -- required and authorities are named that do not load.
  pub peers_link :
      (cfg : Config) (path : Text)
      → load_config os ≡ accepted cfg
      → is_empty (os.getenv (lit "PG_GUARD_PEER_PORT")) ≡ true
      → Linked os cfg path (init_peer_http_clients os cfg plain_clients) (start_api_server os cfg)
  peers_link cfg path h e =
      let l = load_config-Loaded os cfg h in
      linked cfg path (IsValid.sound_tls (load_config-IsValid os cfg h))
        (subst (λ c. c.peer_port ≡ c.api_port) l.whole (peer_port_default l.s l.r_loads e))
