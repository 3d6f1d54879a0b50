-- ===== src/Examples/Links.antt =====
-- The calls between two nodes, tried on a configuration with certificates on both sides.
use pg_guard.Prelude.{◌≡◌, refl, true, some, none, [], ◌∷◌, lit, text_eq, is_empty}
use pg_guard.Config.{Config}
use pg_guard.Settings.{
  accepted, Os, env_or_default, env_duration, env_int, env_bool, atoi, parse_bool,
}
use pg_guard.Settings.Sections.{
  load_postgres, load_tls, load_servers, load_peer, load_policies, load_backups, load_restarts,
}
use pg_guard.Settings.Loader.{load_config}
use pg_guard.Links.{init_peer_http_clients, start_api_server}
use pg_guard.Links.Agreement.{Linked, plain_clients, peers_link}
use pg_guard.Examples.Files.{look_up, config_of}

abbrev secure : Os
secure = record {
  getenv = look_up (
      (lit "PGDATA", lit "/data")
      ∷ ((lit "PG_GUARD_SSL_CERT_FILE", lit "/tls/node.crt")
          ∷ ((lit "PG_GUARD_SSL_KEY_FILE", lit "/tls/node.key")
              ∷ ((lit "PG_GUARD_SSL_CA_FILE", lit "/tls/ca.crt")
                  ∷ ((lit "PG_GUARD_MTLS_REQUIRE", lit "true") ∷ [])))));
  find_postgres = some (lit "/usr/bin/postgres");
  host_name = some (lit "pg-0");
  parse_duration = λ s. none;
  stage_file = λ s. some s;
  loads_key_pair = λ c k. true;
  loads_authorities = λ r. true;
}

abbrev secured : Config
secured = config_of (load_config secure)

secure_loads : load_config secure ≡ accepted secured
unfolding load_config load_postgres text_eq env_duration env_int load_tls env_bool load_servers atoi
    env_or_default load_peer load_policies load_backups parse_bool load_restarts
secure_loads = refl

no_peer_port : is_empty (secure.getenv (lit "PG_GUARD_PEER_PORT")) ≡ true
unfolding text_eq
no_peer_port = refl

peers_link_example :
    Linked secure secured
      (lit "/api/promote")
      (init_peer_http_clients secure secured plain_clients)
      (start_api_server secure secured)
peers_link_example = peers_link secure secured (lit "/api/promote") secure_loads no_peer_port
