-- ===== src/Examples/Texts.antt =====
-- The statements on names and quoting at concrete texts (src/config.go, src/bootstrap.go,
-- src/db.go).
use pg_guard.Prelude.{◌≡◌, refl, some, lit, ◌++◌, text_eq, has_suffix, trim_suffix}
use pg_guard.Names.{derive_peer_host}
use pg_guard.Names.Pairing.{derive_peer_host_pairs}
use pg_guard.Quoting.{dsn_quote}
use pg_guard.Quoting.Reading.{dsn_value, dsn_quoting_safe}

derives : derive_peer_host (lit "pg-0") ≡ some (lit "pg-1")
unfolding derive_peer_host has_suffix trim_suffix text_eq
derives = refl

derive_peer_host_pairs_example : derive_peer_host (lit "pg-1") ≡ some (lit "pg-0")
derive_peer_host_pairs_example = derive_peer_host_pairs (lit "pg-0") (lit "pg-1") derives

dsn_quoting_safe_example :
    dsn_value (dsn_quote (lit "it's") ++ lit " port=1") ≡ some (lit "it's", lit " port=1")
dsn_quoting_safe_example = dsn_quoting_safe (lit "it's") (lit " port=1")
