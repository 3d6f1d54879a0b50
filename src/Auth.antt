-- ===== src/Auth.antt =====
-- Who may call the API (src/auth.go).
pub mod Access
use pg_guard.Prelude.{
  ℕ, Bool, true, false, not, ◌&&◌, ◌||◌, Option, none, some, List, [], ◌∷◌, ◌++◌, Text, lit,
  text_eq, is_empty, has_prefix, strip_prefix, has_suffix, trim_suffix, if◌then◌else◌,
}
use pg_guard.Config.{Config, PeerVerify, off, ip, dns, both, has_peer}

-- What the checks read of a request, and what the name service knows: the address that the
-- connection comes from (`none` if it has no port to split off), the Authorization header, the
-- addresses of a host and the names of an address (`none` is an error).
pub record Caller : Type 0 where
  pub remote_addr : Text
  pub split_host : Option Text
  pub authorization : Text

pub record NameService : Type 0 where
  pub lookup_host : Text → Option (List Text)
  pub lookup_addr : Text → Option (List Text)

pub data AuthError : Type 0 where
  malformed_header invalid_token no_peer ip_mismatch dns_mismatch both_mismatch : AuthError

abbrev bearer : Text
bearer = lit "Bearer "

abbrev token_matches : Text → Option Text → Option AuthError
token_matches token none = some malformed_header
token_matches token (some supplied) = if text_eq supplied token then none else some invalid_token

-- `none` lets the caller pass.
unfoldable pub check_api_token : Config → Text → Option AuthError
check_api_token cfg header =
    if is_empty cfg.api_token
    then none
    else token_matches cfg.api_token (strip_prefix bearer header)

unfoldable pub any_equal : Text → List Text → Bool
any_equal address [] = false
any_equal address (x ∷ xs) = let rest = any_equal address xs in text_eq x address || rest

abbrev among : Text → Option (List Text) → Bool
among address none = false
among address (some addresses) = any_equal address addresses

unfoldable pub remote_matches_peer_ip : NameService → Text → Text → Bool
unfolding any_equal
remote_matches_peer_ip names peer_host remote_ip = among remote_ip (names.lookup_host peer_host)

-- strings.TrimSuffix(n, ".")
pub without_dot : Text → Text
without_dot [] = []
without_dot (c ∷ []) = if text_eq (c ∷ []) (lit ".") then [] else c ∷ []
without_dot (c ∷ d ∷ n) = c ∷ without_dot (d ∷ n)

abbrev pub names_peer : Text → Text → Bool
names_peer peer_host n = text_eq n peer_host || has_prefix (peer_host ++ lit ".") n

pub any_names_peer : Text → List Text → Bool
unfolding without_dot
any_names_peer peer_host [] = false
any_names_peer peer_host (n ∷ ns) =
    let rest = any_names_peer peer_host ns in names_peer peer_host (without_dot n) || rest

abbrev names_include : Text → Option (List Text) → Bool
names_include peer_host none = false
names_include peer_host (some ns) = any_names_peer peer_host ns

unfoldable pub remote_matches_peer_dns : NameService → Text → Text → Bool
unfolding any_names_peer
remote_matches_peer_dns names peer_host remote_ip =
    names_include peer_host (names.lookup_addr remote_ip)

abbrev pub remote_ip_of : Caller → Text
remote_ip_of c = remote_or c.remote_addr c.split_host
  where
    remote_or : Text → Option Text → Text
    remote_or addr none = addr
    remote_or addr (some host) = host

abbrev verdict : PeerVerify → Bool → Bool → Option AuthError
verdict off ip_ok dns_ok = none
verdict ip ip_ok dns_ok = if not ip_ok then some ip_mismatch else none
verdict dns ip_ok dns_ok = if not dns_ok then some dns_mismatch else none
verdict both ip_ok dns_ok = if not ip_ok || not dns_ok then some both_mismatch else none

abbrev verifies : PeerVerify → Bool
verifies off = false
verifies ip = true
verifies dns = true
verifies both = true

abbrev verifies_ip : PeerVerify → Bool
verifies_ip ip = true
verifies_ip both = true
verifies_ip off = false
verifies_ip dns = false

abbrev verifies_dns : PeerVerify → Bool
verifies_dns dns = true
verifies_dns both = true
verifies_dns off = false
verifies_dns ip = false

unfoldable pub check_peer_origin : NameService → Config → Caller → Option AuthError
unfolding remote_matches_peer_ip remote_matches_peer_dns
check_peer_origin names cfg c =
    if verifies cfg.peer_verify
    then (if has_peer cfg
        then verdict cfg.peer_verify
            (verifies_ip cfg.peer_verify
              && remote_matches_peer_ip names cfg.peer_host (remote_ip_of c))
            (verifies_dns cfg.peer_verify
              && remote_matches_peer_dns names cfg.peer_host (remote_ip_of c))
        else some no_peer)
    else none

-- What requireHAAuth does before the handler: the code of the refusal, or `none` to go on.
abbrev refusal : Option AuthError → Option AuthError → Option ℕ
refusal (some e) origin = some 401
refusal none (some e) = some 403
refusal none none = none

unfoldable pub require_ha_auth : NameService → Config → Caller → Option ℕ
unfolding check_api_token check_peer_origin
require_ha_auth names cfg c =
    refusal (check_api_token cfg c.authorization) (check_peer_origin names cfg c)
