-- ===== src/Auth/Access.antt =====
-- What a caller that passes the checks has shown (src/auth.go).
use pg_guard.Prelude.{
  ◌≡◌, ◌≢◌, ◌⊎◌, inl, inr, refl, ap, ◌∙◌, true, false, none, some, List, [], ◌∷◌, ◌++◌, Text, lit,
  text_eq, text_eq-eq, is_empty, strip_prefix, has_prefix-strip_prefix, Bool-cases, Option-cases,
  arith,
}
use pg_guard.Config.{Config, PeerVerify, off, ip, dns, both, has_peer}
use pg_guard.Auth.{
  Caller, NameService, check_api_token, check_peer_origin, require_ha_auth, any_equal,
  any_names_peer, names_peer, without_dot, remote_matches_peer_ip, remote_matches_peer_dns,
  remote_ip_of,
}

-- The element stands somewhere in the list.
abbrev pub Within : Text → List Text → Type 0
Within x xs = (before : List Text) × (after : List Text) × (xs ≡ before ++ (x ∷ after))

abbrev later : (y : Text) {x : Text} {xs : List Text} → Within x xs → Within x (y ∷ xs)
later y (before, after, e) = (y ∷ before, after, ap (λ l. y ∷ l) e)

any_equal-Within : (x : Text) (xs : List Text) → any_equal x xs ≡ true → Within x xs
unfolding any_equal
any_equal-Within x [] h = absurd (ground arith)
any_equal-Within x (y ∷ ys) h = elim (Bool-cases (text_eq y x)) [
  | inl same ↦ ([], ys, ap (λ z. z ∷ ys) (text_eq-eq y x same))
  | inr other ↦ later y (any_equal-Within x ys (ground (arith, h, other)))
]

-- The name, without a final dot, is the peer's, or the peer's with a domain after it.
abbrev pub NamesPeer : Text → Text → Type 0
NamesPeer peer_host n =
    (without_dot n ≡ peer_host)
    ⊎ ((domain : Text) × (without_dot n ≡ (peer_host ++ lit ".") ++ domain))

names_peer-NamesPeer : (h n : Text) → names_peer h (without_dot n) ≡ true → NamesPeer h n
names_peer-NamesPeer h n p = elim (Bool-cases (text_eq (without_dot n) h)) [
  | inl same ↦ inl (text_eq-eq (without_dot n) h same)
  | inr other ↦
      inr (has_prefix-strip_prefix (h ++ lit ".") (without_dot n) (ground (arith, p, other)))
]

any_names_peer-Within :
    (h : Text) (ns : List Text)
    → any_names_peer h ns ≡ true
    → (n : Text) × Within n ns × NamesPeer h n
unfolding any_names_peer
any_names_peer-Within h [] p = absurd (ground arith)
any_names_peer-Within h (n ∷ ns) p = elim (Bool-cases (names_peer h (without_dot n))) [
  | inl same ↦ (n, ([], ns, refl), names_peer-NamesPeer h n same)
  | inr other ↦
      let (m, w, q) = any_names_peer-Within h ns (ground (arith, p, other)) in (m, later n w, q)
]

-- The address is one that the peer's host name resolves to.
abbrev pub IpOfPeer : NameService → Text → Text → Type 0
IpOfPeer names peer_host address =
    (addresses : List Text) × (names.lookup_host peer_host ≡ some addresses)
    × Within address addresses

-- The address resolves back to a name of the peer.
abbrev pub DnsOfPeer : NameService → Text → Text → Type 0
DnsOfPeer names peer_host address =
    (ns : List Text) × (names.lookup_addr address ≡ some ns)
    × ((n : Text) × Within n ns × NamesPeer peer_host n)

matches-IpOfPeer :
    (names : NameService) (h a : Text)
    → remote_matches_peer_ip names h a ≡ true
    → IpOfPeer names h a
unfolding remote_matches_peer_ip
matches-IpOfPeer names h a m = elim (Option-cases (names.lookup_host h)) [
  | inl failed ↦ absurd (ground (arith, m, failed))
  | inr (xs, found) ↦ (xs, found, any_equal-Within a xs (ground (arith, m, found)))
]

matches-DnsOfPeer :
    (names : NameService) (h a : Text)
    → remote_matches_peer_dns names h a ≡ true
    → DnsOfPeer names h a
unfolding remote_matches_peer_dns
matches-DnsOfPeer names h a m = elim (Option-cases (names.lookup_addr a)) [
  | inl failed ↦ absurd (ground (arith, m, failed))
  | inr (ns, found) ↦ (ns, found, any_names_peer-Within h ns (ground (arith, m, found)))
]

-- The address has been verified against the peer in the way that the setting asks for.
abbrev pub Verified : PeerVerify → NameService → Text → Text → Type 0
Verified off names h a = Unit
Verified ip names h a = IpOfPeer names h a
Verified dns names h a = DnsOfPeer names h a
Verified both names h a = IpOfPeer names h a × DnsOfPeer names h a

-- The header carries the token, if one is set.
abbrev pub HasToken : Text → Text → Type 0
HasToken token header = (is_empty token ≡ true) ⊎ (header ≡ lit "Bearer " ++ token)

strip_prefix-some : (p s r : Text) → strip_prefix p s ≡ some r → s ≡ p ++ r
unfolding strip_prefix
strip_prefix-some [] s r h = ground (arith, h)
strip_prefix-some (x ∷ p) [] r h = absurd (ground (arith, h))
strip_prefix-some (x ∷ p) (y ∷ s) r h = ground (arith, h, strip_prefix-some p s r)

token_passed :
    (cfg : Config) (header : Text)
    → check_api_token cfg header ≡ none
    → HasToken cfg.api_token header
unfolding check_api_token
token_passed cfg header h = elim (Bool-cases (is_empty cfg.api_token)) [
  | inl unset ↦ inl unset
  | inr set ↦ elim (Option-cases (strip_prefix (lit "Bearer ") header)) [
    | inl missing ↦ absurd (ground (arith, h, set, missing))
    | inr (supplied, e) ↦ inr (
        strip_prefix-some (lit "Bearer ") header supplied e
        ∙ ap (λ t. lit "Bearer " ++ t)
            (text_eq-eq supplied cfg.api_token (ground (arith, h, set, e))))
  ]
]

verdict_passed :
    (mode : PeerVerify) (names : NameService) (cfg : Config) (c : Caller)
    → cfg.peer_verify ≡ mode
    → check_peer_origin names cfg c ≡ none
    → Verified mode names cfg.peer_host (remote_ip_of c)
unfolding check_peer_origin
verdict_passed off names cfg c m h = tt
verdict_passed ip names cfg c m h =
    matches-IpOfPeer names cfg.peer_host (remote_ip_of c) (ground (arith, m, h))
verdict_passed dns names cfg c m h =
    matches-DnsOfPeer names cfg.peer_host (remote_ip_of c) (ground (arith, m, h))
verdict_passed both names cfg c m h = (
  matches-IpOfPeer names cfg.peer_host (remote_ip_of c) (ground (arith, m, h)),
  matches-DnsOfPeer names cfg.peer_host (remote_ip_of c) (ground (arith, m, h)),
)

-- The checks let a request pass only if its header carries the API token, when one is set, and its
-- address has been verified against the peer in the way that the setting asks for.
pub verdict_earned :
    (names : NameService) (cfg : Config) (c : Caller)
    → require_ha_auth names cfg c ≡ none
    → HasToken cfg.api_token c.authorization
      × Verified cfg.peer_verify names cfg.peer_host (remote_ip_of c)
unfolding require_ha_auth
verdict_earned names cfg c h = (
  token_passed cfg c.authorization (ground (arith, h)),
  verdict_passed cfg.peer_verify names cfg c refl (ground (arith, h)),
)

-- Without a configured peer every request is refused with 401 or 403 as soon as the setting asks for
-- a verification.
pub no_peer_no_access :
    (names : NameService) (cfg : Config) (c : Caller)
    → has_peer cfg ≡ false
    → cfg.peer_verify ≢ off
    → (require_ha_auth names cfg c ≡ some 401) ⊎ (require_ha_auth names cfg c ≡ some 403)
unfolding require_ha_auth check_peer_origin
no_peer_no_access names cfg c alone on = ground arith
