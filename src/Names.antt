-- ===== src/Names.antt =====
-- The name of the peer, derived from the node's own (derivePeerHost of src/config.go).
pub mod Pairing
use pg_guard.Prelude.{
  Bool, Option, none, some, ◌++◌, Text, lit, has_suffix, trim_suffix, if◌then◌else◌,
}

abbrev pub first_suffix : Text
first_suffix = lit "-0"

abbrev pub second_suffix : Text
second_suffix = lit "-1"

-- `none` is an error: the name has neither suffix.
unfoldable pub derive_peer_host : Text → Option Text
derive_peer_host hostname =
    if has_suffix first_suffix hostname
    then some (trim_suffix first_suffix hostname ++ second_suffix)
    else if has_suffix second_suffix hostname
    then some (trim_suffix second_suffix hostname ++ first_suffix)
    else none
