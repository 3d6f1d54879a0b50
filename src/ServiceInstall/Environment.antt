-- ===== src/ServiceInstall/Environment.antt =====
-- What a service that was installed finds in its environment (src/service_install_windows.go).
use pg_guard.Prelude.{
  ℕ, Bool, true, not, ◌&&◌, leb, is_empty, Option, none, some, List, [], ◌∷◌, ◌++◌, ◌≡◌, refl, Text,
  text_eq, text_eq-eq, strip_prefix, ◌==◌, if◌then◌else◌, All, arith,
}
use pg_guard.Settings.{one_of}
use pg_guard.ServiceInstall.{
  Machine, Windows, done, equals, service_env_vars, environment_lines, write_service_environment,
  grant_network_service_access, install_service,
}

-- No byte of a name is an equals sign or a small letter. Windows does not tell small letters from
-- capitals in names; the names that the program reads are all in capitals.
abbrev is_name_byte : ℕ → Bool
is_name_byte c = not (c == 61) && not (leb 97 c && leb c 122)

abbrev pub IsName : Text → Type 0
IsName = All (λ c. is_name_byte c ≡ true)

abbrev value_or : Option Text → Text → Text
value_or none rest = rest
value_or (some v) rest = v

-- How Windows reads a variable of a service: the line of its own environment that begins with the
-- name and the equals sign, and without one the system's variable of that name (empty if unset).
unfoldable pub read_variable : (Text → Text) → Text → List Text → Text
read_variable system name [] = system name
read_variable system name (l ∷ ls) =
    value_or (strip_prefix (name ++ equals) l) (read_variable system name ls)

strip_name :
    (n v val : Text)
    → IsName n
    → IsName v
    → strip_prefix (n ++ equals) (v ++ equals ++ val) ≡ (if text_eq n v then some val else none)
unfolding strip_prefix text_eq
strip_name [] [] val hn hv = refl
strip_name [] (y ∷ v) val hn hv = ground arith
strip_name (x ∷ n) [] val hn hv = ground arith
strip_name (x ∷ n) (y ∷ v) val hn hv = ground (arith, strip_name n v val)

read_variable-environment_lines :
    (system getenv : Text → Text) (names : List Text) (n : Text)
    → IsName n
    → All IsName names
    → read_variable system n (environment_lines getenv names)
      ≡ (if one_of n names && not (is_empty (getenv n)) then getenv n else system n)
unfolding read_variable environment_lines
read_variable-environment_lines system getenv [] n hn h = refl
read_variable-environment_lines system getenv (v ∷ names) n hn h = ground (
  arith,
  strip_name n v (getenv v) hn h.0,
  text_eq-eq n v,
  read_variable-environment_lines system getenv names n hn h.1,
)

names_IsName : All IsName service_env_vars
names_IsName = ground arith

abbrev pub lines_of : Option (List Text) → List Text
lines_of none = []
lines_of (some ls) = ls

installed_lines :
    (w : Windows) (getenv : Text → Text) (m : Machine)
    → m.environment ≡ none
    → (install_service w getenv m).0 ≡ done
    → lines_of (install_service w getenv m).1.environment
      ≡ environment_lines getenv service_env_vars
unfolding install_service write_service_environment grant_network_service_access
installed_lines w getenv m clean h = ground arith

-- An installation that succeeds, on a machine that holds no environment of the service yet: the
-- service finds each of the eleven listed variables that was set for the installer with the
-- installer's value. For every other variable whose name is in capitals it finds what the system
-- gives all services, whatever the installer had there.
pub installed_environment :
    (w : Windows) (system getenv : Text → Text) (m : Machine) (name : Text)
    → m.environment ≡ none
    → IsName name
    → (install_service w getenv m).0 ≡ done
    → read_variable system name (lines_of (install_service w getenv m).1.environment) ≡ (
        if one_of name service_env_vars && not (is_empty (getenv name))
        then getenv name
        else system name)
installed_environment w system getenv m name clean plain h =
    rw (installed_lines w getenv m clean h)
      (read_variable-environment_lines system getenv service_env_vars name plain names_IsName)
