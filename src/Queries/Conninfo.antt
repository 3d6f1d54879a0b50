-- ===== src/Queries/Conninfo.antt =====
-- How libpq reads a connection string of keywords and values: a value that begins with a quote ends
-- at the next one, any other at the next blank, and a backslash takes the next byte as it is.
use pg_guard.Prelude.{
  ℕ, Option, none, some, List, [], ◌∷◌, ◌++◌, Text, ◌==◌, is_space, if◌then◌else◌,
}

abbrev pub Pairs : Type 0
Pairs = List (Text × Text)

-- Where the reader is; `broken` is a string that libpq refuses.
pub data Mode : Type 0 where
  between broken : Mode
  in_name after_name before_value : Text → Mode
  bare bare_escape quoted quoted_escape : Text → Text → Mode

pub record Reader : Type 0 where
  pub pairs : Pairs
  pub mode : Mode

abbrev at : Pairs → Mode → Reader
at ps m = record { pairs = ps; mode = m }

abbrev add : Pairs → Text → Text → Pairs
add ps key value = ps ++ ((key, value) ∷ [])

abbrev in_bare : ℕ → Pairs → Text → Text → Reader
in_bare c ps key v =
    if is_space c
    then at (add ps key v) between
    else if c == 92
    then at ps (bare_escape key v)
    else at ps (bare key (v ++ (c ∷ [])))

abbrev pub step_in : Mode → ℕ → Pairs → Reader
step_in between c ps = if is_space c then at ps between else at ps (in_name (c ∷ []))
step_in broken c ps = at ps broken
step_in (in_name key) c ps =
    if c == 61
    then at ps (before_value key)
    else if is_space c
    then at ps (after_name key)
    else at ps (in_name (key ++ (c ∷ [])))
step_in (after_name key) c ps =
    if c == 61
    then at ps (before_value key)
    else if is_space c
    then at ps (after_name key)
    else at ps broken
step_in (before_value key) c ps =
    if is_space c
    then at ps (before_value key)
    else if c == 39
    then at ps (quoted key [])
    else in_bare c ps key []
step_in (bare key v) c ps = in_bare c ps key v
step_in (bare_escape key v) c ps = at ps (bare key (v ++ (c ∷ [])))
step_in (quoted key v) c ps =
    if c == 39
    then at (add ps key v) between
    else if c == 92
    then at ps (quoted_escape key v)
    else at ps (quoted key (v ++ (c ∷ [])))
step_in (quoted_escape key v) c ps = at ps (quoted key (v ++ (c ∷ [])))

unfoldable pub read_from : Reader → Text → Reader
read_from r [] = r
read_from r (c ∷ s) = read_from (step_in r.mode c r.pairs) s

-- At the end of the string; a quoted value must have been closed.
abbrev pub at_end : Mode → Pairs → Option Pairs
at_end between ps = some ps
at_end (before_value key) ps = some (add ps key [])
at_end (bare key v) ps = some (add ps key v)
at_end (bare_escape key v) ps = some (add ps key v)
at_end m ps = none

abbrev pub ended : Reader → Option Pairs
ended r = at_end r.mode r.pairs

unfoldable pub read_conninfo : Text → Option Pairs
unfolding read_from
read_conninfo s = ended (read_from (at [] between) s)
