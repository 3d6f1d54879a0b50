-- ===== src/Detect.antt =====
-- The search for the postgres binary where none is set (detectPostgresBin of src/detect_linux.go and
-- of src/detect_windows.go).
pub mod Only
use pg_guard.Prelude.{
  Bool, true, false, not, ◌&&◌, ◌||◌, Option, none, some, List, [], ◌∷◌, ◌++◌, Text, text_eq,
  is_empty, if◌then◌else◌,
}
use pg_guard.Settings.{one_of}

pub data Detected : Type 0 where
  no_binary : Detected
  one_binary : Text → Detected
  several_binaries : List Text → Detected

-- The `switch` at the end of both.
abbrev pub by_count : List Text → Detected
by_count [] = no_binary
by_count (p ∷ []) = one_binary p
by_count (p ∷ q ∷ ps) = several_binaries (p ∷ q ∷ ps)

module _ (exists : Text → Bool) where
  -- The closure `add`; what was seen is what was found.
  unfoldable pub add_path : Text → List Text → List Text
  unfolding text_eq
  add_path path found =
      if is_empty path || one_of path found
      then found
      else if exists path
      then found ++ (path ∷ [])
      else found

  unfoldable pub add_paths : List Text → List Text → List Text
  unfolding add_path
  add_paths [] found = found
  add_paths (path ∷ paths) found = add_paths paths (add_path path found)

  abbrev pub candidates : List Text → Option Text → List Text
  candidates matches none = matches
  candidates matches (some p) = matches ++ (p ∷ [])

  -- The matches of the glob, and what the search on PATH found.
  unfoldable pub detect_on_linux : List Text → Option Text → Detected
  unfolding add_paths
  detect_on_linux matches on_path = by_count (add_paths (candidates matches on_path) [])

  -- The base directories of the installations in the registry, where they can be read.
  unfoldable pub usable_bins : (Text → Text) → List (Option Text) → List Text
  usable_bins binary_in [] = []
  usable_bins binary_in (none ∷ bases) = usable_bins binary_in bases
  usable_bins binary_in (some base ∷ bases) =
      let rest = usable_bins binary_in bases in
      if is_empty base
      then rest
      else if exists (binary_in base)
      then binary_in base ∷ rest
      else rest

  abbrev by_registry : (Text → Text) → Option (List (Option Text)) → Detected
  by_registry binary_in none = no_binary
  by_registry binary_in (some bases) = by_count (usable_bins binary_in bases)

  -- Without the key of the installations, or without names in it, there is none.
  unfoldable pub detect_on_windows : (Text → Text) → Option (List (Option Text)) → Detected
  unfolding usable_bins
  detect_on_windows binary_in installations = by_registry binary_in installations
