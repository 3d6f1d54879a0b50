-- ===== src/Staging.antt =====
-- Private copies of the TLS files (stageTLSFile of src/tls.go, pgGuardStagingDir of src/tempdir.go),
-- with the paths of a system whose separator is the slash.
pub mod Contents
use pg_guard.Prelude.{
  ℕ, Bool, true, false, Option, none, some, List, [], ◌∷◌, ◌++◌, Text, lit, is_empty, ◌==◌,
  if◌then◌else◌,
}
use pg_guard.StateFile.{Disk, put}

abbrev pub slash : ℕ
slash = 47

-- A path without the slashes at its end.
abbrev keep_unless_slash : ℕ → Text → Text
keep_unless_slash c [] = if c == slash then [] else c ∷ []
keep_unless_slash c (d ∷ s) = c ∷ d ∷ s

pub trim_slashes : Text → Text
trim_slashes [] = []
trim_slashes (c ∷ s) = keep_unless_slash c (trim_slashes s)

-- What stands behind the last slash; `last` is what was read since the one before.
pub after_slash : Text → Text → Text
after_slash last [] = last
after_slash last (c ∷ s) = after_slash (if c == slash then [] else last ++ (c ∷ [])) s

abbrev base_of : Text → Text → Text
base_of [] [] = lit "."
base_of (c ∷ path) [] = lit "/"
base_of path (c ∷ trimmed) = after_slash [] (c ∷ trimmed)

-- filepath.Base
unfoldable pub base_name : Text → Text
unfolding trim_slashes after_slash
base_name path = base_of path (trim_slashes path)

-- The directory for the temporary files of the system is given.
abbrev pub staging_dir : Text → Text → Text
staging_dir temp name = temp ++ (lit "/pg-guard/" ++ name)

-- What the file system answers.
pub record Staging : Type 0 where
  pub temp_dir : Text
  pub makes_dir : Bool
  pub writes : Text → Bool

-- The content that was read, whether the directory can be made, and whether the copy can be written.
abbrev pub copy_if : Option Text → Bool → Bool → Text → Disk → Option Text × Disk
copy_if (some content) true true path disk = (some path, put path (some content) disk)
copy_if content dir writes path disk = (none, disk)

abbrev pub then_more : Text → Option (List Text) × Disk → Option (List Text) × Disk
then_more path (none, disk) = (none, disk)
then_more path (some paths, disk) = (some (path ∷ paths), disk)

abbrev pub stage_more :
    (Disk → Option (List Text) × Disk) → Option Text × Disk → Option (List Text) × Disk
stage_more more (none, disk) = (none, disk)
stage_more more (some path, disk) = then_more path (more disk)

module _ (st : Staging) where
  -- The path of each copy begins so.
  abbrev pub copies : Text
  copies = staging_dir st.temp_dir (lit "tls") ++ lit "/"

  abbrev pub staged_path : Text → Text
  staged_path base = copies ++ base

  -- A write that fails leaves the loader refusing, whatever it has written.
  unfoldable pub stage_tls_file : Text → Disk → Option Text × Disk
  unfolding base_name
  stage_tls_file src disk =
      let path = staged_path (base_name src) in
      copy_if (disk src) st.makes_dir (st.writes path) path disk

  -- The files of a loader, one after another: the certificate, the key, and the authorities if they
  -- are named.
  unfoldable pub stage_files : List Text → Disk → Option (List Text) × Disk
  unfolding stage_tls_file
  stage_files [] disk = (some [], disk)
  stage_files (src ∷ srcs) disk = stage_more (stage_files srcs) (stage_tls_file src disk)

abbrev pub tls_sources : Text → Text → Text → List Text
tls_sources cert key root = cert ∷ (key ∷ (if is_empty root then [] else root ∷ []))
