-- ===== src/Hba.antt =====
-- The rewriting of pg_hba.conf (hbaUpsertLine of src/bootstrap.go), on the text of the file.
pub mod Upsert
use pg_guard.Prelude.{
  Bool, true, false, not, ◌||◌, Option, none, some, List, [], ◌∷◌, ◌++◌, Text, text_eq, has_prefix,
  keep_if, split_lines, join_lines, trim_space, if◌then◌else◌,
}

-- `strings.HasPrefix(strings.TrimSpace(line), prefix)`
abbrev pub is_rule : Text → Text → Bool
is_rule prefix line = has_prefix prefix (trim_space line)

-- The two results of the loop over the lines: what is kept, and whether the desired line is there.
pub other_lines : Text → List Text → List Text
other_lines prefix [] = []
other_lines prefix (line ∷ lines) =
    let rest = other_lines prefix lines in if is_rule prefix line then rest else line ∷ rest

pub is_up_to_date : Text → Text → List Text → Bool
is_up_to_date prefix desired [] = false
is_up_to_date prefix desired (line ∷ lines) =
    let rest = is_up_to_date prefix desired lines in
    if is_rule prefix line then text_eq (trim_space line) desired || rest else rest

-- The new text, or `none` if the file is left as it is.
unfoldable pub hba_upsert_line : Text → Text → Text → Option Text
unfolding other_lines is_up_to_date
hba_upsert_line prefix desired raw =
    let lines = split_lines raw in
    if is_up_to_date prefix desired lines
    then none
    else some (join_lines (other_lines prefix lines ++ (desired ∷ [])))
