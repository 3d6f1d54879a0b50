-- ===== src/Hba/Upsert.antt =====
-- What the rewriting of pg_hba.conf leaves in the file (src/bootstrap.go).
use pg_guard.Prelude.{
  ◌≡◌, refl, true, not, none, some, List, [], ◌∷◌, ◌++◌, Text, All, IsLine, text_eq_refl,
  has_prefix, keep_if, split_lines, join_lines, trim_space, arith, split_lines-join_lines,
  split_lines-IsLine,
}
use pg_guard.Hba.{is_rule, other_lines, is_up_to_date, hba_upsert_line}

-- The lines that the prefix marks, and those that it does not.
abbrev pub rules : Text → Text → List Text
rules prefix raw = keep_if (is_rule prefix) (split_lines raw)

abbrev pub others : Text → Text → List Text
others prefix raw = keep_if (λ l. not (is_rule prefix l)) (split_lines raw)

-- A desired line as the callers write it: one line, no white space around it, the prefix in front.
pub record IsRule (prefix desired : Text) : Type 0 where
  pub one_line : IsLine desired
  pub trimmed : trim_space desired ≡ desired
  pub prefixed : has_prefix prefix desired ≡ true

module _ (prefix : Text) where
  other_lines-IsLine : (ls : List Text) → All IsLine ls → All IsLine (other_lines prefix ls)
  unfolding other_lines
  other_lines-IsLine [] h = tt
  other_lines-IsLine (l ∷ ls) h = ground (arith, other_lines-IsLine ls h.1)

  All-append_one :
      (ls : List Text) (d : Text) → All IsLine ls → IsLine d → All IsLine (ls ++ (d ∷ []))
  All-append_one [] d h k = (k, tt)
  All-append_one (l ∷ ls) d h k = (h.0, All-append_one ls d h.1 k)

  -- Joining what is kept and splitting it again changes nothing.
  split-written :
      (ls : List Text) (d : Text)
      → All IsLine ls
      → IsLine d
      → split_lines (join_lines (ls ++ (d ∷ []))) ≡ ls ++ (d ∷ [])
  split-written [] d h k = split_lines-join_lines d [] (k, tt)
  split-written (l ∷ ls) d h k =
      split_lines-join_lines l (ls ++ (d ∷ [])) (All-append_one (l ∷ ls) d h k)

  module _ (desired : Text) (r : IsRule prefix desired) where
    desired-is_rule : is_rule prefix desired ≡ true
    desired-is_rule = rw r.trimmed r.prefixed

    keep-rules :
        (ls : List Text)
        → keep_if (is_rule prefix) (other_lines prefix ls ++ (desired ∷ [])) ≡ desired ∷ []
    unfolding other_lines
    keep-rules [] = rw desired-is_rule refl
    keep-rules (l ∷ ls) = ground (arith, keep-rules ls)

    keep-others :
        (ls : List Text)
        → keep_if (λ l. not (is_rule prefix l)) (other_lines prefix ls ++ (desired ∷ []))
          ≡ keep_if (λ l. not (is_rule prefix l)) ls
    unfolding other_lines
    keep-others [] = rw desired-is_rule refl
    keep-others (l ∷ ls) = ground (arith, keep-others ls)

    found-last :
        (ls : List Text)
        → is_up_to_date prefix desired (other_lines prefix ls ++ (desired ∷ [])) ≡ true
    unfolding other_lines is_up_to_date
    found-last [] = rw (desired-is_rule, r.trimmed, text_eq_refl desired) refl
    found-last (l ∷ ls) = ground (arith, found-last ls)

    -- When the file is rewritten, the new file has exactly one line with the prefix, the desired
    -- one, and its other lines are those of the old file, in their order.
    pub upsert_writes_rule :
        (raw : Text) {new : Text}
        → hba_upsert_line prefix desired raw ≡ some new
        → (rules prefix new ≡ desired ∷ []) × (others prefix new ≡ others prefix raw)
    unfolding hba_upsert_line
    upsert_writes_rule raw h = ground (
      arith,
      split-written (other_lines prefix (split_lines raw)) desired
          (other_lines-IsLine (split_lines raw) (split_lines-IsLine raw)) r.one_line,
      keep-rules (split_lines raw),
      keep-others (split_lines raw),
    )

    -- A file that was just rewritten is left alone by the next call.
    pub upsert_twice :
        (raw : Text) {new : Text}
        → hba_upsert_line prefix desired raw ≡ some new
        → hba_upsert_line prefix desired new ≡ none
    unfolding hba_upsert_line
    upsert_twice raw h = ground (
      arith,
      split-written (other_lines prefix (split_lines raw)) desired
          (other_lines-IsLine (split_lines raw) (split_lines-IsLine raw)) r.one_line,
      found-last (split_lines raw),
    )

    -- A stale line with the prefix survives beside the desired line: a file of these two lines is
    -- left as it is, and keeps both.
    pub stale_rule_survives :
        (stale : Text)
        → IsLine stale
        → is_rule prefix stale ≡ true
        → let raw = join_lines (stale ∷ desired ∷ []) in
          (hba_upsert_line prefix desired raw ≡ none) × (rules prefix raw ≡ stale ∷ desired ∷ [])
    unfolding hba_upsert_line is_up_to_date
    stale_rule_survives stale one_line rule = ground (
      arith,
      split_lines-join_lines stale (desired ∷ []) (one_line, (r.one_line, tt)),
      desired-is_rule,
      r.trimmed,
      text_eq_refl desired,
    )
