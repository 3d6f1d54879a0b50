-- ===== src/Child/Commands.antt =====
-- The output that a tool's run leaves behind (runLoggedCommand of src/runcmd.go).
use pg_guard.Prelude.{
  ℕ, Bool, true, false, List, [], ◌∷◌, ◌++◌, ◌≡◌, refl, ap, ◌∙◌, Text, All, IsLine, split_lines,
  split_lines-append, split_lines-IsLine, ◌==◌, if◌then◌else◌, arith,
}
use pg_guard.Child.{
  drop_return, scan_pieces, scan_lines, merge, buffer, ran, exit_status, run_logged_command,
}

-- A list that two lists make up, each in its own order.
pub data Interleaves : List Text → List Text → List Text → Type 0 where
  nothing : Interleaves [] [] []
  from_left :
      {xs ys zs : List Text} (x : Text) → Interleaves xs ys zs → Interleaves (x ∷ xs) ys (x ∷ zs)
  from_right :
      {xs ys zs : List Text} (y : Text) → Interleaves xs ys zs → Interleaves xs (y ∷ ys) (y ∷ zs)

only_right : (ys : List Text) → Interleaves [] ys ys
only_right [] = nothing
only_right (y ∷ ys) = from_right y (only_right ys)

only_left : (xs : List Text) → Interleaves xs [] xs
only_left [] = nothing
only_left (x ∷ xs) = from_left x (only_left xs)

merge-Interleaves : (order : List Bool) (xs ys : List Text) → Interleaves xs ys (merge order xs ys)
unfolding merge
merge-Interleaves order [] ys = only_right ys
merge-Interleaves order (x ∷ xs) [] = only_left (x ∷ xs)
merge-Interleaves [] (x ∷ xs) (y ∷ ys) = from_left x (merge-Interleaves [] xs (y ∷ ys))
merge-Interleaves (true ∷ order) (x ∷ xs) (y ∷ ys) =
    from_left x (merge-Interleaves order xs (y ∷ ys))
merge-Interleaves (false ∷ order) (x ∷ xs) (y ∷ ys) =
    from_right y (merge-Interleaves order (x ∷ xs) ys)

All-merge :
    (order : List Bool) (xs ys : List Text)
    → All IsLine xs
    → All IsLine ys
    → All IsLine (merge order xs ys)
unfolding merge
All-merge order [] ys h k = k
All-merge order (x ∷ xs) [] h k = h
All-merge [] (x ∷ xs) (y ∷ ys) h k = (h.0, All-merge [] xs (y ∷ ys) h.1 k)
All-merge (true ∷ order) (x ∷ xs) (y ∷ ys) h k = (h.0, All-merge order xs (y ∷ ys) h.1 k)
All-merge (false ∷ order) (x ∷ xs) (y ∷ ys) h k = (k.0, All-merge order (x ∷ xs) ys h k.1)

drop_return-IsLine : (l : Text) → IsLine l → IsLine (drop_return l)
unfolding drop_return
drop_return-IsLine [] h = h
drop_return-IsLine (c ∷ []) h = ground arith
drop_return-IsLine (c ∷ d ∷ s) h = (h.0, drop_return-IsLine (d ∷ s) h.1)

scan_pieces-IsLine : (ps : List Text) → All IsLine ps → All IsLine (scan_pieces ps)
unfolding scan_pieces
scan_pieces-IsLine [] h = h
scan_pieces-IsLine (l ∷ []) h = ground (arith, drop_return-IsLine l h.0)
scan_pieces-IsLine (l ∷ m ∷ ls) h =
    ground (arith, drop_return-IsLine l h.0, scan_pieces-IsLine (m ∷ ls) h.1)

scan_lines-IsLine : (s : Text) → All IsLine (scan_lines s)
unfolding scan_lines
scan_lines-IsLine s = scan_pieces-IsLine (split_lines s) (split_lines-IsLine s)

split_lines-buffer : (ls : List Text) → All IsLine ls → split_lines (buffer ls) ≡ ls ++ ([] ∷ [])
unfolding buffer split_lines
split_lines-buffer [] h = refl
split_lines-buffer (l ∷ ls) h =
    split_lines-append l (buffer ls) h.0 ∙ ap (λ m. l ∷ m) (split_lines-buffer ls h.1)

-- A tool that could be started is run to its end, and in whatever order its two streams are read, the
-- text that is kept of them, split at its newlines, is made up of exactly the lines that were
-- read from the one and from the other, each in its order, and an empty rest. The run is an error
-- exactly if the exit status is not 0, and the error has the same text.
pub command_output_kept :
    (order : List Bool) (stdout stderr : Text) (code : ℕ)
    → (kept : List Text) × (text : Text) × Interleaves (scan_lines stdout) (scan_lines stderr) kept
      × (split_lines text ≡ kept ++ ([] ∷ []))
      × (run_logged_command true order stdout stderr code
          ≡ (if code == 0 then ran text else exit_status code text))
unfolding run_logged_command
command_output_kept order stdout stderr code =
    let kept = merge order (scan_lines stdout) (scan_lines stderr) in
    (
      kept,
      buffer kept,
      merge-Interleaves order (scan_lines stdout) (scan_lines stderr),
      split_lines-buffer kept (
          All-merge order (scan_lines stdout) (scan_lines stderr) (scan_lines-IsLine stdout)
            (scan_lines-IsLine stderr)),
      refl,
    )
