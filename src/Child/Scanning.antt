-- ===== src/Child/Scanning.antt =====
-- Which lines of the output of postgres are logged again (streamPostgresOutput of src/supervisor.go).
use mathlib.Core.List.{append-nil}
use pg_guard.Prelude.{
  ℕ, ◌≤◌, ◌<◌, Bool, true, false, List, [], ◌∷◌, ◌++◌, map, ◌≡◌, refl, ap, Text, length, All,
  newline, IsLine, split_lines, split_lines-append, append_assoc, arith,
}
use pg_guard.Node.{Node}
use pg_guard.Child.{
  max_token, drop_return, scan_pieces, scan_lines, log_at, stream_postgres_output, buffer,
}

-- A line that fits into the scanner, with its newline.
abbrev pub Fits : Text → Type 0
Fits l = length l < max_token

abbrev pub head_length : List Text → ℕ
head_length [] = 0
head_length (l ∷ ls) = length l

abbrev has_pieces : List Text → Bool
has_pieces [] = false
has_pieces (l ∷ ls) = true

split_lines_pieces : (s : Text) → has_pieces (split_lines s) ≡ true
unfolding split_lines
split_lines_pieces [] = refl
split_lines_pieces (c ∷ s) = ground (arith, split_lines_pieces s)

scan_pieces-Fits :
    (l : Text) (ps : List Text)
    → Fits l
    → has_pieces ps ≡ true
    → scan_pieces (l ∷ ps) ≡ drop_return l ∷ scan_pieces ps
unfolding scan_pieces
scan_pieces-Fits l [] h k = absurd (ground arith)
scan_pieces-Fits l (m ∷ ps) h k = ground arith

-- A line that fits is found, and the scan goes on behind it.
pub scan_lines-Fits :
    (l s : Text)
    → IsLine l
    → Fits l
    → scan_lines (l ++ (newline ∷ s)) ≡ drop_return l ∷ scan_lines s
unfolding scan_lines
scan_lines-Fits l s h k =
    rw (split_lines-append l s h) (scan_pieces-Fits l (split_lines s) k (split_lines_pieces s))

head_length-append : (x rest : Text) → IsLine x → length x ≤ head_length (split_lines (x ++ rest))
unfolding split_lines
head_length-append [] rest h = omega arith
head_length-append (c ∷ x) rest h = ground (arith, head_length-append x rest h.1)

scan_pieces_long : (ps : List Text) → max_token ≤ head_length ps → scan_pieces ps ≡ []
unfolding scan_pieces
scan_pieces_long [] h = refl
scan_pieces_long (l ∷ []) h = ground arith
scan_pieces_long (l ∷ m ∷ ls) h = ground arith

-- A line that does not fit ends the scan: nothing behind it is found.
scan_lines_long : (x rest : Text) → IsLine x → max_token ≤ length x → scan_lines (x ++ rest) ≡ []
unfolding scan_lines
scan_lines_long x rest h k =
    scan_pieces_long (split_lines (x ++ rest)) (omega (arith, head_length-append x rest h))

scan_lines_none : scan_lines [] ≡ []
unfolding scan_lines
scan_lines_none = refl

pub scan_lines-buffer :
    (ls : List Text) (rest : Text)
    → All IsLine ls
    → All Fits ls
    → scan_lines (buffer ls ++ rest) ≡ map drop_return ls ++ scan_lines rest
unfolding buffer
scan_lines-buffer [] rest h k = refl
scan_lines-buffer (l ∷ ls) rest h k =
    rw (append_assoc l (newline ∷ buffer ls) rest, scan_lines-Fits l (buffer ls ++ rest) h.0 k.0)
      (ap (λ m. drop_return l ∷ m) (scan_lines-buffer ls rest h.1 k.1))

-- What is found of lines that fit, and of lines that fit in front of one that does not.
scan_lines_buffered :
    (ls : List Text) → All IsLine ls → All Fits ls → scan_lines (buffer ls) ≡ map drop_return ls
scan_lines_buffered ls h k =
    rw (append-nil (buffer ls), scan_lines_none, append-nil (map drop_return ls)) at
      (scan_lines-buffer ls [] h k)

scan_lines_until :
    (ls : List Text) (x rest : Text)
    → All IsLine ls
    → All Fits ls
    → IsLine x
    → max_token ≤ length x
    → scan_lines (buffer ls ++ (x ++ rest)) ≡ map drop_return ls
scan_lines_until ls x rest h k hx long =
    rw (scan_lines_long x rest hx long, append-nil (map drop_return ls)) at
      (scan_lines-buffer ls (x ++ rest) h k)

-- As long as the lines of postgres fit into the scanner (each less than 65536 bytes), every one of
-- them is logged again, in order, once, at the level that it is classified at, without the carriage
-- return. The first line that does not fit ends the logging: neither it nor anything that postgres
-- writes afterwards, whatever it is, is logged.
pub logging_ends_at_long_line :
    (marks : ℕ → Node) (ls : List Text) (x rest : Text)
    → All IsLine ls
    → All Fits ls
    → IsLine x
    → max_token ≤ length x
    → let logged = log_at marks 0 (map drop_return ls) in
      (stream_postgres_output marks (buffer ls) ≡ logged)
      × (stream_postgres_output marks (buffer ls ++ (x ++ rest)) ≡ logged)
unfolding stream_postgres_output
logging_ends_at_long_line marks ls x rest h k hx long = (
  ap (log_at marks 0) (scan_lines_buffered ls h k),
  ap (log_at marks 0) (scan_lines_until ls x rest h k hx long),
)
