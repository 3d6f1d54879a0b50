-- ===== src/Prelude/Lines.antt =====
-- strings.Split and strings.Join at newlines, and strings.TrimSpace over ASCII white space.
use Prim.Native.Nat.{ℕ}
use mathlib.Core.Path.{◌≡◌, refl}
use mathlib.Core.Bool.{Bool, true, false, ◌&&◌, ◌||◌}
use mathlib.Core.List.{List, [], ◌∷◌, ◌++◌}
use native.Mathlib.Omega.{arith}
use pg_guard.Prelude.Tests.{◌==◌, leb, if◌then◌else◌}
use pg_guard.Prelude.Lists.{All}
use pg_guard.Prelude.Strings.{Text}

abbrev pub newline : ℕ
newline = 10

-- One byte in front of the lines that follow it.
abbrev pub push_byte : Bool → ℕ → List Text → List Text
push_byte true c ls = [] ∷ ls
push_byte false c [] = (c ∷ []) ∷ []
push_byte false c (l ∷ ls) = (c ∷ l) ∷ ls

-- strings.Split(s, "\n")
unfoldable pub split_lines : Text → List Text
split_lines [] = [] ∷ []
split_lines (c ∷ s) = push_byte (c == newline) c (split_lines s)

-- strings.Join(lines, "\n")
unfoldable pub join_lines : List Text → Text
join_lines [] = []
join_lines (l ∷ []) = l
join_lines (l ∷ m ∷ ls) = l ++ (newline ∷ join_lines (m ∷ ls))

abbrev pub is_space : ℕ → Bool
is_space c = c == 32 || (leb 9 c && leb c 13)

unfoldable pub trim_left : Text → Text
trim_left [] = []
trim_left (c ∷ s) = let rest = trim_left s in if is_space c then rest else c ∷ s

abbrev pub keep_unless_blank : ℕ → Text → Text
keep_unless_blank c [] = if is_space c then [] else c ∷ []
keep_unless_blank c (d ∷ r) = c ∷ d ∷ r

unfoldable pub trim_right : Text → Text
trim_right [] = []
trim_right (c ∷ s) = keep_unless_blank c (trim_right s)

unfoldable pub trim_space : Text → Text
unfolding trim_left trim_right
trim_space s = trim_left (trim_right s)

-- No byte of the text is a newline.
abbrev pub IsLine : Text → Type 0
IsLine = All (λ c. (c == newline) ≡ false)

split_lines_line : (l : Text) → IsLine l → split_lines l ≡ l ∷ []
unfolding split_lines
split_lines_line [] h = refl
split_lines_line (c ∷ l) h = rw (h.0, split_lines_line l h.1) refl

pub split_lines-append :
    (l s : Text) → IsLine l → split_lines (l ++ (newline ∷ s)) ≡ l ∷ split_lines s
unfolding split_lines
split_lines-append [] s h = refl
split_lines-append (c ∷ l) s h = rw (h.0, split_lines-append l s h.1) refl

-- Lines that are joined and split again are the same lines.
pub split_lines-join_lines :
    (l : Text) (ls : List Text) → All IsLine (l ∷ ls) → split_lines (join_lines (l ∷ ls)) ≡ l ∷ ls
unfolding join_lines
split_lines-join_lines l [] h = split_lines_line l h.0
split_lines-join_lines l (m ∷ ls) h =
    rw (split_lines-append l (join_lines (m ∷ ls)) h.0, split_lines-join_lines m ls h.1) refl

push_byte-IsLine :
    (b : Bool) (c : ℕ) (ls : List Text)
    → (b ≡ (c == newline))
    → All IsLine ls
    → All IsLine (push_byte b c ls)
push_byte-IsLine true c ls e h = (tt, h)
push_byte-IsLine false c [] e h = ground arith
push_byte-IsLine false c (l ∷ ls) e h = ground arith

-- What a text is split into has no newlines left.
pub split_lines-IsLine : (s : Text) → All IsLine (split_lines s)
unfolding split_lines
split_lines-IsLine [] = (tt, tt)
split_lines-IsLine (c ∷ s) =
    push_byte-IsLine (c == newline) c (split_lines s) refl (split_lines-IsLine s)
