-- ===== src/Prelude/Strings.antt =====
-- Go strings as lists of bytes, and the functions of package strings that the program calls.
use Prim.Native.Nat.{ℕ}
use Prim.Native.Char.{code}
use Prim.Native.String.{String}
use mathlib.Core.Path.{◌≡◌, refl, ap}
use mathlib.Core.Logic.{◌↔◌}
use mathlib.Core.Bool.{Bool, true, false, ◌&&◌, ◌||◌}
use mathlib.Core.Option.{Option, none, some}
use mathlib.Core.List.{List, [], ◌∷◌, ◌++◌}
use native.Mathlib.Omega.{arith}
use pg_guard.Prelude.Tests.{◌==◌, if◌then◌else◌}

abbrev pub Text : Type 0
Text = List ℕ

-- A literal: its code points, which are its bytes in ASCII.
abbrev pub lit : String → Text
lit String.[] = []
lit (String.◌∷◌ c s) = code c ∷ lit s

-- `s == t`
unfoldable pub text_eq : Text → Text → Bool
text_eq [] [] = true
text_eq [] (y ∷ t) = false
text_eq (x ∷ s) [] = false
text_eq (x ∷ s) (y ∷ t) = x == y && text_eq s t

-- `s == ""`
abbrev pub is_empty : Text → Bool
is_empty [] = true
is_empty (x ∷ s) = false

-- strings.HasPrefix(s, p), with the prefix first.
unfoldable pub has_prefix : Text → Text → Bool
has_prefix [] s = true
has_prefix (x ∷ p) [] = false
has_prefix (x ∷ p) (y ∷ s) = x == y && has_prefix p s

-- What follows a prefix, if the text has it.
unfoldable pub strip_prefix : Text → Text → Option Text
strip_prefix [] s = some s
strip_prefix (x ∷ p) [] = none
strip_prefix (x ∷ p) (y ∷ s) = let rest = strip_prefix p s in if x == y then rest else none

pub text_eq-eq : (s t : Text) → text_eq s t ≡ true → s ≡ t
unfolding text_eq
text_eq-eq [] [] h = refl
text_eq-eq [] (y ∷ t) h = ground arith
text_eq-eq (x ∷ s) [] h = ground arith
text_eq-eq (x ∷ s) (y ∷ t) h = ground (arith, text_eq-eq s t)

pub text_eq_refl : (s : Text) → text_eq s s ≡ true
unfolding text_eq
text_eq_refl [] = refl
text_eq_refl (x ∷ s) = ground (arith, text_eq_refl s)

pub text_eq_iff : (s t : Text) → (text_eq s t ≡ true) ↔ (s ≡ t)
text_eq_iff s t = (text_eq-eq s t, λ e. subst_eq s t e)
  where
    subst_eq : (s t : Text) → s ≡ t → text_eq s t ≡ true
    subst_eq s t e = rw e (text_eq_refl t)

pub has_prefix-append : (p s : Text) → has_prefix p (p ++ s) ≡ true
unfolding has_prefix
has_prefix-append [] s = refl
has_prefix-append (x ∷ p) s = ground (arith, has_prefix-append p s)

-- A text has a prefix exactly if something follows it.
pub has_prefix-strip_prefix : (p s : Text) → has_prefix p s ≡ true → (r : Text) × (s ≡ p ++ r)
unfolding has_prefix
has_prefix-strip_prefix [] s h = (s, refl)
has_prefix-strip_prefix (x ∷ p) [] h = absurd (ground arith)
has_prefix-strip_prefix (x ∷ p) (y ∷ s) h =
    let (r, e) = has_prefix-strip_prefix p s (ground arith) in (r, ground arith)

-- strings.HasSuffix(s, p), with the suffix first.
unfoldable pub has_suffix : Text → Text → Bool
unfolding text_eq
has_suffix p [] = is_empty p
has_suffix p (x ∷ s) = text_eq p (x ∷ s) || has_suffix p s

-- strings.TrimSuffix(s, p), where the text has the suffix; the text up to the first place at which
-- what is left equals the suffix.
unfoldable pub trim_suffix : Text → Text → Text
unfolding text_eq
trim_suffix p [] = []
trim_suffix p (x ∷ s) = let rest = trim_suffix p s in if text_eq p (x ∷ s) then [] else x ∷ rest

pub is_empty-append : (u : Text) (q : ℕ) (rest : Text) → is_empty (u ++ (q ∷ rest)) ≡ false
is_empty-append [] q rest = refl
is_empty-append (c ∷ u) q rest = refl

pub append_assoc : (a b c : Text) → (a ++ b) ++ c ≡ a ++ (b ++ c)
append_assoc [] b c = refl
append_assoc (x ∷ a) b c = ap (λ l. x ∷ l) (append_assoc a b c)

pub strip_prefix-append : (p s : Text) → strip_prefix p (p ++ s) ≡ some s
unfolding strip_prefix
strip_prefix-append [] s = refl
strip_prefix-append (x ∷ p) s = ground (arith, strip_prefix-append p s)
