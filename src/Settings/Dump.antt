-- ===== src/Settings/Dump.antt =====
-- The print of the configuration at the start (dumpConfig and isSecretVar of src/config.go). The count of
-- the characters of a text, by which package fmt pads a column, is a parameter.
use pg_guard.Prelude.{
  ℕ, zero, suc, ◌-◌, ◌≡◌, refl, Bool, true, false, not, ◌&&◌, ◌||◌, List, [], ◌∷◌, ◌++◌, Text, lit,
  text_eq, is_empty, strip_prefix, if◌then◌else◌, arith,
}
use pg_guard.Log.Severity.{contains, after_first}
use pg_guard.Settings.{one_of}
use pg_guard.Settings.Variables.{VarDef, var_defs}

unfoldable pub is_secret_var : Text → Bool
is_secret_var name = contains (lit "PASSWORD") name || contains (lit "TOKEN") name

abbrev blanks : ℕ → Text
blanks zero = []
blanks (suc n) = 32 ∷ blanks n

-- `fmt.Sprintf("%-<n>s", s)`
abbrev pad_right : (Text → ℕ) → ℕ → Text → Text
pad_right characters n s = s ++ blanks (n - characters s)

module _ (getenv : Text → Text) where
  -- What is printed as the value of a variable.
  unfoldable pub current : VarDef → Text
  current vd =
      if is_empty (getenv vd.name)
      then vd.def ++ lit " (default)"
      else if is_secret_var vd.name
      then lit "(set, redacted)"
      else getenv vd.name

  unfoldable pub dump_vars : (Text → ℕ) → List VarDef → Text
  dump_vars characters [] = []
  dump_vars characters (vd ∷ vds) =
      lit "  "
      ++ pad_right characters 22 vd.name
      ++ lit " "
      ++ pad_right characters 28 (current vd)
      ++ lit " "
      ++ vd.desc
      ++ lit "\n"
      ++ dump_vars characters vds

  unfoldable pub dump_config : (Text → ℕ) → Text
  dump_config characters = lit "pg-guard configuration:\n" ++ dump_vars characters var_defs

-- The settings that are secret.
abbrev pub secrets : List Text
secrets = lit "POSTGRES_PASSWORD" ∷ (lit "PG_GUARD_REPL_PASSWORD" ∷ (lit "PG_GUARD_API_TOKEN" ∷ []))

-- The secrets of a table are redacted.
abbrev all_redacted : List VarDef → Bool
all_redacted [] = true
all_redacted (vd ∷ vds) =
    (is_secret_var vd.name || not (one_of vd.name secrets)) && all_redacted vds

var_defs-redacted : all_redacted var_defs ≡ true
unfolding var_defs is_secret_var after_first strip_prefix text_eq
var_defs-redacted = refl

module _ (getenv other : Text → Text)
    (same_open : (key : Text) → one_of key secrets ≡ false → getenv key ≡ other key)
    (same_set : (key : Text) → is_empty (getenv key) ≡ is_empty (other key)) where
  current_agrees :
      (vd : VarDef)
      → (is_secret_var vd.name || not (one_of vd.name secrets)) ≡ true
      → current getenv vd ≡ current other vd
  unfolding current
  current_agrees vd h = ground (arith, same_open vd.name, same_set vd.name)

  dump_vars_agrees :
      (characters : Text → ℕ) (vds : List VarDef)
      → all_redacted vds ≡ true
      → dump_vars getenv characters vds ≡ dump_vars other characters vds
  unfolding dump_vars
  dump_vars_agrees characters [] h = refl
  dump_vars_agrees characters (vd ∷ vds) h =
      rw (current_agrees vd (ground arith), dump_vars_agrees characters vds (ground arith)) refl

  -- Two environments that set the same variables, and give them the same values except for the three
  -- secrets (the two passwords and the token of the API), print the same configuration: what is
  -- printed says of a secret only whether it is set.
  pub dump_hides_secrets :
      (characters : Text → ℕ) → dump_config getenv characters ≡ dump_config other characters
  unfolding dump_config
  dump_hides_secrets characters = rw (dump_vars_agrees characters var_defs var_defs-redacted) refl
