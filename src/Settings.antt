-- ===== src/Settings.antt =====
-- The settings as texts, and the functions that read one of them (envOrDefault, envDuration, envInt
-- and envBool of src/config.go, over strconv.Atoi and strconv.ParseBool).
pub mod Tables
pub mod Parts
pub mod Sections
pub mod Loader
pub mod Valid
pub mod Variables
pub mod Dump
pub mod Defaults
use pg_guard.Prelude.{
  ℕ, zero, suc, ℤ, ◌+◌, ◌-◌, ◌*◌, Bool, true, false, ◌&&◌, ◌||◌, Option, none, some, List, [], ◌∷◌,
  Text, lit, text_eq, is_empty, leb, ltb, ◌==◌, if◌then◌else◌,
}

-- Why the settings are refused, with the variable at fault.
pub data Refusal : Type 0 where
  invalid_duration invalid_integer invalid_boolean invalid_value : Text → Refusal
  not_positive out_of_range missing : Text → Refusal
  no_postgres_binary mtls_incomplete tls_staging_failed tls_invalid : Refusal
  textfile_dir_missing same_ports two_backup_targets no_backup_target : Refusal

pub data Load {ℓ} (A : Type ℓ) : Type ℓ where
  accepted : A → Load A
  refused : Refusal → Load A

infixl 5 ◌>>=◌ ◌>>◌
abbrev pub ◌>>=◌ {ℓ κ} : {A : Type ℓ} {B : Type κ} → Load A → (A → Load B) → Load B
accepted a >>= f = f a
refused r >>= f = refused r

abbrev pub ◌>>◌ {κ} : {B : Type κ} → Load (Unit {0}) → Load B → Load B
m >> k = m >>= λ _. k

abbrev pub reject_if : Bool → Refusal → Load (Unit {0})
reject_if true r = refused r
reject_if false r = accepted tt

-- The process environment (an unset variable is empty), and what the start asks of the system: the
-- search for the postgres binary, the host's name, and the staging and loading of TLS files.
-- time.ParseDuration, which computes fractions in floating point, is a parameter too.
pub record Os : Type 0 where
  pub getenv : Text → Text
  pub find_postgres : Option Text
  pub host_name : Option Text
  pub parse_duration : Text → Option ℤ
  pub stage_file : Text → Option Text
  pub loads_key_pair : Text → Text → Bool
  pub loads_authorities : Text → Bool

abbrev pub max_int : ℕ
max_int = 9223372036854775807

abbrev is_decimal : ℕ → Bool
is_decimal c = leb 48 c && leb c 57

-- The digits of a number, each put after what was read so far.
unfoldable pub read_digits : ℕ → Text → Option ℕ
read_digits n [] = some n
read_digits n (c ∷ s) =
    let rest = read_digits (n * 10 + (c - 48)) s in if is_decimal c then rest else none

abbrev read_number : Text → Option ℕ
read_number [] = none
read_number (c ∷ s) = read_digits 0 (c ∷ s)

-- An int holds up to max_int, and down to -max_int - 1.
abbrev signed : Bool → Option ℕ → Option ℤ
signed neg none = none
signed true (some zero) = some (ℤ.pos 0)
signed true (some (suc n)) = if leb n max_int then some (ℤ.negsuc n) else none
signed false (some n) = if leb n max_int then some (ℤ.pos n) else none

unfoldable pub atoi : Text → Option ℤ
unfolding read_digits
atoi [] = none
atoi (c ∷ s) =
    if c == 45
    then signed true (read_number s)
    else if c == 43
    then signed false (read_number s)
    else signed false (read_number (c ∷ s))

abbrev pub one_of : Text → List Text → Bool
one_of v [] = false
one_of v (w ∷ ws) = let rest = one_of v ws in text_eq v w || rest

abbrev pub true_words : List Text
true_words = lit "1" ∷ (lit "t" ∷ (lit "T" ∷ (lit "TRUE" ∷ (lit "true" ∷ (lit "True" ∷ [])))))

abbrev pub false_words : List Text
false_words = lit "0" ∷ (lit "f" ∷ (lit "F" ∷ (lit "FALSE" ∷ (lit "false" ∷ (lit "False" ∷ [])))))

unfoldable pub parse_bool : Text → Option Bool
parse_bool v =
    if one_of v true_words then some true else if one_of v false_words then some false else none

abbrev or_refuse {ℓ} : {A : Type ℓ} → Refusal → Option A → Load A
or_refuse r none = refused r
or_refuse r (some a) = accepted a

module _ (os : Os) where
  unfoldable pub env_or_default : Text → Text → Text
  env_or_default key default = if is_empty (os.getenv key) then default else os.getenv key

  unfoldable pub env_duration : Text → ℤ → Load ℤ
  env_duration key default =
      if is_empty (os.getenv key)
      then accepted default
      else or_refuse (invalid_duration key) (os.parse_duration (os.getenv key))

  unfoldable pub env_int : Text → ℤ → Load ℤ
  env_int key default =
      if is_empty (os.getenv key)
      then accepted default
      else or_refuse (invalid_integer key) (atoi (os.getenv key))

  unfoldable pub env_bool : Text → Bool → Load Bool
  env_bool key default =
      if is_empty (os.getenv key)
      then accepted default
      else or_refuse (invalid_boolean key) (parse_bool (os.getenv key))
