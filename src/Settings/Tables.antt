-- ===== src/Settings/Tables.antt =====
-- The words of the settings, strings.Fields, and the tests of numbers (src/config.go).
use pg_guard.Prelude.{
  ℕ, ℤ, ◌*◌, Bool, true, false, Option, none, some, List, [], ◌∷◌, Text, lit, text_eq, is_space,
  ◌==◌, if◌then◌else◌,
}
use pg_guard.Config.{
  second, Policy, require_switchover, best_effort, force, ShutdownMode, switchover_mode,
  reboot_mode, FailoverMode, automatic, manual, BootstrapRole, auto, as_primary, as_standby,
  MetricsMode, endpoint, textfile, both_modes, PeerVerify, off, ip, dns, both,
}
use pg_guard.Settings.{invalid_value, Load, accepted, refused}

abbrev pub choose {ℓ} : {A : Type ℓ} → Text → Option A → Load A
choose key none = refused (invalid_value key)
choose key (some a) = accepted a

-- The `switch` on a setting of a few words: the first that fits.
abbrev pub word {ℓ} : {A : Type ℓ} → Text → List (Text × A) → Option A
word v [] = none
word v ((w, a) ∷ ws) = let rest = word v ws in if text_eq v w then some a else rest

abbrev pub metrics_modes : List (Text × MetricsMode)
metrics_modes =
    (lit "endpoint", endpoint) ∷ ((lit "textfile", textfile) ∷ ((lit "both", both_modes) ∷ []))

abbrev pub peer_verifies : List (Text × PeerVerify)
peer_verifies = (lit "off", off) ∷ ((lit "ip", ip) ∷ ((lit "dns", dns) ∷ ((lit "both", both) ∷ [])))

abbrev pub policies : List (Text × Policy)
policies =
    (lit "require-switchover", require_switchover)
    ∷ ((lit "best-effort", best_effort) ∷ ((lit "force", force) ∷ []))

abbrev pub shutdown_modes : List (Text × ShutdownMode)
shutdown_modes = (lit "switchover", switchover_mode) ∷ ((lit "reboot", reboot_mode) ∷ [])

abbrev pub failover_modes : List (Text × FailoverMode)
failover_modes = (lit "automatic", automatic) ∷ ((lit "manual", manual) ∷ [])

abbrev pub bootstrap_roles : List (Text × BootstrapRole)
bootstrap_roles =
    (lit "auto", auto) ∷ ((lit "primary", as_primary) ∷ ((lit "standby", as_standby) ∷ []))

abbrev pub with_endpoint : MetricsMode → Bool
with_endpoint endpoint = true
with_endpoint textfile = false
with_endpoint both_modes = true

abbrev pub with_textfile : MetricsMode → Bool
with_textfile endpoint = false
with_textfile textfile = true
with_textfile both_modes = true

-- strings.Fields, at ASCII white space: a byte in front of the fields that follow.
abbrev pub push_field : Bool → ℕ → Bool × List Text → Bool × List Text
push_field true c (open_field, fs) = (false, fs)
push_field false c (true, f ∷ fs) = (true, (c ∷ f) ∷ fs)
push_field false c (true, []) = (true, (c ∷ []) ∷ [])
push_field false c (false, fs) = (true, (c ∷ []) ∷ fs)

pub fields_from : Text → Bool × List Text
fields_from [] = (false, [])
fields_from (c ∷ s) = push_field (is_space c) c (fields_from s)

abbrev pub same_port : ℤ → ℤ → Bool
same_port (ℤ.pos a) (ℤ.pos b) = a == b
same_port (ℤ.negsuc a) (ℤ.negsuc b) = a == b
same_port (ℤ.pos a) (ℤ.negsuc b) = false
same_port (ℤ.negsuc a) (ℤ.pos b) = false

-- `n < 1`
abbrev pub below_one : ℤ → Bool
below_one (ℤ.pos n) = n == 0
below_one (ℤ.negsuc n) = true

abbrev pub seconds : ℕ → ℤ
seconds n = ℤ.pos (n * second)
