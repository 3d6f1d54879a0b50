-- ===== src/Prelude/Int.antt =====
-- The integers, for durations that a setting may make negative.
use Prim.Native.Nat.{ℕ, suc, ◌+◌, ◌-◌}
use mathlib.Core.Bool.{Bool, true, false}
use pg_guard.Prelude.Tests.{leb}

-- `negsuc n` is -(n + 1).
pub data ℤ : Type 0 where
  pos : ℕ → ℤ
  negsuc : ℕ → ℤ

-- `d <= 0`
abbrev pub is_nonpos : ℤ → Bool
is_nonpos (pos n) = leb n 0
is_nonpos (negsuc n) = true

-- `d < 0`
abbrev pub is_neg : ℤ → Bool
is_neg (pos n) = false
is_neg (negsuc n) = true

-- A time stamp moved by a duration; time stamps are after the epoch.
abbrev pub shift : ℕ → ℤ → ℕ
shift t (pos n) = t + n
shift t (negsuc n) = t - suc n

-- The elapsed time reaches the duration, `elapsed >= d`.
abbrev pub reaches : ℕ → ℤ → Bool
reaches elapsed (pos n) = leb n elapsed
reaches elapsed (negsuc n) = true
