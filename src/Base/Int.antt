-- ===== src/Base/Int.antt =====
-- C integers. An `int` or `unsigned int` that only counts is held as its 32-bit pattern: unsigned
-- arithmetic wraps, and signed overflow is undefined in C, so the theorems about such counters assume
-- that they stay below 2 ^ 31. An `int` that may be negative is an integer, `ℤ`.
use Prim.Native.Nat.{ℕ, zero, suc, ◌+◌, ◌-◌, ◌%◌, ◌^◌}
use mathlib.Core.Bool.{Bool, true, false, not}
use mathlib.Core.Path.{◌≡◌}
use native.Mathlib.Omega.{arith}
use advanced_c_language_proj.Base.Tests.{leb, ◌==◌, if◌then◌else◌}

abbrev pub add32 : ℕ → ℕ → ℕ
add32 a b = (a + b) % 2 ^ 32

-- `negsuc n` is -(n + 1).
pub data ℤ : Type 0 where
  pos : ℕ → ℤ
  negsuc : ℕ → ℤ

-- a - b, as an integer.
abbrev pub sub_ℕ : ℕ → ℕ → ℤ
sub_ℕ a b = if leb b a then pos (a - b) else negsuc (b - a - 1)

abbrev pub eq_ℤ : ℤ → ℤ → Bool
eq_ℤ (pos a) (pos b) = a == b
eq_ℤ (pos a) (negsuc b) = false
eq_ℤ (negsuc a) (pos b) = false
eq_ℤ (negsuc a) (negsuc b) = a == b

-- `a > 0`
abbrev pub is_positive : ℤ → Bool
is_positive (pos zero) = false
is_positive (pos (suc a)) = true
is_positive (negsuc a) = false

-- `a + 1`
abbrev pub inc : ℤ → ℤ
inc (pos a) = pos (suc a)
inc (negsuc zero) = pos 0
inc (negsuc (suc a)) = negsuc a

-- `a - 1`
abbrev pub dec : ℤ → ℤ
dec (pos zero) = negsuc 0
dec (pos (suc a)) = pos a
dec (negsuc a) = negsuc (suc a)

pub dec-sub_ℕ : (a b : ℕ) → dec (sub_ℕ a b) ≡ sub_ℕ a (suc b)
dec-sub_ℕ a b = ground arith

pub is_positive-sub_ℕ : (a b : ℕ) → is_positive (sub_ℕ a b) ≡ not (leb a b)
is_positive-sub_ℕ a b = ground arith
