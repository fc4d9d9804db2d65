-- ===== src/Base/Decimal.antt =====
-- The digits that `%d` prints.
use Prim.Native.Nat.{ℕ, zero, suc, ◌+◌, ◌-◌, ◌*◌, ◌/◌, ◌^◌, ◌≤◌, ◌<◌}
use mathlib.Core.Path.{◌≡◌, ◌∙◌, sym, ap}
use mathlib.Core.Logic.{inl, inr}
use mathlib.Core.List.{[], ◌∷◌, reverse, reverse_aux, reverse-reverse}
use native.Mathlib.Omega.{arith}
use advanced_c_language_proj.Base.Tests.{◌==◌, Bool-cases}
use advanced_c_language_proj.Base.Lists.{All, length}
use advanced_c_language_proj.Base.Text.{Text, digits_from, decimal}

-- The number with the given digits, the last one first.
abbrev value : Text → ℕ
value [] = 0
value (c ∷ s) = (c - b'0') + 10 * value s

value-digits_from : (fuel n : ℕ) → n < fuel → value (digits_from fuel n) ≡ n
unfolding digits_from
value-digits_from zero n h = absurd (omega arith)
value-digits_from (suc fuel) n h = elim (Bool-cases (n / 10 == 0)) [
  | inl e ↦ rw e (ground (arith, e))
  | inr e ↦ rw e (ground (arith, e, value-digits_from fuel (n / 10)))
]

abbrev pub IsDigit : ℕ → Type 0
IsDigit c = (b'0' ≤ c) × (c ≤ b'9')

digits_from-IsDigit : (fuel n : ℕ) → All IsDigit (digits_from fuel n)
unfolding digits_from
digits_from-IsDigit zero n = tt
digits_from-IsDigit (suc fuel) n = elim (Bool-cases (n / 10 == 0)) [
  | inl e ↦ rw e ((omega arith, omega arith), tt)
  | inr e ↦ rw e ((omega arith, omega arith), digits_from-IsDigit fuel (n / 10))
]

length-digits_from : (k fuel n : ℕ) → n < 10 ^ suc k → length (digits_from fuel n) ≤ suc k
unfolding digits_from
length-digits_from k zero n h = omega arith
length-digits_from zero (suc fuel) n h = let e : n / 10 ≡ 0 = omega arith in rw e (omega arith)
length-digits_from (suc k) (suc fuel) n h =
    let rest = length-digits_from k fuel (n / 10) (omega arith) in
    elim (Bool-cases (n / 10 == 0)) [
      | inl e ↦ rw e (omega arith)
      | inr e ↦ rw e (omega (arith, rest))
    ]

All-reverse_aux {κ} : (P : ℕ → Type κ) (s t : Text) → All P s → All P t → All P (reverse_aux s t)
All-reverse_aux P [] t h h' = h'
All-reverse_aux P (c ∷ s) t h h' = All-reverse_aux P s (c ∷ t) h.1 (h.0, h')

length-reverse_aux : (s t : Text) → length (reverse_aux s t) ≡ length s + length t
length-reverse_aux [] t = omega arith
length-reverse_aux (c ∷ s) t = length-reverse_aux s (c ∷ t) ∙ omega arith

pub decimal-IsDigit : (n : ℕ) → All IsDigit (decimal n)
unfolding decimal
decimal-IsDigit n =
    All-reverse_aux IsDigit (digits_from (n + 1) n) [] (digits_from-IsDigit (n + 1) n) tt

pub length-decimal : (k n : ℕ) → n < 10 ^ suc k → length (decimal n) ≤ suc k
unfolding decimal
length-decimal k n h =
    omega (arith, length-reverse_aux (digits_from (n + 1) n) [], length-digits_from k (n + 1) n h)

pub decimal_injective : (n m : ℕ) → decimal n ≡ decimal m → n ≡ m
unfolding decimal
decimal_injective n m e =
    let same : digits_from (n + 1) n ≡ digits_from (m + 1) m =
      sym (reverse-reverse (digits_from (n + 1) n))
      ∙ (ap reverse e ∙ reverse-reverse (digits_from (m + 1) m)) in
    sym (value-digits_from (n + 1) n (omega arith))
    ∙ (ap value same ∙ value-digits_from (m + 1) m (omega arith))
