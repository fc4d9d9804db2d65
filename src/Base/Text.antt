-- ===== src/Base/Text.antt =====
-- C strings: the bytes before the terminating zero, and the functions of string.h that are used.
use Prim.Native.Char.{code}
use Prim.Native.String.{String}
use Prim.Native.Nat.{ℕ, zero, suc, ◌+◌, ◌≤◌, ◌/◌, ◌%◌}
use mathlib.Core.Path.{◌≡◌, refl}
use mathlib.Core.Logic.{◌↔◌, ◌≢◌, inl, inr}
use mathlib.Core.Bool.{Bool, true, false, ◌&&◌, ◌||◌}
use mathlib.Core.List.{List, [], ◌∷◌, ◌++◌, reverse}
use mathlib.Core.Option.{Option, none, some}
use native.Mathlib.Omega.{arith}
use advanced_c_language_proj.Base.Tests.{◌==◌, leb, if◌then◌else◌, Option-cases}
use advanced_c_language_proj.Base.Lists.{All, length, drop}

abbrev pub Text : Type 0
Text = List ℕ

-- The bytes of an ASCII literal.
abbrev pub codes : String → Text
codes String.[] = []
codes (String.◌∷◌ c s) = code c ∷ codes s

-- `strcmp(s, t) == 0`
unfoldable pub str_eq : Text → Text → Bool
str_eq [] [] = true
str_eq [] (d ∷ t) = false
str_eq (c ∷ s) [] = false
str_eq (c ∷ s) (d ∷ t) = c == d && str_eq s t

pub str_eq_refl : (s : Text) → str_eq s s ≡ true
unfolding str_eq
str_eq_refl [] = refl
str_eq_refl (c ∷ s) = ground (arith, str_eq_refl s)

pub str_eq_sound : (s t : Text) → str_eq s t ≡ true → s ≡ t
unfolding str_eq
str_eq_sound [] [] h = refl
str_eq_sound [] (d ∷ t) h = cc
str_eq_sound (c ∷ s) [] h = cc
str_eq_sound (c ∷ s) (d ∷ t) h = ground (arith, str_eq_sound s t)

pub str_eq_iff : (s t : Text) → (str_eq s t ≡ true) ↔ (s ≡ t)
str_eq_iff s t = (str_eq_sound s t, λ e. rw e (str_eq_refl t))

-- `strncmp(s, p, strlen(p)) == 0`: `p` stands at the front of `s`.
unfoldable pub starts_with : Text → Text → Bool
starts_with [] s = true
starts_with (c ∷ p) [] = false
starts_with (c ∷ p) (d ∷ s) = c == d && starts_with p s

pub starts_with-append : (p s : Text) → starts_with p (p ++ s) ≡ true
unfolding starts_with
starts_with-append [] s = refl
starts_with-append (c ∷ p) s = ground (arith, starts_with-append p s)

-- `strrchr(s, c) + 1`: what stands after the last `c`, if there is one.
unfoldable pub after_last : ℕ → Text → Option Text
after_last c [] = none
after_last c (d ∷ s) = elim (after_last c s) [
  | some t ↦ some t
  | none ↦ if d == c then some s else none
]

abbrev pub Absent : ℕ → Text → Type 0
Absent c s = All (λ d. d ≢ c) s

pub after_last-eq-none : (c : ℕ) (s : Text) → after_last c s ≡ none → Absent c s
unfolding after_last
after_last-eq-none c [] h = tt
after_last-eq-none c (d ∷ s) h = elim (Option-cases (after_last c s)) [
  | inl e ↦ (ground arith, after_last-eq-none c s e)
  | inr (t, e) ↦ ground (arith, e)
]

pub after_last-eq-some :
    (c : ℕ) (s t : Text)
    → after_last c s ≡ some t
    → (front : Text) × (s ≡ front ++ c ∷ t) × Absent c t
unfolding after_last
after_last-eq-some c [] t h = cc
after_last-eq-some c (d ∷ s) t h = elim (Option-cases (after_last c s)) [
  | inl e ↦
      let last : (d ≡ c) × (s ≡ t) = ground arith in
      ([], ground (arith, last), rw (last.1) at (after_last-eq-none c s e))
  | inr (u, e) ↦
      let same : u ≡ t = ground arith in
      let (front, split, free) = after_last-eq-some c s u e in
      (d ∷ front, ground (arith, split, same), rw same at free)
]

after_last-Absent : (c : ℕ) (t : Text) → Absent c t → after_last c t ≡ none
unfolding after_last
after_last-Absent c [] h = refl
after_last-Absent c (d ∷ t) h = ground (arith, after_last-Absent c t h.1)

pub after_last-append : (c : ℕ) (s t : Text) → Absent c t → after_last c (s ++ c ∷ t) ≡ some t
unfolding after_last
after_last-append c [] t h = ground (arith, after_last-Absent c t h)
after_last-append c (d ∷ s) t h = ground (arith, after_last-append c s t h)

-- `isspace`
abbrev pub is_space : ℕ → Bool
is_space c = c == b' ' || (leb 9 c && leb c 13)

-- What is left behind the characters at the front that pass a test.
unfoldable pub skip : (ℕ → Bool) → Text → Text
skip p [] = []
skip p (c ∷ s) = let rest = skip p s in if p c then rest else c ∷ s

-- At most `n` characters that do not pass a test, and what stands behind them.
unfoldable pub scan : ℕ → (ℕ → Bool) → Text → Text × Text
scan zero p s = ([], s)
scan (suc n) p [] = ([], [])
scan (suc n) p (c ∷ s) =
    let (word, rest) = scan n p s in if p c then ([], c ∷ s) else (c ∷ word, rest)

-- The text that a C function reads from an array: up to the first zero byte.
unfoldable pub c_string : Text → Text
c_string [] = []
c_string (c ∷ s) = if c == 0 then [] else c ∷ c_string s

pub c_string_of_Absent : (s : Text) → Absent 0 s → c_string s ≡ s
unfolding c_string
c_string_of_Absent [] h = refl
c_string_of_Absent (c ∷ s) h = ground (arith, c_string_of_Absent s h.1)

-- `%d` of a number that is not negative: its digits, the last one first.
unfoldable pub digits_from : ℕ → ℕ → Text
digits_from zero n = []
digits_from (suc fuel) n =
    let more = digits_from fuel (n / 10) in (b'0' + n % 10) ∷ (if n / 10 == 0 then [] else more)

unfoldable pub decimal : ℕ → Text
unfolding digits_from
decimal n = reverse (digits_from (n + 1) n)

-- One call of `strtok` with one delimiter: the next token and what stands behind the delimiter that
-- ends it, if there is a token.
unfoldable pub next_token : ℕ → Text → Option (Text × Text)
unfolding skip scan
next_token delim s = elim (skip (λ c. c == delim) s) [
  | [] ↦ none
  | c ∷ t ↦
      let (token, rest) = scan (length (c ∷ t)) (λ d. d == delim) (c ∷ t) in
      some (token, drop 1 rest)
]

pub starts_with-eq-true : (p s : Text) → starts_with p s ≡ true → (rest : Text) × (s ≡ p ++ rest)
unfolding starts_with
starts_with-eq-true [] s h = (s, refl)
starts_with-eq-true (c ∷ p) [] h = cc
starts_with-eq-true (c ∷ p) (d ∷ s) h =
    let (rest, e) = starts_with-eq-true p s (ground arith) in (rest, ground (arith, e))

-- A text without the delimiter is its own token.
scan_all : (n : ℕ) (d : ℕ) (s : Text) → n ≡ length s → Absent d s → scan n (λ c. c == d) s ≡ (s, [])
unfolding scan
scan_all zero d [] e h = refl
scan_all zero d (c ∷ s) e h = absurd (omega arith)
scan_all (suc n) d [] e h = absurd (omega arith)
scan_all (suc n) d (c ∷ s) e h = ground (arith, scan_all n d s)

-- A text in front of the delimiter is found whole.
pub scan-append :
    (n d : ℕ) (p rest : Text)
    → length p ≤ n
    → Absent d p
    → scan (suc n) (λ c. c == d) (p ++ d ∷ rest) ≡ (p, d ∷ rest)
unfolding scan
scan-append n d [] rest h free = ground arith
scan-append zero d (c ∷ p) rest h free = absurd (omega arith)
scan-append (suc n) d (c ∷ p) rest h free =
    ground (arith, scan-append n d p rest (omega arith) free.1)

pub next_token-single :
    (d c : ℕ) (s : Text) → Absent d (c ∷ s) → next_token d (c ∷ s) ≡ some (c ∷ s, [])
unfolding next_token skip
next_token-single d c s h = ground (arith, scan_all (length (c ∷ s)) d (c ∷ s) refl)
