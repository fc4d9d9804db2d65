-- ===== src/Append/Lockstep.antt =====
-- HW1/appendMeMore.c: two processes that seek at the same time.
use mathlib.Core.Path.{subst}
use advanced_c_language_proj.Base.{
  ℕ, zero, suc, ◌-◌, ◌≡◌, refl, ap, true, false, [], ◌∷◌, ◌++◌, some, ltb, length, set, replicate,
  arith, append-nil, append_assoc, length-append,
}
use advanced_c_language_proj.Base.Text.{Text}
use advanced_c_language_proj.Append.{
  byte, Writers, write_at, seek, write, Run, begin, after, opened,
}

-- Two processes with the third argument, with the same number of rounds left.
abbrev pub both : ℕ → Text → Writers
both n file = record { file = file; writers = opened true n ∷ opened true n ∷ [] }

write_at-length : (file : Text) → write_at (length file) file ≡ file ++ byte ∷ []
unfolding write_at
write_at-length file =
    let at_end : ltb (length file) (length file) ≡ false = ground arith in
    let no_gap : length file - length file ≡ 0 = omega arith in rw (write_at, at_end, no_gap) refl

set-append_last : (file : Text) → set (file ++ byte ∷ []) (length file) byte ≡ file ++ byte ∷ []
set-append_last [] = refl
set-append_last (c ∷ file) = ap (λ l. c ∷ l) (set-append_last file)

write_at-append : (file : Text) → write_at (length file) (file ++ byte ∷ []) ≡ file ++ byte ∷ []
unfolding write_at
write_at-append file =
    let inside : ltb (length file) (length (file ++ byte ∷ [])) ≡ true =
      ground (arith, length-append file (byte ∷ [])) in
    rw (write_at, inside) (set-append_last file)

-- Both seek, then both write: two rounds that add one byte.
round :
    {s : Writers} (n : ℕ) (file : Text)
    → Run s (both (suc n) file)
    → Run s (both n (file ++ byte ∷ []))
unfolding opened
round {s} n file run =
    let r₁ = after run (seek [] (opened true (suc n) ∷ []) n refl) in
    let r₂ = after r₁ (
      seek (record { third_arg = true; left = suc n; offset = some (length file) } ∷ []) [] n
        refl) in
    let r₃ = after r₂ (
      write [] (record { third_arg = true; left = suc n; offset = some (length file) } ∷ []) n
        (length file) refl) in
    let r₄ = after r₃ (write (opened true n ∷ []) [] n (length file) refl) in
    let same : write_at (length file) (write_at (length file) file) ≡ file ++ byte ∷ [] =
      rw (write_at-length file) (write_at-append file) in
    subst (λ f. Run s (both n f)) same r₄

rounds :
    {s : Writers} (n : ℕ) (file : Text)
    → Run s (both n file)
    → Run s (both 0 (file ++ replicate n byte))
rounds zero file run = rw (append-nil file) run
rounds {s} (suc n) file run =
    let later = rounds n (file ++ byte ∷ []) (round n file run) in
    rw (append_assoc file (byte ∷ []) (replicate n byte)) at later

-- With lseek before each write half of the bytes can be lost: two processes that write n bytes each
-- can end with n bytes behind what was in the file.
pub both-Run : (n : ℕ) (file : Text) → Run (both n file) (both 0 (file ++ replicate n byte))
both-Run n file = rounds n file begin
