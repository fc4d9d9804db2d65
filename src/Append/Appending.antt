-- ===== src/Append/Appending.antt =====
-- HW1/appendMeMore.c: processes that all append.
use advanced_c_language_proj.Base.{
  ℕ, suc, ◌+◌, ◌≡◌, refl, sym, true, false, [], ◌∷◌, ◌++◌, none, some, replicate, All, arith,
  append-nil, append_assoc,
}
use advanced_c_language_proj.Base.Text.{Text}
use advanced_c_language_proj.Append.{
  byte, Writer, Writers, Step, seek, write, append, Run, begin, after,
}
use advanced_c_language_proj.Append.Bytes.{
  total_left, total_left-at, replicate_snoc, All-swap, All-at,
}

-- Appending processes only.
Step-appending :
    {t u : Writers} (file : Text) (n : ℕ)
    → All (λ w. w.third_arg ≡ false) t.writers
    → t.file ≡ file ++ replicate n byte
    → Step t u
    → All (λ w. w.third_arg ≡ false) u.writers
      × (total_left t.writers ≡ suc (total_left u.writers))
      × (u.file ≡ file ++ replicate (suc n) byte)
Step-appending {t} file n all e (seek a b k e') = absurd (
    ground (
      arith,
      All-at (λ w. w.third_arg ≡ false) a b
          (record { third_arg = true; left = suc k; offset = none }) (rw e' at all),
    ))
Step-appending {t} file n all e (write a b k offset e') = absurd (
    ground (
      arith,
      All-at (λ w. w.third_arg ≡ false) a b
          (record { third_arg = true; left = suc k; offset = some offset }) (rw e' at all),
    ))
Step-appending {t} file n all e (append a b k e') =
    let before : Writer = record { third_arg = false; left = suc k; offset = none } in
    let now : Writer = record { third_arg = false; left = k; offset = none } in
    (
      All-swap (λ w. w.third_arg ≡ false) a b before now (rw e' at all) refl,
      rw e' (omega (arith, total_left-at a b before, total_left-at a b now)),
      rw (e, append_assoc file (replicate n byte) (byte ∷ []), replicate_snoc n) refl,
    )

Run-appending :
    {s t : Writers}
    → All (λ w. w.third_arg ≡ false) s.writers
    → Run s t
    → All (λ w. w.third_arg ≡ false) t.writers
      × (n : ℕ) × (n + total_left t.writers ≡ total_left s.writers)
      × (t.file ≡ s.file ++ replicate n byte)
Run-appending {s} all begin = (all, 0, omega arith, sym (append-nil s.file))
Run-appending {s} all (after run step) =
    let (all', n, left, e) = Run-appending all run in
    let (all'', one, e') = Step-appending s.file n all' e step in (all'', suc n, omega arith, e')

-- With O_APPEND no byte is lost, whatever the order of the calls: when all bytes have been written, as
-- many bytes `a` as were asked for have come behind what was in the file.
pub Run-file_appending :
    {s t : Writers}
    → All (λ w. w.third_arg ≡ false) s.writers
    → Run s t
    → total_left t.writers ≡ 0
    → t.file ≡ s.file ++ replicate (total_left s.writers) byte
Run-file_appending {s} all run none_left =
    let (_, n, left, e) = Run-appending all run in
    let whole : n ≡ total_left s.writers = omega arith in rw (sym whole) e
